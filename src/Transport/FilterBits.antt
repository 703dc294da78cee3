-- ===== src/Transport/FilterBits.antt =====
-- The acceptance filter, bit by bit.
use kvasilloni.Prelude.{
  ℕ, zero, suc, ◌/◌, ◌+◌, ◌%◌, ◌^◌, ◌≤◌, ◌≡◌, ap, ◌↔◌, bit_and, true, if◌then◌else◌, arith,
}
use kvasilloni.Prelude.Bits.{bit, bit-bit_and, eq_of_bits, bit_and_mask}
use kvasilloni.Wire.Flags.{has, can_eff_flag}
use kvasilloni.Wire.Frame.{Frame}
use kvasilloni.Transport.Filter.{Accept, accepts}

-- `id` and `code` agree wherever the mask has a bit.
abbrev pub AgreeUnder : ℕ → ℕ → ℕ → Type 0
AgreeUnder mask id code = (i : ℕ) → bit i mask ≡ 1 → bit i id ≡ bit i code

bit-le : (i x : ℕ) → bit i x ≤ 1
bit-le zero x = omega arith
bit-le (suc i) x = bit-le i (x / 2)

masked_iff : (id code mask : ℕ) → (bit_and id mask ≡ bit_and code mask) ↔ AgreeUnder mask id code
masked_iff id code mask = (
  λ e i h. omega (
    arith,
    ap (bit i) e,
    bit-bit_and i id mask,
    bit-bit_and i code mask,
    bit-le i id,
    bit-le i code,
  ),
  λ h.
      eq_of_bits (bit_and id mask + bit_and code mask) (bit_and id mask) (bit_and code mask)
        (omega arith) (omega arith)
        λ i. ground (
          arith,
          h i,
          bit-bit_and i id mask,
          bit-bit_and i code mask,
          bit-le i mask,
          bit-le i id,
          bit-le i code,
        ),
)

abbrev pub class_id : Frame → ℕ
class_id f = if has f.can_id can_eff_flag then f.can_id % 2 ^ 29 else f.can_id % 2 ^ 11

abbrev pub class_code : Accept → Frame → ℕ
class_code a f = if has f.can_id can_eff_flag then a.code_ext else a.code_std

abbrev pub class_mask : Accept → Frame → ℕ
class_mask a f = if has f.can_id can_eff_flag then a.mask_ext else a.mask_std

-- A frame is accepted exactly when its identifier agrees with the code of its class on every bit
-- that the mask of its class has.
pub accepts_iff :
    (a : Accept) (f : Frame)
    → (accepts a f ≡ true) ↔ AgreeUnder (class_mask a f) (class_id f) (class_code a f)
unfolding accepts
accepts_iff a f = (
  λ h.
      (masked_iff (class_id f) (class_code a f) (class_mask a f)).0
        (ground (arith, bit_and_mask 29 f.can_id, bit_and_mask 11 f.can_id)),
  λ h. ground (
    arith,
    bit_and_mask 29 f.can_id,
    bit_and_mask 11 f.can_id,
    (masked_iff (class_id f) (class_code a f) (class_mask a f)).1 h,
  ),
)
