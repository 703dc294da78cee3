-- ===== src/UnitTests/TransportFull.antt =====
-- The test of src/transport.rs on a ring that is full passes, without its eight thousand steps.
use kvasilloni.Prelude.{
  ℕ, zero, suc, ◌+◌, ◌<◌, ◌≡◌, refl, ap, ◌∙◌, true, [], ◌∷◌, ◌++◌, bit_and, length, arith,
  length-append, le→leb,
}
use mathlib.Core.Path.{subst⁻¹}
use kvasilloni.Prelude.Bits.{bit_and-zero}
use kvasilloni.Wire.Flags.{can_eff_mask, can_sff_mask}
use kvasilloni.Wire.Frame.{Frame}
use kvasilloni.Transport.Filter.{default_accept, accepts}
use kvasilloni.Transport.Shared.{
  Shared, new_shared, ring_cap, push, stamped, level, overflowed, clear,
}
use kvasilloni.UnitTests.Asserts.{passed}
use kvasilloni.UnitTests.TransportRing.{
  frame, push_counted, overflow_latches_on_full_ring_and_clears_on_flush,
}

-- The filter of a new connection lets everything through.
accepts-default : (f : Frame) → accepts default_accept f ≡ true
unfolding accepts
accepts-default f = ground (
  arith,
  bit_and-zero (bit_and f.can_id can_eff_mask) (bit_and f.can_id can_eff_mask),
  bit_and-zero (bit_and f.can_id can_sff_mask) (bit_and f.can_id can_sff_mask),
)

abbrev pub IsLatched : Shared → Type 0
IsLatched s = (overflowed s ≡ true) × (level s ≡ ring_cap)

module _ (now : ℕ) (make : ℕ → Frame) where
  push-full :
      (f : Frame) (s : Shared)
      → s.filters ≡ default_accept
      → length s.q ≡ ring_cap
      → (push now f s).0 ≡ record s { overflow = true }
  unfolding push
  push-full f s e h =
      rw (ap (λ a. accepts a f) e ∙ accepts-default f, le→leb ring_cap (length s.q) (omega arith))
        refl

  push-room :
      (f : Frame) (s : Shared)
      → s.filters ≡ default_accept
      → length s.q < ring_cap
      → (push now f s).0 ≡ record s { q = s.q ++ stamped now f ∷ [] }
  unfolding push
  push-room f s e h = rw (ap (λ a. accepts a f) e ∙ accepts-default f) (ground arith)

  push_counted-step :
      (n i : ℕ) (s t : Shared)
      → (push now (make i) s).0 ≡ t
      → IsLatched (push_counted now make n (i + 1) t)
      → IsLatched (push_counted now make (suc n) i s)
  unfolding push_counted
  push_counted-step n i s t e v = subst⁻¹ (λ x. IsLatched (push_counted now make n (i + 1) x)) e v

  -- Pushes into a ring that is full and has latched.
  push_counted-IsLatched :
      (n i : ℕ) (s : Shared)
      → s.filters ≡ default_accept
      → length s.q ≡ ring_cap
      → s.overflow ≡ true
      → IsLatched (push_counted now make n i s)
  unfolding push_counted level overflowed
  push_counted-IsLatched zero i s e h o = (o, h)
  push_counted-IsLatched (suc n) i s e h o =
      push_counted-step n i s _ (push-full (make i) s e h)
        (push_counted-IsLatched n (i + 1) (record s { overflow = true }) e h refl)

  -- More pushes than a ring has room for.
  pub push_counted-full :
      (n i room : ℕ) (s : Shared)
      → s.filters ≡ default_accept
      → length s.q + room ≡ ring_cap
      → room < n
      → IsLatched (push_counted now make n i s)
  unfolding push_counted level overflowed
  push_counted-full zero i room s e h k = absurd (omega arith)
  push_counted-full (suc n) i zero s e h k =
      push_counted-step n i s _ (push-full (make i) s e (omega arith))
        (push_counted-IsLatched n (i + 1) (record s { overflow = true }) e (omega arith) refl)
  push_counted-full (suc n) i (suc room) s e h k =
      push_counted-step n i s _ (push-room (make i) s e (omega arith)) (
        push_counted-full n (i + 1) room (record s { q = s.q ++ stamped now (make i) ∷ [] }) e
          (omega (arith, length-append s.q (stamped now (make i) ∷ []))) (omega arith))

overflow_latches_on_full_ring_and_clears_on_flush_passes :
    (now : ℕ) → overflow_latches_on_full_ring_and_clears_on_flush now ≡ passed
unfolding overflow_latches_on_full_ring_and_clears_on_flush
overflow_latches_on_full_ring_and_clears_on_flush_passes now =
    let (latched, full) =
      push_counted-full now (λ i. frame (0x100 + i)) (ring_cap + 10) 0 ring_cap new_shared refl refl
        (omega arith) in
    rw (latched, full) (unfold overflowed clear in refl)
