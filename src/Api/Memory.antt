-- ===== src/Api/Memory.antt =====
-- The caller's memory behind the C pointers of src/lib.rs: `none` is a null pointer, and a write
-- past the end of a buffer is a fault.
use kvasilloni.Prelude.{
  ℕ, zero, suc, ◌-◌, ◌/◌, ◌%◌, ◌^◌, min, List, [], ◌∷◌, ◌++◌, Option, none, some, length, take,
  drop, ltb, leb, ◌==◌, if◌then◌else◌,
}
use kvasilloni.Api.Codes.{can_ok, can_err_param}

pub data Access {ℓ} (A : Type ℓ) : Type ℓ where
  safe : A → Access A
  fault : Access A

-- A pointer to an integer: what is there, or null.
abbrev pub Cell : Type 0
Cell = Option ℕ

-- A pointer to a buffer.
abbrev pub Buffer : Type 0
Buffer = Option (List ℕ)

-- `if !p.is_null() { *p = v }`
abbrev pub store : Cell → ℕ → Cell
store none v = none
store (some old) v = some v

-- `copy_nonoverlapping(src, buf, src.len())`
abbrev pub write_bytes : List ℕ → List ℕ → Access (List ℕ)
write_bytes buf src =
    if leb (length src) (length buf) then safe (src ++ drop (length src) buf) else fault

-- The code of a call and the buffer after it.
abbrev pub Filled : Type 0
Filled = Access (Buffer × ℕ)

abbrev pub filled : Access (List ℕ) → Filled
filled (safe buf) = safe (some buf, can_ok)
filled fault = fault

abbrev pub u32_to_le : ℕ → List ℕ
u32_to_le x = (x % 256) ∷ (x / 2 ^ 8 % 256) ∷ (x / 2 ^ 16 % 256) ∷ (x / 2 ^ 24 % 256) ∷ []

abbrev pub u64_to_le : ℕ → List ℕ
u64_to_le x = u32_to_le (x % 2 ^ 32) ++ u32_to_le (x / 2 ^ 32)

unfoldable pub out_u32 : Buffer → ℕ → ℕ → Filled
out_u32 none bufsize val = safe (none, can_err_param)
out_u32 (some buf) bufsize val =
    if ltb bufsize 4
    then safe (some buf, can_err_param)
    else filled (write_bytes buf (u32_to_le val))

unfoldable pub out_u64 : Buffer → ℕ → ℕ → Filled
out_u64 none bufsize val = safe (none, can_err_param)
out_u64 (some buf) bufsize val =
    if ltb bufsize 8
    then safe (some buf, can_err_param)
    else filled (write_bytes buf (u64_to_le val))

unfoldable pub out_cstr : Buffer → ℕ → List ℕ → Filled
out_cstr none bufsize s = safe (none, can_err_param)
out_cstr (some buf) bufsize s =
    if bufsize == 0
    then safe (some buf, can_err_param)
    else (let n = min (length s) (bufsize - 1) in filled (write_bytes buf (take n s ++ 0 ∷ [])))

abbrev pub zeros : ℕ → List ℕ
zeros zero = []
zeros (suc n) = 0 ∷ zeros n

-- `ptr::write_bytes(stat, 0, bufsiz)`
abbrev pub zero_fill : List ℕ → ℕ → Filled
zero_fill buf n = filled (write_bytes buf (zeros n))
