-- ===== src/Prelude/Bytes.antt =====
-- Bytes, and `to_be_bytes` and `from_be_bytes` of the unsigned words.
use Prim.Native.Nat.{ℕ, ◌+◌, ◌*◌, ◌/◌, ◌%◌, ◌^◌, ◌<◌}
use mathlib.Core.Path.{◌≡◌}
use mathlib.Core.List.{List, [], ◌∷◌}
use native.Mathlib.Omega.{arith}
use kvasilloni.Prelude.Lists.{All}

abbrev pub IsByte : ℕ → Type 0
IsByte b = b < 256

abbrev pub IsBytes : List ℕ → Type 0
IsBytes = All IsByte

abbrev pub u32_to_be : ℕ → List ℕ
u32_to_be x = (x / 2 ^ 24 % 256) ∷ (x / 2 ^ 16 % 256) ∷ (x / 2 ^ 8 % 256) ∷ (x % 256) ∷ []

abbrev pub u32_from_be : ℕ → ℕ → ℕ → ℕ → ℕ
u32_from_be a b c d = a * 2 ^ 24 + b * 2 ^ 16 + c * 2 ^ 8 + d

abbrev pub u16_to_be : ℕ → List ℕ
u16_to_be x = (x / 2 ^ 8 % 256) ∷ (x % 256) ∷ []

abbrev pub u16_from_be : ℕ → ℕ → ℕ
u16_from_be a b = a * 2 ^ 8 + b

-- The four bytes of a 32-bit word give it back.
pub u32_from_be-to_be :
    (x : ℕ)
    → x < 2 ^ 32
    → u32_from_be (x / 2 ^ 24 % 256) (x / 2 ^ 16 % 256) (x / 2 ^ 8 % 256) (x % 256) ≡ x
u32_from_be-to_be x h = omega arith

pub u32_from_be-lt :
    (a b c d : ℕ) → IsByte a → IsByte b → IsByte c → IsByte d → u32_from_be a b c d < 2 ^ 32
u32_from_be-lt a b c d ha hb hc hd = omega arith
