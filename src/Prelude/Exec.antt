-- ===== src/Prelude/Exec.antt =====
-- Rust code that may panic: an index or a slice out of range unwinds instead of returning.
use Prim.Native.Nat.{ℕ, ◌-◌, ◌≤◌, ◌<◌}
use mathlib.Core.Path.{◌≡◌}
use mathlib.Core.Bool.{◌&&◌}
use mathlib.Core.List.{List, ◌++◌}
use native.Mathlib.Omega.{arith}
use kvasilloni.Prelude.Tests.{ltb, leb, ◌==◌, if◌then◌else◌}
use kvasilloni.Prelude.Lists.{length, get_or, take, drop}

pub data Exec {ℓ} (A : Type ℓ) : Type ℓ where
  done : A → Exec A
  panic : Exec A

infixl 5 ◌>>=◌
abbrev pub ◌>>=◌ {ℓ κ} : {A : Type ℓ} {B : Type κ} → Exec A → (A → Exec B) → Exec B
done a >>= f = f a
panic >>= f = panic

-- `catch_unwind(..).unwrap_or(v)`
abbrev pub catch_unwind {ℓ} : {A : Type ℓ} → Exec A → A → A
catch_unwind (done a) v = a
catch_unwind panic v = v

-- `xs[i]`
abbrev pub index : List ℕ → ℕ → Exec ℕ
index xs i = if ltb i (length xs) then done (get_or xs i 0) else panic

-- `xs[a..b]`
abbrev pub slice : List ℕ → ℕ → ℕ → Exec (List ℕ)
slice xs a b = if leb a b && leb b (length xs) then done (take (b - a) (drop a xs)) else panic

-- `dst[..n].copy_from_slice(src)`
abbrev pub copy_to : List ℕ → ℕ → List ℕ → Exec (List ℕ)
copy_to dst n src =
    if leb n (length dst) && length src == n then done (src ++ drop n dst) else panic

pub index-eq-done : (xs : List ℕ) (i : ℕ) → i < length xs → index xs i ≡ done (get_or xs i 0)
index-eq-done xs i h = ground arith

pub slice-eq-done :
    (xs : List ℕ) (a b : ℕ) → a ≤ b → b ≤ length xs → slice xs a b ≡ done (take (b - a) (drop a xs))
slice-eq-done xs a b h k = ground arith

pub copy_to-eq-done :
    (dst : List ℕ) (n : ℕ) (src : List ℕ)
    → n ≤ length dst
    → length src ≡ n
    → copy_to dst n src ≡ done (src ++ drop n dst)
copy_to-eq-done dst n src h k = ground arith
