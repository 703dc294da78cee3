-- ===== src/UnitTests/Asserts.antt =====
-- What the tests of src/ use of Rust's test macros: an assertion that fails panics.
use kvasilloni.Prelude.{
  ℕ, zero, suc, Bool, true, false, List, [], ◌∷◌, Option, none, some, ◌==◌, if◌then◌else◌,
}
use kvasilloni.Prelude.Exec.{Exec, done, panic, ◌>>=◌}
use kvasilloni.Prelude.Text.{text_eq}

-- The body of a test.
abbrev pub Test : Type 0
Test = Exec (Unit {0})

abbrev pub passed : Test
passed = done tt

infixl 5 ◌>>◌
abbrev pub ◌>>◌ {ℓ} : {B : Type ℓ} → Test → Exec B → Exec B
m >> k = m >>= λ _. k

abbrev pub assert : Bool → Test
assert b = if b then passed else panic

abbrev pub assert_eq : ℕ → ℕ → Test
assert_eq a b = assert (a == b)

-- On sequences of bytes or of characters.
abbrev pub assert_same : List ℕ → List ℕ → Test
assert_same xs ys = assert (text_eq xs ys)

-- `expect` and `unwrap`
abbrev pub expect {ℓ} : {A : Type ℓ} → Option A → Exec A
expect none = panic
expect (some a) = done a

abbrev pub is_none {ℓ} : {A : Type ℓ} → Option A → Bool
is_none none = true
is_none (some a) = false

-- `xs[i]`
abbrev pub nth {ℓ} : {A : Type ℓ} → List A → ℕ → Exec A
nth [] i = panic
nth (x ∷ xs) zero = done x
nth (x ∷ xs) (suc i) = nth xs i

-- `catch_unwind`
abbrev pub caught {ℓ} : {A : Type ℓ} → Exec A → Option A
caught (done a) = some a
caught panic = none

-- `for x in xs { .. }`
abbrev pub for_each {ℓ} : {A : Type ℓ} → List A → (A → Test) → Test
for_each [] body = passed
for_each (x ∷ xs) body = body x >> for_each xs body
