-- ===== src/Config/ModulePaths.antt =====
-- A module's path is used whole or not at all.
use kvasilloni.Prelude.{
  ℕ, ◌+◌, ◌≤◌, ◌<◌, ◌≡◌, refl, ◌∙◌, ap, sym, ◌&&◌, ◌∷◌, ◌++◌, Option, none, some, length, drop,
  replicate, ltb, if◌then◌else◌, arith, length-append, length-replicate, take-append,
}
use native.Mathlib.Decide.{dec_lt}
use kvasilloni.Config.Types.{Text}
use kvasilloni.Config.Modules.{Windows, path_size, path_in, module_path}

-- What Windows documents of GetModuleFileNameW, for modules of these names: a name that does not
-- fit is cut to the buffer and the buffer's size is returned, and a failure returns 0.
pub record Documented (win : Windows) (name : ℕ → Option Text) : Type 0 where
  pub whole :
      (h : ℕ) (p buf : Text)
      → name h ≡ some p
      → length p < length buf
      → win.get_module_file_name h buf ≡ (p ++ 0 ∷ drop (length p + 1) buf, length p)
  pub cut :
      (h : ℕ) (p buf : Text)
      → name h ≡ some p
      → length buf ≤ length p
      → (length (win.get_module_file_name h buf).0 ≡ length buf)
        × ((win.get_module_file_name h buf).1 ≡ length buf)
  pub failed : (h : ℕ) (buf : Text) → name h ≡ none → (win.get_module_file_name h buf).1 ≡ 0

abbrev pub usable : Option Text → Option Text
usable none = none
usable (some p) = if ltb 0 (length p) && ltb (length p) path_size then some p else none

path_in-whole :
    (p rest : Text)
    → path_in (p ++ 0 ∷ rest, length p) ≡ (if ltb 0 (length p) then some p else none)
path_in-whole p rest = ground (arith, length-append p (0 ∷ rest), take-append p (0 ∷ rest))

path_in-cut : (buf : Text) (n : ℕ) → length buf ≡ n → path_in (buf, n) ≡ none
path_in-cut buf n e = ground (arith, e)

path_in-usable :
    (win : Windows) (name : ℕ → Option Text) (h : ℕ) (buf : Text)
    → length buf ≡ path_size
    → Documented win name
    → path_in (win.get_module_file_name h buf) ≡ usable (name h)
path_in-usable win name h buf size doc = go (name h) refl
  where
    go : (o : Option Text) → name h ≡ o → path_in (win.get_module_file_name h buf) ≡ usable o
    go none e = ground (arith, doc.failed h buf e)
    go (some p) e = elim (dec_lt (length p) path_size) [
      | yes short ↦
          ap path_in (doc.whole h p buf e (omega (arith, size, short)))
          ∙ path_in-whole p (drop (length p + 1) buf)
          ∙ ground (arith, short)
      | no long ↦
          let (same, all) = doc.cut h p buf e (omega (arith, size, long)) in
          path_in-cut (win.get_module_file_name h buf).0 (win.get_module_file_name h buf).1
            (same ∙ sym all)
          ∙ ground (arith, long)
    ]

-- When GetModuleFileNameW behaves as documented, `module_path` is the whole path of the module if it
-- is not empty and shorter than 32768 units, and nothing otherwise: never a path that was cut.
pub module_path-usable :
    (win : Windows) (name : ℕ → Option Text) (h : ℕ)
    → Documented win name
    → module_path win h ≡ usable (name h)
unfolding module_path
module_path-usable win name h doc =
    path_in-usable win name h (replicate path_size 0) (length-replicate {A = ℕ} path_size 0) doc
