-- ===== src/Config/Ini.antt =====
-- `parse_ini` of src/config.rs. The map is an association list, the newest entry first.
use kvasilloni.Prelude.{ℕ, Bool, true, ◌||◌, List, [], ◌∷◌, Option, none, some, ◌==◌, if◌then◌else◌}
use mathlib.Core.List.{reverse}
use kvasilloni.Prelude.Text.{trim, text_eq, lowercase, is_blank}
use kvasilloni.Config.Types.{Text}
use kvasilloni.Config.Text.{split}

abbrev pub IniMap : Type 0
IniMap = List (Text × Text)

unfoldable pub get : IniMap → Text → Option Text
unfolding text_eq
get [] key = none
get ((k, v) ∷ m) key = if text_eq k key then some v else get m key

abbrev pub drop_cr : Text → Text
drop_cr [] = []
drop_cr (c ∷ cs) = if c == 0x0d then cs else c ∷ cs

abbrev pub strip_cr : Text → Text
strip_cr line = reverse (drop_cr (reverse line))

-- A line that ends in a newline loses a carriage return; an empty last piece is no line.
abbrev pub ended : List Text → List Text
ended [] = []
ended (t ∷ []) = if is_blank t then [] else t ∷ []
ended (t ∷ u ∷ ts) = strip_cr t ∷ ended (u ∷ ts)

-- `str::lines`
unfoldable pub lines : Text → List Text
unfolding split is_blank
lines text = ended (split (λ c. c == 0x0a) text)

abbrev pub cons_key : ℕ → Option (Text × Text) → Option (Text × Text)
cons_key c none = none
cons_key c (some (k, v)) = some (c ∷ k, v)

-- `line.split_once('=')`
unfoldable pub split_equals : Text → Option (Text × Text)
split_equals [] = none
split_equals (c ∷ cs) = if c == b'=' then some ([], cs) else cons_key c (split_equals cs)

-- The value before an inline comment.
unfoldable pub before_comment : Text → Text
before_comment [] = []
before_comment (c ∷ cs) = if c == b';' || c == b'#' then [] else c ∷ before_comment cs

abbrev pub is_skipped : Text → Bool
is_skipped [] = true
is_skipped (c ∷ cs) = c == b';' || c == b'#' || c == b'['

abbrev pub add_entry : Option (Text × Text) → IniMap → IniMap
add_entry none m = m
add_entry (some (k, v)) m = (lowercase (trim k), trim (before_comment v)) ∷ m

-- One line, already trimmed.
unfoldable pub add_line : Text → IniMap → IniMap
unfolding trim lowercase before_comment split_equals
add_line line m = if is_skipped line then m else add_entry (split_equals line) m

unfoldable pub add_lines : List Text → IniMap → IniMap
unfolding add_line trim
add_lines [] m = m
add_lines (l ∷ ls) m = add_lines ls (add_line (trim l) m)

unfoldable pub parse_ini : Text → IniMap
unfolding lines add_lines
parse_ini text = add_lines (lines text) []
