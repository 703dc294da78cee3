-- ===== src/Config/Printer.antt =====
-- A writer of INI files, against the parser of src/config.rs.
use kvasilloni.Prelude.{ℕ, ◌≡◌, ◌≢◌, true, false, List, [], ◌∷◌, ◌++◌, All}
use mathlib.Core.List.{reverse}
use kvasilloni.Prelude.Text.{is_whitespace, lowercase}
use kvasilloni.Config.Types.{Text}
use kvasilloni.Config.Ini.{IniMap, is_skipped}

-- A setting, a comment or a section header with its first character, or an empty line.
pub data Item : Type 0 where
  setting : Text → Text → Item
  remark : ℕ → Text → Item
  blank_line : Item

abbrev pub line_of : Item → Text
line_of (setting key val) = key ++ b'=' ∷ val
line_of (remark mark text) = mark ∷ text
line_of blank_line = []

abbrev pub print : List Item → Text
print [] = []
print (i ∷ is) = line_of i ++ 0x0a ∷ print is

-- The settings before those of `m`, the newest first.
abbrev pub newest_first : List Item → IniMap → IniMap
newest_first [] m = m
newest_first (setting key val ∷ is) m = newest_first is ((key, val) ∷ m)
newest_first (remark mark text ∷ is) m = newest_first is m
newest_first (blank_line ∷ is) m = newest_first is m

-- No white space at the front.
abbrev pub Solid : Text → Type 0
Solid [] = Unit
Solid (c ∷ cs) = is_whitespace c ≡ false

-- A character within a line.
abbrev pub InLine : ℕ → Type 0
InLine c = c ≢ 0x0a

-- A character of a key, of a value.
abbrev pub InKey : ℕ → Type 0
InKey c = (c ≢ 0x0a) × (c ≢ b'=')

abbrev pub InValue : ℕ → Type 0
InValue c = (c ≢ 0x0a) × (c ≢ b';') × (c ≢ b'#')

-- The first character is none of a comment or a section header.
abbrev pub Begins : Text → Type 0
Begins [] = ⊥
Begins (c ∷ cs) = (c ≢ b';') × (c ≢ b'#') × (c ≢ b'[')

pub record IsSetting (key val : Text) : Type 0 where
  pub begins : Begins key
  pub key_start : Solid key
  pub key_end : Solid (reverse key)
  pub key_chars : All InKey key
  pub lower_case : lowercase key ≡ key
  pub val_start : Solid val
  pub val_end : Solid (reverse val)
  pub val_chars : All InValue val

pub record IsRemark (mark : ℕ) (text : Text) : Type 0 where
  pub marks : is_skipped (mark ∷ text) ≡ true
  pub start : is_whitespace mark ≡ false
  pub end : Solid (reverse (mark ∷ text))
  pub chars : All InLine (mark ∷ text)

abbrev pub IsItem : Item → Type 0
IsItem (setting key val) = IsSetting key val
IsItem (remark mark text) = IsRemark mark text
IsItem blank_line = Unit
