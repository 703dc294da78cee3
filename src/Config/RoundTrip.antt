-- ===== src/Config/RoundTrip.antt =====
-- What the parser of src/config.rs reads in a file that was written.
use kvasilloni.Prelude.{
  ℕ, ◌≡◌, ap, sym, refl, ◌∙◌, Bool, false, List, [], ◌∷◌, ◌++◌, some, ◌==◌, arith, All, All-append,
  inl, inr, Bool-cases,
}
use mathlib.Core.Path.{subst}
use mathlib.Core.List.{reverse, reverse-append, reverse-reverse}
use kvasilloni.Prelude.Text.{is_whitespace, trim_start, trim, lowercase, is_blank}
use kvasilloni.Config.Types.{Text}
use kvasilloni.Config.Text.{split, push_first}
use kvasilloni.Config.Ini.{
  IniMap, drop_cr, strip_cr, ended, lines, split_equals, before_comment, is_skipped, add_line,
  add_lines, parse_ini,
}
use kvasilloni.Config.Printer.{
  Item, setting, remark, blank_line, line_of, print, newest_first, Solid, InLine, InKey, InValue,
  Begins, IsSetting, IsItem,
}

trim_start-Solid : (s : Text) → Solid s → trim_start s ≡ s
unfolding trim_start
trim_start-Solid [] h = refl
trim_start-Solid (c ∷ cs) h = rw h refl

trim-Solid : (s : Text) → Solid s → Solid (reverse s) → trim s ≡ s
unfolding trim
trim-Solid s h k =
    ap (λ t. reverse (trim_start (reverse t))) (trim_start-Solid s h)
    ∙ ap reverse (trim_start-Solid (reverse s) k)
    ∙ reverse-reverse s

Solid-append : (s t : Text) → Solid s → Solid t → Solid (s ++ t)
Solid-append [] t h k = k
Solid-append (c ∷ cs) t h k = h

drop_cr-Solid : (s : Text) → Solid s → drop_cr s ≡ s
unfolding is_whitespace
drop_cr-Solid [] h = refl
drop_cr-Solid (c ∷ cs) h = ground (arith, h)

strip_cr-Solid : (s : Text) → Solid (reverse s) → strip_cr s ≡ s
strip_cr-Solid s h = ap reverse (drop_cr-Solid (reverse s) h) ∙ reverse-reverse s

-- A line of the file.
record IsLine (l : Text) : Type 0 where
  pub start : Solid l
  pub end : Solid (reverse l)
  pub chars : All InLine l

setting-IsLine : (key val : Text) → IsSetting key val → IsLine (key ++ b'=' ∷ val)
setting-IsLine key val v = record {
  start = Solid-append key (b'=' ∷ val) v.key_start (unfold is_whitespace in refl);
  end = subst Solid (sym (reverse-append key (b'=' ∷ val))) (
      Solid-append (reverse (b'=' ∷ val)) (reverse key)
        (subst Solid (sym (reverse-append (b'=' ∷ []) val))
          (Solid-append (reverse val) (b'=' ∷ []) v.val_end (unfold is_whitespace in refl)))
        v.key_end);
  chars =
      All-append InLine key (b'=' ∷ val) (key_line key v.key_chars)
        (omega arith, val_line val v.val_chars);
}
  where
    key_line : (s : Text) → All InKey s → All InLine s
    key_line [] h = tt
    key_line (c ∷ cs) h = (h.0.0, key_line cs h.1)

    val_line : (s : Text) → All InValue s → All InLine s
    val_line [] h = tt
    val_line (c ∷ cs) h = (h.0.0, val_line cs h.1)

item-IsLine : (i : Item) → IsItem i → IsLine (line_of i)
item-IsLine (setting key val) v = setting-IsLine key val v
item-IsLine (remark mark text) v = record { start = v.start; end = v.end; chars = v.chars }
item-IsLine blank_line v = record { start = tt; end = tt; chars = tt }

split-line :
    (l rest : Text)
    → All InLine l
    → split (λ c. c == 0x0a) (l ++ 0x0a ∷ rest) ≡ l ∷ split (λ c. c == 0x0a) rest
unfolding split
split-line [] rest h = refl
split-line (c ∷ cs) rest h = ground (arith, h.0, split-line cs rest h.1)

push_first-cons :
    (c : ℕ) (r : List Text) → (t : Text) × (ts : List Text) × (push_first c r ≡ t ∷ ts)
push_first-cons c [] = (c ∷ [], [], refl)
push_first-cons c (t ∷ ts) = (c ∷ t, ts, refl)

split-cons : (p : ℕ → Bool) (s : Text) → (t : Text) × (ts : List Text) × (split p s ≡ t ∷ ts)
unfolding split
split-cons p [] = ([], [], refl)
split-cons p (c ∷ cs) = elim (Bool-cases (p c)) [
  | inl mark ↦ ([], split p cs, rw mark refl)
  | inr plain ↦ let (t, ts, e) = push_first-cons c (split p cs) in (t, ts, rw plain e)
]

ended-line :
    (l : Text) (r : List Text) (t : Text) (ts : List Text)
    → r ≡ t ∷ ts
    → ended (l ∷ r) ≡ strip_cr l ∷ ended r
ended-line l r t ts e = rw e refl

lines_of : List Item → List Text
lines_of [] = []
lines_of (i ∷ is) = line_of i ∷ lines_of is

lines-print : (is : List Item) → All IsItem is → lines (print is) ≡ lines_of is
unfolding lines lines_of
lines-print [] v = unfold split is_blank in refl
lines-print (i ∷ is) v =
    let l = item-IsLine i v.0 in
    let (t, ts, e) = split-cons (λ c. c == 0x0a) (print is) in
    ap ended (split-line (line_of i) (print is) l.chars)
    ∙ ended-line (line_of i) (split (λ c. c == 0x0a) (print is)) t ts e
    ∙ ap (λ x. x ∷ ended (split (λ c. c == 0x0a) (print is))) (strip_cr-Solid (line_of i) l.end)
    ∙ ap (λ x. line_of i ∷ x) (lines-print is v.1)

split_equals-key :
    (key val : Text) → All InKey key → split_equals (key ++ b'=' ∷ val) ≡ some (key, val)
unfolding split_equals
split_equals-key [] val h = refl
split_equals-key (c ∷ cs) val h = ground (arith, h.0.1, split_equals-key cs val h.1)

before_comment-value : (val : Text) → All InValue val → before_comment val ≡ val
unfolding before_comment
before_comment-value [] h = refl
before_comment-value (c ∷ cs) h = ground (arith, h.0, before_comment-value cs h.1)

is_skipped-setting : (key val : Text) → Begins key → is_skipped (key ++ b'=' ∷ val) ≡ false
is_skipped-setting [] val h = absurd h
is_skipped-setting (c ∷ cs) val h = ground (arith, h)

add_line-setting :
    (key val : Text) (m : IniMap)
    → IsSetting key val
    → add_line (key ++ b'=' ∷ val) m ≡ (key, val) ∷ m
unfolding add_line
add_line-setting key val m v =
    rw (is_skipped-setting key val v.begins, split_equals-key key val v.key_chars)
      (ap (λ k. (lowercase k, trim (before_comment val)) ∷ m) (trim-Solid key v.key_start v.key_end)
        ∙ ap (λ k. (k, trim (before_comment val)) ∷ m) v.lower_case
        ∙ ap (λ x. (key, trim x) ∷ m) (before_comment-value val v.val_chars)
        ∙ ap (λ x. (key, x) ∷ m) (trim-Solid val v.val_start v.val_end))

add_lines-lines_of :
    (is : List Item) (m : IniMap) → All IsItem is → add_lines (lines_of is) m ≡ newest_first is m
unfolding add_lines lines_of
add_lines-lines_of [] m v = refl
add_lines-lines_of (setting key val ∷ is) m v =
    let l = setting-IsLine key val v.0 in
    ap (λ x. add_lines (lines_of is) (add_line x m)) (trim-Solid (key ++ b'=' ∷ val) l.start l.end)
    ∙ ap (add_lines (lines_of is)) (add_line-setting key val m v.0)
    ∙ add_lines-lines_of is ((key, val) ∷ m) v.1
add_lines-lines_of (remark mark text ∷ is) m v =
    ap (λ x. add_lines (lines_of is) (add_line x m)) (trim-Solid (mark ∷ text) v.0.start v.0.end)
    ∙ ap (add_lines (lines_of is)) (unfold add_line in rw v.0.marks refl)
    ∙ add_lines-lines_of is m v.1
add_lines-lines_of (blank_line ∷ is) m v =
    ap (add_lines (lines_of is)) (unfold add_line trim trim_start in refl)
    ∙ add_lines-lines_of is m v.1

-- A file of settings, comments, section headers and empty lines, where the keys are in lower case,
-- keys and values have no white space around them, and no character ends a key, a value or a line
-- before its time, is parsed to its settings, the newest first.
pub parse_ini-print : (is : List Item) → All IsItem is → parse_ini (print is) ≡ newest_first is []
unfolding parse_ini
parse_ini-print is v = ap (λ ls. add_lines ls []) (lines-print is v) ∙ add_lines-lines_of is [] v
