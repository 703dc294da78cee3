-- ===== src/Config/Numbers.antt =====
-- The numbers of the settings: what `parse_num` reads, against the decimal value of the digits.
use kvasilloni.Prelude.{
  ℕ, ◌+◌, ◌-◌, ◌*◌, ◌≤◌, ◌≡◌, refl, Bool, true, ◌&&◌, List, [], ◌∷◌, Option, none, some, leb, ◌==◌,
  if◌then◌else◌, arith,
}
use kvasilloni.Prelude.Text.{trim, is_blank}
use kvasilloni.Config.Types.{Text, Warning}
use kvasilloni.Config.Text.{is_digit, nonempty_digits, parse_digits, parse_uint, parse_num, warned}

-- The decimal value of the digits after the digits of `n`.
abbrev pub value_after : ℕ → Text → ℕ
value_after n [] = n
value_after n (c ∷ cs) = value_after (10 * n + (c - b'0')) cs

abbrev pub all_digits : Text → Bool
all_digits [] = true
all_digits (c ∷ cs) = is_digit c && all_digits cs

-- The number that a text of digits denotes, if it is at most `max`.
abbrev pub bounded_value : ℕ → ℕ → Text → Option ℕ
bounded_value max n cs =
    if all_digits cs && leb (value_after n cs) max then some (value_after n cs) else none

value_after-le : (n : ℕ) (cs : Text) → n ≤ value_after n cs
value_after-le n [] = omega arith
value_after-le n (c ∷ cs) = omega (arith, value_after-le (10 * n + (c - b'0')) cs)

parse_digits-eq : (max n : ℕ) (cs : Text) → n ≤ max → parse_digits max n cs ≡ bounded_value max n cs
unfolding parse_digits
parse_digits-eq max n [] h = ground (arith, h)
parse_digits-eq max n (c ∷ cs) h =
    let m = 10 * n + (c - b'0') in ground (arith, parse_digits-eq max m cs, value_after-le m cs)

abbrev pub drop_plus : Text → Text
drop_plus [] = []
drop_plus (c ∷ cs) = if c == b'+' then cs else c ∷ cs

plus :
    (max : ℕ) (cs : Text)
    → nonempty_digits max cs ≡ (if is_blank cs then none else bounded_value max 0 cs)
unfolding is_blank
plus max [] = refl
plus max (c ∷ cs) = parse_digits-eq max 0 (c ∷ cs) (omega arith)

pub parse_uint-eq :
    (max : ℕ) (s : Text)
    → parse_uint max s
      ≡ (if is_blank (drop_plus s) then none else bounded_value max 0 (drop_plus s))
unfolding parse_uint is_blank
parse_uint-eq max [] = refl
parse_uint-eq max (c ∷ cs) = ground (arith, parse_digits-eq max 0 (c ∷ cs), plus max cs)

-- The number that a text denotes, after an optional plus sign.
abbrev pub number_of : ℕ → Text → Option ℕ
number_of max s = if is_blank (drop_plus s) then none else bounded_value max 0 (drop_plus s)

-- A blank setting gives nothing and no warning. Any other gives the decimal value of its digits,
-- after an optional plus sign, exactly when there is a digit, nothing else, and the value fits its
-- type, never a wrapped value; if not, it gives nothing and adds one warning with its name and value.
pub parse_num-eq :
    (max : ℕ) (val name : Text) (ws : List Warning)
    → parse_num max val name ws
      ≡ (if is_blank (trim val) then (none, ws) else warned val name ws (number_of max (trim val)))
unfolding parse_num
parse_num-eq max val name ws = rw (parse_uint-eq max (trim val)) refl
