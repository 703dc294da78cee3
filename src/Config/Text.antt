-- ===== src/Config/Text.antt =====
-- The readers of one value in src/config.rs, and the parts of Rust's `str` they stand on.
use kvasilloni.Prelude.{
  ℕ, ◌+◌, ◌-◌, ◌*◌, ◌^◌, Bool, false, ◌&&◌, ◌||◌, List, [], ◌∷◌, Option, none, some, leb, ◌==◌,
  if◌then◌else◌,
}
use kvasilloni.Prelude.Text.{codes, is_whitespace, trim, text_eq, lower, lowercase, is_blank}
use kvasilloni.Config.Types.{Text, Warning, invalid_number}
use kvasilloni.Transport.Peers.{IpAddr}

abbrev pub is_digit : ℕ → Bool
is_digit c = leb b'0' c && leb c b'9'

-- Each step is checked, so the value never passes `max`.
unfoldable pub parse_digits : ℕ → ℕ → Text → Option ℕ
parse_digits max n [] = some n
parse_digits max n (c ∷ cs) =
    let m = 10 * n + (c - b'0') in
    let rest = parse_digits max m cs in if is_digit c && leb m max then rest else none

abbrev pub nonempty_digits : ℕ → Text → Option ℕ
nonempty_digits max [] = none
nonempty_digits max (c ∷ cs) = parse_digits max 0 (c ∷ cs)

-- `str::parse` for an unsigned integer type whose largest value is `max`.
unfoldable pub parse_uint : ℕ → Text → Option ℕ
unfolding parse_digits
parse_uint max [] = none
parse_uint max (c ∷ cs) = if c == b'+' then nonempty_digits max cs else parse_digits max 0 (c ∷ cs)

abbrev pub u16_max : ℕ
u16_max = 2 ^ 16 - 1

abbrev pub u32_max : ℕ
u32_max = 2 ^ 32 - 1

-- What `parse_num` returns, with the warnings it leaves, newest first.
abbrev pub Parsed : Type 0
Parsed = Option ℕ × List Warning

abbrev pub warned : Text → Text → List Warning → Option ℕ → Parsed
warned val name warnings none = (none, invalid_number name val ∷ warnings)
warned val name warnings (some v) = (some v, warnings)

unfoldable pub parse_num : ℕ → Text → Text → List Warning → Parsed
unfolding parse_uint trim is_blank
parse_num max val name warnings =
    if is_blank (trim val)
    then (none, warnings)
    else warned val name warnings (parse_uint max (trim val))

unfoldable pub starts_with_ci : Text → ℕ → Bool
unfolding lower
starts_with_ci [] c = false
starts_with_ci (b ∷ bs) c = lower b == c

abbrev one_of : Text → List Text → Bool
one_of s [] = false
one_of s (t ∷ ts) = text_eq s t || one_of s ts

abbrev pub true_words : List Text
true_words =
    codes "1" ∷ codes "true" ∷ codes "yes" ∷ codes "on" ∷ codes "enable" ∷ codes "enabled" ∷ []

unfoldable pub parse_bool : Text → Bool
unfolding trim lowercase text_eq
parse_bool s = one_of (lowercase (trim s)) true_words

abbrev pub push_first : ℕ → List Text → List Text
push_first c [] = (c ∷ []) ∷ []
push_first c (t ∷ ts) = (c ∷ t) ∷ ts

-- `str::split` at the characters that pass the test.
unfoldable pub split : (ℕ → Bool) → Text → List Text
split at_mark [] = [] ∷ []
split at_mark (c ∷ cs) =
    if at_mark c then [] ∷ split at_mark cs else push_first c (split at_mark cs)

abbrev pub keep_ip : Option IpAddr → List IpAddr → List IpAddr
keep_ip none ips = ips
keep_ip (some ip) ips = ip ∷ ips

abbrev pub parse_all : (Text → Option IpAddr) → List Text → List IpAddr
parse_all parse_ip [] = []
parse_all parse_ip (t ∷ ts) =
    let rest = parse_all parse_ip ts in if is_blank t then rest else keep_ip (parse_ip t) rest

-- `parse_ip` is `str::parse::<IpAddr>`.
unfoldable pub parse_ip_list : (Text → Option IpAddr) → Text → List IpAddr
unfolding split is_whitespace is_blank
parse_ip_list parse_ip s = parse_all parse_ip (split (λ c. c == b',' || is_whitespace c) s)
