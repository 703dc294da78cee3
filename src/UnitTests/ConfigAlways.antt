-- ===== src/UnitTests/ConfigAlways.antt =====
-- The property tests of src/config.rs hold on every value.
use kvasilloni.Prelude.{
  ℕ, ◌≡◌, refl, ap, ◌∙◌, Bool, true, false, ◌||◌, List, [], ◌∷◌, ◌++◌, Option, none, some, ◌==◌,
  All, inl, inr, Bool-cases, Option-cases, arith,
}
use kvasilloni.Prelude.Text.{codes, trim, is_whitespace, is_blank, text_eq, text_eq_refl}
use kvasilloni.Config.Types.{Text}
use kvasilloni.Config.Text.{
  starts_with_ci, parse_bool, split, parse_all, keep_ip, parse_ip_list, parse_num, parse_uint,
}
use kvasilloni.Config.Load.{
  or_else, set_host, set_remote_port, set_local_port, set_channels, set_connect_timeout,
  set_accept_timeout, apply_map, apply_env_with,
}
use kvasilloni.Transport.Peers.{IpAddr}
use kvasilloni.UnitTests.Asserts.{passed}
use kvasilloni.UnitTests.ConfigPoints.{ip_eq_refl, same_ips}
use kvasilloni.UnitTests.ConfigProps.{
  assert_agree, first_is, truthy, check_number, prop_numeric_keys_validate_and_warn,
  prop_host_stored_or_warns_on_blank, valid_ips, prop_valid_ip_host_accepted, AllowItem, allow_text,
  wanted, add_wanted, prop_allow_list_parses_valid_skips_junk, prop_toggles_map_correctly,
  prop_env_numeric_validates_like_ini,
}

check_number-parse_num :
    (max : ℕ) (val name : Text) (old : ℕ)
    → check_number max val
        (or_else (parse_num max val name []).0 old)
        old
        (parse_num max val name []).1
      ≡ passed
unfolding check_number parse_num
check_number-parse_num max val name old = elim (Bool-cases (is_blank (trim val))) [
  | inl blank ↦ rw blank (ground arith)
  | inr text ↦ elim (Option-cases (parse_uint max (trim val))) [
    | inl junk ↦ rw (text, junk) (ground arith)
    | inr (n, e) ↦ rw (text, e) (ground arith)
  ]
]

prop_numeric_keys-passed :
    (parse_ip : Text → Option IpAddr) (val : Text)
    → prop_numeric_keys_validate_and_warn parse_ip val ≡ passed
unfolding prop_numeric_keys_validate_and_warn apply_map text_eq set_remote_port set_local_port
    set_channels set_connect_timeout set_accept_timeout
prop_numeric_keys-passed parse_ip val =
    rw
      (
        check_number-parse_num 65535 val (codes "port") 20000,
        check_number-parse_num 65535 val (codes "localport") 20000,
        check_number-parse_num 4294967295 val (codes "channels") 1,
        check_number-parse_num 4294967295 val (codes "connecttimeout") 5000,
        check_number-parse_num 4294967295 val (codes "accepttimeout") 30000,
      )
      refl

prop_host-passed :
    (parse_ip : Text → Option IpAddr) (s : Text)
    → prop_host_stored_or_warns_on_blank parse_ip s ≡ passed
unfolding prop_host_stored_or_warns_on_blank apply_map text_eq set_host
prop_host-passed parse_ip s = elim (Bool-cases (is_blank (trim s))) [
  | inl blank ↦ rw blank refl
  | inr text ↦ rw (text, text_eq_refl s) refl
]

-- The address that a literal stands for.
abbrev Parses : (Text → Option IpAddr) → Text → Type 0
Parses parse_ip t = (a : IpAddr) × (parse_ip t ≡ some a)

prop_valid_ip-passed :
    (parse_ip : Text → Option IpAddr)
    → All (λ t. Parses parse_ip t) valid_ips
    → All (λ t. prop_valid_ip_host_accepted parse_ip t ≡ passed) valid_ips
unfolding prop_valid_ip_host_accepted apply_map text_eq set_host
prop_valid_ip-passed parse_ip (a, (b, (c, (d, (e, (f, end)))))) = (
  rw (a.1) refl,
  (rw (b.1) refl, (rw (c.1) refl, (rw (d.1) refl, (rw (e.1) refl, (rw (f.1) refl, tt))))),
)

assert_agree_refl : (b : Bool) → assert_agree b b ≡ passed
assert_agree_refl true = refl
assert_agree_refl false = refl

or_false : (b : Bool) → (b || false) ≡ b
or_false true = refl
or_false false = refl

or_assoc : (a b c : Bool) → (a || b || c) ≡ (a || (b || c))
or_assoc true b c = refl
or_assoc false b c = refl

truthy-parse_bool : (s : Text) → parse_bool s ≡ truthy s
unfolding truthy parse_bool
truthy-parse_bool s = simp (or_assoc, or_false)

prop_toggles-passed :
    (parse_ip : Text → Option IpAddr) (s : Text) → prop_toggles_map_correctly parse_ip s ≡ passed
unfolding prop_toggles_map_correctly apply_map text_eq first_is starts_with_ci
prop_toggles-passed parse_ip s =
    rw
      (
        assert_agree_refl (first_is s b't'),
        assert_agree_refl (first_is s b's'),
        truthy-parse_bool s,
        assert_agree_refl (truthy s),
      )
      refl

prop_env_numeric-passed :
    (parse_ip : Text → Option IpAddr) (val : Text)
    → prop_env_numeric_validates_like_ini parse_ip val ≡ passed
unfolding prop_env_numeric_validates_like_ini apply_env_with text_eq set_remote_port
prop_env_numeric-passed parse_ip val =
    check_number-parse_num 65535 val (codes "KVASILLONI_PORT") 20000

-- A separator of the allow-list.
abbrev is_mark : ℕ → Bool
is_mark c = c == b',' || is_whitespace c

-- A token that is not empty and has no separator in it, with its address, and then separators.
abbrev IsItem : (Text → Option IpAddr) → AllowItem → Type 0
IsItem parse_ip ((tok, ip), sep) =
    (is_blank tok ≡ false)
    × (All (λ c. is_mark c ≡ false) tok)
    × (parse_ip tok ≡ ip)
    × (is_blank sep ≡ false)
    × (All (λ c. is_mark c ≡ true) sep)

split-token :
    (tok : Text) (c : ℕ) (rest : Text)
    → All (λ c. is_mark c ≡ false) tok
    → is_mark c ≡ true
    → split is_mark (tok ++ c ∷ rest) ≡ tok ∷ split is_mark rest
unfolding split
split-token [] c rest ht hc = rw hc refl
split-token (d ∷ tok) c rest ht hc = rw (ht.0, split-token tok c rest ht.1 hc) refl

module _ (parse_ip : Text → Option IpAddr) where
  parse_all-marks :
      (sep rest : Text)
      → All (λ c. is_mark c ≡ true) sep
      → parse_all parse_ip (split is_mark (sep ++ rest)) ≡ parse_all parse_ip (split is_mark rest)
  unfolding split is_blank
  parse_all-marks [] rest h = refl
  parse_all-marks (c ∷ sep) rest h = rw h.0 (parse_all-marks sep rest h.1)

  parse_all-item :
      (item : AllowItem) (rest : Text)
      → IsItem parse_ip item
      → parse_all parse_ip (split is_mark (item.0.0 ++ (item.1 ++ rest)))
        ≡ keep_ip item.0.1 (parse_all parse_ip (split is_mark rest))
  parse_all-item ((tok, ip), []) rest (some_tok, clean, e, some_sep, marks) = unfold is_blank in cc
  parse_all-item ((tok, ip), c ∷ sep) rest (some_tok, clean, e, some_sep, marks) =
      rw
        (
          split-token tok c (sep ++ rest) clean marks.0,
          some_tok,
          e,
          parse_all-marks sep rest marks.1,
        )
        refl

  keep_ip-wanted : (ip : Option IpAddr) (ips : List IpAddr) → keep_ip ip ips ≡ add_wanted ip ips
  keep_ip-wanted none ips = refl
  keep_ip-wanted (some a) ips = refl

  allow_list-wanted :
      (items : List AllowItem)
      → All (IsItem parse_ip) items
      → parse_ip_list parse_ip (allow_text items) ≡ wanted items
  unfolding parse_ip_list
  allow_list-wanted [] v = unfold split is_blank in refl
  allow_list-wanted (((tok, ip), sep) ∷ items) v =
      parse_all-item ((tok, ip), sep) (allow_text items) v.0
      ∙ ap (keep_ip ip) (allow_list-wanted items v.1)
      ∙ keep_ip-wanted ip (wanted items)

same_ips_refl : (ips : List IpAddr) → same_ips ips ips ≡ true
same_ips_refl [] = refl
same_ips_refl (a ∷ ips) = rw (ip_eq_refl a) (same_ips_refl ips)

prop_allow_list-passed :
    (parse_ip : Text → Option IpAddr) (items : List AllowItem)
    → All (IsItem parse_ip) items
    → prop_allow_list_parses_valid_skips_junk parse_ip items ≡ passed
unfolding prop_allow_list_parses_valid_skips_junk apply_map text_eq
prop_allow_list-passed parse_ip items v =
    rw (allow_list-wanted parse_ip items v, same_ips_refl (wanted items)) refl

-- The property tests of the configuration pass on every input that their strategies can draw, and
-- beyond: for every text, each numeric setting of the INI file and the port of the environment are
-- applied, kept or warned about as `str::parse` says, the host is stored or warned about, and the
-- toggles follow their reference implementations. If the parser of IP literals accepts the literals
-- that one test selects, they are accepted as the host; and an allow-list of tokens without
-- separators, each followed by separators only, gives the addresses of the tokens that parse, in
-- order.
pub config_props-passed :
    (parse_ip : Text → Option IpAddr) (val : Text) (items : List AllowItem)
    → All (λ t. Parses parse_ip t) valid_ips
    → All (IsItem parse_ip) items
    → (prop_numeric_keys_validate_and_warn parse_ip val ≡ passed)
      × (prop_host_stored_or_warns_on_blank parse_ip val ≡ passed)
      × All (λ t. prop_valid_ip_host_accepted parse_ip t ≡ passed) valid_ips
      × (prop_allow_list_parses_valid_skips_junk parse_ip items ≡ passed)
      × (prop_toggles_map_correctly parse_ip val ≡ passed)
      × (prop_env_numeric_validates_like_ini parse_ip val ≡ passed)
config_props-passed parse_ip val items hl hi = (
  prop_numeric_keys-passed parse_ip val,
  prop_host-passed parse_ip val,
  prop_valid_ip-passed parse_ip hl,
  prop_allow_list-passed parse_ip items hi,
  prop_toggles-passed parse_ip val,
  prop_env_numeric-passed parse_ip val,
)
