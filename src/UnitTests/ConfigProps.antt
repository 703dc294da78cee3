-- ===== src/UnitTests/ConfigProps.antt =====
-- The property tests of src/config.rs: the body of each property, with what a strategy draws as
-- its arguments. The parser of IP literals of the standard library is an argument.
use kvasilloni.Prelude.{
  ℕ, Bool, true, false, not, ◌||◌, List, [], ◌∷◌, ◌++◌, Option, none, some, length, ◌==◌,
  if◌then◌else◌,
}
use kvasilloni.Prelude.Text.{codes, trim, lower, lowercase, text_eq, is_blank}
use kvasilloni.Config.Types.{Text, Warning, Config, default_config}
use kvasilloni.Config.Text.{u16_max, u32_max, parse_uint}
use kvasilloni.Config.Load.{apply_map, apply_env_with}
use kvasilloni.Transport.Peers.{IpAddr}
use kvasilloni.UnitTests.Asserts.{Test, ◌>>◌, assert, assert_eq, assert_same, is_none, for_each}
use kvasilloni.UnitTests.ConfigPoints.{same_ips}

-- A number after `apply_map`, against the default and against `str::parse`.
abbrev pub check_parsed_num : ℕ → ℕ → List Warning → Option ℕ → Test
check_parsed_num got old warnings (some p) = do assert_eq got p; assert_eq (length warnings) 0
check_parsed_num got old warnings none = do assert_eq got old; assert_eq (length warnings) 1

unfoldable pub check_number : ℕ → Text → ℕ → ℕ → List Warning → Test
unfolding trim is_blank parse_uint
check_number max val got old warnings =
    if is_blank (trim val)
    then (do assert_eq got old; assert_eq (length warnings) 0)
    else check_parsed_num got old warnings (parse_uint max (trim val))

-- A key with the field it sets and the largest value of the field's type.
abbrev pub NumericKey : Type 0
NumericKey = Text × (Config → ℕ) × ℕ

abbrev pub numeric_keys : List NumericKey
numeric_keys =
    (codes "port", λ c. c.remote_port, u16_max)
    ∷ (codes "localport", λ c. c.local_port, u16_max)
    ∷ (codes "channels", λ c. c.channels, u32_max)
    ∷ (codes "connecttimeout", λ c. c.connect_timeout_ms, u32_max)
    ∷ (codes "accepttimeout", λ c. c.accept_timeout_ms, u32_max)
    ∷ []

unfoldable pub prop_numeric_keys_validate_and_warn : (Text → Option IpAddr) → Text → Test
unfolding apply_map check_number
prop_numeric_keys_validate_and_warn parse_ip val = for_each numeric_keys λ (key, field, max).
    let cfg = apply_map parse_ip ((key, val) ∷ []) default_config in
    check_number max val (field cfg) (field default_config) cfg.warnings

unfoldable pub prop_host_stored_or_warns_on_blank : (Text → Option IpAddr) → Text → Test
unfolding apply_map trim is_blank text_eq
prop_host_stored_or_warns_on_blank parse_ip s =
    let cfg = apply_map parse_ip ((codes "host", s) ∷ []) default_config in
    if is_blank (trim s)
    then (do assert_same cfg.host default_config.host; assert_eq (length cfg.warnings) 1)
    else (do assert_same cfg.host s; assert_eq (length cfg.warnings) 0)

abbrev pub valid_ips : List Text
valid_ips =
    codes "127.0.0.1"
    ∷ codes "10.0.0.5"
    ∷ codes "192.168.1.250"
    ∷ codes "::1"
    ∷ codes "fe80::1"
    ∷ codes "2001:db8::dead:beef"
    ∷ []

unfoldable pub prop_valid_ip_host_accepted : (Text → Option IpAddr) → Text → Test
unfolding apply_map text_eq
prop_valid_ip_host_accepted parse_ip ip = do
  let cfg = apply_map parse_ip ((codes "host", ip) ∷ []) default_config
  assert_same cfg.host ip
  assert (not (is_none (parse_ip cfg.host)))
  assert_eq (length cfg.warnings) 0

-- A token of the allow-list with the address it stands for, if any, and the separator behind it.
abbrev pub AllowItem : Type 0
AllowItem = (Text × Option IpAddr) × Text

abbrev pub allow_text : List AllowItem → Text
allow_text [] = []
allow_text (((tok, ip), sep) ∷ items) = tok ++ (sep ++ allow_text items)

abbrev pub add_wanted : Option IpAddr → List IpAddr → List IpAddr
add_wanted none want = want
add_wanted (some ip) want = ip ∷ want

abbrev pub wanted : List AllowItem → List IpAddr
wanted [] = []
wanted (((tok, ip), sep) ∷ items) = add_wanted ip (wanted items)

unfoldable pub prop_allow_list_parses_valid_skips_junk :
    (Text → Option IpAddr) → List AllowItem → Test
unfolding apply_map
prop_allow_list_parses_valid_skips_junk parse_ip items = do
  let cfg = apply_map parse_ip ((codes "allow", allow_text items) ∷ []) default_config
  assert (same_ips cfg.allow (wanted items))

-- The reference implementations of the toggles.
unfoldable pub first_is : Text → ℕ → Bool
unfolding lower
first_is [] c = false
first_is (b ∷ bs) c = lower b == c

unfoldable pub truthy : Text → Bool
unfolding trim lowercase text_eq
truthy s =
    let t = lowercase (trim s) in
    text_eq t (codes "1")
    || text_eq t (codes "true")
    || text_eq t (codes "yes")
    || text_eq t (codes "on")
    || text_eq t (codes "enable")
    || text_eq t (codes "enabled")

abbrev pub assert_agree : Bool → Bool → Test
assert_agree true b = assert b
assert_agree false b = assert (not b)

unfoldable pub prop_toggles_map_correctly : (Text → Option IpAddr) → Text → Test
unfolding apply_map first_is truthy
prop_toggles_map_correctly parse_ip s = do
  let m =
      (codes "udpportfallback", s)
      ∷ (codes "peercheck", s)
      ∷ (codes "tcprole", s)
      ∷ (codes "proto", s)
      ∷ []
  let cfg = apply_map parse_ip m default_config
  assert_agree cfg.tcp (first_is s b't')
  assert_agree cfg.tcp_server (first_is s b's')
  assert_agree cfg.peer_check (truthy s)
  assert_agree cfg.udp_port_fallback (truthy s)

unfoldable pub prop_env_numeric_validates_like_ini : (Text → Option IpAddr) → Text → Test
unfolding apply_env_with check_number text_eq
prop_env_numeric_validates_like_ini parse_ip val = do
  let e = λ (k : Text). if text_eq k (codes "KVASILLONI_PORT") then some val else none
  let cfg = apply_env_with parse_ip e default_config
  check_number u16_max val cfg.remote_port default_config.remote_port cfg.warnings
