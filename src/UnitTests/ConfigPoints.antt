-- ===== src/UnitTests/ConfigPoints.antt =====
-- The point tests of src/config.rs. The parser of IP literals of the standard library is an
-- argument of the tests that use it.
use kvasilloni.Prelude.{
  ◌≡◌, refl, Bool, true, false, not, ◌&&◌, List, [], ◌∷◌, ◌++◌, Option, none, some, length, arith,
}
use kvasilloni.Prelude.Exec.{◌>>=◌}
use kvasilloni.Prelude.Text.{codes, text_eq}
use kvasilloni.Config.Types.{Text, default_config}
use kvasilloni.Config.Text.{parse_bool, parse_ip_list}
use kvasilloni.Config.Ini.{IniMap, get, parse_ini}
use kvasilloni.Config.Load.{apply_map}
use kvasilloni.Transport.Peers.{IpAddr, ip_eq}
use kvasilloni.UnitTests.Asserts.{Test, passed, ◌>>◌, assert, assert_eq, assert_same, expect}

-- `assert_eq!(m.get(key).unwrap(), value)`
abbrev has_value : IniMap → Text → Text → Test
has_value m key value = do v ← expect (get m key); assert_same v value

abbrev pub ini_sample : Text
ini_sample =
    codes "; a comment\n[cannelloni]\n"
    ++ codes "host = 192.168.1.50   ; the linux box\nPort=20000\nproto = tcp\n"
    ++ codes "tcprole= server\n# log disabled\nlog=\n"

unfoldable pub ini_parsing_with_sections_and_comments : Test
unfolding parse_ini get text_eq
ini_parsing_with_sections_and_comments = do
  let m = parse_ini ini_sample
  has_value m (codes "host") (codes "192.168.1.50")
  has_value m (codes "port") (codes "20000")
  has_value m (codes "proto") (codes "tcp")
  has_value m (codes "tcprole") (codes "server")
  has_value m (codes "log") []

ini_parsing_with_sections_and_comments_passes : ini_parsing_with_sections_and_comments ≡ passed
unfolding ini_parsing_with_sections_and_comments
ini_parsing_with_sections_and_comments_passes = refl

unfoldable pub map_applies_to_config : (Text → Option IpAddr) → Test
unfolding apply_map text_eq
map_applies_to_config parse_ip = do
  let m =
      (codes "host", codes "10.0.0.1")
      ∷ (codes "port", codes "21000")
      ∷ (codes "proto", codes "tcp")
      ∷ (codes "tcprole", codes "server")
      ∷ []
  let cfg = apply_map parse_ip m default_config
  assert_same cfg.host (codes "10.0.0.1")
  assert_eq cfg.remote_port 21000
  assert cfg.tcp
  assert cfg.tcp_server

map_applies_to_config_passes :
    (parse_ip : Text → Option IpAddr) → map_applies_to_config parse_ip ≡ passed
unfolding map_applies_to_config
map_applies_to_config_passes parse_ip = refl

unfoldable pub timeouts_default_and_parse : (Text → Option IpAddr) → Test
unfolding apply_map
timeouts_default_and_parse parse_ip = do
  assert_eq default_config.connect_timeout_ms 5000
  assert_eq default_config.accept_timeout_ms 30000
  let m = (codes "connecttimeout", codes "1500") ∷ (codes "accepttimeout", codes "8000") ∷ []
  let cfg = apply_map parse_ip m default_config
  assert_eq cfg.connect_timeout_ms 1500
  assert_eq cfg.accept_timeout_ms 8000

timeouts_default_and_parse_passes :
    (parse_ip : Text → Option IpAddr) → timeouts_default_and_parse parse_ip ≡ passed
unfolding timeouts_default_and_parse
timeouts_default_and_parse_passes parse_ip = refl

abbrev pub same_ips : List IpAddr → List IpAddr → Bool
same_ips [] [] = true
same_ips (a ∷ ips) (b ∷ jps) = ip_eq a b && same_ips ips jps
same_ips _ _ = false

abbrev pub no_entries : List IpAddr → Bool
no_entries [] = true
no_entries (a ∷ ips) = false

unfoldable pub peer_and_fallback_defaults_and_parse : (Text → Option IpAddr) → Test
unfolding apply_map
peer_and_fallback_defaults_and_parse parse_ip = do
  assert default_config.peer_check
  assert (not default_config.udp_port_fallback)
  assert (no_entries default_config.allow)
  let m =
      (codes "peercheck", codes "off")
      ∷ (codes "udpportfallback", codes "1")
      ∷ (codes "allow", codes "127.0.0.1, ::1 10.0.0.5")
      ∷ []
  let cfg = apply_map parse_ip m default_config
  assert (not cfg.peer_check)
  assert cfg.udp_port_fallback
  a ← expect (parse_ip (codes "127.0.0.1"))
  b ← expect (parse_ip (codes "::1"))
  c ← expect (parse_ip (codes "10.0.0.5"))
  assert (same_ips cfg.allow (a ∷ b ∷ c ∷ []))

pub ip_eq_refl : (a : IpAddr) → ip_eq a a ≡ true
ip_eq_refl (IpAddr.v4 a) = ground arith
ip_eq_refl (IpAddr.v6 a) = ground arith

peer_and_fallback_defaults_and_parse_passes :
    (parse_ip : Text → Option IpAddr) (a b c : IpAddr)
    → parse_ip (codes "127.0.0.1") ≡ some a
    → parse_ip (codes "::1") ≡ some b
    → parse_ip (codes "10.0.0.5") ≡ some c
    → peer_and_fallback_defaults_and_parse parse_ip ≡ passed
unfolding peer_and_fallback_defaults_and_parse
peer_and_fallback_defaults_and_parse_passes parse_ip a b c ha hb hc =
    rw (ha, hb, hc, ip_eq_refl a, ip_eq_refl b, ip_eq_refl c) refl

unfoldable pub invalid_values_warn_and_keep_defaults : (Text → Option IpAddr) → Test
unfolding apply_map text_eq
invalid_values_warn_and_keep_defaults parse_ip = do
  let m =
      (codes "host", codes "   ")
      ∷ (codes "port", codes "70000")
      ∷ (codes "connecttimeout", codes "soon")
      ∷ []
  let cfg = apply_map parse_ip m default_config
  assert_same cfg.host (codes "127.0.0.1")
  assert_eq cfg.remote_port 20000
  assert_eq cfg.connect_timeout_ms 5000
  assert_eq (length cfg.warnings) 3
  let m2 = (codes "port", codes "21000") ∷ (codes "host", codes "10.0.0.1") ∷ []
  let valid = apply_map parse_ip m2 default_config
  assert_eq (length valid.warnings) 0

invalid_values_warn_and_keep_defaults_passes :
    (parse_ip : Text → Option IpAddr) → invalid_values_warn_and_keep_defaults parse_ip ≡ passed
unfolding invalid_values_warn_and_keep_defaults
invalid_values_warn_and_keep_defaults_passes parse_ip = refl

unfoldable pub parse_bool_and_ip_list_are_lenient : (Text → Option IpAddr) → Test
unfolding parse_bool parse_ip_list
parse_bool_and_ip_list_are_lenient parse_ip = do
  assert (parse_bool (codes "YES") && parse_bool (codes "On") && parse_bool (codes "1"))
  assert (not (parse_bool (codes "0")) && not (parse_bool []) && not (parse_bool (codes "nope")))
  let ips = parse_ip_list parse_ip (codes "not-an-ip, 192.168.0.1,,fe80::1")
  a ← expect (parse_ip (codes "192.168.0.1"))
  b ← expect (parse_ip (codes "fe80::1"))
  assert (same_ips ips (a ∷ b ∷ []))

parse_bool_and_ip_list_are_lenient_passes :
    (parse_ip : Text → Option IpAddr) (a b : IpAddr)
    → parse_ip (codes "not-an-ip") ≡ none
    → parse_ip (codes "192.168.0.1") ≡ some a
    → parse_ip (codes "fe80::1") ≡ some b
    → parse_bool_and_ip_list_are_lenient parse_ip ≡ passed
unfolding parse_bool_and_ip_list_are_lenient
parse_bool_and_ip_list_are_lenient_passes parse_ip a b hn ha hb =
    rw (hn, ha, hb, ip_eq_refl a, ip_eq_refl b) refl
