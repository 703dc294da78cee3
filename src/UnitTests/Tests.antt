-- ===== src/UnitTests/Tests.antt =====
-- The property tests at inputs that their strategies can draw.
use kvasilloni.Prelude.{
  ◌≡◌, refl, true, false, List, [], ◌∷◌, Option, none, some, All, arith, if◌then◌else◌, ◌+◌, ◌*◌,
  ◌^◌,
}
use kvasilloni.Prelude.Exec.{◌>>=◌}
use kvasilloni.Prelude.Text.{codes, text_eq, is_blank, is_whitespace}
use kvasilloni.Config.Types.{Text}
use kvasilloni.Transport.Peers.{IpAddr, v6}
use kvasilloni.Wire.Tests.{packet, packet-IsBytes}
use kvasilloni.UnitTests.Asserts.{passed}
use kvasilloni.UnitTests.TransportRing.{v4_of}
use kvasilloni.UnitTests.WireProps.{
  arb_frame, prop_tcp_roundtrip, prop_udp_roundtrip, prop_parse_udp_never_panics,
  prop_decode_stream_never_panics, prop_udp_prealloc_cap_bounded,
}
use kvasilloni.UnitTests.WireAlways.{wire_props-passed}
use kvasilloni.UnitTests.ConfigProps.{
  prop_numeric_keys_validate_and_warn, prop_host_stored_or_warns_on_blank, valid_ips,
  prop_valid_ip_host_accepted, AllowItem, prop_allow_list_parses_valid_skips_junk,
  prop_toggles_map_correctly, prop_env_numeric_validates_like_ini,
}
use kvasilloni.UnitTests.ConfigAlways.{config_props-passed}

wire_props-passed_example :
    ((arb_frame 0x1234_5678 true false 0xff (1 ∷ 2 ∷ 3 ∷ []) >>= prop_tcp_roundtrip) ≡ passed)
    × ((arb_frame 0x1234_5678 true false 0xff (1 ∷ 2 ∷ 3 ∷ []) >>= λ f. prop_udp_roundtrip f 7)
        ≡ passed)
    × (prop_parse_udp_never_panics packet ≡ passed)
    × (prop_decode_stream_never_panics packet ≡ passed)
    × (prop_udp_prealloc_cap_bounded 65535 7 ≡ passed)
wire_props-passed_example =
    wire_props-passed 0x1234_5678 0xff 7 65535 7 true false (1 ∷ 2 ∷ 3 ∷ []) packet (omega arith)
      (omega arith) (omega arith) (omega arith) packet-IsBytes

-- A parser of some literals.
abbrev known : List (Text × IpAddr)
known =
    (codes "127.0.0.1", v4_of 127 0 0 1)
    ∷ (codes "10.0.0.5", v4_of 10 0 0 5)
    ∷ (codes "192.168.1.250", v4_of 192 168 1 250)
    ∷ (codes "::1", v6 1)
    ∷ (codes "fe80::1", v6 (0xfe80 * 2 ^ 112 + 1))
    ∷ (codes "2001:db8::dead:beef", v6 (0x2001 * 2 ^ 112 + 0xdb8 * 2 ^ 96 + 0xdead_beef))
    ∷ []

unfoldable address_in : List (Text × IpAddr) → Text → Option IpAddr
unfolding text_eq
address_in [] t = none
address_in ((s, a) ∷ rest) t = if text_eq s t then some a else address_in rest t

abbrev parse_known : Text → Option IpAddr
parse_known t = address_in known t

abbrev items : List AllowItem
items =
    ((codes "127.0.0.1", some (v4_of 127 0 0 1)), codes ", ")
    ∷ ((codes "nope", none), codes " ")
    ∷ ((codes "::1", some (v6 1)), codes ",")
    ∷ []

config_props-passed_example :
    (prop_numeric_keys_validate_and_warn parse_known (codes "70000") ≡ passed)
    × (prop_host_stored_or_warns_on_blank parse_known (codes "70000") ≡ passed)
    × All (λ t. prop_valid_ip_host_accepted parse_known t ≡ passed) valid_ips
    × (prop_allow_list_parses_valid_skips_junk parse_known items ≡ passed)
    × (prop_toggles_map_correctly parse_known (codes "70000") ≡ passed)
    × (prop_env_numeric_validates_like_ini parse_known (codes "70000") ≡ passed)
unfolding address_in is_blank is_whitespace
config_props-passed_example =
    config_props-passed parse_known (codes "70000") items
      ((_, refl), ((_, refl), ((_, refl), ((_, refl), ((_, refl), ((_, refl), tt))))))
      (
        (
          refl,
          (refl, (refl, (refl, (refl, (refl, (refl, (refl, (refl, (refl, tt))))))))),
          refl,
          refl,
          (refl, (refl, tt)),
        ),
        (
          (refl, (refl, (refl, (refl, (refl, tt)))), refl, refl, (refl, tt)),
          ((refl, (refl, (refl, (refl, tt))), refl, refl, (refl, tt)), tt),
        ),
      )
