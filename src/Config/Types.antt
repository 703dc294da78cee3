-- ===== src/Config/Types.antt =====
-- `Config` of src/config.rs and its defaults. A text is the list of its code points.
use kvasilloni.Prelude.{ℕ, Bool, true, false, List, [], ◌∷◌, Option, none}
use kvasilloni.Transport.Peers.{IpAddr}

abbrev pub Text : Type 0
Text = List ℕ

-- The two kinds of warning: an empty host, and a number that does not parse, each with the name
-- of the setting; the second also with the value.
pub data Warning : Type 0 where
  empty_host : Text → Warning
  invalid_number : Text → Text → Warning

pub record Config : Type 0 where
  pub host : Text
  pub remote_port : ℕ
  pub local_port : ℕ
  pub tcp : Bool
  pub tcp_server : Bool
  pub log : Option Text
  pub channels : ℕ
  pub connect_timeout_ms : ℕ
  pub accept_timeout_ms : ℕ
  pub udp_port_fallback : Bool
  pub peer_check : Bool
  pub allow : List IpAddr
  pub warnings : List Warning

-- "127.0.0.1"
abbrev pub localhost : Text
localhost = b'1' ∷ b'2' ∷ b'7' ∷ b'.' ∷ b'0' ∷ b'.' ∷ b'0' ∷ b'.' ∷ b'1' ∷ []

abbrev pub default_config : Config
default_config = record {
  host = localhost;
  remote_port = 20000;
  local_port = 20000;
  tcp = false;
  tcp_server = false;
  log = none;
  channels = 1;
  connect_timeout_ms = 5000;
  accept_timeout_ms = 30000;
  udp_port_fallback = false;
  peer_check = true;
  allow = [];
  warnings = [];
}
