-- ===== src/Config/Settings.antt =====
-- Which layer each setting of src/config.rs comes from, all of them at once.
use kvasilloni.Prelude.{[], Option, none, some, if◌then◌else◌}
use kvasilloni.Prelude.Text.{codes, trim, is_blank}
use kvasilloni.Config.Types.{Text, Config}
use kvasilloni.Config.Text.{u16_max, u32_max, starts_with_ci, parse_bool, parse_ip_list}
use kvasilloni.Config.Ini.{IniMap, get}
use kvasilloni.Config.Load.{or_else}
use kvasilloni.Config.Layers.{number_in}
use kvasilloni.Transport.Peers.{IpAddr}

-- The texts that one source gives, if it gives them.
pub record Layer : Type 0 where
  pub host : Option Text
  pub port : Option Text
  pub local_port : Option Text
  pub proto : Option Text
  pub tcp_role : Option Text
  pub log : Option Text
  pub channels : Option Text
  pub connect_timeout : Option Text
  pub accept_timeout : Option Text
  pub port_fallback : Option Text
  pub peer_check : Option Text
  pub allow : Option Text

abbrev pub no_layer : Layer
no_layer = record {
  host = none;
  port = none;
  local_port = none;
  proto = none;
  tcp_role = none;
  log = none;
  channels = none;
  connect_timeout = none;
  accept_timeout = none;
  port_fallback = none;
  peer_check = none;
  allow = none;
}

abbrev pub ini_layer : Option IniMap → Layer
ini_layer none = no_layer
ini_layer (some m) = record {
  host = get m (codes "host");
  port = get m (codes "port");
  local_port = get m (codes "localport");
  proto = get m (codes "proto");
  tcp_role = get m (codes "tcprole");
  log = get m (codes "log");
  channels = get m (codes "channels");
  connect_timeout = get m (codes "connecttimeout");
  accept_timeout = get m (codes "accepttimeout");
  port_fallback = get m (codes "udpportfallback");
  peer_check = get m (codes "peercheck");
  allow = get m (codes "allow");
}

abbrev pub env_layer : (Text → Option Text) → Layer
env_layer e = record {
  host = e (codes "KVASILLONI_HOST");
  port = e (codes "KVASILLONI_PORT");
  local_port = e (codes "KVASILLONI_LOCALPORT");
  proto = e (codes "KVASILLONI_PROTO");
  tcp_role = e (codes "KVASILLONI_TCPROLE");
  log = e (codes "KVASILLONI_LOG");
  channels = e (codes "KVASILLONI_CHANNELS");
  connect_timeout = e (codes "KVASILLONI_CONNECT_TIMEOUT");
  accept_timeout = e (codes "KVASILLONI_ACCEPT_TIMEOUT");
  port_fallback = e (codes "KVASILLONI_UDP_PORT_FALLBACK");
  peer_check = e (codes "KVASILLONI_PEER_CHECK");
  allow = e (codes "KVASILLONI_ALLOW");
}

-- The value that a setting gives, or the old one.
abbrev pub value_or {ℓ} : {A : Type ℓ} → (Text → A) → Option Text → A → A
value_or read none old = old
value_or read (some v) old = read v

abbrev pub host_or : Option Text → Text → Text
host_or none old = old
host_or (some v) old = if is_blank (trim v) then old else v

abbrev pub log_or : Option Text → Option Text → Option Text
log_or none old = old
log_or (some v) old = if is_blank v then old else some v

-- A layer over a configuration: each setting for itself, and no warnings.
abbrev pub overlaid : (Text → Option IpAddr) → Layer → Config → Config
overlaid parse_ip l c = record {
  host = host_or l.host c.host;
  remote_port = or_else (number_in u16_max l.port) c.remote_port;
  local_port = or_else (number_in u16_max l.local_port) c.local_port;
  tcp = value_or (λ v. starts_with_ci v b't') l.proto c.tcp;
  tcp_server = value_or (λ v. starts_with_ci v b's') l.tcp_role c.tcp_server;
  log = log_or l.log c.log;
  channels = or_else (number_in u32_max l.channels) c.channels;
  connect_timeout_ms = or_else (number_in u32_max l.connect_timeout) c.connect_timeout_ms;
  accept_timeout_ms = or_else (number_in u32_max l.accept_timeout) c.accept_timeout_ms;
  udp_port_fallback = value_or parse_bool l.port_fallback c.udp_port_fallback;
  peer_check = value_or parse_bool l.peer_check c.peer_check;
  allow = value_or (parse_ip_list parse_ip) l.allow c.allow;
  warnings = [];
}

-- A configuration without its warnings.
abbrev pub bare : Config → Config
bare c = record c { warnings = [] }
