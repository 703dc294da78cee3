-- ===== src/Config/SettingLayers.antt =====
-- `Config::load` of src/config.rs against the layers of its settings.
use kvasilloni.Prelude.{◌≡◌, refl, ap, ◌∙◌, inl, inr, Option, none, some, Bool-cases}
use kvasilloni.Prelude.Text.{codes, trim, is_blank}
use kvasilloni.Config.Types.{Text, Config, default_config}
use kvasilloni.Config.Text.{u16_max, u32_max, starts_with_ci, parse_bool, parse_ip_list}
use kvasilloni.Config.Ini.{IniMap}
use kvasilloni.Config.Load.{
  over, or_else, set_host, set_remote_port, set_local_port, set_proto, set_tcp_role, set_log,
  set_channels, set_connect_timeout, set_accept_timeout, set_port_fallback, set_peer_check,
  set_allow, apply_map, apply_env_with, Host, with_ini, find_and_parse_ini, load,
}
use kvasilloni.Config.Layers.{number_in, parse_num-value}
use kvasilloni.Config.Settings.{
  Layer, ini_layer, env_layer, value_or, host_or, log_or, overlaid, bare,
}
use kvasilloni.Transport.Peers.{IpAddr}

-- One setting over a configuration.
abbrev with_host : Option Text → Config → Config
with_host o c = record c { host = host_or o c.host }

abbrev with_remote_port : Option Text → Config → Config
with_remote_port o c = record c { remote_port = or_else (number_in u16_max o) c.remote_port }

abbrev with_local_port : Option Text → Config → Config
with_local_port o c = record c { local_port = or_else (number_in u16_max o) c.local_port }

abbrev with_tcp : Option Text → Config → Config
with_tcp o c = record c { tcp = value_or (λ v. starts_with_ci v b't') o c.tcp }

abbrev with_tcp_server : Option Text → Config → Config
with_tcp_server o c = record c { tcp_server = value_or (λ v. starts_with_ci v b's') o c.tcp_server }

abbrev with_log : Option Text → Config → Config
with_log o c = record c { log = log_or o c.log }

abbrev with_channels : Option Text → Config → Config
with_channels o c = record c { channels = or_else (number_in u32_max o) c.channels }

abbrev with_connect_timeout : Option Text → Config → Config
with_connect_timeout o c = record c {
  connect_timeout_ms = or_else (number_in u32_max o) c.connect_timeout_ms;
}

abbrev with_accept_timeout : Option Text → Config → Config
with_accept_timeout o c = record c {
  accept_timeout_ms = or_else (number_in u32_max o) c.accept_timeout_ms;
}

abbrev with_port_fallback : Option Text → Config → Config
with_port_fallback o c = record c { udp_port_fallback = value_or parse_bool o c.udp_port_fallback }

abbrev with_peer_check : Option Text → Config → Config
with_peer_check o c = record c { peer_check = value_or parse_bool o c.peer_check }

abbrev with_allow : (Text → Option IpAddr) → Option Text → Config → Config
with_allow parse_ip o c = record c { allow = value_or (parse_ip_list parse_ip) o c.allow }

bare-host :
    (n : Text) (o : Option Text) (c : Config) → bare (over o (set_host n) c) ≡ with_host o (bare c)
unfolding set_host
bare-host n none c = refl
bare-host n (some v) c = elim (Bool-cases (is_blank (trim v))) [
  | inl e ↦ rw e refl
  | inr e ↦ rw e refl
]

bare-remote_port :
    (n : Text) (o : Option Text) (c : Config)
    → bare (over o (set_remote_port n) c) ≡ with_remote_port o (bare c)
unfolding set_remote_port
bare-remote_port n none c = refl
bare-remote_port n (some v) c =
    ap (λ p. record (bare c) { remote_port = or_else p c.remote_port })
      (parse_num-value u16_max v n c.warnings)

bare-local_port :
    (n : Text) (o : Option Text) (c : Config)
    → bare (over o (set_local_port n) c) ≡ with_local_port o (bare c)
unfolding set_local_port
bare-local_port n none c = refl
bare-local_port n (some v) c =
    ap (λ p. record (bare c) { local_port = or_else p c.local_port })
      (parse_num-value u16_max v n c.warnings)

bare-channels :
    (n : Text) (o : Option Text) (c : Config)
    → bare (over o (set_channels n) c) ≡ with_channels o (bare c)
unfolding set_channels
bare-channels n none c = refl
bare-channels n (some v) c =
    ap (λ p. record (bare c) { channels = or_else p c.channels })
      (parse_num-value u32_max v n c.warnings)

bare-connect_timeout :
    (n : Text) (o : Option Text) (c : Config)
    → bare (over o (set_connect_timeout n) c) ≡ with_connect_timeout o (bare c)
unfolding set_connect_timeout
bare-connect_timeout n none c = refl
bare-connect_timeout n (some v) c =
    ap (λ p. record (bare c) { connect_timeout_ms = or_else p c.connect_timeout_ms })
      (parse_num-value u32_max v n c.warnings)

bare-accept_timeout :
    (n : Text) (o : Option Text) (c : Config)
    → bare (over o (set_accept_timeout n) c) ≡ with_accept_timeout o (bare c)
unfolding set_accept_timeout
bare-accept_timeout n none c = refl
bare-accept_timeout n (some v) c =
    ap (λ p. record (bare c) { accept_timeout_ms = or_else p c.accept_timeout_ms })
      (parse_num-value u32_max v n c.warnings)

bare-log : (o : Option Text) (c : Config) → bare (over o set_log c) ≡ with_log o (bare c)
bare-log none c = refl
bare-log (some v) c = elim (Bool-cases (is_blank v)) [ inl e ↦ rw e refl | inr e ↦ rw e refl ]

bare-tcp : (o : Option Text) (c : Config) → bare (over o set_proto c) ≡ with_tcp o (bare c)
bare-tcp none c = refl
bare-tcp (some v) c = refl

bare-tcp_server :
    (o : Option Text) (c : Config) → bare (over o set_tcp_role c) ≡ with_tcp_server o (bare c)
bare-tcp_server none c = refl
bare-tcp_server (some v) c = refl

bare-port_fallback :
    (o : Option Text) (c : Config)
    → bare (over o set_port_fallback c) ≡ with_port_fallback o (bare c)
bare-port_fallback none c = refl
bare-port_fallback (some v) c = refl

bare-peer_check :
    (o : Option Text) (c : Config) → bare (over o set_peer_check c) ≡ with_peer_check o (bare c)
bare-peer_check none c = refl
bare-peer_check (some v) c = refl

bare-allow :
    (parse_ip : Text → Option IpAddr) (o : Option Text) (c : Config)
    → bare (over o (set_allow parse_ip) c) ≡ with_allow parse_ip o (bare c)
bare-allow parse_ip none c = refl
bare-allow parse_ip (some v) c = refl

-- The settings of one layer, in the order of the source.
abbrev layered :
    (Text → Option IpAddr) → Text → Text → Text → Text → Text → Text → Layer → Config → Config
layered parse_ip nh np nl nc nt na l c0 =
    let c1 = over l.host (set_host nh) c0 in
    let c2 = over l.port (set_remote_port np) c1 in
    let c3 = over l.local_port (set_local_port nl) c2 in
    let c4 = over l.proto set_proto c3 in
    let c5 = over l.tcp_role set_tcp_role c4 in
    let c6 = over l.log set_log c5 in
    let c7 = over l.channels (set_channels nc) c6 in
    let c8 = over l.connect_timeout (set_connect_timeout nt) c7 in
    let c9 = over l.accept_timeout (set_accept_timeout na) c8 in
    let c10 = over l.port_fallback set_port_fallback c9 in
    let c11 = over l.peer_check set_peer_check c10 in over l.allow (set_allow parse_ip) c11

layered-overlaid :
    (parse_ip : Text → Option IpAddr) (nh np nl nc nt na : Text) (l : Layer) (c : Config)
    → bare (layered parse_ip nh np nl nc nt na l c) ≡ overlaid parse_ip l c
layered-overlaid parse_ip nh np nl nc nt na l c =
    let e1 = bare-host nh l.host c in
    let e2 = bare-remote_port np l.port _ ∙ ap (with_remote_port l.port) e1 in
    let e3 = bare-local_port nl l.local_port _ ∙ ap (with_local_port l.local_port) e2 in
    let e4 = bare-tcp l.proto _ ∙ ap (with_tcp l.proto) e3 in
    let e5 = bare-tcp_server l.tcp_role _ ∙ ap (with_tcp_server l.tcp_role) e4 in
    let e6 = bare-log l.log _ ∙ ap (with_log l.log) e5 in
    let e7 = bare-channels nc l.channels _ ∙ ap (with_channels l.channels) e6 in
    let e8 =
      bare-connect_timeout nt l.connect_timeout _
      ∙ ap (with_connect_timeout l.connect_timeout) e7 in
    let e9 =
      bare-accept_timeout na l.accept_timeout _ ∙ ap (with_accept_timeout l.accept_timeout) e8 in
    let e10 = bare-port_fallback l.port_fallback _ ∙ ap (with_port_fallback l.port_fallback) e9 in
    let e11 = bare-peer_check l.peer_check _ ∙ ap (with_peer_check l.peer_check) e10 in
    bare-allow parse_ip l.allow _ ∙ ap (with_allow parse_ip l.allow) e11

apply_map-overlaid :
    (parse_ip : Text → Option IpAddr) (m : Option IniMap) (c : Config)
    → bare (with_ini parse_ip m c) ≡ overlaid parse_ip (ini_layer m) c
unfolding apply_map
apply_map-overlaid parse_ip none c = refl
apply_map-overlaid parse_ip (some m) c =
    layered-overlaid parse_ip (codes "host") (codes "port") (codes "localport") (codes "channels")
      (codes "connecttimeout") (codes "accepttimeout") (ini_layer (some m)) c

apply_env_with-overlaid :
    (parse_ip : Text → Option IpAddr) (e : Text → Option Text) (c : Config)
    → bare (apply_env_with parse_ip e c) ≡ overlaid parse_ip (env_layer e) c
unfolding apply_env_with
apply_env_with-overlaid parse_ip e c =
    layered-overlaid parse_ip (codes "KVASILLONI_HOST") (codes "KVASILLONI_PORT")
      (codes "KVASILLONI_LOCALPORT") (codes "KVASILLONI_CHANNELS")
      (codes "KVASILLONI_CONNECT_TIMEOUT") (codes "KVASILLONI_ACCEPT_TIMEOUT") (env_layer e) c

-- The configuration that is loaded, without its warnings, is the layer of the environment over that
-- of the INI file over the defaults, each setting for itself: a number counts if it is well formed
-- and fits, a host or a log path if it is not blank, and any other setting if it is there.
pub load-overlaid :
    (h : Host)
    → bare (load h)
      ≡ overlaid h.parse_ip
          (env_layer h.env)
          (overlaid h.parse_ip (ini_layer (find_and_parse_ini h)) default_config)
unfolding load
load-overlaid h =
    apply_env_with-overlaid h.parse_ip h.env
      (with_ini h.parse_ip (find_and_parse_ini h) default_config)
    ∙ ap (overlaid h.parse_ip (env_layer h.env))
        (apply_map-overlaid h.parse_ip (find_and_parse_ini h) default_config)
