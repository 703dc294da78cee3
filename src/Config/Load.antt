-- ===== src/Config/Load.antt =====
-- `Config::load` of src/config.rs: the defaults, the INI file over them, the environment over both.
-- Files and variables are read through arguments.
use kvasilloni.Prelude.{ℕ, List, [], ◌∷◌, ◌++◌, Option, none, some, if◌then◌else◌}
use kvasilloni.Prelude.Text.{codes, trim, is_blank}
use kvasilloni.Config.Types.{Text, empty_host, Config, default_config}
use kvasilloni.Config.Text.{u16_max, u32_max, parse_num, starts_with_ci, parse_bool, parse_ip_list}
use kvasilloni.Config.Ini.{IniMap, get, parse_ini}
use kvasilloni.Transport.Peers.{IpAddr}

-- `if let Some(v) = ... { ... }`
abbrev pub over : Option Text → (Text → Config → Config) → Config → Config
over none set cfg = cfg
over (some v) set cfg = set v cfg

unfoldable pub set_host : Text → Text → Config → Config
unfolding trim is_blank
set_host name v cfg =
    if is_blank (trim v)
    then record cfg { warnings = empty_host name ∷ cfg.warnings }
    else record cfg { host = v }

abbrev pub or_else : Option ℕ → ℕ → ℕ
or_else none old = old
or_else (some n) old = n

unfoldable pub set_remote_port : Text → Text → Config → Config
unfolding parse_num
set_remote_port name v cfg =
    let (p, ws) = parse_num u16_max v name cfg.warnings in
    record cfg { remote_port = or_else p cfg.remote_port; warnings = ws }

unfoldable pub set_local_port : Text → Text → Config → Config
unfolding parse_num
set_local_port name v cfg =
    let (p, ws) = parse_num u16_max v name cfg.warnings in
    record cfg { local_port = or_else p cfg.local_port; warnings = ws }

abbrev pub set_proto : Text → Config → Config
set_proto v cfg = record cfg { tcp = starts_with_ci v b't' }

abbrev pub set_tcp_role : Text → Config → Config
set_tcp_role v cfg = record cfg { tcp_server = starts_with_ci v b's' }

abbrev pub set_log : Text → Config → Config
set_log v cfg = if is_blank v then cfg else record cfg { log = some v }

unfoldable pub set_channels : Text → Text → Config → Config
unfolding parse_num
set_channels name v cfg =
    let (n, ws) = parse_num u32_max v name cfg.warnings in
    record cfg { channels = or_else n cfg.channels; warnings = ws }

unfoldable pub set_connect_timeout : Text → Text → Config → Config
unfolding parse_num
set_connect_timeout name v cfg =
    let (n, ws) = parse_num u32_max v name cfg.warnings in
    record cfg { connect_timeout_ms = or_else n cfg.connect_timeout_ms; warnings = ws }

unfoldable pub set_accept_timeout : Text → Text → Config → Config
unfolding parse_num
set_accept_timeout name v cfg =
    let (n, ws) = parse_num u32_max v name cfg.warnings in
    record cfg { accept_timeout_ms = or_else n cfg.accept_timeout_ms; warnings = ws }

abbrev pub set_port_fallback : Text → Config → Config
set_port_fallback v cfg = record cfg { udp_port_fallback = parse_bool v }

abbrev pub set_peer_check : Text → Config → Config
set_peer_check v cfg = record cfg { peer_check = parse_bool v }

abbrev pub set_allow : (Text → Option IpAddr) → Text → Config → Config
set_allow parse_ip v cfg = record cfg { allow = parse_ip_list parse_ip v }

unfoldable pub apply_map : (Text → Option IpAddr) → IniMap → Config → Config
unfolding get set_host set_remote_port set_local_port starts_with_ci is_blank set_channels
    set_connect_timeout set_accept_timeout parse_bool parse_ip_list
apply_map parse_ip m c0 =
    let c1 = over (get m (codes "host")) (set_host (codes "host")) c0 in
    let c2 = over (get m (codes "port")) (set_remote_port (codes "port")) c1 in
    let c3 = over (get m (codes "localport")) (set_local_port (codes "localport")) c2 in
    let c4 = over (get m (codes "proto")) set_proto c3 in
    let c5 = over (get m (codes "tcprole")) set_tcp_role c4 in
    let c6 = over (get m (codes "log")) set_log c5 in
    let c7 = over (get m (codes "channels")) (set_channels (codes "channels")) c6 in
    let c8 =
      over (get m (codes "connecttimeout")) (set_connect_timeout (codes "connecttimeout")) c7 in
    let c9 = over (get m (codes "accepttimeout")) (set_accept_timeout (codes "accepttimeout")) c8 in
    let c10 = over (get m (codes "udpportfallback")) set_port_fallback c9 in
    let c11 = over (get m (codes "peercheck")) set_peer_check c10 in
    over (get m (codes "allow")) (set_allow parse_ip) c11

-- `e` looks a variable up.
unfoldable pub apply_env_with : (Text → Option IpAddr) → (Text → Option Text) → Config → Config
unfolding set_host set_remote_port set_local_port starts_with_ci is_blank set_channels
    set_connect_timeout set_accept_timeout parse_bool parse_ip_list
apply_env_with parse_ip e c0 =
    let c1 = over (e (codes "KVASILLONI_HOST")) (set_host (codes "KVASILLONI_HOST")) c0 in
    let c2 = over (e (codes "KVASILLONI_PORT")) (set_remote_port (codes "KVASILLONI_PORT")) c1 in
    let c3 =
      over (e (codes "KVASILLONI_LOCALPORT")) (set_local_port (codes "KVASILLONI_LOCALPORT")) c2 in
    let c4 = over (e (codes "KVASILLONI_PROTO")) set_proto c3 in
    let c5 = over (e (codes "KVASILLONI_TCPROLE")) set_tcp_role c4 in
    let c6 = over (e (codes "KVASILLONI_LOG")) set_log c5 in
    let c7 =
      over (e (codes "KVASILLONI_CHANNELS")) (set_channels (codes "KVASILLONI_CHANNELS")) c6 in
    let c8 =
      over (e (codes "KVASILLONI_CONNECT_TIMEOUT"))
        (set_connect_timeout (codes "KVASILLONI_CONNECT_TIMEOUT")) c7 in
    let c9 =
      over (e (codes "KVASILLONI_ACCEPT_TIMEOUT"))
        (set_accept_timeout (codes "KVASILLONI_ACCEPT_TIMEOUT")) c8 in
    let c10 = over (e (codes "KVASILLONI_UDP_PORT_FALLBACK")) set_port_fallback c9 in
    let c11 = over (e (codes "KVASILLONI_PEER_CHECK")) set_peer_check c10 in
    over (e (codes "KVASILLONI_ALLOW")) (set_allow parse_ip) c11

-- The process: its variables, its files by path, and the folders of the DLL and of the program.
pub record Host : Type 0 where
  pub parse_ip : Text → Option IpAddr
  pub env : Text → Option Text
  pub read_file : Text → Option Text
  pub ini_in_dll_dir : Option Text
  pub ini_in_exe_dir : Option Text

abbrev explicit_path : Option Text → List Text
explicit_path none = []
explicit_path (some p) = if is_blank p then [] else p ∷ []

abbrev optional_path : Option Text → List Text
optional_path none = []
optional_path (some p) = p ∷ []

abbrev first_or : Option Text → Option IniMap → Option IniMap
first_or none later = later
first_or (some text) later = some (parse_ini text)

unfoldable pub first_readable : (Text → Option Text) → List Text → Option IniMap
unfolding parse_ini
first_readable read_file [] = none
first_readable read_file (p ∷ ps) = first_or (read_file p) (first_readable read_file ps)

unfoldable pub find_and_parse_ini : Host → Option IniMap
unfolding first_readable is_blank
find_and_parse_ini h = first_readable h.read_file (
    explicit_path (h.env (codes "KVASILLONI_INI"))
    ++ optional_path h.ini_in_dll_dir
    ++ optional_path h.ini_in_exe_dir)

abbrev pub with_ini : (Text → Option IpAddr) → Option IniMap → Config → Config
with_ini parse_ip none cfg = cfg
with_ini parse_ip (some m) cfg = apply_map parse_ip m cfg

unfoldable pub load : Host → Config
unfolding find_and_parse_ini apply_map apply_env_with
load h = apply_env_with h.parse_ip h.env (with_ini h.parse_ip (find_and_parse_ini h) default_config)
