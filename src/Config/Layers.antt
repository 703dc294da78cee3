-- ===== src/Config/Layers.antt =====
-- Which layer a setting comes from, for the remote port.
use kvasilloni.Prelude.{
  ℕ, ◌≡◌, refl, ap, ◌∙◌, inl, inr, List, Option, none, some, Bool-cases, if◌then◌else◌,
}
use kvasilloni.Prelude.Text.{codes, trim, is_blank}
use kvasilloni.Config.Types.{Text, Warning, Config, default_config}
use kvasilloni.Config.Text.{parse_num, warned, u16_max}
use kvasilloni.Config.Ini.{IniMap, get}
use kvasilloni.Config.Load.{
  over, or_else, set_host, set_remote_port, set_local_port, set_proto, set_tcp_role, set_log,
  set_channels, set_connect_timeout, set_accept_timeout, set_port_fallback, set_peer_check,
  set_allow, apply_map, apply_env_with, Host, with_ini, find_and_parse_ini, load,
}
use kvasilloni.Config.Numbers.{number_of, parse_num-eq}
use kvasilloni.Transport.Peers.{IpAddr}

-- The number that a setting holds, if it is there, not blank, and well formed.
abbrev pub number_in : ℕ → Option Text → Option ℕ
number_in max none = none
number_in max (some v) = if is_blank (trim v) then none else number_of max (trim v)

abbrev pub ini_value : Option IniMap → Text → Option Text
ini_value none key = none
ini_value (some m) key = get m key

warned-value : (val name : Text) (ws : List Warning) (r : Option ℕ) → (warned val name ws r).0 ≡ r
warned-value val name ws none = refl
warned-value val name ws (some n) = refl

pub parse_num-value :
    (max : ℕ) (val name : Text) (ws : List Warning)
    → (parse_num max val name ws).0 ≡ number_in max (some val)
parse_num-value max val name ws =
    ap (λ p. p.0) (parse_num-eq max val name ws) ∙ elim (Bool-cases (is_blank (trim val))) [
      | inl blank ↦ rw blank refl
      | inr text ↦ rw text (warned-value val name ws (number_of max (trim val)))
    ]

-- A setting that leaves the remote port alone.
over-remote_port :
    (o : Option Text) (set : Text → Config → Config) (c : Config)
    → ((v : Text) (d : Config) → (set v d).remote_port ≡ d.remote_port)
    → (over o set c).remote_port ≡ c.remote_port
over-remote_port none set c h = refl
over-remote_port (some v) set c h = h v c

set_host-remote_port :
    (name v : Text) (c : Config) → (set_host name v c).remote_port ≡ c.remote_port
unfolding set_host
set_host-remote_port name v c = elim (Bool-cases (is_blank (trim v))) [
  | inl e ↦ rw e refl
  | inr e ↦ rw e refl
]

set_log-remote_port : (v : Text) (c : Config) → (set_log v c).remote_port ≡ c.remote_port
set_log-remote_port v c = elim (Bool-cases (is_blank v)) [ inl e ↦ rw e refl | inr e ↦ rw e refl ]

over-set_remote_port :
    (name : Text) (o : Option Text) (c : Config)
    → (over o (set_remote_port name) c).remote_port ≡ or_else (number_in u16_max o) c.remote_port
unfolding set_remote_port
over-set_remote_port name none c = refl
over-set_remote_port name (some v) c =
    ap (λ r. or_else r c.remote_port) (parse_num-value u16_max v name c.warnings)

apply_map-remote_port :
    (parse_ip : Text → Option IpAddr) (m : IniMap) (c : Config)
    → (apply_map parse_ip m c).remote_port
      ≡ or_else (number_in u16_max (get m (codes "port"))) c.remote_port
unfolding apply_map
apply_map-remote_port parse_ip m c =
    over-remote_port (get m (codes "allow")) (set_allow parse_ip) _ (λ v d. refl)
    ∙ over-remote_port (get m (codes "peercheck")) set_peer_check _ (λ v d. refl)
    ∙ over-remote_port (get m (codes "udpportfallback")) set_port_fallback _ (λ v d. refl)
    ∙ over-remote_port (get m (codes "accepttimeout")) (set_accept_timeout (codes "accepttimeout"))
        _ (λ v d. unfold set_accept_timeout in refl)
    ∙ over-remote_port (get m (codes "connecttimeout"))
        (set_connect_timeout (codes "connecttimeout")) _ (λ v d. unfold set_connect_timeout in refl)
    ∙ over-remote_port (get m (codes "channels")) (set_channels (codes "channels")) _
        (λ v d. unfold set_channels in refl)
    ∙ over-remote_port (get m (codes "log")) set_log _ set_log-remote_port
    ∙ over-remote_port (get m (codes "tcprole")) set_tcp_role _ (λ v d. refl)
    ∙ over-remote_port (get m (codes "proto")) set_proto _ (λ v d. refl)
    ∙ over-remote_port (get m (codes "localport")) (set_local_port (codes "localport")) _
        (λ v d. unfold set_local_port in refl)
    ∙ over-set_remote_port (codes "port") (get m (codes "port")) _
    ∙ ap (or_else (number_in u16_max (get m (codes "port")))) (
        over-remote_port (get m (codes "host")) (set_host (codes "host")) c
          (set_host-remote_port (codes "host")))

apply_env_with-remote_port :
    (parse_ip : Text → Option IpAddr) (e : Text → Option Text) (c : Config)
    → (apply_env_with parse_ip e c).remote_port
      ≡ or_else (number_in u16_max (e (codes "KVASILLONI_PORT"))) c.remote_port
unfolding apply_env_with
apply_env_with-remote_port parse_ip e c =
    over-remote_port (e (codes "KVASILLONI_ALLOW")) (set_allow parse_ip) _ (λ v d. refl)
    ∙ over-remote_port (e (codes "KVASILLONI_PEER_CHECK")) set_peer_check _ (λ v d. refl)
    ∙ over-remote_port (e (codes "KVASILLONI_UDP_PORT_FALLBACK")) set_port_fallback _ (λ v d. refl)
    ∙ over-remote_port (e (codes "KVASILLONI_ACCEPT_TIMEOUT"))
        (set_accept_timeout (codes "KVASILLONI_ACCEPT_TIMEOUT")) _
        (λ v d. unfold set_accept_timeout in refl)
    ∙ over-remote_port (e (codes "KVASILLONI_CONNECT_TIMEOUT"))
        (set_connect_timeout (codes "KVASILLONI_CONNECT_TIMEOUT")) _
        (λ v d. unfold set_connect_timeout in refl)
    ∙ over-remote_port (e (codes "KVASILLONI_CHANNELS"))
        (set_channels (codes "KVASILLONI_CHANNELS")) _ (λ v d. unfold set_channels in refl)
    ∙ over-remote_port (e (codes "KVASILLONI_LOG")) set_log _ set_log-remote_port
    ∙ over-remote_port (e (codes "KVASILLONI_TCPROLE")) set_tcp_role _ (λ v d. refl)
    ∙ over-remote_port (e (codes "KVASILLONI_PROTO")) set_proto _ (λ v d. refl)
    ∙ over-remote_port (e (codes "KVASILLONI_LOCALPORT"))
        (set_local_port (codes "KVASILLONI_LOCALPORT")) _ (λ v d. unfold set_local_port in refl)
    ∙ over-set_remote_port (codes "KVASILLONI_PORT") (e (codes "KVASILLONI_PORT")) _
    ∙ ap (or_else (number_in u16_max (e (codes "KVASILLONI_PORT")))) (
        over-remote_port (e (codes "KVASILLONI_HOST")) (set_host (codes "KVASILLONI_HOST")) c
          (set_host-remote_port (codes "KVASILLONI_HOST")))

with_ini-remote_port :
    (parse_ip : Text → Option IpAddr) (m : Option IniMap) (c : Config)
    → (with_ini parse_ip m c).remote_port
      ≡ or_else (number_in u16_max (ini_value m (codes "port"))) c.remote_port
with_ini-remote_port parse_ip none c = refl
with_ini-remote_port parse_ip (some m) c = apply_map-remote_port parse_ip m c

-- The remote port is the one of the environment if that is there and well formed, or else the one
-- of the INI file if that is, or else 20000; no other setting has a part in it.
pub load-remote_port :
    (h : Host)
    → (load h).remote_port
      ≡ or_else
          (number_in u16_max (h.env (codes "KVASILLONI_PORT")))
          (or_else (number_in u16_max (ini_value (find_and_parse_ini h) (codes "port"))) 20000)
unfolding load
load-remote_port h =
    apply_env_with-remote_port h.parse_ip h.env _
    ∙ ap (or_else (number_in u16_max (h.env (codes "KVASILLONI_PORT"))))
        (with_ini-remote_port h.parse_ip (find_and_parse_ini h) default_config)
