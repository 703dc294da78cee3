-- ===== src/Transport/Opening.antt =====
-- What holds of every connection that `connect` returns.
use kvasilloni.Prelude.{
  ℕ, ◌≡◌, refl, sym, inl, inr, Bool-cases, Bool, true, false, not, List, [], ◌∷◌, Option, none,
  some, if◌then◌else◌, arith,
}
use kvasilloni.Prelude.Text.{text_eq, trim}
use kvasilloni.Wire.Flags.{connect_v1}
use kvasilloni.Config.Types.{Config}
use kvasilloni.Transport.Peers.{
  IpAddr, SocketAddr, wildcard_for, would_block, IoResult, ok, err, ◌>>=◌, bind_udp,
  effective_allow, peer_allowed,
}
use mathlib.Core.Path.{subst}
use kvasilloni.Transport.Allowed.{MayEnter, peer_allowed-MayEnter}
use kvasilloni.Transport.Conn.{
  udp, tcp, Conn, Sockets, handshake, accept_loop, accept_with_timeout, connect, connect_udp,
  connect_tcp, parsed, new_conn,
}

-- A step of a chain of results that succeeds.
bind-ok {ℓ κ} :
    {A : Type ℓ} {B : Type κ} (m : IoResult A) (k : A → IoResult B) {b : B}
    → (m >>= k) ≡ ok b
    → (a : A) × (m ≡ ok a) × (k a ≡ ok b)
bind-ok (ok a) k h = (a, refl, h)
bind-ok (err e) k h = cc

ok-injective : (a b : IpAddr) → Path (IoResult IpAddr) (ok a) (ok b) → a ≡ b
ok-injective a b e = cc

pub accept_loop-allowed :
    (blocking : IoResult (Unit {0})) (events : List (IoResult IpAddr × Bool)) (allow : List IpAddr)
    (check : Bool) (a : IpAddr)
    → accept_loop blocking events allow check ≡ ok a
    → peer_allowed a allow check ≡ true
unfolding accept_loop
accept_loop-allowed blocking [] allow check a h = cc
accept_loop-allowed blocking ((ok b, late) ∷ rest) allow check a h =
    ground (arith, accept_loop-allowed blocking rest allow check a)
accept_loop-allowed blocking ((err would_block, late) ∷ rest) allow check a h =
    ground (arith, accept_loop-allowed blocking rest allow check a)
accept_loop-allowed blocking ((err e, late) ∷ rest) allow check a h = cc

-- The peer at this address sent the banner of the protocol.
abbrev pub Greeted : Sockets → IpAddr → Type 0
Greeted net peer =
    (buf : List ℕ) × (net.read_banner peer ≡ ok buf) × (text_eq buf connect_v1 ≡ true)

-- `accept` gave a stream from this address.
pub data Arrived (a : IpAddr) : List (IoResult IpAddr × Bool) → Type 0 where
  now : {late : Bool} {rest : List (IoResult IpAddr × Bool)} → Arrived a ((ok a, late) ∷ rest)
  afterwards :
      {e : IoResult IpAddr × Bool} {rest : List (IoResult IpAddr × Bool)}
      → Arrived a rest
      → Arrived a (e ∷ rest)

-- The peer of the stream: it came, may enter, and greeted.
abbrev pub Admitted : Sockets → Config → IpAddr → Type 0
Admitted net cfg peer = (a : IpAddr) × Arrived a net.accepts × MayEnter cfg peer a × Greeted net a

accept_loop-Arrived :
    (blocking : IoResult (Unit {0})) (events : List (IoResult IpAddr × Bool)) (allow : List IpAddr)
    (check : Bool) (a : IpAddr)
    → accept_loop blocking events allow check ≡ ok a
    → Arrived a events
unfolding accept_loop
accept_loop-Arrived blocking [] allow check a h = cc
accept_loop-Arrived blocking ((ok b, late) ∷ rest) allow check a h =
    elim (Bool-cases (peer_allowed b allow check)) [
      | inl enters ↦
          let (u, _, same) = bind-ok blocking (λ u. ok b) (rw enters at h) in
          subst (λ x. Arrived x ((ok b, late) ∷ rest)) (ok-injective b a same) now
      | inr refused ↦ elim (Bool-cases late) [
        | inl over ↦ let e = rw (refused, over) at h in cc
        | inr early ↦
            afterwards (accept_loop-Arrived blocking rest allow check a (rw (refused, early) at h))
      ]
    ]
accept_loop-Arrived blocking ((err would_block, late) ∷ rest) allow check a h =
    elim (Bool-cases late) [
      | inl over ↦ let e = rw over at h in cc
      | inr early ↦ afterwards (accept_loop-Arrived blocking rest allow check a (rw early at h))
    ]
accept_loop-Arrived blocking ((err e, late) ∷ rest) allow check a h = cc

handshake-ok :
    (net : Sockets) (peer : IpAddr) {u : Unit {0}} → handshake net peer ≡ ok u → Greeted net peer
unfolding handshake
handshake-ok net peer h =
    let (c, _, h1) = bind-ok net.try_clone _ h in
    let (t, _, h2) = bind-ok net.set_timeout _ h1 in
    let (w, _, h3) = bind-ok (net.write_banner connect_v1) _ h2 in
    let (buf, read, h4) = bind-ok (net.read_banner peer) _ h3 in (buf, read, ground arith)

accepted-ok :
    (blocking : IoResult (Unit {0})) (events : List (IoResult IpAddr × Bool)) (allow : List IpAddr)
    (check : Bool) (a : IpAddr)
    → accept_with_timeout blocking events allow check ≡ ok a
    → Arrived a events × (peer_allowed a allow check ≡ true)
unfolding accept_with_timeout
accepted-ok blocking events allow check a h =
    let (b, _, h1) = bind-ok blocking _ h in
    (
      accept_loop-Arrived blocking events allow check a h1,
      accept_loop-allowed blocking events allow check a h1,
    )

-- The connection is fresh: ready, running, with an empty ring and no filter or callback.
abbrev pub IsFresh : Conn → Type 0
IsFresh c = c ≡ new_conn c.tx c.local_port

connect_udp-ok :
    (net : Sockets) (cfg : Config) (peer : IpAddr) (remote : SocketAddr) (c : Conn)
    → connect_udp net cfg peer remote ≡ ok c
    → IsFresh c × (c.tx ≡ udp remote 0)
unfolding connect_udp
connect_udp-ok net cfg peer remote c h =
    let (port, _, h1) = bind-ok (bind_udp net.bind _ cfg.udp_port_fallback) _ h in
    let (d, _, h2) = bind-ok net.try_clone _ h1 in
    let (e, _, h3) = bind-ok net.try_clone _ h2 in
    let (t, _, h4) = bind-ok net.set_timeout _ h3 in (ground arith, ground arith)

abbrev server_side : Sockets → Config → IpAddr → IoResult IpAddr
server_side net cfg peer = do
  l ← net.listen (record { ip = wildcard_for peer; port = cfg.local_port })
  b ← net.set_nonblocking
  accept_with_timeout net.set_nonblocking net.accepts (effective_allow cfg.allow peer)
      cfg.peer_check

server_side-ok :
    (net : Sockets) (cfg : Config) (peer a : IpAddr)
    → server_side net cfg peer ≡ ok a
    → Arrived a net.accepts × MayEnter cfg peer a
server_side-ok net cfg peer a h =
    let (l, _, h1) = bind-ok (net.listen _) _ h in
    let (b, _, h2) = bind-ok net.set_nonblocking _ h1 in
    let (came, allowed) =
      accepted-ok net.set_nonblocking net.accepts (effective_allow cfg.allow peer) cfg.peer_check a
        h2 in
    (came, peer_allowed-MayEnter cfg peer a allowed)

-- As a server it greeted a peer that came and may enter, as a client the one it connected to.
abbrev pub OverTcp : Sockets → Config → IpAddr → Type 0
OverTcp net cfg peer =
    (cfg.tcp_server ≡ true → Admitted net cfg peer)
    × (cfg.tcp_server ≡ false
        → (net.connect_timeout (record { ip = peer; port = cfg.remote_port }) ≡ ok tt)
          × Greeted net peer)

abbrev client_side : Sockets → SocketAddr → IoResult IpAddr
client_side net remote = do u ← net.connect_timeout remote; ok remote.ip

connect_tcp-ok :
    (net : Sockets) (cfg : Config) (peer : IpAddr) (c : Conn)
    → connect_tcp net cfg peer (record { ip = peer; port = cfg.remote_port }) ≡ ok c
    → IsFresh c × (c.tx ≡ tcp) × OverTcp net cfg peer
unfolding connect_tcp
connect_tcp-ok net cfg peer c h =
    let remote : SocketAddr = record { ip = peer; port = cfg.remote_port } in
    let (a, reached, h1) =
      bind-ok (if cfg.tcp_server then server_side net cfg peer else client_side net remote) _ h in
    let (w, shaken, h2) = bind-ok (handshake net a) _ h1 in
    let (d, _, h3) = bind-ok net.try_clone _ h2 in
    let (e, _, h4) = bind-ok net.try_clone _ h3 in
    let greeted = handshake-ok net a shaken in
    (
      ground arith,
      ground arith,
      (
        λ server.
            let (came, enters) = server_side-ok net cfg peer a (rw server at reached) in
            (a, came, enters, greeted),
        λ client.
            let (u, connected, same) =
              bind-ok (net.connect_timeout remote) (λ u. ok remote.ip) (rw client at reached) in
            (connected, subst (Greeted net) (sym (ok-injective peer a same)) greeted),
      ),
    )

abbrev pub Opened : Sockets → Config → IpAddr → Conn → Type 0
Opened net cfg peer c =
    IsFresh c
    × (cfg.tcp ≡ false → c.tx ≡ udp (record { ip = peer; port = cfg.remote_port }) 0)
    × (cfg.tcp ≡ true → (c.tx ≡ tcp) × OverTcp net cfg peer)

parsed-ok : (o : Option IpAddr) {a : IpAddr} → parsed o ≡ ok a → o ≡ some a
parsed-ok none h = cc
parsed-ok (some b) h = ground arith

by_protocol :
    (net : Sockets) (cfg : Config) (peer : IpAddr) (c : Conn) (is_tcp : Bool)
    → let remote : SocketAddr = record { ip = peer; port = cfg.remote_port } in
      (if not is_tcp then connect_udp net cfg peer remote else connect_tcp net cfg peer remote)
        ≡ ok c
      → IsFresh c
        × (is_tcp ≡ false → c.tx ≡ udp (record { ip = peer; port = cfg.remote_port }) 0)
        × (is_tcp ≡ true → (c.tx ≡ tcp) × OverTcp net cfg peer)
by_protocol net cfg peer c true h =
    let (fresh, kind, over) = connect_tcp-ok net cfg peer c h in (fresh, λ e. cc, λ e. (kind, over))
by_protocol net cfg peer c false h =
    let (fresh, kind) = connect_udp-ok net cfg peer _ c h in (fresh, λ e. kind, λ e. cc)

-- A connection that `connect` returns is fresh, and its host parsed to an address. Over UDP it
-- sends to that address and the configured port, from sequence number 0. Over TCP the peer of its
-- stream sent the banner of the protocol: as a client that is the host, at the configured port; as a
-- server it is a peer that `accept` gave, and with the peer check on its address is in the configured
-- list or, where that is empty, is that of the host.
pub connect-ok :
    (net : Sockets) (cfg : Config) (c : Conn)
    → connect net cfg ≡ ok c
    → (peer : IpAddr) × (net.parse_ip (trim cfg.host) ≡ some peer) × Opened net cfg peer c
unfolding connect
connect-ok net cfg c h =
    let (peer, is_peer, h1) = bind-ok (parsed (net.parse_ip (trim cfg.host))) _ h in
    (peer, parsed-ok (net.parse_ip (trim cfg.host)) is_peer, by_protocol net cfg peer c cfg.tcp h1)
