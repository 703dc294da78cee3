-- ===== src/Transport/Conn.antt =====
-- `Conn` of src/transport.rs. What the socket library answers is an argument. The flags are the
-- atomics of the source; `shut` says that `shutdown(Both)` was called on the stream.
use kvasilloni.Prelude.{
  ℕ, ◌+◌, ◌%◌, Bool, true, false, not, List, [], ◌∷◌, Option, none, some, length, ◌==◌,
  if◌then◌else◌,
}
use kvasilloni.Prelude.Exec.{Exec, done, panic}
use kvasilloni.Prelude.Text.{trim, text_eq}
use kvasilloni.Wire.Flags.{connect_v1}
use kvasilloni.Wire.Frame.{Frame}
use kvasilloni.Wire.Encode.{encode_frame, build_udp}
use kvasilloni.Config.Types.{Text, Config}
use kvasilloni.Transport.Peers.{
  IpAddr, SocketAddr, wildcard_for, IoError, invalid_input, not_connected, lock_poisoned,
  short_send, would_block, timed_out, invalid_data, IoResult, ok, err, ◌>>=◌, bind_udp,
  effective_allow, peer_allowed,
}
use kvasilloni.Transport.Shared.{Shared, new_shared, mark_closed}

-- `udp` holds the remote address and the next sequence number.
pub data Tx : Type 0 where
  udp : SocketAddr → ℕ → Tx
  tcp : Tx

pub record Conn : Type 0 where
  pub tx : Tx
  pub tx_poisoned : Bool
  pub shared : Shared
  pub running : Bool
  pub negotiated : Bool
  pub shut : Bool
  pub handle : Bool
  pub local_port : ℕ
  pub fd_capable : Bool

-- The answers of the socket library to one `connect`.
pub record Sockets : Type 0 where
  pub parse_ip : Text → Option IpAddr
  pub bind : SocketAddr → IoResult ℕ
  pub listen : SocketAddr → IoResult (Unit {0})
  pub try_clone : IoResult (Unit {0})
  pub set_timeout : IoResult (Unit {0})
  pub set_nonblocking : IoResult (Unit {0})
  -- the outcomes of `accept` with whether the deadline has passed by then, up to the deadline
  pub accepts : List (IoResult IpAddr × Bool)
  pub connect_timeout : SocketAddr → IoResult (Unit {0})
  pub write_banner : List ℕ → IoResult (Unit {0})
  -- from the stream to a peer
  pub read_banner : IpAddr → IoResult (List ℕ)
  -- the port of `local_addr`
  pub local_addr : Option ℕ

abbrev pub or_port : Option ℕ → ℕ → ℕ
or_port none p = p
or_port (some q) p = q

abbrev pub parsed : Option IpAddr → IoResult IpAddr
parsed none = err invalid_input
parsed (some ip) = ok ip

-- On the stream to `peer`.
unfoldable pub handshake : Sockets → IpAddr → IoResult (Unit {0})
handshake net peer = do
  c ← net.try_clone
  t ← net.set_timeout
  w ← net.write_banner connect_v1
  buf ← net.read_banner peer
  if not (text_eq buf connect_v1) then err invalid_data else net.set_timeout

-- The list ends at the deadline: the next poll finds no client, and time is up.
unfoldable pub accept_loop :
    IoResult (Unit {0}) → List (IoResult IpAddr × Bool) → List IpAddr → Bool → IoResult IpAddr
unfolding peer_allowed
accept_loop blocking [] allow check = err timed_out
accept_loop blocking ((ok a, late) ∷ rest) allow check =
    let again = accept_loop blocking rest allow check in
    if not (peer_allowed a allow check)
    then (if late then err timed_out else again)
    else (do b ← blocking; ok a)
accept_loop blocking ((err would_block, late) ∷ rest) allow check =
    let again = accept_loop blocking rest allow check in if late then err timed_out else again
accept_loop blocking ((err e, late) ∷ rest) allow check = err e

unfoldable pub accept_with_timeout :
    IoResult (Unit {0}) → List (IoResult IpAddr × Bool) → List IpAddr → Bool → IoResult IpAddr
unfolding accept_loop
accept_with_timeout blocking events allow check = do
  b ← blocking
  accept_loop blocking events allow check

abbrev pub new_conn : Tx → ℕ → Conn
new_conn tx local_port = record {
  tx = tx;
  tx_poisoned = false;
  shared = new_shared;
  running = true;
  negotiated = true;
  shut = false;
  handle = true;
  local_port = local_port;
  fd_capable = false;
}

unfoldable pub connect_udp : Sockets → Config → IpAddr → SocketAddr → IoResult Conn
connect_udp net cfg peer_ip remote = do
  port ←
      bind_udp net.bind (record { ip = wildcard_for peer_ip; port = cfg.local_port })
        cfg.udp_port_fallback
  c ← net.try_clone
  d ← net.try_clone
  t ← net.set_timeout
  ok (new_conn (udp remote 0) (or_port net.local_addr cfg.local_port))

-- A stream is known by the address of its peer: `accept_with_timeout` gives that of the accepted one.
unfoldable pub connect_tcp : Sockets → Config → IpAddr → SocketAddr → IoResult Conn
connect_tcp net cfg peer_ip remote = do
  stream ←
      (if cfg.tcp_server
        then (do
          l ← net.listen (record { ip = wildcard_for peer_ip; port = cfg.local_port })
          b ← net.set_nonblocking
          accept_with_timeout net.set_nonblocking net.accepts (effective_allow cfg.allow peer_ip)
              cfg.peer_check)
        else (do u ← net.connect_timeout remote; ok remote.ip))
  h ← handshake net stream
  c ← net.try_clone
  d ← net.try_clone
  ok (new_conn tcp (or_port net.local_addr cfg.local_port))

unfoldable pub connect : Sockets → Config → IoResult Conn
unfolding connect_udp connect_tcp handshake accept_with_timeout
connect net cfg = do
  peer_ip ← parsed (net.parse_ip (trim cfg.host))
  let remote : SocketAddr = record { ip = peer_ip; port = cfg.remote_port }
  if not cfg.tcp then connect_udp net cfg peer_ip remote else connect_tcp net cfg peer_ip remote

abbrev pub set_fd_capable : Bool → Conn → Conn
set_fd_capable fd c = record c { fd_capable = fd }

abbrev pub is_ready : Conn → Bool
is_ready c = c.negotiated

pub data WriteResult : Type 0 where
  wrote panicked : WriteResult
  failed : IoError → WriteResult

-- The connection after a write, its result, and what was handed to the socket.
pub record Written : Type 0 where
  pub conn : Conn
  pub result : WriteResult
  pub sent : List (List ℕ)

-- A panic under the lock of `tx` poisons it.
abbrev poisoned : Conn → Written
poisoned c = record { conn = record c { tx_poisoned = true }; result = panicked; sent = [] }

abbrev pub sent_udp : Conn → List ℕ → IoResult ℕ → Written
sent_udp c pkt (err e) = record { conn = c; result = failed e; sent = pkt ∷ [] }
sent_udp c pkt (ok n) = record {
  conn = c;
  result = if not (n == length pkt) then failed short_send else wrote;
  sent = pkt ∷ [];
}

abbrev pub sent_tcp : Conn → List ℕ → IoResult (Unit {0}) → Written
sent_tcp c buf (ok _) = record { conn = c; result = wrote; sent = buf ∷ [] }
sent_tcp c buf (err e) = record {
  conn = record c { negotiated = false; running = false; shut = true };
  result = failed e;
  sent = buf ∷ [];
}

-- The answers of the socket library to a write.
pub record Wires : Type 0 where
  pub send_to : List ℕ → SocketAddr → IoResult ℕ
  pub write_all : List ℕ → IoResult (Unit {0})

abbrev pub write_udp : Wires → SocketAddr → ℕ → Conn → Exec (List ℕ) → Written
write_udp net remote seq c panic = poisoned c
write_udp net remote seq c (done pkt) =
    sent_udp (record c { tx = udp remote ((seq + 1) % 256) }) pkt (net.send_to pkt remote)

abbrev pub write_tcp : Wires → Conn → Exec (List ℕ) → Written
write_tcp net c panic = poisoned c
write_tcp net c (done buf) = sent_tcp c buf (net.write_all buf)

abbrev pub write_tx : Wires → Frame → Tx → Conn → Written
write_tx net f (udp remote seq) c = write_udp net remote seq c (build_udp f seq)
write_tx net f tcp c = write_tcp net c (encode_frame [] f)

-- `write` from the lock of `tx` on.
abbrev pub write_locked : Wires → Frame → Conn → Written
write_locked net f c =
    if c.tx_poisoned
    then record { conn = c; result = failed lock_poisoned; sent = [] }
    else write_tx net f c.tx c

unfoldable pub write : Wires → Frame → Conn → Written
write net f c =
    if not (is_ready c)
    then record { conn = c; result = failed not_connected; sent = [] }
    else write_locked net f c

-- What `close` does with the receive thread: nothing if an earlier close took the handle.
pub data Joining : Type 0 where
  joined detached already : Joining

abbrev stop_stream : Tx → Bool → Bool
stop_stream tcp shut = true
stop_stream (udp remote seq) shut = shut

-- `on_rx`: the caller is the receive thread itself, inside a notify callback.
unfoldable pub close : Bool → Conn → Conn × Joining
unfolding mark_closed
close on_rx c = (
  record c {
    running = false;
    negotiated = false;
    shared = mark_closed c.shared;
    shut = stop_stream c.tx c.shut;
    handle = false;
  },
  if c.handle then (if on_rx then detached else joined) else already,
)
