-- ===== src/UnitTests/TransportConn.antt =====
-- The tests of src/transport.rs on connections. The operating system's sockets are the record of
-- their answers.
use kvasilloni.Prelude.{
  ℕ, zero, suc, ◌≡◌, ◌<◌, ◌≢◌, refl, arith, Bool, true, false, not, List, [], ◌∷◌, ◌++◌, none, some,
  replicate, ◌==◌, if◌then◌else◌,
}
use kvasilloni.Prelude.Exec.{Exec, done, panic, ◌>>=◌}
use kvasilloni.Prelude.Text.{codes, text_eq, trim}
use kvasilloni.Wire.Flags.{connect_v1}
use kvasilloni.Wire.Encode.{encode_frame}
use kvasilloni.Config.Types.{Config, default_config, localhost}
use kvasilloni.Transport.Peers.{
  v4, IpAddr, SocketAddr, ip_eq, IoError, invalid_input, invalid_data, timed_out, addr_in_use,
  would_block, IoResult, ok, err, bind_udp,
}
use kvasilloni.Transport.Filter.{accepts}
use kvasilloni.Transport.Shared.{notify_rx, push, pop, set_notify}
use kvasilloni.Transport.Conn.{
  tcp, Conn, new_conn, Sockets, handshake, accept_loop, accept_with_timeout, connect, is_ready,
  wrote, WriteResult, write, close, Joining, detached, already,
}
use kvasilloni.Transport.ConnRx.{set_conn_notify}
use kvasilloni.Transport.Teardown.{tcp_rx_loop}
use kvasilloni.UnitTests.Asserts.{Test, passed, ◌>>◌, assert, expect, nth}
use kvasilloni.UnitTests.TransportRing.{frame, gives_id, some_cb, v4_of}
use kvasilloni.UnitTests.TransportLoops.{loopback_v4}

abbrev pub tcp_cfg : Bool → ℕ → ℕ → Config
tcp_cfg server remote local = record default_config {
  host = localhost;
  remote_port = remote;
  local_port = local;
  tcp = true;
  tcp_server = server;
  peer_check = false;
  connect_timeout_ms = 1000;
  accept_timeout_ms = 5000;
}

abbrev pub udp_cfg : ℕ → ℕ → Config
udp_cfg remote local = record default_config {
  host = localhost;
  remote_port = remote;
  local_port = local;
  tcp = false;
  peer_check = false;
}

-- Sockets over the loopback interface with a cannelloni peer: every call succeeds.
abbrev pub loopback : Sockets
loopback = record {
  parse_ip = λ t. if text_eq t localhost then some loopback_v4 else none;
  bind = λ a. ok 40000;
  listen = λ a. ok tt;
  try_clone = ok tt;
  set_timeout = ok tt;
  set_nonblocking = ok tt;
  accepts = (ok loopback_v4, false) ∷ [];
  connect_timeout = λ a. ok tt;
  write_banner = λ b. ok tt;
  read_banner = λ peer. ok connect_v1;
  local_addr = some 40000;
}

-- `unwrap`
abbrev pub unwrap {ℓ} : {A : Type ℓ} → IoResult A → Exec A
unwrap (ok a) = done a
unwrap (err e) = panic

-- `unwrap_err().kind()`
abbrev pub unwrap_err {ℓ} : {A : Type ℓ} → IoResult A → Exec IoError
unwrap_err (ok a) = panic
unwrap_err (err e) = done e

abbrev pub is_invalid_input : IoError → Bool
is_invalid_input invalid_input = true
is_invalid_input _ = false

abbrev pub is_invalid_data : IoError → Bool
is_invalid_data invalid_data = true
is_invalid_data _ = false

abbrev pub is_timed_out : IoError → Bool
is_timed_out timed_out = true
is_timed_out _ = false

unfoldable pub conn_connect_rejects_non_ip_host : Sockets → Test
unfolding connect
conn_connect_rejects_non_ip_host net = do
  let cfg = record (tcp_cfg false 20000 0) { host = codes "not-an-ip" }
  e ← unwrap_err (connect net cfg)
  assert (is_invalid_input e)

conn_connect_rejects_non_ip_host_passes :
    (net : Sockets)
    → net.parse_ip (codes "not-an-ip") ≡ none
    → conn_connect_rejects_non_ip_host net ≡ passed
unfolding conn_connect_rejects_non_ip_host trim
conn_connect_rejects_non_ip_host_passes net e = rw e refl

abbrev pub is_wrote : WriteResult → Bool
is_wrote wrote = true
is_wrote _ = false

-- What one side writes is the stream that the other side's receive loop reads.
unfoldable pub passes_frame : ℕ → Conn → Conn → ℕ → Test
unfolding write tcp_rx_loop pop
passes_frame now from to id = do
  let w = write (record { send_to = λ pkt a. ok 0; write_all = λ buf. ok tt }) (frame id) from
  assert (is_wrote w.result)
  bytes ← nth w.sent 0
  (c, _) ← tcp_rx_loop now bytes to
  gives_id (pop c.shared).1 id

unfoldable pub conn_tcp_exchanges_frame_both_directions : ℕ → ℕ → Test
unfolding connect passes_frame
conn_tcp_exchanges_frame_both_directions now port = do
  server ← unwrap (connect loopback (tcp_cfg true port port))
  client ← unwrap (connect loopback (tcp_cfg false port 0))
  passes_frame now client server 0x321
  passes_frame now server client 0x654

conn_tcp_exchanges_frame_both_directions_passes :
    (now port : ℕ) → conn_tcp_exchanges_frame_both_directions now port ≡ passed
unfolding conn_tcp_exchanges_frame_both_directions trim accepts encode_frame text_eq
conn_tcp_exchanges_frame_both_directions_passes now port = refl

-- Writes with these answers of the socket, until one fails: the connection, and whether one did.
unfoldable pub write_until_error : List (IoResult (Unit {0})) → Conn → Conn × Bool
unfolding write
write_until_error [] c = (c, false)
write_until_error (a ∷ answers) c =
    let w = write (record { send_to = λ pkt r. ok 0; write_all = λ buf. a }) (frame 0x111) c in
    let later = write_until_error answers w.conn in
    if is_wrote w.result then later else (w.conn, true)

-- The peer is gone: the writes that still fit the socket's buffer succeed, the next one does not.
unfoldable pub conn_tcp_write_error_tears_down_connection : ℕ → IoError → Test
unfolding connect write_until_error
conn_tcp_write_error_tears_down_connection n e = do
  client ← unwrap (connect loopback (tcp_cfg false 20000 0))
  assert (is_ready client)
  let (c, errored) = write_until_error (replicate n (ok tt) ++ err e ∷ []) client
  assert errored
  assert (not (is_ready c))

unfoldable pub handshake_rejects_wrong_banner : Test
unfolding handshake text_eq
handshake_rejects_wrong_banner = do
  let net = record loopback { read_banner = λ peer. ok (codes "NOTCANNELLON") }
  e ← unwrap_err (handshake net (v4 0x7f00_0001))
  assert (is_invalid_data e)

handshake_rejects_wrong_banner_passes : handshake_rejects_wrong_banner ≡ passed
unfolding handshake_rejects_wrong_banner
handshake_rejects_wrong_banner_passes = refl

abbrev client : Conn
client = new_conn tcp 40000

write_until_error-client :
    (n : ℕ) (e : IoError)
    → write_until_error (replicate n (ok tt) ++ err e ∷ []) client
      ≡ (record client { negotiated = false; running = false; shut = true }, true)
unfolding write_until_error write encode_frame
write_until_error-client zero e = refl
write_until_error-client (suc n) e = write_until_error-client n e

conn_tcp_write_error_tears_down_connection_passes :
    (n : ℕ) (e : IoError) → conn_tcp_write_error_tears_down_connection n e ≡ passed
unfolding conn_tcp_write_error_tears_down_connection trim text_eq
conn_tcp_write_error_tears_down_connection_passes n e = rw (write_until_error-client n e) refl

-- Polls that find no client, before the deadline.
abbrev pub polls : ℕ → List (IoResult IpAddr × Bool)
polls n = replicate n (err would_block, false)

unfoldable pub accept_with_timeout_returns_allowed_peer : ℕ → List (IoResult IpAddr × Bool) → Test
unfolding accept_with_timeout
accept_with_timeout_returns_allowed_peer n later = do
  peer ← unwrap (
      accept_with_timeout (ok tt) (polls n ++ (ok loopback_v4, false) ∷ later) (loopback_v4 ∷ [])
        true)
  assert (ip_eq peer loopback_v4)

unfoldable pub accept_with_timeout_rejects_disallowed_then_times_out : ℕ → ℕ → Test
unfolding accept_with_timeout
accept_with_timeout_rejects_disallowed_then_times_out n m = do
  let allow = v4_of 10 255 255 254 ∷ []
  e ←
      unwrap_err
        (accept_with_timeout (ok tt) (polls n ++ (ok loopback_v4, false) ∷ polls m) allow true)
  assert (is_timed_out e)

unfoldable pub accept_with_timeout_times_out_without_client : ℕ → Test
unfolding accept_with_timeout
accept_with_timeout_times_out_without_client n = do
  e ← unwrap_err (accept_with_timeout (ok tt) (polls n) (loopback_v4 ∷ []) true)
  assert (is_timed_out e)

-- Polling makes no difference.
accept_loop-polls :
    (n : ℕ) (events : List (IoResult IpAddr × Bool)) (allow : List IpAddr) (check : Bool)
    → accept_loop (ok tt) (polls n ++ events) allow check ≡ accept_loop (ok tt) events allow check
unfolding accept_loop
accept_loop-polls zero events allow check = refl
accept_loop-polls (suc n) events allow check = accept_loop-polls n events allow check

accept_loop-only_polls :
    (n : ℕ) (allow : List IpAddr) (check : Bool)
    → accept_loop (ok tt) (polls n) allow check ≡ err timed_out
unfolding accept_loop
accept_loop-only_polls zero allow check = refl
accept_loop-only_polls (suc n) allow check = accept_loop-only_polls n allow check

accept_with_timeout_returns_allowed_peer_passes :
    (n : ℕ) (later : List (IoResult IpAddr × Bool))
    → accept_with_timeout_returns_allowed_peer n later ≡ passed
unfolding accept_with_timeout_returns_allowed_peer
accept_with_timeout_returns_allowed_peer_passes n later =
    rw (accept_loop-polls n ((ok loopback_v4, false) ∷ later) (loopback_v4 ∷ []) true)
      (unfold accept_loop in refl)

accept_with_timeout_rejects_disallowed_then_times_out_passes :
    (n m : ℕ) → accept_with_timeout_rejects_disallowed_then_times_out n m ≡ passed
unfolding accept_with_timeout_rejects_disallowed_then_times_out accept_loop
accept_with_timeout_rejects_disallowed_then_times_out_passes n m =
    rw
      (
        accept_loop-polls n ((ok loopback_v4, false) ∷ polls m) (v4_of 10 255 255 254 ∷ []) true,
        accept_loop-only_polls m (v4_of 10 255 255 254 ∷ []) true,
      )
      refl

accept_with_timeout_times_out_without_client_passes :
    (n : ℕ) → accept_with_timeout_times_out_without_client n ≡ passed
unfolding accept_with_timeout_times_out_without_client
accept_with_timeout_times_out_without_client_passes n =
    rw (accept_loop-only_polls n (loopback_v4 ∷ []) true) refl

unfoldable pub bind_udp_falls_back_to_ephemeral_when_busy :
    (SocketAddr → IoResult ℕ) → SocketAddr → Test
unfolding bind_udp
bind_udp_falls_back_to_ephemeral_when_busy bind addr = do
  got ← unwrap (bind_udp bind addr true)
  assert (not (got == 0))
  assert (not (got == addr.port))

bind_udp_falls_back_to_ephemeral_when_busy_passes :
    (bind : SocketAddr → IoResult ℕ) (addr : SocketAddr) (p : ℕ)
    → bind addr ≡ err addr_in_use
    → bind (record addr { port = 0 }) ≡ ok p
    → 0 < addr.port
    → 0 < p
    → p ≢ addr.port
    → bind_udp_falls_back_to_ephemeral_when_busy bind addr ≡ passed
unfolding bind_udp_falls_back_to_ephemeral_when_busy
bind_udp_falls_back_to_ephemeral_when_busy_passes bind addr p busy free h k d =
    ground (arith, busy, free)

-- The callback closes the connection on the receive thread; the owner closes it again later.
abbrev pub is_detached : Joining → Bool
is_detached detached = true
is_detached _ = false

abbrev pub is_already : Joining → Bool
is_already already = true
is_already _ = false

unfoldable pub close_from_notify_callback_detaches_not_self_joins : ℕ → Test
unfolding connect push close accepts
close_from_notify_callback_detaches_not_self_joins now = do
  conn ← unwrap (connect loopback (udp_cfg 0 0))
  let armed = set_conn_notify some_cb notify_rx 0 conn
  let (s, call) = push now (frame 0x123) armed.shared
  c ← expect call
  let (closed, joining) = close true (record armed { shared = s })
  assert (is_detached joining)
  assert (is_already (close false closed).1)

close_from_notify_callback_detaches_not_self_joins_passes :
    (now : ℕ) → close_from_notify_callback_detaches_not_self_joins now ≡ passed
unfolding close_from_notify_callback_detaches_not_self_joins trim set_notify text_eq bind_udp
close_from_notify_callback_detaches_not_self_joins_passes now = refl
