-- ===== src/Transport/Tests.antt =====
-- The transport on concrete frames, streams and connections.
use kvasilloni.Prelude.{
  ℕ, ◌≤◌, ◌<◌, ◌≡◌, ◌↔◌, refl, List, [], ◌∷◌, ◌++◌, map, some, true, false, drop, length, arith,
}
use kvasilloni.Prelude.Bytes.{IsBytes}
use kvasilloni.Prelude.Exec.{done}
use kvasilloni.Prelude.Text.{trim, text_eq}
use kvasilloni.Wire.Flags.{connect_v1}
use kvasilloni.Wire.Frame.{Frame}
use kvasilloni.Wire.Encode.{encode_frames}
use kvasilloni.Wire.Encoded.{delivered, wire_bytes}
use kvasilloni.Wire.Tests.{
  classic_two, fd_twelve, classic_two-IsSendable, fd_twelve-IsSendable, packet, packet-IsBytes,
  parse_udp-packet,
}
use kvasilloni.Config.Types.{Config, default_config}
use kvasilloni.Transport.Peers.{would_block, effective_allow, IpAddr, v4, other_error, ok, err}
use kvasilloni.Transport.Filter.{Accept, accepts}
use kvasilloni.Transport.FilterBits.{AgreeUnder, class_id, class_code, class_mask, accepts_iff}
use kvasilloni.Transport.Shared.{
  Notify, Shared, new_shared, Op, push_op, pop_op, close_op, apply_all, pop, pop_wait,
}
use kvasilloni.Transport.Ring.{offered, popped, IsSubseq, apply_all-InOrder, apply_all-lossless}
use kvasilloni.Transport.Wait.{Waited, pop_wait-Waited}
use kvasilloni.Transport.Rx.{Datagram, udp_rx_loop, tcp_rx_frames}
use kvasilloni.Transport.StreamRounds.{primed}
use kvasilloni.Transport.StreamRead.{read_stream, tcp_rx_frames-read}
use kvasilloni.Transport.StreamFrames.{tcp_rx_frames-encode_frames, parse_udp-tcp_rx_frames}
use kvasilloni.Transport.Conn.{
  tcp, Conn, new_conn, Sockets, connect, Wires, write, failed, is_ready, close, already,
}
use kvasilloni.Transport.ConnLaws.{write_all_frames, write-tcp_failure, close_lem}
use kvasilloni.Transport.Teardown.{
  tcp_rx_end, tcp_rx_loop, Event, rx_ended, wrote_frame, closed_by, act, act_all,
}
use kvasilloni.Transport.Shared.{Call}
use kvasilloni.Transport.Pushed.{wanted, fitting}
use kvasilloni.Transport.Teardowns.{IsLost, act_all-link_lost, tcp_rx_loop-read}
use kvasilloni.Transport.PeerCheck.{Without, udp_rx_loop-only_allowed}
use kvasilloni.Transport.Notify.{
  calling, NotifyState, take_active, call, set_notify_store, set_notify_drain, NotifySteps, stay,
  after, notify_start,
}
use kvasilloni.Transport.NotifyDrain.{calling-returned}
use kvasilloni.Transport.Opening.{Opened, connect-ok}

-- A frame and a half: the second one is cut.
abbrev cut_stream : List ℕ
cut_stream = wire_bytes classic_two ++ (0 ∷ 0 ∷ 1 ∷ [])

cut_stream-IsBytes : IsBytes cut_stream
cut_stream-IsBytes = omega arith

tcp_rx_frames-read_example : tcp_rx_frames 20 primed cut_stream ≡ done (read_stream 10 cut_stream)
tcp_rx_frames-read_example =
    tcp_rx_frames-read 10 20 cut_stream cut_stream-IsBytes (omega arith) (omega arith)

tcp_rx_frames-cut_stream : tcp_rx_frames 20 primed cut_stream ≡ done (classic_two ∷ [])
unfolding tcp_rx_frames
tcp_rx_frames-cut_stream = refl

abbrev two_frames : List Frame
two_frames = classic_two ∷ fd_twelve ∷ []

tcp_rx_frames-encode_frames_example :
    (bs : List ℕ) × (encode_frames [] two_frames ≡ done bs)
    × ((fuel : ℕ)
        → length bs < fuel
        → tcp_rx_frames fuel primed bs ≡ done (map delivered two_frames))
tcp_rx_frames-encode_frames_example =
    tcp_rx_frames-encode_frames two_frames (classic_two-IsSendable, (fd_twelve-IsSendable, tt))

parse_udp-tcp_rx_frames_example :
    (rest : List Frame) × (tcp_rx_frames 20 primed (drop 5 packet)
      ≡ done ((classic_two ∷ []) ++ rest))
parse_udp-tcp_rx_frames_example =
    parse_udp-tcp_rx_frames packet (classic_two ∷ []) 20 packet-IsBytes parse_udp-packet
      (omega arith)

-- A filter on the low four bits of a standard identifier.
abbrev low_bits : Accept
low_bits = record { code_std = 3; mask_std = 15; code_ext = 0; mask_ext = 0 }

accepts_iff_example :
    (accepts low_bits classic_two ≡ true)
    ↔ AgreeUnder
        (class_mask low_bits classic_two)
        (class_id classic_two)
        (class_code low_bits classic_two)
accepts_iff_example = accepts_iff low_bits classic_two

-- Two frames come, one is read, a third comes, the connection is closed.
abbrev traffic : List Op
traffic =
    push_op 5 classic_two ∷ push_op 6 fd_twelve ∷ pop_op ∷ push_op 7 classic_two ∷ close_op ∷ []

apply_all-InOrder_example :
    IsSubseq
      (popped traffic new_shared ++ (apply_all traffic new_shared).q)
      (new_shared.q ++ offered traffic new_shared)
apply_all-InOrder_example = apply_all-InOrder traffic new_shared

apply_all-lossless_example :
    popped traffic new_shared ++ (apply_all traffic new_shared).q
    ≡ new_shared.q ++ offered traffic new_shared
unfolding apply_all accepts
apply_all-lossless_example =
    apply_all-lossless traffic new_shared (tt, (tt, (tt, (tt, (tt, tt))))) refl

-- Nothing, then a frame, then more.
abbrev rounds : List (List Op)
rounds = [] ∷ (push_op 8 classic_two ∷ []) ∷ (close_op ∷ []) ∷ []

pop_wait-Waited_example :
    (t : Shared) × Waited rounds new_shared t × (pop_wait rounds new_shared ≡ pop t)
pop_wait-Waited_example = pop_wait-Waited rounds new_shared

abbrev tcp_conn : Conn
tcp_conn = new_conn tcp 20000

-- A socket on which every write fails.
abbrev broken_wires : Wires
broken_wires = record { send_to = λ pkt to. err other_error; write_all = λ bs. err other_error }

write-tcp_failure_example :
    let w = write broken_wires classic_two tcp_conn in
    (w.result ≡ failed other_error)
    × (w.conn ≡ record tcp_conn { negotiated = false; running = false; shut = true })
    × (write_all_frames broken_wires two_frames w.conn ≡ (w.conn, []))
    × (tcp_rx_end w.conn ≡ w.conn)
write-tcp_failure_example =
    write-tcp_failure broken_wires broken_wires classic_two two_frames tcp_conn other_error
      classic_two-IsSendable refl refl refl refl

close_lem_example :
    let c' = (close false tcp_conn).0 in
    (is_ready c' ≡ false)
    × (c'.running ≡ false)
    × (c'.shared.closed ≡ true)
    × (write_all_frames broken_wires two_frames c' ≡ (c', []))
    × (close true c' ≡ (c', already))
close_lem_example = close_lem broken_wires two_frames false true tcp_conn

-- A server that a stranger and then the configured peer connect to.
abbrev server_sockets : Sockets
server_sockets = record {
  parse_ip = λ t. some (v4 1);
  bind = λ a. ok a.port;
  listen = λ a. ok tt;
  try_clone = ok tt;
  set_timeout = ok tt;
  set_nonblocking = ok tt;
  accepts = (ok (v4 9), false) ∷ (ok (v4 1), false) ∷ [];
  connect_timeout = λ a. ok tt;
  write_banner = λ bs. ok tt;
  read_banner = λ peer. ok connect_v1;
  local_addr = some 20000;
}

abbrev server_config : Config
server_config = record default_config { tcp = true; tcp_server = true }

connect-server : connect server_sockets server_config ≡ ok (new_conn tcp 20000)
unfolding connect effective_allow text_eq
connect-server = refl

connect-ok_example :
    (peer : IpAddr) × (server_sockets.parse_ip (trim server_config.host) ≡ some peer)
    × Opened server_sockets server_config peer (new_conn tcp 20000)
connect-ok_example = connect-ok server_sockets server_config (new_conn tcp 20000) connect-server

abbrev later : List Event
later = rx_ended ∷ wrote_frame broken_wires classic_two ∷ closed_by true ∷ []

act_all-link_lost_example :
    let lost = act_all later (act rx_ended tcp_conn) in
    let closed = act_all later (act (closed_by false) tcp_conn) in
    (lost.shared.link_lost ≡ true)
    × (is_ready lost ≡ false)
    × (closed.shared.link_lost ≡ tcp_conn.shared.link_lost)
    × (is_ready closed ≡ false)
act_all-link_lost_example = act_all-link_lost later tcp_conn false refl

tcp_rx_loop-read_example :
    (c' : Conn) × (calls : List Call) × (tcp_rx_loop 5 cut_stream tcp_conn ≡ done (c', calls))
    × (c'.shared.q
        ≡ fitting (
            tcp_conn.shared.q
            ++ wanted 5 tcp_conn.shared.filters (read_stream (length cut_stream) cut_stream)))
    × IsLost c'
tcp_rx_loop-read_example =
    tcp_rx_loop-read 5 cut_stream tcp_conn cut_stream-IsBytes refl (omega arith)

-- A stranger's datagram, then one of the peer.
abbrev datagrams : List Datagram
datagrams = ok (packet, v4 9) ∷ err would_block ∷ ok (packet, v4 1) ∷ []

udp_rx_loop-only_allowed_example :
    (kept : List Datagram) × Without (v4 1 ∷ []) datagrams kept
    × (udp_rx_loop 5 datagrams (v4 1 ∷ []) true new_shared
        ≡ udp_rx_loop 5 kept (v4 1 ∷ []) false new_shared)
udp_rx_loop-only_allowed_example = udp_rx_loop-only_allowed 5 datagrams (v4 1 ∷ []) new_shared

-- A callback at an address, for received frames.
abbrev on_receive : Notify
on_receive = record { cb = 0x1000; flags = 1; tag = 7 }

-- It is stored, the call that stored it returns, and a frame comes.
abbrev in_callback : NotifyState
in_callback = record {
  stored = on_receive;
  number = 1;
  rx = calling 1 on_receive;
  waiting = [];
  returned = 1;
}

in_callback-steps : NotifySteps notify_start in_callback
in_callback-steps =
    after
      (after (after (after stay (set_notify_store on_receive)) (set_notify_drain [] [] 1 refl refl))
        (take_active refl))
      (call refl refl)

calling-returned_example : in_callback.returned ≤ 1
calling-returned_example = calling-returned in_callback 1 on_receive in_callback-steps refl
