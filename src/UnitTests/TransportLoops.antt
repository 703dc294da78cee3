-- ===== src/UnitTests/TransportLoops.antt =====
-- The tests of src/transport.rs on the receive loops: the firewall, the peer filter, and how the TCP
-- loop ends. What the peer sends is the list of datagrams, or the bytes of the stream.
use kvasilloni.Prelude.{
  ℕ, ◌≡◌, refl, Bool, true, false, not, List, [], ◌∷◌, ◌++◌, none, replicate, if◌then◌else◌,
}
use kvasilloni.Prelude.Exec.{Exec, done, panic, ◌>>=◌, catch_unwind}
use kvasilloni.Wire.Frame.{Frame, default_frame}
use kvasilloni.Wire.Encode.{encode_frame, build_udp}
use kvasilloni.Wire.Stream.{init, error, Decoding, DecodeState, decode_stream}
use kvasilloni.Wire.Udp.{parse_udp}
use kvasilloni.Transport.Peers.{IpAddr, ok}
use kvasilloni.Transport.Filter.{accepts}
use kvasilloni.Transport.Shared.{
  Shared, new_shared, Call, Op, lose_op, close_op, pop, pop_wait, level, is_link_lost, apply_all,
  is_empty,
}
use kvasilloni.Transport.Rx.{ingest, push_all, udp_rx_loop}
use kvasilloni.Transport.Conn.{tcp, Conn, new_conn}
use kvasilloni.Transport.Teardown.{tcp_rx_loop}
use kvasilloni.UnitTests.Asserts.{Test, passed, ◌>>◌, assert, assert_eq, is_none}
use kvasilloni.UnitTests.WireStream.{is_error}
use kvasilloni.UnitTests.TransportRing.{frame, gives_id, v4_of}
use kvasilloni.UnitTests.TransportWait.{idle, wait_while-woken}

-- The fault that `arm_rx_panic` arms: the flag of the thread, which the hook clears.
unfoldable pub rx_panic_hook : Bool → Exec (Unit {0}) × Bool
rx_panic_hook armed = (if armed then panic else done tt, false)

-- `guarded_udp_ingest` as the test build compiles it.
unfoldable pub hooked_udp_ingest : Bool → ℕ → List ℕ → Shared → (Shared × List Call) × Bool
unfolding rx_panic_hook parse_udp
hooked_udp_ingest armed now buf s =
    let (hook, armed') = rx_panic_hook armed in
    (ingest now (catch_unwind (hook >>= λ _. parse_udp buf) none) s, armed')

-- `guarded_decode_stream` as the test build compiles it.
unfoldable pub hooked_decode_stream : Bool → List ℕ → Frame → DecodeState → Decoding × Bool
unfolding rx_panic_hook decode_stream
hooked_decode_stream armed chunk f st =
    let (hook, armed') = rx_panic_hook armed in
    (catch_unwind (hook >>= λ _. decode_stream chunk f st) (error, f, st), armed')

unfoldable pub rx_firewall_contains_injected_panic_udp : ℕ → Test
unfolding build_udp hooked_udp_ingest level pop accepts
rx_firewall_contains_injected_panic_udp now = do
  pkt ← build_udp (frame 0x123) 0
  let ((s1, _), armed) = hooked_udp_ingest true now pkt new_shared
  assert_eq (level s1) 0
  let ((s2, _), _) = hooked_udp_ingest armed now pkt s1
  gives_id (pop s2).1 0x123

rx_firewall_contains_injected_panic_udp_passes :
    (now : ℕ) → rx_firewall_contains_injected_panic_udp now ≡ passed
unfolding rx_firewall_contains_injected_panic_udp push_all
rx_firewall_contains_injected_panic_udp_passes now = refl

unfoldable pub rx_firewall_contains_injected_panic_tcp : Test
unfolding hooked_decode_stream
rx_firewall_contains_injected_panic_tcp = do
  let ((d, _, _), _) = hooked_decode_stream true (replicate 4 0) default_frame init
  assert (is_error d)

rx_firewall_contains_injected_panic_tcp_passes : rx_firewall_contains_injected_panic_tcp ≡ passed
unfolding rx_firewall_contains_injected_panic_tcp
rx_firewall_contains_injected_panic_tcp_passes = refl

abbrev pub loopback_v4 : IpAddr
loopback_v4 = v4_of 127 0 0 1

unfoldable pub udp_rx_loop_filters_peer_and_enqueues_allowed : ℕ → Test
unfolding build_udp udp_rx_loop pop accepts
udp_rx_loop_filters_peer_and_enqueues_allowed now = do
  denied ← build_udp (frame 0x222) 0
  allowed ← build_udp (frame 0x123) 0
  let events = ok (denied, v4_of 127 0 0 2) ∷ ok (allowed, loopback_v4) ∷ []
  let (s, _) = udp_rx_loop now events (loopback_v4 ∷ []) true new_shared
  let (s', r) = pop s
  gives_id r 0x123
  assert (is_none (pop s').1)

udp_rx_loop_filters_peer_and_enqueues_allowed_passes :
    (now : ℕ) → udp_rx_loop_filters_peer_and_enqueues_allowed now ≡ passed
unfolding udp_rx_loop_filters_peer_and_enqueues_allowed parse_udp
udp_rx_loop_filters_peer_and_enqueues_allowed_passes now = refl

-- The end of the thread, as the assertions on the flags read it.
abbrev pub self_terminated : Conn → Test
self_terminated c = do
  assert (not c.running)
  assert (not c.negotiated)
  assert (is_link_lost c.shared)

unfoldable pub tcp_rx_loop_reassembles_dribbled_frame_then_exits_on_error : ℕ → Test
unfolding encode_frame tcp_rx_loop pop is_link_lost
tcp_rx_loop_reassembles_dribbled_frame_then_exits_on_error now = do
  enc ← encode_frame [] (frame 0x456)
  (c, _) ← tcp_rx_loop now (enc ++ (0x00 ∷ 0x00 ∷ 0x01 ∷ 0x00 ∷ 9 ∷ [])) (new_conn tcp 0)
  gives_id (pop c.shared).1 0x456
  self_terminated c

tcp_rx_loop_reassembles_dribbled_frame_then_exits_on_error_passes :
    (now : ℕ) → tcp_rx_loop_reassembles_dribbled_frame_then_exits_on_error now ≡ passed
unfolding tcp_rx_loop_reassembles_dribbled_frame_then_exits_on_error accepts
tcp_rx_loop_reassembles_dribbled_frame_then_exits_on_error_passes now = refl

-- The loop's end, and the reader that was blocked meanwhile; nothing later changes what it returns.
unfoldable pub tcp_rx_loop_peer_drop_surfaces_link_lost : ℕ → ℕ → List (List Op) → Test
unfolding tcp_rx_loop is_link_lost pop_wait
tcp_rx_loop_peer_drop_surfaces_link_lost now n later = do
  (c, _) ← tcp_rx_loop now [] (new_conn tcp 0)
  self_terminated c
  let (s, r) = pop_wait (idle n ((lose_op ∷ close_op ∷ []) ∷ later)) new_shared
  assert (is_none r)

tcp_rx_loop_peer_drop_surfaces_link_lost_passes :
    (now n : ℕ) (later : List (List Op))
    → tcp_rx_loop_peer_drop_surfaces_link_lost now n later ≡ passed
unfolding tcp_rx_loop_peer_drop_surfaces_link_lost apply_all is_empty pop
tcp_rx_loop_peer_drop_surfaces_link_lost_passes now n later =
    rw (wait_while-woken n (lose_op ∷ close_op ∷ []) later refl) refl
