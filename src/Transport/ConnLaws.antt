-- ===== src/Transport/ConnLaws.antt =====
-- Opening, writing to and closing a connection.
use kvasilloni.Prelude.{
  ℕ, ◌+◌, ◌%◌, ◌<◌, ◌≡◌, refl, Bool, true, false, List, [], ◌∷◌, ◌++◌, some, length, arith,
}
use kvasilloni.Prelude.Exec.{done}
use kvasilloni.Wire.Frame.{Frame}
use kvasilloni.Wire.Udp.{parse_udp}
use kvasilloni.Wire.Encoded.{IsSendable, wire_bytes, delivered, encode_frame-eq-wire}
use kvasilloni.Wire.UdpRoundTrip.{parse_udp-build_udp}
use kvasilloni.Transport.Peers.{SocketAddr, IoError, not_connected, ok, err}
use kvasilloni.Transport.Shared.{mark_closed}
use kvasilloni.Transport.Conn.{
  udp, tcp, Conn, is_ready, wrote, failed, Wires, write, joined, already, close,
}
use kvasilloni.Transport.Teardown.{tcp_rx_end}

-- A socket that takes the whole datagram.
abbrev pub TakesAll : Wires → Type 0
TakesAll net = (pkt : List ℕ) (to : SocketAddr) → net.send_to pkt to ≡ ok (length pkt)

-- On a ready UDP connection a sendable frame goes out as one datagram that parses back to the
-- delivered frame. The sequence number goes up by one modulo 256, and nothing else changes.
pub write-udp :
    (net : Wires) (f : Frame) (c : Conn) (remote : SocketAddr) (seq : ℕ)
    → TakesAll net
    → IsSendable f
    → c.negotiated ≡ true
    → c.tx_poisoned ≡ false
    → c.tx ≡ udp remote seq
    → seq < 256
    → (pkt : List ℕ) × (write net f c ≡ record {
      conn = record c { tx = udp remote ((seq + 1) % 256) };
      result = wrote;
      sent = pkt ∷ [];
    })
      × (parse_udp pkt ≡ done (some (delivered f ∷ [])))
unfolding write
write-udp net f c remote seq takes v ready clean is_udp hs =
    let (pkt, built, parsed) = parse_udp-build_udp f seq v hs in
    (pkt, ground (arith, built, takes pkt remote), parsed)

-- A write on a connection that is not ready is refused, sends nothing and changes nothing.
pub write-not_ready :
    (net : Wires) (f : Frame) (c : Conn)
    → c.negotiated ≡ false
    → write net f c ≡ record { conn = c; result = failed not_connected; sent = [] }
unfolding write
write-not_ready net f c h = ground arith

-- Writes one after another: the bytes handed to the socket, in order.
abbrev pub write_all_frames : Wires → List Frame → Conn → Conn × List (List ℕ)
write_all_frames net [] c = (c, [])
write_all_frames net (f ∷ fs) c =
    let w = write net f c in let (c', sent) = write_all_frames net fs w.conn in (c', w.sent ++ sent)

write_all_frames-not_ready :
    (net : Wires) (fs : List Frame) (c : Conn)
    → c.negotiated ≡ false
    → write_all_frames net fs c ≡ (c, [])
write_all_frames-not_ready net [] c h = refl
write_all_frames-not_ready net (f ∷ fs) c h =
    rw (write-not_ready net f c h) (write_all_frames-not_ready net fs c h)

abbrev torn_down : Conn → Conn
torn_down c = record c { negotiated = false; running = false; shut = true }

failed_write :
    (net : Wires) (f : Frame) (c : Conn) (e : IoError)
    → IsSendable f
    → c.negotiated ≡ true
    → c.tx_poisoned ≡ false
    → c.tx ≡ tcp
    → net.write_all (wire_bytes f) ≡ err e
    → write net f c ≡ record { conn = torn_down c; result = failed e; sent = wire_bytes f ∷ [] }
unfolding write
failed_write net f c e v ready clean is_tcp fails = ground (arith, encode_frame-eq-wire f v [])

-- When the socket fails to take a sendable frame on a ready TCP connection, whose lock is not
-- poisoned, the write returns that error, the connection is not ready, its stream is shut, its
-- receive loop is told to stop, and no later write sends a byte. The end of that loop then leaves
-- everything as it is: the receive state is not closed, which releases no reader that waits, and no
-- lost link is latched.
pub write-tcp_failure :
    (net net' : Wires) (f : Frame) (fs : List Frame) (c : Conn) (e : IoError)
    → IsSendable f
    → c.negotiated ≡ true
    → c.tx_poisoned ≡ false
    → c.tx ≡ tcp
    → net.write_all (wire_bytes f) ≡ err e
    → let w = write net f c in
      (w.result ≡ failed e)
      × (w.conn ≡ record c { negotiated = false; running = false; shut = true })
      × (write_all_frames net' fs w.conn ≡ (w.conn, []))
      × (tcp_rx_end w.conn ≡ w.conn)
write-tcp_failure net net' f fs c e v ready clean is_tcp fails =
    rw (failed_write net f c e v ready clean is_tcp fails)
      (refl, refl, write_all_frames-not_ready net' fs (torn_down c) refl, unfold tcp_rx_end in refl)

-- After `close` the connection is not ready and its readers are released; no write sends a byte,
-- and closing again changes nothing and does not join the receive thread a second time.
pub close_lem :
    (net : Wires) (fs : List Frame) (on_rx again : Bool) (c : Conn)
    → let c' = (close on_rx c).0 in
      (is_ready c' ≡ false)
      × (c'.running ≡ false)
      × (c'.shared.closed ≡ true)
      × (write_all_frames net fs c' ≡ (c', []))
      × (close again c' ≡ (c', already))
unfolding close
close_lem net fs on_rx again c = (
  refl,
  refl,
  unfold mark_closed in refl,
  write_all_frames-not_ready net fs (close on_rx c).0 refl,
  unfold mark_closed in ground arith,
)

-- The receive thread is joined only by a caller that is another thread.
pub close-joined :
    (on_rx : Bool) (c : Conn) → (close on_rx c).1 ≡ joined → (on_rx ≡ false) × (c.handle ≡ true)
unfolding close
close-joined on_rx c h = ground arith
