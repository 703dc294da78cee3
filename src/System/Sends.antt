-- ===== src/System/Sends.antt =====
-- What a write does to a good connection.
use kvasilloni.Prelude.{
  ℕ, ◌+◌, ◌%◌, ◌≡◌, refl, ◌⊎◌, inl, inr, Bool-cases, List, [], none, some, length, arith,
}
use native.Mathlib.Decide.{dec_lt}
use kvasilloni.Prelude.Bytes.{IsBytes}
use kvasilloni.Prelude.Exec.{done}
use kvasilloni.Wire.Flags.{has, can_msg_rtr}
use kvasilloni.Wire.Frame.{Frame}
use kvasilloni.Wire.Encoded.{IsSendable, wire_bytes, encode_frame-eq-wire}
use kvasilloni.Wire.UdpRoundTrip.{parse_udp-build_udp}
use kvasilloni.Transport.Peers.{SocketAddr, IoResult, ok, err}
use kvasilloni.Transport.Conn.{
  Conn, Tx, udp, tcp, Wires, write, write_tx, is_ready, sent_udp, sent_tcp,
}
use kvasilloni.Api.Memory.{safe, fault, Buffer}
use kvasilloni.Api.Send.{frame_of, user_bytes}
use kvasilloni.Api.Sending.{header_of-bytes, Holds, filled_with, frame_of-filled, header-IsSendable}
use kvasilloni.Api.EndToEnd.{filled_with-IsSendable}
use kvasilloni.System.Good.{IsGood, SeqFits}

sent_udp-IsGood :
    (c : Conn) (remote : SocketAddr) (seq : ℕ) (pkt : List ℕ) (r : IoResult ℕ)
    → IsGood c
    → IsGood (sent_udp (record c { tx = udp remote ((seq + 1) % 256) }) pkt r).conn
sent_udp-IsGood c remote seq pkt (ok n) g = record {
  ring = g.ring;
  clean = g.clean;
  seq = omega arith;
  live = g.live;
}
sent_udp-IsGood c remote seq pkt (err e) g = record {
  ring = g.ring;
  clean = g.clean;
  seq = omega arith;
  live = g.live;
}

sent_tcp-IsGood :
    (c : Conn) (buf : List ℕ) (r : IoResult (Unit {0})) → IsGood c → IsGood (sent_tcp c buf r).conn
sent_tcp-IsGood c buf (ok u) g = g
sent_tcp-IsGood c buf (err e) g = record {
  ring = g.ring;
  clean = g.clean;
  seq = g.seq;
  live = refl;
}

write_tx-IsGood :
    (net : Wires) (f : Frame) (t : Tx) (c : Conn)
    → IsSendable f
    → SeqFits t
    → IsGood c
    → IsGood (write_tx net f t c).conn
write_tx-IsGood net f (udp remote seq) c v h g =
    let (pkt, built, parsed) = parse_udp-build_udp f seq v h in
    rw built (sent_udp-IsGood c remote seq pkt (net.send_to pkt remote) g)
write_tx-IsGood net f tcp c v h g =
    rw (encode_frame-eq-wire f v [])
      (sent_tcp-IsGood c (wire_bytes f) (net.write_all (wire_bytes f)) g)

-- Writing a sendable frame keeps a connection good: above all, nothing panics under its lock.
pub write-IsGood :
    (net : Wires) (f : Frame) (c : Conn) → IsSendable f → IsGood c → IsGood (write net f c).conn
unfolding write
write-IsGood net f c v g = elim (Bool-cases (is_ready c)) [
  | inl ready ↦ simp (ready, g.clean) (write_tx-IsGood net f c.tx c v g.seq g)
  | inr not_ready ↦ simp not_ready g
]

-- Whatever buffer the application gives, the frame is read past its end, or is sendable.
pub frame_of-cases :
    (id : ℕ) (msg : Buffer) (dlc flag : ℕ)
    → ((buf : List ℕ) → msg ≡ some buf → IsBytes buf)
    → (frame_of id msg dlc flag ≡ done fault)
      ⊎ ((f : Frame) × (frame_of id msg dlc flag ≡ done (safe f)) × IsSendable f)
frame_of-cases id none dlc flag h =
    inr (_, frame_of-filled id none dlc flag tt, filled_with-IsSendable id none dlc flag tt)
frame_of-cases id (some buf) dlc flag h = elim (dec_lt (length buf) (user_bytes dlc flag)) [
  | yes short ↦ elim (Bool-cases (has flag can_msg_rtr)) [
    | inl remote ↦ inr (
      filled_with id dlc flag [],
      unfold frame_of in ground (arith, remote, header_of-bytes id dlc flag),
      header-IsSendable id dlc flag [] (omega arith) tt,
    )
    | inr plain ↦ inl unfold frame_of in ground (arith, short, plain)
  ]
  | no long ↦
      let holds : Holds (some buf) dlc flag = (omega (arith, long), h buf refl) in
      inr (
        _,
        frame_of-filled id (some buf) dlc flag holds,
        filled_with-IsSendable id (some buf) dlc flag holds,
      )
]
