-- ===== src/System/Follows.antt =====
-- What each call does to its connection is what the specification does to the port.
use kvasilloni.Prelude.{
  ℕ, ◌+◌, ◌%◌, ◌≡◌, ap, sym, refl, ◌∙◌, inl, inr, Bool, true, false, List, [], ◌∷◌, none, length,
  ltb, if◌then◌else◌, arith, Bool-cases,
}
use kvasilloni.Prelude.Exec.{done}
use kvasilloni.Wire.Frame.{Frame}
use kvasilloni.Wire.Encode.{build_udp}
use kvasilloni.Wire.Encoded.{IsSendable, wire_bytes, encode_frame-eq-wire}
use kvasilloni.Transport.Peers.{SocketAddr, IoResult, ok, err}
use kvasilloni.Transport.Shared.{
  push, is_empty, mark_closed, mark_link_lost, level, overflowed, is_link_lost,
}
use kvasilloni.Transport.Conn.{
  Conn, Tx, udp, tcp, Wires, Written, write, write_tx, sent_udp, sent_tcp,
}
use kvasilloni.Transport.Teardown.{tcp_rx_end}
use kvasilloni.Api.Codes.{can_err_param, can_stat_bus_off, can_stat_sw_overrun, can_stat_rx_pending}
use kvasilloni.Api.Send.{write_code}
use kvasilloni.Api.Control.{status_of, or_if}
use kvasilloni.System.Ports.{
  Port, Reply, handed, calls_back, write_port, datagram_of, sent_all, code_of, after_stream,
  write_link, arrive, end_stream, status_word,
}
use kvasilloni.System.Requests.{port_of}
use kvasilloni.System.Good.{IsGood, push-IsGoodRing, update-IsGood}
use kvasilloni.System.Sends.{write-IsGood}
use kvasilloni.System.Keeps.{tcp_rx_end-IsGood}
use kvasilloni.System.Refines.{Follows}

-- The port and the reply after a write.
abbrev written : Written → Port × Reply
written r = (port_of r.conn, handed r.sent (write_code r.result))

sent_udp_lem :
    (c : Conn) (remote : SocketAddr) (seq : ℕ) (pkt : List ℕ) (r : IoResult ℕ)
    → written (sent_udp (record c { tx = udp remote ((seq + 1) % 256) }) pkt r) ≡ (
      record (port_of c) { link = udp remote ((seq + 1) % 256) },
      handed (pkt ∷ []) (code_of (sent_all pkt r)),
    )
sent_udp_lem c remote seq pkt (ok n) = ground arith
sent_udp_lem c remote seq pkt (err e) = refl

sent_tcp_lem :
    (c : Conn) (bs : List ℕ) (r : IoResult (Unit {0}))
    → written (sent_tcp c bs r) ≡ after_stream bs r (port_of c)
sent_tcp_lem c bs (ok u) = refl
sent_tcp_lem c bs (err e) = refl

build_udp-datagram :
    (f : Frame) (seq : ℕ) → IsSendable f → build_udp f seq ≡ done (datagram_of seq f)
unfolding build_udp
build_udp-datagram f seq v = encode_frame-eq-wire f v (2 ∷ 0 ∷ seq ∷ 0 ∷ 1 ∷ [])

write_tx_lem :
    (net : Wires) (f : Frame) (c : Conn) (t : Tx)
    → IsSendable f
    → written (write_tx net f t c) ≡ write_link net f t (port_of c)
write_tx_lem net f c (udp remote seq) v =
    rw (build_udp-datagram f seq v)
      (sent_udp_lem c remote seq (datagram_of seq f) (net.send_to (datagram_of seq f) remote))
write_tx_lem net f c tcp v =
    rw (encode_frame-eq-wire f v []) (sent_tcp_lem c (wire_bytes f) (net.write_all (wire_bytes f)))

write_lem :
    (net : Wires) (f : Frame) (c : Conn)
    → IsSendable f
    → IsGood c
    → written (write net f c) ≡ write_port net f (port_of c)
unfolding write
write_lem net f c v g = elim (Bool-cases c.negotiated) [
  | inl ready ↦
      let goes_on : write net f c ≡ write_tx net f c.tx c = simp (ready, g.clean) refl in
      ap written goes_on
      ∙ write_tx_lem net f c c.tx v
      ∙ sym (
          ap
            (λ b.
              if b then write_link net f c.tx (port_of c) else (port_of c, handed [] can_err_param))
            ready)
  | inr not_ready ↦ simp not_ready refl
]

pub write-Follows :
    (net : Wires) (f : Frame) (c : Conn)
    → IsSendable f
    → IsGood c
    → Follows c
        (write net f c).conn
        (handed (write net f c).sent (write_code (write net f c).result))
        (write_port net f)
write-Follows net f c v g = record {
  good = write-IsGood net f c v g;
  port = ap (λ x. x.0) (write_lem net f c v g);
  told = ap (λ x. x.1) (write_lem net f c v g);
}

pub push-Follows :
    (now : ℕ) (f : Frame) (c : Conn)
    → IsSendable f
    → IsGood c
    → Follows c
        (record c { shared = (push now f c.shared).0 })
        (calls_back (push now f c.shared).1)
        (arrive now f)
push-Follows now f c v g = record {
  good = update-IsGood c (push now f c.shared).0 g (push-IsGoodRing now f c.shared v g.ring);
  port = unfold push in ground arith;
  told = unfold push in ground arith;
}

pub tcp_rx_end-Follows :
    (c : Conn) → IsGood c → Follows c (tcp_rx_end c) (calls_back none) end_stream
tcp_rx_end-Follows c g = record {
  good = tcp_rx_end-IsGood c g;
  port = unfold tcp_rx_end mark_closed mark_link_lost in ground (arith, g.live);
  told = ground arith;
}

pub status_of-word : (c : Conn) → status_of c.shared ≡ status_word (port_of c)
unfolding status_of level overflowed is_link_lost is_empty
status_of-word c = go c.shared.q c.shared.link_lost c.shared.overflow
  where
    go :
        (q : List Frame) (lost over : Bool)
        → or_if lost can_stat_bus_off
            (or_if over can_stat_sw_overrun (or_if (ltb 0 (length q)) can_stat_rx_pending 0))
          ≡ (if lost then 2 else 0) + (if is_empty q then 0 else 32) + (if over then 1024 else 0)
    go [] true true = refl
    go [] true false = refl
    go [] false true = refl
    go [] false false = refl
    go (f ∷ fs) true true = ground arith
    go (f ∷ fs) true false = ground arith
    go (f ∷ fs) false true = ground arith
    go (f ∷ fs) false false = ground arith
