-- ===== src/Transport/Teardowns.antt =====
-- Who stops a connection, and what is reported.
use kvasilloni.Prelude.{
  ℕ, ◌+◌, ◌≤◌, ◌++◌, ◌∙◌, ◌≡◌, refl, Bool, true, false, List, [], ◌∷◌, length, arith,
}
use kvasilloni.Prelude.Bytes.{IsBytes}
use kvasilloni.Prelude.Exec.{done}
use kvasilloni.Wire.Frame.{Frame}
use kvasilloni.Wire.Stream.{decode_stream}
use kvasilloni.Transport.Pushed.{wanted, fitting, push_all-q}
use kvasilloni.Transport.Shared.{Call, ring_cap, mark_closed, mark_link_lost}
use kvasilloni.Transport.Conn.{Conn, Wires, write, is_ready, close}
use kvasilloni.Transport.Rx.{push_all, prime}
use kvasilloni.Transport.StreamRead.{read_stream, tcp_rx_frames-read}
use kvasilloni.Transport.Teardown.{
  tcp_rx_end, tcp_rx_loop, Event, rx_ended, wrote_frame, closed_by, act, act_all,
}

write-stopped :
    (net : Wires) (f : Frame) (c : Conn) → c.negotiated ≡ false → (write net f c).conn ≡ c
unfolding write
write-stopped net f c e = ground arith

-- A stopped connection, as it looks to the API.
abbrev Down : Conn → Bool → Type 0
Down c lost = (c.running ≡ false) × (c.negotiated ≡ false) × (c.shared.link_lost ≡ lost)

act-Down : (e : Event) (c : Conn) (lost : Bool) → Down c lost → Down (act e c) lost
unfolding act
act-Down rx_ended c lost d = unfold tcp_rx_end in ground (arith, d)
act-Down (wrote_frame net f) c lost d = rw (write-stopped net f c d.1) d
act-Down (closed_by on_rx) c lost d = unfold close mark_closed in (refl, refl, d.2)

act_all-Down : (es : List Event) (c : Conn) (lost : Bool) → Down c lost → Down (act_all es c) lost
unfolding act_all
act_all-Down [] c lost d = d
act_all-Down (e ∷ es) c lost d = act_all-Down es (act e c) lost (act-Down e c lost d)

-- When the receive loop ends by itself, the lost link is latched and the connection is not ready,
-- and both stay so through all later writes and closings. When somebody closed the connection
-- first, the end of the loop, and anything later, leaves the latch as it was.
pub act_all-link_lost :
    (es : List Event) (c : Conn) (on_rx : Bool)
    → c.running ≡ true
    → let lost = act_all es (act rx_ended c) in
      let closed = act_all es (act (closed_by on_rx) c) in
      (lost.shared.link_lost ≡ true)
      × (is_ready lost ≡ false)
      × (closed.shared.link_lost ≡ c.shared.link_lost)
      × (is_ready closed ≡ false)
unfolding act
act_all-link_lost es c on_rx up =
    let ended : Down (tcp_rx_end c) true =
      unfold tcp_rx_end mark_closed mark_link_lost in rw up (refl, refl, refl) in
    let shut : Down (close on_rx c).0 c.shared.link_lost =
      unfold close mark_closed in (refl, refl, refl) in
    let lost = act_all-Down es (tcp_rx_end c) true ended in
    let closed = act_all-Down es (close on_rx c).0 c.shared.link_lost shut in
    (lost.2, lost.1, closed.2, closed.1)

-- What is left of the connection when its loop ended by itself.
pub record IsLost (c : Conn) : Type 0 where
  pub latched : c.shared.link_lost ≡ true
  pub released : c.shared.closed ≡ true
  pub stopped : c.running ≡ false
  pub unready : is_ready c ≡ false

tcp_rx_end-IsLost :
    (c : Conn) → c.running ≡ true → IsLost (tcp_rx_end c) × ((tcp_rx_end c).shared.q ≡ c.shared.q)
unfolding tcp_rx_end mark_closed mark_link_lost
tcp_rx_end-IsLost c up =
    rw up (record { latched = refl; released = refl; stopped = refl; unready = refl }, refl)

-- The whole receive loop on a running connection, over any bytes, ends without a panic. Its ring then
-- holds what it held, and behind that, in order and up to its capacity, the frames that the
-- reference decoder reads and that the filter lets through, with the time of reception. The lost
-- link is latched, readers that wait are released, and the connection is neither running nor ready.
-- The ring was within its capacity.
pub tcp_rx_loop-read :
    (now : ℕ) (bs : List ℕ) (c : Conn)
    → IsBytes bs
    → c.running ≡ true
    → length c.shared.q ≤ ring_cap
    → (c' : Conn) × (calls : List Call) × (tcp_rx_loop now bs c ≡ done (c', calls))
      × (c'.shared.q
          ≡ fitting (c.shared.q ++ wanted now c.shared.filters (read_stream (length bs) bs)))
      × IsLost c'
unfolding tcp_rx_loop prime decode_stream
tcp_rx_loop-read now bs c hb up room =
    let fs = read_stream (length bs) bs in
    let (s, calls) = push_all now fs c.shared in
    let (lost, kept) = tcp_rx_end-IsLost (record c { shared = s }) up in
    (
      tcp_rx_end (record c { shared = s }),
      calls,
      rw (tcp_rx_frames-read (length bs) (length bs + 1) bs hb (omega arith) (omega arith)) refl,
      kept ∙ push_all-q now fs c.shared room,
      lost,
    )
