-- ===== src/Transport/Rx.antt =====
-- The receive threads of src/transport.rs. What the socket gives is an argument: the datagrams
-- with their senders, or the bytes of the stream. `now` is the clock, one reading for each frame.
use kvasilloni.Prelude.{
  ℕ, zero, suc, Bool, ◌||◌, List, [], ◌∷◌, ◌++◌, Option, none, some, take, drop, length, ltb, leb,
  ◌==◌, if◌then◌else◌,
}
use kvasilloni.Prelude.Exec.{Exec, done, ◌>>=◌, catch_unwind}
use kvasilloni.Wire.Frame.{Frame, default_frame}
use kvasilloni.Wire.Stream.{DecodeState, init, need, complete, error, Decoding, decode_stream}
use kvasilloni.Wire.Udp.{parse_udp}
use kvasilloni.Transport.Peers.{IpAddr, would_block, timed_out, IoResult, ok, err, peer_allowed}
use kvasilloni.Transport.Shared.{Shared, Call, push}

abbrev add_call : Option Call → List Call → List Call
add_call none calls = calls
add_call (some c) calls = c ∷ calls

-- `for f in frames { rx.push(f) }`: the new state and the callbacks fired, in order.
unfoldable pub push_all : ℕ → List Frame → Shared → Shared × List Call
unfolding push
push_all now [] s = (s, [])
push_all now (f ∷ fs) s =
    let (s', fired) = push now f s in
    let (s'', calls) = push_all now fs s' in (s'', add_call fired calls)

abbrev pub ingest : ℕ → Option (List Frame) → Shared → Shared × List Call
ingest now none s = (s, [])
ingest now (some frames) s = push_all now frames s

-- A panic of the parser comes before any frame is pushed.
unfoldable pub guarded_udp_ingest : ℕ → List ℕ → Shared → Shared × List Call
unfolding push_all
guarded_udp_ingest now buf s = ingest now (catch_unwind (parse_udp buf) none) s

-- One `recv_from`: the datagram, of which 2048 bytes are read, and its sender, or an error.
abbrev pub Datagram : Type 0
Datagram = IoResult (List ℕ × IpAddr)

-- `udp_rx_loop`, with `running` set for as long as there are events.
unfoldable pub udp_rx_loop : ℕ → List Datagram → List IpAddr → Bool → Shared → Shared × List Call
unfolding guarded_udp_ingest peer_allowed
udp_rx_loop now [] allow peer_check s = (s, [])
udp_rx_loop now (ok (bytes, from) ∷ events) allow peer_check s =
    let (s', calls) =
      if peer_allowed from allow peer_check
      then guarded_udp_ingest now (take 2048 bytes) s
      else (s, []) in
    let (s'', more) = udp_rx_loop now events allow peer_check s' in (s'', calls ++ more)
udp_rx_loop now (err would_block ∷ events) allow peer_check s =
    udp_rx_loop now events allow peer_check s
udp_rx_loop now (err timed_out ∷ events) allow peer_check s =
    udp_rx_loop now events allow peer_check s
udp_rx_loop now (err _ ∷ events) allow peer_check s = (s, [])

-- A decoder panic counts as a broken stream; the loop ends, so what it left behind is not read.
abbrev pub guarded_decode_stream : List ℕ → Frame → DecodeState → Decoding
guarded_decode_stream chunk f st = catch_unwind (decode_stream chunk f st) (error, f, st)

abbrev pub chunk_size : ℕ
chunk_size = 80

-- The locals of `tcp_rx_loop`; `want` is its `need`.
pub record RxThread : Type 0 where
  pub frame : Frame
  pub state : DecodeState
  pub want : ℕ

pub data RxEvent : Type 0 where
  go_on : RxThread → RxEvent
  deliver : Frame → RxThread → RxEvent
  broken : RxEvent

-- The call of `decode_stream` with no bytes that starts a frame, and its `need`, 0 if it has none.
abbrev first_need : Decoding → RxThread
first_need (need n, f, st) = record { frame = f; state = st; want = n }
first_need (_, f, st) = record { frame = f; state = st; want = 0 }

unfoldable pub prime : Frame → DecodeState → Exec RxThread
unfolding decode_stream
prime f st = do d ← decode_stream [] f st; done (first_need d)

abbrev pub next_need : Frame → Decoding → RxEvent
next_need f (need n, f', st') = deliver f (record { frame = f'; state = st'; want = n })
next_need f (_, f', st') = broken

abbrev pub react : Decoding → Exec RxEvent
react (need n, f, st) = done (go_on (record { frame = f; state = st; want = n }))
react (complete, f, st) = do d ← decode_stream [] default_frame init; done (next_need f d)
react (error, f, st) = done broken

-- One round of the loop while `running` is set; `read` is the outcome of `read_exact`.
unfoldable pub tcp_rx_round : RxThread → (ℕ → Option (List ℕ)) → Exec RxEvent
unfolding decode_stream
tcp_rx_round t read =
    if t.want == 0 || ltb chunk_size t.want then done broken else elim (read t.want) [
      | none ↦ done broken
      | some chunk ↦ react (guarded_decode_stream chunk t.frame t.state)
    ]

-- `read_exact` on a stream that ends after these bytes.
abbrev pub read_exact : List ℕ → ℕ → Option (List ℕ)
read_exact bs n = if leb n (length bs) then some (take n bs) else none

abbrev pub deliver_first : Frame → Exec (List Frame) → Exec (List Frame)
deliver_first f r = do fs ← r; done (f ∷ fs)

-- What the loop does with the outcome of a round; `more` is the rest of the loop.
abbrev pub follow : (RxThread → Exec (List Frame)) → RxEvent → Exec (List Frame)
follow more (go_on t) = more t
follow more (deliver f t) = deliver_first f (more t)
follow more broken = done []

-- The frames that the loop pushes, in order, over the bytes of a stream that then ends.
unfoldable pub tcp_rx_frames : ℕ → RxThread → List ℕ → Exec (List Frame)
unfolding tcp_rx_round
tcp_rx_frames zero t bs = done []
tcp_rx_frames (suc fuel) t bs = do
  event ← tcp_rx_round t (read_exact bs)
  follow (λ t'. tcp_rx_frames fuel t' (drop t.want bs)) event
