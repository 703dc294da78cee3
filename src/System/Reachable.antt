-- ===== src/System/Reachable.antt =====
-- Every world that the library can reach.
use kvasilloni.Prelude.{ℕ, ◌+◌, ◌≡◌, sym, ◌∙◌, List, [], ◌∷◌, ◌++◌, some, All, length, arith}
use mathlib.Core.Path.{subst}
use kvasilloni.Prelude.Bytes.{IsBytes}
use kvasilloni.Prelude.Exec.{done}
use kvasilloni.Wire.Frame.{Frame}
use kvasilloni.Wire.Encoded.{IsSendable}
use kvasilloni.Transport.Conn.{Conn}
use kvasilloni.Transport.Rx.{tcp_rx_frames}
use kvasilloni.Transport.StreamFrames.{tcp_rx_frames-IsSendable}
use kvasilloni.Transport.StreamRounds.{primed}
use kvasilloni.Wire.Decoded.{done-injective}
use kvasilloni.Api.Table.{World, new_world, lookup}
use kvasilloni.System.{Move, calls, datagram, stream_frame, stream_end, Moves, here, next}
use kvasilloni.System.Good.{IsGood, push-IsGoodRing, datagram-IsGoodRing, update-IsGood}
use kvasilloni.System.Keeps.{AllGood, lookup-IsGood, put-AllGood, tcp_rx_end-IsGood, step-AllGood}

All-middle :
    (P : Frame → Type 0) (before : List Frame) (f : Frame) (behind : List Frame)
    → All P (before ++ f ∷ behind)
    → P f
All-middle P [] f behind h = h.0
All-middle P (x ∷ before) f behind h = All-middle P before f behind h.1

stream_frame-IsSendable :
    (bs : List ℕ) (before : List Frame) (f : Frame) (behind : List Frame)
    → IsBytes bs
    → tcp_rx_frames (length bs + 1) primed bs ≡ done (before ++ f ∷ behind)
    → IsSendable f
stream_frame-IsSendable bs before f behind hb read =
    let (fs, same, v) = tcp_rx_frames-IsSendable (length bs + 1) bs hb (omega arith) in
    All-middle IsSendable before f behind
      (subst (All IsSendable) (done-injective (sym same ∙ read)) v)

Move-AllGood : {w w' : World} → Move w w' → AllGood w → AllGood w'
Move-AllGood (calls c i) g = step-AllGood c _ i g
Move-AllGood {w} (datagram hnd c now bytes from allow check found hb) g =
    let v = lookup-IsGood hnd w.conns c g found in
    put-AllGood hnd _ w
      (update-IsGood c _ v (datagram-IsGoodRing now bytes from allow check c.shared hb v.ring)) g
Move-AllGood {w} (stream_frame hnd c now bs before f behind found hb read) g =
    let v = lookup-IsGood hnd w.conns c g found in
    let s : IsSendable f = stream_frame-IsSendable bs before f behind hb read in
    put-AllGood hnd _ w (update-IsGood c _ v (push-IsGoodRing now f c.shared s v.ring)) g
Move-AllGood {w} (stream_end hnd c found) g =
    put-AllGood hnd _ w (tcp_rx_end-IsGood c (lookup-IsGood hnd w.conns c g found)) g

pub Moves-AllGood : {w w' : World} → Moves w w' → AllGood w → AllGood w'
Moves-AllGood here g = g
Moves-AllGood (next before m) g = Move-AllGood m (Moves-AllGood before g)

-- After any calls of the application, given bytes in its write buffers, and whatever bytes the
-- peers send, every open channel is well formed: each frame in its ring has an identifier, flags,
-- bytes and a length within their types and the limit of its class, the ring holds at most
-- `ring_cap` frames, the sequence number of a UDP channel is a byte, and no panic has poisoned the
-- lock of the transmitter.
pub Moves-IsGood :
    (w : World) (hnd : ℕ) (c : Conn) → Moves new_world w → lookup hnd w.conns ≡ some c → IsGood c
Moves-IsGood w hnd c ms found = lookup-IsGood hnd w.conns c (Moves-AllGood ms tt) found
