-- ===== src/System/Serves.antt =====
-- What `canRead` and `canWrite` of src/lib.rs do in every world that the library can reach.
use kvasilloni.Prelude.{
  ℕ, ◌+◌, ◌%◌, ◌≡◌, ap, sym, refl, ◌∙◌, true, List, [], ◌∷◌, Option, none, some, length, arith, All,
}
use mathlib.Core.Path.{subst}
use kvasilloni.Prelude.Exec.{done}
use kvasilloni.Wire.Frame.{Frame}
use kvasilloni.Wire.Udp.{parse_udp}
use kvasilloni.Wire.Encode.{encode_frames}
use kvasilloni.Wire.Encoded.{IsSendable, wire_bytes, delivered, encode_frame-eq-wire}
use kvasilloni.Wire.Decoded.{done-injective}
use kvasilloni.Transport.Peers.{ok}
use kvasilloni.Transport.Shared.{pop, pop_front}
use kvasilloni.Transport.Conn.{Conn, Tx, udp, tcp, Wires, wrote, write, is_ready}
use kvasilloni.Transport.ConnLaws.{TakesAll, write-udp}
use kvasilloni.Transport.Rx.{tcp_rx_frames}
use kvasilloni.Transport.StreamRounds.{primed}
use kvasilloni.Transport.StreamFrames.{tcp_rx_frames-encode_frames}
use kvasilloni.Api.Codes.{can_ok, can_err_nomsg, can_err_invhandle}
use kvasilloni.Api.Memory.{safe, Buffer}
use kvasilloni.Api.Table.{World, new_world, lookup, put}
use kvasilloni.Api.Send.{send_frame, sent_on, send_on, can_write}
use kvasilloni.Api.Receive.{Outs, Received, read_from, read_out, can_read}
use kvasilloni.Api.Sending.{Holds, payload, filled_with, frame_of-filled}
use kvasilloni.Api.Reading.{HasRoom, outs_of, write_read_outputs_lem}
use kvasilloni.Api.EndToEnd.{filled_with-IsSendable}
use kvasilloni.System.{Moves}
use kvasilloni.System.Described.{described, delivered-described}
use kvasilloni.System.Good.{IsGood, SeqFits}
use kvasilloni.System.Reachable.{Moves-IsGood}

-- The caller's buffer has room for what its channel carries, if there is such a channel.
abbrev pub HasRoomAt : Buffer → Option Conn → Type 0
HasRoomAt msg none = Unit
HasRoomAt msg (some c) = HasRoom msg c.fd_capable

abbrev pub from_ring : ℕ → Outs → World → Conn → List Frame → Received
from_ring hnd o w c [] = (put hnd c w, o, can_err_nomsg)
from_ring hnd o w c (f ∷ fs) =
    (put hnd (record c { shared = record c.shared { q = fs } }) w, outs_of f o c.fd_capable, can_ok)

-- The answer to a read: the front of the ring of the channel, if there is one.
abbrev pub answer : ℕ → Outs → World → Option Conn → Received
answer hnd o w none = (w, o, can_err_invhandle)
answer hnd o w (some c) = from_ring hnd o w c c.shared.q

pub read_from-answer :
    (hnd : ℕ) (o : Outs) (w : World) (r : Option Conn)
    → ((c : Conn) → r ≡ some c → IsGood c)
    → HasRoomAt o.msg r
    → read_from hnd o w r pop ≡ safe (answer hnd o w r)
read_from-answer hnd o w none good room = refl
read_from-answer hnd o w (some c) good room = unfold pop in go c.shared.q refl
  where
    go :
        (q : List Frame)
        → c.shared.q ≡ q
        → read_out
            (put hnd (record c { shared = (pop_front q c.shared).0 }) w)
            o
            c.fd_capable
            (pop_front q c.shared).1
          ≡ safe (from_ring hnd o w c q)
    go [] e = refl
    go (f ∷ fs) e =
        let v : IsSendable f = (subst (All IsSendable) e (good c refl).ring.frames).0 in
        rw (write_read_outputs_lem f o c.fd_capable v room) refl

-- In every world that the library can reach, `canRead` into a buffer with room neither panics nor
-- writes past a buffer. It returns canERR_INVHANDLE for an unknown handle, canERR_NOMSG when the
-- ring of the channel is empty, and canOK otherwise: then it reports the front of the ring, and
-- takes only that.
pub can_read-answer :
    (hnd : ℕ) (o : Outs) (w : World)
    → Moves new_world w
    → HasRoomAt o.msg (lookup hnd w.conns)
    → can_read hnd o w ≡ safe (answer hnd o w (lookup hnd w.conns))
unfolding can_read
can_read-answer hnd o w ms room =
    read_from-answer hnd o w (lookup hnd w.conns) (λ c found. Moves-IsGood w hnd c ms found) room

-- A socket that takes everything, whichever the transport.
pub record TakesEverything (net : Wires) : Type 0 where
  pub datagrams : TakesAll net
  pub stream : (bs : List ℕ) → net.write_all bs ≡ ok tt

-- The transmitter after a write.
abbrev pub next_tx : Tx → Tx
next_tx (udp remote seq) = udp remote ((seq + 1) % 256)
next_tx tcp = tcp

-- The receiver at the other end reads one frame in these bytes.
abbrev pub Carries : Tx → List ℕ → Frame → Type 0
Carries (udp remote seq) bytes f = parse_udp bytes ≡ done (some (f ∷ []))
Carries tcp bytes f = tcp_rx_frames (length bytes + 1) primed bytes ≡ done (f ∷ [])

wire_bytes-Carries :
    (f : Frame)
    → IsSendable f
    → tcp_rx_frames (length (wire_bytes f) + 1) primed (wire_bytes f) ≡ done (delivered f ∷ [])
unfolding encode_frames
wire_bytes-Carries f v =
    let (bs, built, read) = tcp_rx_frames-encode_frames (f ∷ []) (v, tt) in
    let same : bs ≡ wire_bytes f =
      done-injective (sym built ∙ rw (encode_frame-eq-wire f v []) refl) in
    subst (λ b. tcp_rx_frames (length b + 1) primed b ≡ done (delivered f ∷ [])) same
      (read (length bs + 1) (omega arith))

write-next_tx :
    (net : Wires) (f : Frame) (c : Conn) (t : Tx)
    → TakesEverything net
    → IsSendable f
    → IsGood c
    → c.tx ≡ t
    → is_ready c ≡ true
    → (bytes : List ℕ) × (write net f c
        ≡ record { conn = record c { tx = next_tx t }; result = wrote; sent = bytes ∷ [] })
      × Carries t bytes (delivered f)
write-next_tx net f c (udp remote seq) takes v g is_udp ready =
    write-udp net f c remote seq takes.datagrams v ready g.clean is_udp (subst SeqFits is_udp g.seq)
write-next_tx net f c tcp takes v g is_tcp ready = (
  wire_bytes f,
  unfold write in ground (arith, g.clean, encode_frame-eq-wire f v [], takes.stream (wire_bytes f)),
  wire_bytes-Carries f v,
)

-- In every world that the library can reach, `canWrite` on a channel that is open and ready, whose
-- socket takes everything, from a buffer that holds the bytes claimed by the data length code,
-- returns canOK and hands over one piece of bytes, in which the receiver at the other end, over UDP
-- or TCP, reads one frame and nothing else: the identifier cut to its kind with the bits of its
-- kind, the class, the length cut to the class and rounded up for CAN FD, the switches of CAN FD,
-- and the caller's bytes with zeros behind, none for a remote request. Of the world only the
-- sequence number of a UDP channel changes.
pub can_write-Carries :
    (net : Wires) (hnd id : ℕ) (msg : Buffer) (dlc flag : ℕ) (w : World) (c : Conn)
    → Moves new_world w
    → TakesEverything net
    → Holds msg dlc flag
    → lookup hnd w.conns ≡ some c
    → is_ready c ≡ true
    → (bytes : List ℕ) × (can_write net hnd id msg dlc flag w
        ≡ safe (put hnd (record c { tx = next_tx c.tx }) w, can_ok, bytes ∷ []))
      × Carries c.tx bytes (described id msg dlc flag)
unfolding can_write
can_write-Carries net hnd id msg dlc flag w c ms takes holds found ready =
    let f = filled_with id dlc flag (payload msg dlc flag) in
    let (bytes, result, carried) =
      write-next_tx net f c c.tx takes (filled_with-IsSendable id msg dlc flag holds)
        (Moves-IsGood w hnd c ms found) refl ready in
    (
      bytes,
      ap (send_frame net hnd w) (frame_of-filled id msg dlc flag holds)
          ∙ ap (λ o. safe (send_on net hnd f w o)) found
          ∙ ap (λ r. safe (sent_on hnd r w)) result,
      subst (Carries c.tx bytes) (delivered-described id msg dlc flag holds) carried,
    )
