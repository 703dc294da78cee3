-- ===== src/System/ReadBack.antt =====
-- What one application writes, another reads: `canWrite`, the bytes, the receive thread, `canRead`.
use kvasilloni.Prelude.{
  ℕ, ◌+◌, ◌^◌, ◌<◌, ◌≤◌, ◌≡◌, ap, ap₂, sym, refl, ◌∙◌, true, false, List, [], ◌∷◌, some, length,
}
use mathlib.Core.Path.{subst, subst⁻¹}
use kvasilloni.Prelude.Exec.{Exec, done, panic}
use kvasilloni.Wire.Frame.{Frame}
use kvasilloni.Wire.Ids.{set?}
use kvasilloni.Wire.Encoded.{IsSendable}
use kvasilloni.Transport.Filter.{accepts}
use kvasilloni.Transport.Shared.{Shared, push, stamped}
use kvasilloni.Transport.Conn.{Conn, Tx, udp, tcp, Wires, is_ready}
use kvasilloni.Transport.Rx.{push_all, guarded_udp_ingest, tcp_rx_frames}
use kvasilloni.Transport.StreamRounds.{primed}
use kvasilloni.Api.Codes.{can_ok}
use kvasilloni.Api.Memory.{safe, Buffer}
use kvasilloni.Api.Table.{World, new_world, lookup, put}
use kvasilloni.Api.Handles.{lookup-insert_self}
use kvasilloni.Api.Send.{can_write}
use kvasilloni.Api.Receive.{Outs, can_read}
use kvasilloni.Api.Sending.{Holds, payload, filled_with}
use kvasilloni.Api.Reading.{HasRoom, outs_of}
use kvasilloni.Api.EndToEnd.{filled_with-IsSendable, can_read-front}
use kvasilloni.Api.ReadBack.{
  received_frame, classic_outs, outs_of-classic, claimed_bytes, delivered-IsSendable,
}
use kvasilloni.Api.ReadBackFd.{fd_outs, outs_of-fd}
use kvasilloni.Api.ReadBackRemote.{remote_outs, outs_of-remote}
use kvasilloni.System.{Moves}
use kvasilloni.System.Described.{described, delivered-described}
use kvasilloni.System.Serves.{TakesEverything, next_tx, Carries, can_write-Carries}

abbrev pushed : ℕ → Shared → Exec (List Frame) → Shared
pushed now s panic = s
pushed now s (done fs) = (push_all now fs s).0

-- The receiver's connection after its receive loop took the bytes that the sender handed over.
abbrev pub receives : Tx → ℕ → List ℕ → Conn → Conn
receives (udp remote seq) now bytes c = record c {
  shared = (guarded_udp_ingest now bytes c.shared).0;
}
receives tcp now bytes c = record c {
  shared = pushed now c.shared (tcp_rx_frames (length bytes + 1) primed bytes);
}

abbrev pub emptied : ℕ → Conn → World → World
emptied hnd c w = put hnd (record c { shared = record c.shared { q = [] } }) w

-- The ring is empty, and its filter accepts the frame.
abbrev pub Awaits : Conn → Frame → Type 0
Awaits c f = (c.shared.q ≡ []) × (accepts c.shared.filters f ≡ true)

push-first :
    (now : ℕ) (f : Frame) (s : Shared)
    → s.q ≡ []
    → accepts s.filters f ≡ true
    → (push now f s).0.q ≡ stamped now f ∷ []
unfolding push
push-first now f s empty taken = rw (taken, empty) refl

receives-q :
    (t : Tx) (now : ℕ) (bytes : List ℕ) (c : Conn) (f : Frame)
    → Carries t bytes f
    → Awaits c f
    → (receives t now bytes c).shared.q ≡ stamped now f ∷ []
unfolding guarded_udp_ingest push_all
receives-q (udp remote seq) now bytes c f carried (empty, taken) =
    rw carried (push-first now f c.shared empty taken)
receives-q tcp now bytes c f carried (empty, taken) =
    rw carried (push-first now f c.shared empty taken)

receives-fd_capable :
    (t : Tx) (now : ℕ) (bytes : List ℕ) (c : Conn)
    → (receives t now bytes c).fd_capable ≡ c.fd_capable
receives-fd_capable (udp remote seq) now bytes c = refl
receives-fd_capable tcp now bytes c = refl

-- `canWrite` of the sender returns canOK and hands bytes over; with them in the receiver's ring,
-- `canRead` returns canOK with these outputs, and leaves the ring empty.
abbrev pub ReadsBack :
    Wires → ℕ → ℕ → Buffer → ℕ → ℕ → World → Conn → ℕ → ℕ → Outs → World → Conn → Outs → Type 0
ReadsBack net hs id msg dlc flag ws cs now hr o wr cr o' =
    (bytes : List ℕ) × (can_write net hs id msg dlc flag ws
      ≡ safe (put hs (record cs { tx = next_tx cs.tx }) ws, can_ok, bytes ∷ []))
    × (can_read hr o (put hr (receives cs.tx now bytes cr) wr)
        ≡ safe (
          emptied hr (receives cs.tx now bytes cr) (put hr (receives cs.tx now bytes cr) wr),
          o',
          can_ok,
        ))

sent-ReadsBack :
    (net : Wires) (hs id : ℕ) (msg : Buffer) (dlc flag : ℕ) (ws : World) (cs : Conn) (now hr : ℕ)
    (o : Outs) (wr : World) (cr : Conn) (o' : Outs)
    → Moves new_world ws
    → TakesEverything net
    → Holds msg dlc flag
    → lookup hs ws.conns ≡ some cs
    → is_ready cs ≡ true
    → Awaits cr (described id msg dlc flag)
    → HasRoom o.msg cr.fd_capable
    → outs_of (received_frame now id msg dlc flag) o cr.fd_capable ≡ o'
    → ReadsBack net hs id msg dlc flag ws cs now hr o wr cr o'
sent-ReadsBack net hs id msg dlc flag ws cs now hr o wr cr o' ms takes holds found ready awaits room
      reported =
    let (bytes, wrote, carried) =
      can_write-Carries net hs id msg dlc flag ws cs ms takes holds found ready in
    let f = filled_with id dlc flag (payload msg dlc flag) in
    let same = ap (stamped now) (delivered-described id msg dlc flag holds) in
    let c = receives cs.tx now bytes cr in
    let capable = receives-fd_capable cs.tx now bytes cr in
    let v =
      subst IsSendable same
        (delivered-IsSendable now f (filled_with-IsSendable id msg dlc flag holds)) in
    let w = put hr c wr in
    let read =
      can_read-front hr o w c (stamped now (described id msg dlc flag)) []
        (lookup-insert_self hr c wr.conns)
        (receives-q cs.tx now bytes cr (described id msg dlc flag) carried awaits) v
        (subst⁻¹ (HasRoom o.msg) capable room) in
    (
      bytes,
      wrote,
      read
          ∙ ap (λ x. safe (emptied hr c w, x, can_ok))
              (ap₂ (λ g b. outs_of g o b) (sym same) capable ∙ reported),
    )

-- What one application sends with `canWrite` as a classic data frame on a ready channel, in a world
-- that the library can reach, over a socket that takes everything, another reads with `canRead`:
-- its receive loop takes the bytes, over UDP or TCP, into an empty ring whose filter accepts the
-- frame, and the read returns canOK, the identifier cut to its kind, the kind and no other flag,
-- the length, the sender's bytes over the front of the reader's buffer with the bytes behind kept,
-- and the time of reception. The length is at most 8, the sender's buffer holds it, the identifier
-- is a 32-bit pattern, and the reader's buffer has room.
pub can_read-can_write :
    (net : Wires) (hs id dlc flag : ℕ) (buf : List ℕ) (ws : World) (cs : Conn) (now hr : ℕ)
    (o : Outs) (wr : World) (cr : Conn)
    → Moves new_world ws
    → TakesEverything net
    → lookup hs ws.conns ≡ some cs
    → is_ready cs ≡ true
    → id < 2 ^ 32
    → dlc ≤ 8
    → Holds (some buf) dlc flag
    → set? 16 flag ≡ false
    → set? 0 flag ≡ false
    → Awaits cr (described id (some buf) dlc flag)
    → HasRoom o.msg cr.fd_capable
    → ReadsBack net hs id
        (some buf)
        dlc
        flag
        ws
        cs
        now
        hr
        o
        wr
        cr
        (classic_outs now id dlc buf flag o)
can_read-can_write net hs id dlc flag buf ws cs now hr o wr cr ms takes found ready fits h holds
      classic not_remote awaits room =
    sent-ReadsBack net hs id (some buf) dlc flag ws cs now hr o wr cr _ ms takes holds found ready
      awaits room
      (outs_of-classic now id dlc flag buf o cr.fd_capable fits h
        (claimed_bytes dlc flag buf h classic holds.0) classic not_remote)

-- What one application sends with `canWrite` as a CAN FD data frame, another reads with `canRead` on
-- a channel that was opened for CAN FD, once its receive loop took the bytes, over UDP or TCP: the
-- read returns canOK, the identifier cut to its kind, the kind with the flags of CAN FD, of the bit-rate switch and of the error indicator
-- as the sender gave them and no other flag, the least CAN FD length that holds the sender's bytes,
-- these bytes and then zeros up to that length over the front of the reader's buffer with the bytes
-- behind kept, and the time of reception. The length is at most 64, the sender's buffer holds it,
-- the identifier is a 32-bit pattern, the sender's channel is ready, in a world that the library
-- can reach, its socket takes everything, the receiver's ring is empty and its filter accepts the
-- frame, and the reader's buffer has room for 64 bytes.
pub can_read-can_write_fd :
    (net : Wires) (hs id dlc flag : ℕ) (buf : List ℕ) (ws : World) (cs : Conn) (now hr : ℕ)
    (o : Outs) (wr : World) (cr : Conn)
    → Moves new_world ws
    → TakesEverything net
    → lookup hs ws.conns ≡ some cs
    → is_ready cs ≡ true
    → id < 2 ^ 32
    → dlc ≤ 64
    → Holds (some buf) dlc flag
    → set? 16 flag ≡ true
    → set? 0 flag ≡ false
    → Awaits cr (described id (some buf) dlc flag)
    → cr.fd_capable ≡ true
    → HasRoom o.msg true
    → ReadsBack net hs id (some buf) dlc flag ws cs now hr o wr cr (fd_outs now id dlc buf flag o)
can_read-can_write_fd net hs id dlc flag buf ws cs now hr o wr cr ms takes found ready fits h holds
      fd not_remote awaits capable room =
    sent-ReadsBack net hs id (some buf) dlc flag ws cs now hr o wr cr _ ms takes holds found ready
      awaits (subst⁻¹ (HasRoom o.msg) capable room)
      (ap (outs_of (received_frame now id (some buf) dlc flag) o) capable
        ∙ outs_of-fd now id dlc flag buf o fits h holds fd not_remote)

-- What one application sends with `canWrite` as a classic remote request, whatever bytes it gives,
-- another reads with `canRead`, once its receive loop took the bytes, over UDP or TCP: the read
-- returns canOK, the identifier cut to its kind, the kind with the remote flag and no other, the length up to 8, the time of reception, and a
-- buffer that is left alone. A buffer of the sender holds the bytes that the length claims, the
-- identifier is a 32-bit pattern, the sender's channel is ready, in a world that the library can
-- reach, its socket takes everything, the receiver's ring is empty and its filter accepts the
-- request, and the reader's buffer has room.
pub can_read-can_write_remote :
    (net : Wires) (hs id dlc flag : ℕ) (msg : Buffer) (ws : World) (cs : Conn) (now hr : ℕ)
    (o : Outs) (wr : World) (cr : Conn)
    → Moves new_world ws
    → TakesEverything net
    → lookup hs ws.conns ≡ some cs
    → is_ready cs ≡ true
    → id < 2 ^ 32
    → Holds msg dlc flag
    → set? 16 flag ≡ false
    → set? 0 flag ≡ true
    → Awaits cr (described id msg dlc flag)
    → HasRoom o.msg cr.fd_capable
    → ReadsBack net hs id msg dlc flag ws cs now hr o wr cr (remote_outs now id dlc flag o)
can_read-can_write_remote net hs id dlc flag msg ws cs now hr o wr cr ms takes found ready fits
      holds classic remote awaits room =
    sent-ReadsBack net hs id msg dlc flag ws cs now hr o wr cr _ ms takes holds found ready awaits
      room (outs_of-remote now id dlc flag msg o cr.fd_capable fits classic remote)
