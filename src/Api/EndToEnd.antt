-- ===== src/Api/EndToEnd.antt =====
-- From `canWrite` to the datagram, and from the received frame to `canRead`.
use kvasilloni.Prelude.{
  ℕ, ◌+◌, ◌%◌, ◌<◌, ◌≤◌, ◌≡◌, refl, ap, ◌∙◌, true, false, List, [], ◌∷◌, none, some, length, arith,
  length-take, All-take,
}
use kvasilloni.Prelude.Bytes.{IsByte, IsBytes}
use kvasilloni.Prelude.Exec.{done}
use kvasilloni.Wire.Frame.{Frame}
use kvasilloni.Wire.Udp.{parse_udp}
use kvasilloni.Wire.Encoded.{IsSendable, delivered}
use kvasilloni.Transport.Shared.{pop}
use kvasilloni.Transport.Peers.{SocketAddr}
use kvasilloni.Transport.Conn.{Conn, udp, Wires}
use kvasilloni.Transport.ConnLaws.{TakesAll, write-udp}
use kvasilloni.Api.Codes.{can_ok}
use kvasilloni.Api.Memory.{safe, Buffer}
use kvasilloni.Api.Table.{World, lookup, put}
use kvasilloni.Api.Send.{send_frame, send_on, sent_on, can_write, user_bytes}
use kvasilloni.Api.Receive.{Outs, can_read}
use kvasilloni.Api.Sending.{
  Holds, payload, filled_with, frame_of-filled, header-IsSendable, user_bytes-le,
}
use kvasilloni.Api.Reading.{HasRoom, outs_of, write_read_outputs_lem}

payload-fits :
    (msg : Buffer) (dlc flag : ℕ)
    → Holds msg dlc flag
    → (length (payload msg dlc flag) ≤ 64) × IsBytes (payload msg dlc flag)
payload-fits none dlc flag h = (omega arith, tt)
payload-fits (some buf) dlc flag h = (
  ground (arith, length-take (user_bytes dlc flag) buf, user_bytes-le dlc flag),
  ground (arith, All-take IsByte (user_bytes dlc flag) buf h.1),
)

pub filled_with-IsSendable :
    (id : ℕ) (msg : Buffer) (dlc flag : ℕ)
    → Holds msg dlc flag
    → IsSendable (filled_with id dlc flag (payload msg dlc flag))
filled_with-IsSendable id msg dlc flag h =
    let fits = payload-fits msg dlc flag h in
    header-IsSendable id dlc flag (payload msg dlc flag) fits.0 fits.1

send_on-udp :
    (net : Wires) (hnd : ℕ) (f : Frame) (w : World) (c : Conn) (remote : SocketAddr) (seq : ℕ)
    → TakesAll net
    → IsSendable f
    → c.negotiated ≡ true
    → c.tx_poisoned ≡ false
    → c.tx ≡ udp remote seq
    → seq < 256
    → (pkt : List ℕ) × (send_on net hnd f w (some c)
        ≡ (put hnd (record c { tx = udp remote ((seq + 1) % 256) }) w, can_ok, pkt ∷ []))
      × (parse_udp pkt ≡ done (some (delivered f ∷ [])))
send_on-udp net hnd f w c remote seq takes v ready clean is_udp hs =
    let (pkt, written, parsed) = write-udp net f c remote seq takes v ready clean is_udp hs in
    (pkt, ap (λ r. sent_on hnd r w) written, parsed)

-- `canWrite` on an open and ready UDP channel, whose lock is not poisoned and whose socket takes a
-- whole datagram, from a buffer that holds the bytes claimed by the data length code, returns canOK
-- and sends one datagram. A receiver parses it to one frame: the translated identifier and flags,
-- the claimed length cut to the class and rounded for CAN FD, and the caller's bytes with zeros
-- behind, without payload for a remote request. Of the world only the channel's sequence number
-- changes, up by one modulo 256.
pub can_write-udp :
    (net : Wires) (hnd id : ℕ) (msg : Buffer) (dlc flag : ℕ) (w : World) (c : Conn)
    (remote : SocketAddr) (seq : ℕ)
    → TakesAll net
    → Holds msg dlc flag
    → lookup hnd w.conns ≡ some c
    → c.negotiated ≡ true
    → c.tx_poisoned ≡ false
    → c.tx ≡ udp remote seq
    → seq < 256
    → (pkt : List ℕ) × (can_write net hnd id msg dlc flag w
        ≡ safe (put hnd (record c { tx = udp remote ((seq + 1) % 256) }) w, can_ok, pkt ∷ []))
      × (parse_udp pkt
          ≡ done (some (delivered (filled_with id dlc flag (payload msg dlc flag)) ∷ [])))
unfolding can_write
can_write-udp net hnd id msg dlc flag w c remote seq takes holds found ready clean is_udp hs =
    let f = filled_with id dlc flag (payload msg dlc flag) in
    let (pkt, result, parsed) =
      send_on-udp net hnd f w c remote seq takes (filled_with-IsSendable id msg dlc flag holds)
        ready clean is_udp hs in
    (
      pkt,
      ap (send_frame net hnd w) (frame_of-filled id msg dlc flag holds)
          ∙ ap (λ o. safe (send_on net hnd f w o)) found
          ∙ ap safe result,
      parsed,
    )

-- `canRead` on an open channel whose ring holds a sendable frame, into a buffer with room, returns
-- canOK with that frame and takes it out of the ring.
pub can_read-front :
    (hnd : ℕ) (o : Outs) (w : World) (c : Conn) (f : Frame) (rest : List Frame)
    → lookup hnd w.conns ≡ some c
    → c.shared.q ≡ f ∷ rest
    → IsSendable f
    → HasRoom o.msg c.fd_capable
    → can_read hnd o w
      ≡ safe (
        put hnd (record c { shared = record c.shared { q = rest } }) w,
        outs_of f o c.fd_capable,
        can_ok,
      )
unfolding can_read pop
can_read-front hnd o w c f rest found front v room =
    rw (found, front, write_read_outputs_lem f o c.fd_capable v room) refl
