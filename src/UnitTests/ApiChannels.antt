-- ===== src/UnitTests/ApiChannels.antt =====
-- The tests of src/lib.rs on an open channel: a UDP connection over loopback sockets, into whose
-- receive state frames are pushed directly.
use kvasilloni.Prelude.{
  ℕ, ◌+◌, ◌≡◌, refl, ap, Bool, true, false, not, ◌&&◌, List, [], ◌∷◌, none, some, bit_and, bit_or,
  drop, replicate, length, ltb, ◌^◌, if◌then◌else◌, inl, inr, Bool-cases, arith,
}
use kvasilloni.Prelude.Exec.{Exec, done, panic, ◌>>=◌, slice}
use kvasilloni.Prelude.Text.{trim, text_eq}
use kvasilloni.Wire.Flags.{can_eff_flag, can_msg_ext, can_msg_rtr, can_msg_std, has}
use kvasilloni.Wire.Frame.{Frame, is_rtr, canid_to_kvaser, kvaser_to_canid}
use kvasilloni.Wire.Encode.{build_udp}
use kvasilloni.Wire.Udp.{parse_udp}
use kvasilloni.Config.Types.{default_config, localhost}
use kvasilloni.Transport.Peers.{bind_udp}
use kvasilloni.Transport.Filter.{default_accept, accepts}
use kvasilloni.Transport.Shared.{Shared, push, level, overflowed, is_link_lost, mark_link_lost}
use kvasilloni.Transport.Conn.{Conn, connect, write}
use kvasilloni.Api.Codes.{
  can_ok, can_err_nomsg, can_stat_bus_off, can_stat_rx_pending, can_stat_sw_overrun,
}
use kvasilloni.Api.Table.{World, new_world, lookup, insert, put, can_open_channel}
use kvasilloni.Api.Send.{can_write}
use kvasilloni.Api.Receive.{can_read_wait}
use kvasilloni.Api.Control.{or_if, status_of, can_read_status, can_io_ctl}
use kvasilloni.UnitTests.Asserts.{Test, passed, ◌>>◌, assert, assert_eq, assert_same, expect, nth}
use kvasilloni.UnitTests.WireUdp.{mk}
use kvasilloni.UnitTests.TransportRing.{push_counted}
use kvasilloni.UnitTests.TransportFull.{push_counted-full}
use kvasilloni.UnitTests.TransportConn.{loopback, unwrap}
use kvasilloni.UnitTests.ApiPoints.{safely, from_le, open_wires, bad_handle}
use kvasilloni.UnitTests.ApiFrames.{outs_with}

unfoldable pub open_loopback_channel : Exec (World × ℕ)
unfolding can_open_channel
open_loopback_channel =
    let (w, h) = can_open_channel loopback default_config 0 new_world in
    if ltb 0 h && ltb h (2 ^ 31) then done (w, h) else panic

unfoldable pub conn_for : ℕ → World → Exec Conn
unfolding lookup
conn_for hnd w = expect (lookup hnd w.conns)

-- What is done to the receive state of the channel.
abbrev pub on_shared : ℕ → World → (Shared → Shared) → Exec World
on_shared hnd w change = do
  c ← conn_for hnd w
  done (put hnd (record c { shared = change c.shared }) w)

abbrev pub rx_frame : ℕ → List ℕ → Exec Frame
rx_frame can_id bytes = mk can_id bytes

abbrev pub pushing : ℕ → Frame → Shared → Shared
pushing now f s = (push now f s).0

-- The flags that `canReadStatus` writes.
abbrev pub flags_of_status : ℕ → World → Exec ℕ
flags_of_status hnd w = expect (can_read_status hnd (some 0xffff) w).0

unfoldable pub read_status_reports_pending_and_overrun : ℕ → Test
unfolding open_loopback_channel conn_for insert can_read_status push accepts
read_status_reports_pending_and_overrun now = do
  (w, h) ← open_loopback_channel
  assert_eq (can_read_status h (some 0xffff) w).1 can_ok
  flags ← flags_of_status h w
  assert_eq flags 0
  f ← rx_frame 0x123 (0xaa ∷ [])
  w1 ← on_shared h w (pushing now f)
  flags1 ← flags_of_status h w1
  assert (has flags1 can_stat_rx_pending)
  assert (not (has flags1 can_stat_sw_overrun))
  g ← rx_frame 0 (0 ∷ [])
  w2 ← on_shared h w1 (push_counted now (λ i. record g { can_id = 0x200 + bit_and i 0xff }) 9000 0)
  flags2 ← flags_of_status h w2
  assert (has flags2 can_stat_sw_overrun)
  let (bad, code) = can_read_status bad_handle (some 0xdead) w2
  assert_eq code can_ok
  flags3 ← expect bad
  assert_eq flags3 0

latched_status : (s : Shared) → overflowed s ≡ true → has (status_of s) can_stat_sw_overrun ≡ true
unfolding status_of
latched_status s e = rw e (elim (Bool-cases (is_link_lost s)) [
  | inl lost ↦ rw lost (pending (ltb 0 (level s)))
  | inr up ↦ rw up (pending_up (ltb 0 (level s)))
])
  where
    pending : (b : Bool) → has (or_if true 2 (or_if true 1024 (or_if b 32 0))) 1024 ≡ true
    pending true = refl
    pending false = refl

    pending_up : (b : Bool) → has (or_if false 2 (or_if true 1024 (or_if b 32 0))) 1024 ≡ true
    pending_up true = refl
    pending_up false = refl

-- The test's nine thousand frames, behind one that is queued.
overrun_status :
    (now : ℕ) (make : ℕ → Frame) (s : Shared)
    → s.filters ≡ default_accept
    → length s.q ≡ 1
    → assert (has (status_of (push_counted now make 9000 0 s)) can_stat_sw_overrun) ≡ passed
overrun_status now make s e one =
    let (latched, full) = push_counted-full now make 9000 0 8191 s e (omega arith) (omega arith) in
    ap assert (latched_status (push_counted now make 9000 0 s) latched)

read_status_reports_pending_and_overrun_passes :
    (now : ℕ) → read_status_reports_pending_and_overrun now ≡ passed
unfolding read_status_reports_pending_and_overrun trim text_eq bind_udp connect
read_status_reports_pending_and_overrun_passes now =
    ap (λ t. t >> passed) (overrun_status now _ _ refl refl)

unfoldable pub read_status_reports_bus_off_on_link_loss : ℕ → Test
unfolding open_loopback_channel conn_for insert can_read_status push mark_link_lost accepts
read_status_reports_bus_off_on_link_loss now = do
  (w, h) ← open_loopback_channel
  flags ← flags_of_status h w
  assert (not (has flags can_stat_bus_off))
  f ← rx_frame 0x321 (0x01 ∷ [])
  w1 ← on_shared h w (pushing now f)
  w2 ← on_shared h w1 mark_link_lost
  flags1 ← flags_of_status h w2
  assert (has flags1 can_stat_bus_off)
  assert (has flags1 can_stat_rx_pending)

read_status_reports_bus_off_on_link_loss_passes :
    (now : ℕ) → read_status_reports_bus_off_on_link_loss now ≡ passed
unfolding read_status_reports_bus_off_on_link_loss trim text_eq bind_udp connect
read_status_reports_bus_off_on_link_loss_passes now = refl

unfoldable pub ioctl_rx_buffer_level_and_flush : ℕ → Test
unfolding open_loopback_channel conn_for insert can_io_ctl push accepts push_counted
ioctl_rx_buffer_level_and_flush now = do
  (w, h) ← open_loopback_channel
  f ← rx_frame 0 (0 ∷ [])
  w1 ←
      on_shared h w
        (push_counted now (λ i. record f { can_id = 0x100 + i; bytes = i ∷ drop 1 f.bytes }) 5 0)
  (buf, code) ← safely (can_io_ctl h 8 (some (replicate 4 0)) 4 w1).1
  assert_eq code can_ok
  bytes ← expect buf
  assert_eq (from_le bytes) 5
  let (w2, flushed) = can_io_ctl h 10 none 0 w1
  (_, code') ← safely flushed
  assert_eq code' can_ok
  (buf', _) ← safely (can_io_ctl h 8 (some (0xff ∷ 0xff ∷ 0 ∷ 0 ∷ [])) 4 w2).1
  bytes' ← expect buf'
  assert_eq (from_le bytes') 0

ioctl_rx_buffer_level_and_flush_passes : (now : ℕ) → ioctl_rx_buffer_level_and_flush now ≡ passed
unfolding ioctl_rx_buffer_level_and_flush trim text_eq bind_udp connect
ioctl_rx_buffer_level_and_flush_passes now = refl

-- Nothing else happens while the second read waits.
unfoldable pub read_wait_returns_pushed_frame_else_nomsg : ℕ → Test
unfolding open_loopback_channel conn_for insert can_read_wait push accepts text_eq
read_wait_returns_pushed_frame_else_nomsg now = do
  (w, h) ← open_loopback_channel
  f ← rx_frame (bit_or 0x18ff_0102 can_eff_flag) (1 ∷ 2 ∷ 3 ∷ 4 ∷ [])
  w1 ← on_shared h w (pushing now f)
  (w2, o, st) ← safely (can_read_wait (λ d. []) false h (outs_with (replicate 8 0)) 200 w1)
  assert_eq st can_ok
  id ← expect o.id
  assert_eq id 0x18ff_0102
  flag ← expect o.flag
  assert (has flag can_msg_ext)
  dlc ← expect o.dlc
  assert_eq dlc 4
  buf ← expect o.msg
  xs ← slice buf 0 4
  assert_same xs (1 ∷ 2 ∷ 3 ∷ 4 ∷ [])
  (w3, o', st') ← safely (can_read_wait (λ d. []) false h o 50 w2)
  assert_eq st' can_err_nomsg

read_wait_returns_pushed_frame_else_nomsg_passes :
    (now : ℕ) → read_wait_returns_pushed_frame_else_nomsg now ≡ passed
unfolding read_wait_returns_pushed_frame_else_nomsg canid_to_kvaser trim bind_udp connect
read_wait_returns_pushed_frame_else_nomsg_passes now = refl

unfoldable pub write_frame_rtr_sends_dlc_but_no_payload : ℕ → Test
unfolding connect insert can_write parse_udp
write_frame_rtr_sends_dlc_but_no_payload rx_port = do
  conn ← unwrap (
      connect loopback
        (record default_config { host = localhost; remote_port = rx_port; local_port = 0 }))
  let w = put 1 conn new_world
  (w', st, sent) ← safely (
      can_write open_wires 1 0x123 (some (0xde ∷ 0xad ∷ 0xbe ∷ 0xef ∷ [])) 8
        (bit_or can_msg_std can_msg_rtr) w)
  assert_eq st can_ok
  pkt ← nth sent 0
  assert_eq (length pkt) 10
  r ← parse_udp pkt
  frames ← expect r
  assert_eq (length frames) 1
  g ← nth frames 0
  assert (is_rtr g)
  assert_eq g.len 8

write_frame_rtr_sends_dlc_but_no_payload_passes :
    (rx_port : ℕ) → write_frame_rtr_sends_dlc_but_no_payload rx_port ≡ passed
unfolding write_frame_rtr_sends_dlc_but_no_payload kvaser_to_canid build_udp trim text_eq bind_udp
    write
write_frame_rtr_sends_dlc_but_no_payload_passes rx_port = refl
