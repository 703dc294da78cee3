-- ===== src/Api/Receive.antt =====
-- `canRead`, `canReadWait`, `canReadSync` and `write_read_outputs` of src/lib.rs.
use kvasilloni.Prelude.{
  ℕ, ◌%◌, ◌^◌, ◌-◌, min, Bool, not, ◌&&◌, List, Option, none, some, bit_or, ltb, ◌==◌,
  if◌then◌else◌,
}
use kvasilloni.Prelude.Exec.{Exec, done, panic, ◌>>=◌, slice}
use kvasilloni.Wire.Flags.{max_frame_len, classic_frame_max_len, fd_flags_to_kvaser}
use kvasilloni.Wire.Frame.{Frame, is_rtr, canid_to_kvaser}
use kvasilloni.Transport.Shared.{Shared, Op, pop, pop_wait, peek_wait}
use kvasilloni.Transport.Conn.{Conn}
use kvasilloni.Api.Codes.{
  can_ok, can_err_param, can_err_nomsg, can_err_invhandle, can_wait_infinite,
}
use kvasilloni.Api.Memory.{Access, safe, fault, Cell, Buffer, store, write_bytes}
use kvasilloni.Api.Table.{World, lookup, insert, put}

-- The out-parameters of a read.
pub record Outs : Type 0 where
  pub id : Cell
  pub msg : Buffer
  pub dlc : Cell
  pub flag : Cell
  pub time : Cell

abbrev pub with_msg : Outs → Access (List ℕ) → Access Outs
with_msg o (safe buf) = safe (record o { msg = some buf })
with_msg o fault = fault

abbrev pub write_msg : Frame → ℕ → Outs → Buffer → Exec (Access Outs)
write_msg f n o none = done (safe o)
write_msg f n o (some buf) =
    if ltb 0 n && not (is_rtr f)
    then (do src ← slice f.bytes 0 n; done (with_msg o (write_bytes buf src)))
    else done (safe o)

unfoldable pub write_read_outputs : Frame → Outs → Bool → Exec (Access Outs)
write_read_outputs f o fd_capable =
    let report_fd = f.fd && fd_capable in
    let (oid, oflag) = canid_to_kvaser f.can_id report_fd in
    let oflag' = if report_fd then bit_or oflag (fd_flags_to_kvaser f.fd_flags) else oflag in
    let max_len = if fd_capable then max_frame_len else classic_frame_max_len in
    let n = min f.len max_len in
    let o' = record o {
      id = store o.id oid;
      flag = store o.flag oflag';
      dlc = store o.dlc n;
      time = store o.time (f.rx_time_ms % 2 ^ 32);
    } in
    write_msg f n o' o.msg

-- The world after the call, the out-parameters, and the code.
abbrev pub Received : Type 0
Received = World × Outs × ℕ

-- `guard` turns a panic into canERR_PARAM.
abbrev pub received : World → Outs → Exec (Access Outs) → Access Received
received w o panic = safe (w, o, can_err_param)
received w o (done fault) = fault
received w o (done (safe o')) = safe (w, o', can_ok)

abbrev pub read_out : World → Outs → Bool → Option Frame → Access Received
read_out w o fd_capable none = safe (w, o, can_err_nomsg)
read_out w o fd_capable (some f) = received w o (write_read_outputs f o fd_capable)

abbrev pub read_from :
    ℕ → Outs → World → Option Conn → (Shared → Shared × Option Frame) → Access Received
read_from hnd o w none take_frame = safe (w, o, can_err_invhandle)
read_from hnd o w (some c) take_frame =
    let (s, frame) = take_frame c.shared in
    read_out (put hnd (record c { shared = s }) w) o c.fd_capable frame

unfoldable pub can_read : ℕ → Outs → World → Access Received
unfolding write_read_outputs lookup insert pop
can_read hnd o w = read_from hnd o w (lookup hnd w.conns) pop

-- In milliseconds.
abbrev pub timeout_to_duration : ℕ → ℕ
timeout_to_duration timeout = if timeout == can_wait_infinite then 2 ^ 32 - 1 else timeout

unfoldable pub read_wait_duration : Bool → ℕ → ℕ
read_wait_duration in_callback timeout = if in_callback then 0 else timeout_to_duration timeout

-- `during d` is what the other threads do within `d` milliseconds.
unfoldable pub can_read_wait : (ℕ → List (List Op)) → Bool → ℕ → Outs → ℕ → World → Access Received
unfolding write_read_outputs lookup insert pop_wait read_wait_duration
can_read_wait during in_callback hnd o timeout w =
    read_from hnd o w (lookup hnd w.conns)
      (pop_wait (during (read_wait_duration in_callback timeout)))

abbrev pub sync_code : Bool → ℕ
sync_code ready = if ready then can_ok else can_err_nomsg

abbrev pub sync_on : ℕ → World → Option Conn → (Shared → Shared × Bool) → World × ℕ
sync_on hnd w none peek = (w, can_err_invhandle)
sync_on hnd w (some c) peek =
    let (s, ready) = peek c.shared in (put hnd (record c { shared = s }) w, sync_code ready)

unfoldable pub can_read_sync : (ℕ → List (List Op)) → Bool → ℕ → ℕ → World → World × ℕ
unfolding lookup insert peek_wait read_wait_duration
can_read_sync during in_callback hnd timeout w =
    sync_on hnd w (lookup hnd w.conns) (peek_wait (during (read_wait_duration in_callback timeout)))
