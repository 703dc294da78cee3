-- ===== src/Api/Send.antt =====
-- `canWrite`, `canWriteWait` and `write_frame` of src/lib.rs.
use kvasilloni.Prelude.{
  ℕ, ◌%◌, ◌^◌, min, true, not, ◌&&◌, List, [], Option, none, some, length, take, ltb, if◌then◌else◌,
}
use kvasilloni.Prelude.Exec.{Exec, done, panic, ◌>>=◌, copy_to}
use kvasilloni.Wire.Flags.{can_msg_fdf, can_msg_rtr, has, fd_round_len, kvaser_to_fd_flags}
use kvasilloni.Wire.Frame.{Frame, default_frame, kvaser_to_canid}
use kvasilloni.Transport.Conn.{Conn, WriteResult, wrote, panicked, failed, Written, Wires, write}
use kvasilloni.Api.Codes.{can_ok, can_err_param, can_err_invhandle}
use kvasilloni.Api.Memory.{Access, safe, fault, Buffer}
use kvasilloni.Api.Table.{World, lookup, insert, put}

-- The frame before its payload is copied.
unfoldable pub header_of : ℕ → ℕ → ℕ → Frame
header_of id dlc flag =
    let can_id = kvaser_to_canid (id % 2 ^ 32) flag in
    if has flag can_msg_fdf
    then record default_frame {
      can_id = can_id;
      fd = true;
      fd_flags = kvaser_to_fd_flags flag;
      len = fd_round_len (min dlc 64);
    }
    else record default_frame { can_id = can_id; len = min dlc 8 }

unfoldable pub user_bytes : ℕ → ℕ → ℕ
user_bytes dlc flag = if has flag can_msg_fdf then min dlc 64 else min dlc 8

-- `copy_from_slice` from the caller's buffer, which must be as long as `n`.
abbrev copy_payload : Frame → ℕ → List ℕ → Exec (Access Frame)
copy_payload f n buf =
    if ltb (length buf) n
    then done fault
    else (do bytes' ← copy_to f.bytes n (take n buf); done (safe (record f { bytes = bytes' })))

abbrev payload_from : Frame → ℕ → ℕ → Buffer → Exec (Access Frame)
payload_from f n flag none = done (safe f)
payload_from f n flag (some buf) =
    if ltb 0 n && not (has flag can_msg_rtr) then copy_payload f n buf else done (safe f)

unfoldable pub frame_of : ℕ → Buffer → ℕ → ℕ → Exec (Access Frame)
unfolding header_of user_bytes
frame_of id msg dlc flag = payload_from (header_of id dlc flag) (user_bytes dlc flag) flag msg

-- The world after the call, its code, and the bytes handed to the socket.
abbrev pub Sent : Type 0
Sent = World × ℕ × List (List ℕ)

abbrev pub write_code : WriteResult → ℕ
write_code wrote = can_ok
write_code panicked = can_err_param
write_code (failed e) = can_err_param

abbrev pub sent_on : ℕ → Written → World → Sent
sent_on hnd r w = (put hnd r.conn w, write_code r.result, r.sent)

abbrev pub send_on : Wires → ℕ → Frame → World → Option Conn → Sent
send_on net hnd f w none = (w, can_err_invhandle, [])
send_on net hnd f w (some c) = sent_on hnd (write net f c) w

abbrev pub send_frame : Wires → ℕ → World → Exec (Access Frame) → Access Sent
send_frame net hnd w panic = safe (w, can_err_param, [])
send_frame net hnd w (done fault) = fault
send_frame net hnd w (done (safe f)) = safe (send_on net hnd f w (lookup hnd w.conns))

-- `canWrite`; `canWriteWait` is the same call, its timeout is not read. `guard` turns a panic
-- into canERR_PARAM.
unfoldable pub can_write : Wires → ℕ → ℕ → Buffer → ℕ → ℕ → World → Access Sent
unfolding frame_of lookup insert
can_write net hnd id msg dlc flag w = send_frame net hnd w (frame_of id msg dlc flag)

-- A frame is sent within the call, so that the timeout does not matter.
unfoldable pub can_write_wait : Wires → ℕ → ℕ → Buffer → ℕ → ℕ → ℕ → World → Access Sent
unfolding frame_of lookup insert
can_write_wait net hnd id msg dlc flag timeout w = send_frame net hnd w (frame_of id msg dlc flag)
