-- ===== src/Api/Reading.antt =====
-- What `canRead` writes to its out-parameters.
use kvasilloni.Prelude.{
  ℕ, ◌%◌, ◌^◌, ◌≤◌, ◌≡◌, refl, ap, ◌∙◌, inl, inr, Bool, ◌&&◌, List, ◌++◌, none, some, length, take,
  drop, min, if◌then◌else◌, arith, Bool-cases, length-take, bit_or,
}
use native.Mathlib.Decide.{dec_lt}
use kvasilloni.Prelude.Exec.{done, slice, slice-eq-done}
use kvasilloni.Wire.Flags.{fd_flags_to_kvaser}
use kvasilloni.Wire.Frame.{Frame, is_rtr, canid_to_kvaser}
use kvasilloni.Wire.Encoded.{IsSendable}
use kvasilloni.Api.Memory.{safe, Buffer, store, write_bytes}
use kvasilloni.Api.Receive.{Outs, write_msg, write_read_outputs}

-- The largest payload that a channel reports.
abbrev pub room_of : Bool → ℕ
room_of fd_capable = if fd_capable then 64 else 8

-- A caller's buffer that has room for the largest payload of its channel.
abbrev pub HasRoom : Buffer → Bool → Type 0
HasRoom none fd_capable = Unit
HasRoom (some buf) fd_capable = room_of fd_capable ≤ length buf

-- The caller's buffer after a read of `n` bytes.
abbrev pub after_read : Frame → ℕ → Buffer → Buffer
after_read f n none = none
after_read f n (some buf) = some (if is_rtr f then buf else take n f.bytes ++ drop n buf)

abbrev reported_flags : Frame → Bool → ℕ
reported_flags f report_fd =
    let flag = (canid_to_kvaser f.can_id report_fd).1 in
    if report_fd then bit_or flag (fd_flags_to_kvaser f.fd_flags) else flag

-- The out-parameters after a read.
abbrev pub outs_of : Frame → Outs → Bool → Outs
outs_of f o fd_capable = record {
  id = store o.id (canid_to_kvaser f.can_id (f.fd && fd_capable)).0;
  msg = after_read f (min f.len (room_of fd_capable)) o.msg;
  dlc = store o.dlc (min f.len (room_of fd_capable));
  flag = store o.flag (reported_flags f (f.fd && fd_capable));
  time = store o.time (f.rx_time_ms % 2 ^ 32);
}

payload_slice :
    (f : Frame) (n : ℕ) → IsSendable f → n ≤ 64 → slice f.bytes 0 n ≡ done (take n f.bytes)
payload_slice f n v h =
    slice-eq-done f.bytes 0 n (omega arith) (omega (arith, v.size))
    ∙ ap (λ k. done (take k f.bytes)) (omega arith)

write_bytes-eq-safe :
    (buf src : List ℕ)
    → length src ≤ length buf
    → write_bytes buf src ≡ safe (src ++ drop (length src) buf)
write_bytes-eq-safe buf src h = ground (arith, h)

-- The payload written over the front of the buffer.
write_msg-some :
    (f : Frame) (n : ℕ) (o : Outs) (buf : List ℕ)
    → IsSendable f
    → n ≤ 64
    → n ≤ length buf
    → write_msg f n (record o { msg = some buf }) (some buf)
      ≡ done (safe (record o { msg = after_read f n (some buf) }))
write_msg-some f n o buf v h k =
    let size : length (take n f.bytes) ≡ n = omega (arith, length-take n f.bytes, v.size) in
    elim (Bool-cases (is_rtr f)) [
      | inl rtr ↦ ground (arith, rtr)
      | inr plain ↦ elim (dec_lt 0 n) [
        | Prim.yes pos ↦ ground (
          arith,
          plain,
          pos,
          payload_slice f n v h,
          size,
          write_bytes-eq-safe buf (take n f.bytes),
        )
        | Prim.no none_left ↦ ground (arith, plain)
      ]
    ]

write_msg-eq :
    (f : Frame) (o : Outs) (msg : Buffer) (fd_capable : Bool)
    → IsSendable f
    → HasRoom msg fd_capable
    → write_msg f (min f.len (room_of fd_capable)) (record o { msg = msg }) msg
      ≡ done (safe (record o { msg = after_read f (min f.len (room_of fd_capable)) msg }))
write_msg-eq f o none fd_capable v room = refl
write_msg-eq f o (some buf) fd_capable v room =
    write_msg-some f (min f.len (room_of fd_capable)) o buf v (ground (arith, v.len_fits))
      (ground (arith, room))

-- Reading a sendable frame into a buffer with room neither panics nor writes past it: the first
-- bytes are the payload, cut to what the channel carries, the bytes behind keep their values, and
-- a remote request leaves the buffer alone.
pub write_read_outputs_lem :
    (f : Frame) (o : Outs) (fd_capable : Bool)
    → IsSendable f
    → HasRoom o.msg fd_capable
    → write_read_outputs f o fd_capable ≡ done (safe (outs_of f o fd_capable))
unfolding write_read_outputs
write_read_outputs_lem f o fd_capable v room =
    write_msg-eq f (outs_of f o fd_capable) o.msg fd_capable v room
