-- ===== src/Api/Sending.antt =====
-- What `canWrite` sends: the frame that `write_frame` builds, and when it reads the buffer.
use kvasilloni.Prelude.{
  ℕ, ◌%◌, ◌^◌, ◌≤◌, ◌≡◌, List, [], ◌++◌, none, some, length, take, drop, min, replicate,
  if◌then◌else◌, arith, All-append, All-drop, length-append, length-take, length-drop,
}
use kvasilloni.Prelude.Exec.{done, copy_to-eq-done}
use kvasilloni.Prelude.Bytes.{IsByte, IsBytes}
use kvasilloni.Wire.Flags.{has, can_msg_rtr}
use kvasilloni.Wire.Frame.{Frame}
use kvasilloni.Wire.Ids.{kvaser_to_canid-IsCanonical, kvaser_to_fd_flags-lt, fd_round_len-le}
use kvasilloni.Wire.Encoded.{IsSendable}
use kvasilloni.Api.Memory.{safe, Buffer}
use kvasilloni.Api.Send.{header_of, user_bytes, frame_of}

-- The 64 zero bytes of a new frame.
abbrev pub blank : List ℕ
blank = replicate 64 0

blank-IsBytes : IsBytes blank
blank-IsBytes = omega arith

-- The caller's bytes are in the frame, which has the claimed header and nothing behind them.
abbrev pub filled_with : ℕ → ℕ → ℕ → List ℕ → Frame
filled_with id dlc flag src = record (header_of id dlc flag) {
  bytes = src ++ drop (length src) blank;
}

pub user_bytes-le : (dlc flag : ℕ) → user_bytes dlc flag ≤ 64
unfolding user_bytes
user_bytes-le dlc flag = ground arith

-- A caller's buffer that holds the bytes that the data length code claims.
abbrev pub Holds : Buffer → ℕ → ℕ → Type 0
Holds none dlc flag = Unit
Holds (some buf) dlc flag = (user_bytes dlc flag ≤ length buf) × IsBytes buf

-- The bytes that are taken from the caller.
abbrev pub payload : Buffer → ℕ → ℕ → List ℕ
payload none dlc flag = []
payload (some buf) dlc flag = if has flag can_msg_rtr then [] else take (user_bytes dlc flag) buf

pub header_of-bytes : (id dlc flag : ℕ) → (header_of id dlc flag).bytes ≡ blank
unfolding header_of
header_of-bytes id dlc flag = ground arith

-- `canWrite` builds its frame without a panic and without reading past the caller's buffer, if
-- that holds the bytes claimed.
pub frame_of-filled :
    (id : ℕ) (msg : Buffer) (dlc flag : ℕ)
    → Holds msg dlc flag
    → frame_of id msg dlc flag ≡ done (safe (filled_with id dlc flag (payload msg dlc flag)))
unfolding frame_of
frame_of-filled id none dlc flag h = ground (arith, header_of-bytes id dlc flag)
frame_of-filled id (some buf) dlc flag h = ground (
  arith,
  h.0,
  header_of-bytes id dlc flag,
  user_bytes-le dlc flag,
  length-take (user_bytes dlc flag) buf,
  copy_to-eq-done (header_of id dlc flag).bytes (user_bytes dlc flag)
      (take (user_bytes dlc flag) buf),
)

pub header-IsSendable :
    (id dlc flag : ℕ) (src : List ℕ)
    → length src ≤ 64
    → IsBytes src
    → IsSendable (filled_with id dlc flag src)
unfolding header_of
header-IsSendable id dlc flag src h hb = record {
  id_fits = ground (arith, (kvaser_to_canid-IsCanonical (id % 2 ^ 32) flag).fits);
  len_fits = ground (arith, fd_round_len-le (min dlc 64));
  flags_fit = ground (arith, kvaser_to_fd_flags-lt flag);
  size =
      ground
        (arith, h, length-append src (drop (length src) blank), length-drop (length src) blank);
  bytes_fit =
      All-append IsByte src (drop (length src) blank) hb
        (All-drop IsByte (length src) blank blank-IsBytes);
}
