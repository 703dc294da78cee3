-- ===== src/Wire/Udp.antt =====
-- `parse_udp` of src/wire.rs: the decoder of UDP datagrams.
use kvasilloni.Prelude.{
  ℕ, zero, suc, ◌+◌, ◌/◌, min, true, not, ◌||◌, List, [], ◌∷◌, ◌++◌, Option, none, some, bit_and,
  length, ltb, ◌==◌, if◌then◌else◌,
}
use kvasilloni.Prelude.Bytes.{u16_from_be, u32_from_be}
use kvasilloni.Prelude.Exec.{Exec, done, ◌>>=◌, index, slice, copy_to}
use kvasilloni.Wire.Flags.{
  canfd_frame, max_frame_len, classic_frame_max_len, data_packet_base_size, frame_base_size,
  frame_version, op_data, has,
}
use kvasilloni.Wire.Frame.{Frame, default_frame, is_rtr}

unfoldable pub udp_prealloc_cap : ℕ → ℕ → ℕ
udp_prealloc_cap count buf_len = min count (buf_len / frame_base_size + 1)

-- From the length check on: `p` is behind the header of `f`.
unfoldable pub parse_body : List ℕ → ℕ → Frame → Exec (Option (Frame × ℕ))
parse_body buf p f =
    let dlen = bit_and f.len 0x7f in
    let limit = if f.fd then max_frame_len else classic_frame_max_len in
    if ltb limit dlen
    then done none
    else if not (is_rtr f)
    then (if ltb (length buf) (p + dlen) then done none else (do
      src ← slice buf p (p + dlen)
      bytes' ← copy_to f.bytes dlen src
      done (some (record f { bytes = bytes' }, p + dlen))))
    else done (some (f, p))

-- The body of the loop: the frame at offset `p` and the offset behind it.
unfoldable pub parse_one : List ℕ → ℕ → Exec (Option (Frame × ℕ))
unfolding parse_body
parse_one buf p = if ltb (length buf) (p + frame_base_size) then done none else (do
  a ← index buf p
  b ← index buf (p + 1)
  c ← index buf (p + 2)
  d ← index buf (p + 3)
  raw ← index buf (p + 4)
  let f = record default_frame { can_id = u32_from_be a b c d }
  if has raw canfd_frame
      then (if ltb (length buf) (p + 5 + 1) then done none else (do
        fl ← index buf (p + 5)
        parse_body buf (p + 6) (record f { fd = true; len = bit_and raw 0x7f; fd_flags = fl })))
      else parse_body buf (p + 5) (record f { len = raw }))

abbrev pub next_frame :
    Option (Frame × ℕ) → (Frame → ℕ → Exec (Option (List Frame))) → Exec (Option (List Frame))
next_frame none k = done none
next_frame (some (f, p)) k = k f p

-- `for _ in 0..count`
unfoldable pub parse_frames : ℕ → List ℕ → ℕ → List Frame → Exec (Option (List Frame))
unfolding parse_one
parse_frames zero buf p frames = done (some frames)
parse_frames (suc left) buf p frames = do
  r ← parse_one buf p
  next_frame r (λ f p'. parse_frames left buf p' (frames ++ f ∷ []))

unfoldable pub parse_udp : List ℕ → Exec (Option (List Frame))
unfolding parse_frames
parse_udp buf = if ltb (length buf) data_packet_base_size then done none else (do
  version ← index buf 0
  op ← index buf 1
  if not (version == frame_version) || not (op == op_data) then done none else (do
    hi ← index buf 3
    lo ← index buf 4
    parse_frames (u16_from_be hi lo) buf data_packet_base_size []))
