-- ===== src/UnitTests/WireProps.antt =====
-- The property tests of src/wire.rs: the generator of frames, what is compared, and the body of
-- each property. The inputs that a strategy draws are arguments.
use kvasilloni.Prelude.{
  ℕ, ◌+◌, ◌-◌, ◌/◌, Bool, true, false, not, ◌&&◌, List, [], Option, none, some, bit_and, bit_or,
  take, length, leb, ◌==◌, if◌then◌else◌,
}
use kvasilloni.Prelude.Exec.{Exec, done, ◌>>=◌, slice, copy_to}
use kvasilloni.Prelude.Text.{text_eq}
use kvasilloni.Wire.Flags.{
  can_rtr_flag, canfd_brs, canfd_esi, max_frame_len, classic_frame_max_len, frame_base_size,
}
use kvasilloni.Wire.Frame.{Frame, default_frame, is_rtr}
use kvasilloni.Wire.Encode.{build_udp}
use kvasilloni.Wire.Udp.{parse_udp, udp_prealloc_cap}
use kvasilloni.Wire.Stream.{init, decode_stream}
use kvasilloni.Fuzz.{restart, fuzz_reads}
use kvasilloni.UnitTests.Asserts.{
  Test, passed, ◌>>◌, assert, assert_eq, expect, nth, is_none, caught, for_each,
}
use kvasilloni.UnitTests.WireStream.{stream_roundtrip}

-- `!CAN_RTR_FLAG`
abbrev pub not_rtr : ℕ
not_rtr = 0xffff_ffff - can_rtr_flag

-- `truncate`
abbrev pub truncated : Bool → List ℕ → List ℕ
truncated fd bytes = take (if fd then max_frame_len else classic_frame_max_len) bytes

unfoldable pub arb_frame : ℕ → Bool → Bool → ℕ → List ℕ → Exec Frame
arb_frame id fd rtr raw_flags bytes =
    let drawn = truncated fd bytes in
    (do
      bytes' ← copy_to default_frame.bytes (length drawn) drawn
      done (record default_frame {
        can_id = if rtr then bit_or id can_rtr_flag else bit_and id not_rtr;
        fd = fd;
        fd_flags = if fd then bit_and raw_flags (bit_or canfd_brs canfd_esi) else 0;
        len = length drawn;
        bytes = bytes';
      }))

abbrev pub agree : Bool → Bool → Bool
agree true b = b
agree false b = not b

abbrev pub same_header : Frame → Frame → Bool
same_header a b =
    a.can_id == b.can_id && agree a.fd b.fd && a.len == b.len && a.fd_flags == b.fd_flags

unfoldable pub same_payload : Frame → Frame → Exec Bool
unfolding text_eq
same_payload a b =
    if is_rtr a
    then done true
    else (do xs ← slice a.bytes 0 a.len; ys ← slice b.bytes 0 b.len; done (text_eq xs ys))

unfoldable pub frame_eq : Frame → Frame → Exec Bool
unfolding same_payload
frame_eq a b = if same_header a b then same_payload a b else done false

-- The same two loops as those of the fuzz driver.
unfoldable pub drive_decode_stream : List ℕ → Exec (List Frame)
unfolding decode_stream fuzz_reads
drive_decode_stream buf = do
  d ← decode_stream [] default_frame init
  restart (fuzz_reads (length buf + 1) buf) d

unfoldable pub assert_len_class : Frame → Test
assert_len_class f =
    if f.fd then assert (leb f.len max_frame_len) else assert (leb f.len classic_frame_max_len)

unfoldable pub prop_tcp_roundtrip : Frame → Test
unfolding stream_roundtrip frame_eq assert_len_class
prop_tcp_roundtrip f = do
  got ← stream_roundtrip f
  same ← frame_eq f got
  assert same
  assert_len_class got

unfoldable pub prop_udp_roundtrip : Frame → ℕ → Test
unfolding build_udp parse_udp frame_eq assert_len_class
prop_udp_roundtrip f seq = do
  pkt ← build_udp f seq
  r ← parse_udp pkt
  got ← expect r
  assert_eq (length got) 1
  g ← nth got 0
  same ← frame_eq f g
  assert same
  assert_len_class g

abbrev pub check_parsed : Option (Option (List Frame)) → Test
check_parsed (some (some frames)) = for_each frames assert_len_class
check_parsed _ = passed

unfoldable pub prop_parse_udp_never_panics : List ℕ → Test
unfolding parse_udp assert_len_class
prop_parse_udp_never_panics buf = do
  let res = caught (parse_udp buf)
  assert (not (is_none res))
  check_parsed res

abbrev pub check_driven : Option (List Frame) → Test
check_driven (some frames) = for_each frames assert_len_class
check_driven none = passed

unfoldable pub prop_decode_stream_never_panics : List ℕ → Test
unfolding drive_decode_stream assert_len_class
prop_decode_stream_never_panics buf = do
  let res = caught (drive_decode_stream buf)
  assert (not (is_none res))
  check_driven res

unfoldable pub prop_udp_prealloc_cap_bounded : ℕ → ℕ → Test
unfolding udp_prealloc_cap
prop_udp_prealloc_cap_bounded count buf_len = do
  let cap = udp_prealloc_cap count buf_len
  assert (leb cap (buf_len / frame_base_size + 1))
  assert (leb cap count)
