-- ===== src/UnitTests/WireStream.antt =====
-- The tests of src/wire.rs on the stream decoder.
use kvasilloni.Prelude.{
  ℕ, zero, suc, ◌+◌, ◌≡◌, refl, Bool, true, false, ◌&&◌, List, [], ◌∷◌, drop, length, bit_or, ◌==◌,
}
use kvasilloni.Prelude.Exec.{Exec, done, panic, ◌>>=◌, slice}
use kvasilloni.Prelude.Text.{text_eq}
use kvasilloni.Wire.Flags.{can_eff_flag, can_rtr_flag, canfd_frame, canfd_brs, canfd_esi}
use kvasilloni.Wire.Frame.{Frame, default_frame, is_rtr}
use kvasilloni.Wire.Encode.{encode_frame, build_udp}
use kvasilloni.Wire.Udp.{parse_udp}
use kvasilloni.Wire.Stream.{
  DecodeState, init, Decoded, need, complete, error, Decoding, decode_stream,
}
use kvasilloni.UnitTests.Asserts.{
  Test, passed, ◌>>◌, assert, assert_eq, assert_same, expect, nth, for_each,
}
use kvasilloni.UnitTests.WireUdp.{mk, counted, fd_frame, assert_payload}

-- What a round of `stream_roundtrip` does with the decoder's answer: `go` is the rounds behind it.
abbrev pub trip_next : (ℕ → Frame → DecodeState → Exec Frame) → Decoding → Exec Frame
trip_next go (need n, f, st) = go n f st
trip_next go (complete, f, st) = done f
trip_next go (error, f, st) = panic

-- The loop of `stream_roundtrip` on the bytes behind the offset; the slice beyond the end panics.
unfoldable pub trip_rounds : ℕ → List ℕ → ℕ → Frame → DecodeState → Exec Frame
unfolding decode_stream
trip_rounds zero rest want f st = panic
trip_rounds (suc fuel) rest want f st = do
  chunk ← slice rest 0 want
  d ← decode_stream chunk f st
  trip_next (λ n f' st'. trip_rounds fuel (drop want rest) n f' st') d

abbrev pub trip_start : (ℕ → Frame → DecodeState → Exec Frame) → Decoding → Exec Frame
trip_start go (need n, f, st) = go n f st
trip_start go (_, f, st) = panic

-- A round takes at least one byte, so that the bytes and one more round are enough.
unfoldable pub stream_roundtrip : Frame → Exec Frame
unfolding encode_frame trip_rounds
stream_roundtrip c = do
  enc ← encode_frame [] c
  d ← decode_stream [] default_frame init
  trip_start (trip_rounds (length enc + 1) enc) d

unfoldable pub tcp_stream_roundtrip : Test
unfolding stream_roundtrip text_eq
tcp_stream_roundtrip = do
  a ← mk 0x123 (counted 8 1)
  b ← mk 0x000 []
  c ← mk (bit_or 0x1abc_def8 can_eff_flag) (0xde ∷ 0xad ∷ [])
  for_each (a ∷ b ∷ c ∷ []) (λ c. do got ← stream_roundtrip c; assert_payload got c)

tcp_stream_roundtrip_passes : tcp_stream_roundtrip ≡ passed
unfolding tcp_stream_roundtrip
tcp_stream_roundtrip_passes = refl

unfoldable pub fd_stream_roundtrip_with_flags : Test
unfolding stream_roundtrip text_eq
fd_stream_roundtrip_with_flags = do
  let f = fd_frame (bit_or 0x1abc_def8 can_eff_flag) (bit_or canfd_brs canfd_esi) (counted 16 0xa0)
  got ← stream_roundtrip f
  assert got.fd
  assert_eq got.fd_flags (bit_or canfd_brs canfd_esi)
  assert_eq got.len 16
  xs ← slice got.bytes 0 16
  ys ← slice f.bytes 0 16
  assert_same xs ys

fd_stream_roundtrip_with_flags_passes : fd_stream_roundtrip_with_flags ≡ passed
unfolding fd_stream_roundtrip_with_flags
fd_stream_roundtrip_with_flags_passes = refl

-- The decoder's answer to a length byte behind the identifier 0x123.
unfoldable pub answer_to_len : ℕ → Exec Decoded
unfolding decode_stream
answer_to_len raw = do
  (_, f, st) ← decode_stream [] default_frame init
  (_, f', st') ← decode_stream (0 ∷ 0 ∷ 1 ∷ 0x23 ∷ []) f st
  (r, _, _) ← decode_stream (raw ∷ []) f' st'
  done r

abbrev pub is_error : Decoded → Bool
is_error error = true
is_error _ = false

abbrev pub is_need : ℕ → Decoded → Bool
is_need k (need n) = n == k
is_need k _ = false

unfoldable pub decode_stream_rejects_overlong_len_without_panic : Test
unfolding answer_to_len
decode_stream_rejects_overlong_len_without_panic = do
  r ← answer_to_len 70
  assert (is_error r)
  r' ← answer_to_len (bit_or canfd_frame 70)
  assert (is_error r')

decode_stream_rejects_overlong_len_without_panic_passes :
    decode_stream_rejects_overlong_len_without_panic ≡ passed
unfolding decode_stream_rejects_overlong_len_without_panic
decode_stream_rejects_overlong_len_without_panic_passes = refl

unfoldable pub classic_rtr_dlc_consistent_across_transports : Test
unfolding build_udp parse_udp stream_roundtrip
classic_rtr_dlc_consistent_across_transports = do
  let f = record default_frame { can_id = bit_or 0x123 can_rtr_flag; len = 8 }
  pkt ← build_udp f 0
  r ← parse_udp pkt
  fs ← expect r
  udp ← nth fs 0
  tcp ← stream_roundtrip f
  assert (is_rtr udp && is_rtr tcp)
  assert_eq udp.len 8
  assert_eq tcp.len 8

classic_rtr_dlc_consistent_across_transports_passes :
    classic_rtr_dlc_consistent_across_transports ≡ passed
unfolding classic_rtr_dlc_consistent_across_transports
classic_rtr_dlc_consistent_across_transports_passes = refl

unfoldable pub decode_stream_rejects_overlong_classic : Test
unfolding answer_to_len
decode_stream_rejects_overlong_classic = do
  r ← answer_to_len 9
  assert (is_error r)
  r' ← answer_to_len 8
  assert (is_need 8 r')
  r'' ← answer_to_len (bit_or canfd_frame 16)
  assert (is_need 1 r'')

decode_stream_rejects_overlong_classic_passes : decode_stream_rejects_overlong_classic ≡ passed
unfolding decode_stream_rejects_overlong_classic
decode_stream_rejects_overlong_classic_passes = refl
