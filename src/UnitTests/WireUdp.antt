-- ===== src/UnitTests/WireUdp.antt =====
-- The tests of src/wire.rs on datagrams and on the translation of identifiers and flags.
use kvasilloni.Prelude.{
  ℕ, zero, suc, ◌+◌, ◌≡◌, refl, true, List, [], ◌∷◌, ◌++◌, length, drop, replicate, bit_or,
}
use kvasilloni.Prelude.Exec.{Exec, done, ◌>>=◌, copy_to, slice}
use kvasilloni.Prelude.Text.{text_eq}
use kvasilloni.Wire.Flags.{can_eff_flag}
use kvasilloni.Wire.Frame.{Frame, default_frame}
use kvasilloni.Wire.Encode.{build_udp}
use kvasilloni.Wire.Udp.{parse_udp}
use kvasilloni.UnitTests.Asserts.{Test, passed, ◌>>◌, assert_eq, assert_same, expect, nth, for_each}

abbrev pub mk : ℕ → List ℕ → Exec Frame
mk can_id bytes = do
  bytes' ← copy_to default_frame.bytes (length bytes) bytes
  done (record default_frame { can_id = can_id; len = length bytes; bytes = bytes' })

-- The numbers below `n`, from `from` on.
abbrev pub counted : ℕ → ℕ → List ℕ
counted zero from = []
counted (suc n) from = from ∷ counted n (from + 1)

abbrev pub fd_frame : ℕ → ℕ → List ℕ → Frame
fd_frame can_id fd_flags bytes = record default_frame {
  can_id = can_id;
  fd = true;
  fd_flags = fd_flags;
  len = length bytes;
  bytes = bytes ++ drop (length bytes) default_frame.bytes;
}

unfoldable pub golden_udp_std : Test
unfolding build_udp text_eq
golden_udp_std = do
  f ← mk 0x123 (0xaa ∷ 0xbb ∷ [])
  pkt ← build_udp f 7
  assert_same pkt
      (0x02 ∷ 0x00 ∷ 0x07 ∷ 0x00 ∷ 0x01 ∷ 0x00 ∷ 0x00 ∷ 0x01 ∷ 0x23 ∷ 0x02 ∷ 0xaa ∷ 0xbb ∷ [])

golden_udp_std_passes : golden_udp_std ≡ passed
unfolding golden_udp_std
golden_udp_std_passes = refl

unfoldable pub golden_udp_ext : Test
unfolding build_udp text_eq
golden_udp_ext = do
  f ← mk (bit_or 0x1abc_def8 can_eff_flag) (0xff ∷ [])
  pkt ← build_udp f 0
  assert_same pkt (0x02 ∷ 0x00 ∷ 0x00 ∷ 0x00 ∷ 0x01 ∷ 0x9a ∷ 0xbc ∷ 0xde ∷ 0xf8 ∷ 0x01 ∷ 0xff ∷ [])

golden_udp_ext_passes : golden_udp_ext ≡ passed
unfolding golden_udp_ext
golden_udp_ext_passes = refl

-- The same identifier, length and payload.
abbrev pub assert_payload : Frame → Frame → Test
assert_payload got c = do
  assert_eq got.can_id c.can_id
  assert_eq got.len c.len
  xs ← slice got.bytes 0 c.len
  ys ← slice c.bytes 0 c.len
  assert_same xs ys

unfoldable pub udp_roundtrip_all : Test
unfolding build_udp parse_udp text_eq
udp_roundtrip_all = do
  a ← mk 0x123 (counted 8 1)
  b ← mk 0x000 []
  c ← mk 0x7ff (0xaa ∷ 0xbb ∷ 0xcc ∷ [])
  d ← mk (bit_or 0x1abc_def8 can_eff_flag) (replicate 8 9)
  for_each (a ∷ b ∷ c ∷ d ∷ []) (λ c. do
    pkt ← build_udp c 1
    r ← parse_udp pkt
    got ← expect r
    assert_eq (length got) 1
    g ← nth got 0
    assert_payload g c)

udp_roundtrip_all_passes : udp_roundtrip_all ≡ passed
unfolding udp_roundtrip_all
udp_roundtrip_all_passes = refl
