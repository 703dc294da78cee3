-- ===== src/UnitTests/WireBatch.antt =====
-- The tests of src/wire.rs on datagrams of several frames, and on malformed ones.
use kvasilloni.Prelude.{
  ◌+◌, ◌*◌, ◌/◌, ◌≡◌, refl, false, not, ◌&&◌, [], ◌∷◌, ◌++◌, length, replicate, bit_or, leb, ◌==◌,
}
use kvasilloni.Prelude.Exec.{◌>>=◌, slice}
use kvasilloni.Prelude.Text.{text_eq}
use kvasilloni.Wire.Flags.{
  can_eff_flag, can_rtr_flag, canfd_frame, canfd_brs, canfd_esi, can_msg_brs, can_msg_esi,
  can_msg_ext, can_msg_std, frame_base_size, data_packet_base_size, has, fd_round_len,
  kvaser_to_fd_flags, fd_flags_to_kvaser,
}
use kvasilloni.Wire.Frame.{default_frame, is_rtr, kvaser_to_canid, canid_to_kvaser}
use kvasilloni.Wire.Encode.{build_udp, build_udp_batch}
use kvasilloni.Wire.Udp.{parse_udp, udp_prealloc_cap}
use kvasilloni.UnitTests.Asserts.{
  Test, passed, ◌>>◌, assert, assert_eq, assert_same, expect, nth, is_none,
}
use kvasilloni.UnitTests.WireUdp.{mk, counted, fd_frame}

unfoldable pub parse_udp_decodes_multi_frame_batch : Test
unfolding build_udp_batch parse_udp text_eq
parse_udp_decodes_multi_frame_batch = do
  classic ← mk 0x123 (0x11 ∷ 0x22 ∷ 0x33 ∷ [])
  let fd = fd_frame 0x200 canfd_brs (counted 16 0xa0)
  let rtr = record default_frame { can_id = bit_or 0x321 can_rtr_flag; len = 8 }
  pkt ← build_udp_batch (classic ∷ fd ∷ rtr ∷ []) 9 3
  r ← parse_udp pkt
  got ← expect r
  assert_eq (length got) 3
  g0 ← nth got 0
  assert_eq g0.can_id 0x123
  assert (not g0.fd)
  assert_eq g0.len 3
  xs ← slice g0.bytes 0 3
  assert_same xs (0x11 ∷ 0x22 ∷ 0x33 ∷ [])
  g1 ← nth got 1
  assert_eq g1.can_id 0x200
  assert g1.fd
  assert_eq g1.fd_flags canfd_brs
  assert_eq g1.len 16
  ys ← slice g1.bytes 0 16
  zs ← slice fd.bytes 0 16
  assert_same ys zs
  g2 ← nth got 2
  assert_eq g2.can_id (bit_or 0x321 can_rtr_flag)
  assert (is_rtr g2)
  assert_eq g2.len 8

parse_udp_decodes_multi_frame_batch_passes : parse_udp_decodes_multi_frame_batch ≡ passed
unfolding parse_udp_decodes_multi_frame_batch
parse_udp_decodes_multi_frame_batch_passes = refl

unfoldable pub parse_udp_truncated_batch_returns_none : Test
unfolding build_udp_batch parse_udp
parse_udp_truncated_batch_returns_none = do
  a ← mk 0x100 (1 ∷ 2 ∷ [])
  b ← mk 0x101 (3 ∷ 4 ∷ [])
  pkt ← build_udp_batch (a ∷ b ∷ []) 0 3
  r ← parse_udp pkt
  assert (is_none r)
  whole ← build_udp_batch (a ∷ b ∷ []) 0 2
  r' ← parse_udp whole
  fs ← expect r'
  assert_eq (length fs) 2

parse_udp_truncated_batch_returns_none_passes : parse_udp_truncated_batch_returns_none ≡ passed
unfolding parse_udp_truncated_batch_returns_none
parse_udp_truncated_batch_returns_none_passes = refl

unfoldable pub fd_round_len_valid_dlcs : Test
unfolding fd_round_len
fd_round_len_valid_dlcs = do
  assert_eq (fd_round_len 0) 0
  assert_eq (fd_round_len 8) 8
  assert_eq (fd_round_len 9) 12
  assert_eq (fd_round_len 13) 16
  assert_eq (fd_round_len 33) 48
  assert_eq (fd_round_len 64) 64
  assert_eq (fd_round_len 200) 64

fd_round_len_valid_dlcs_passes : fd_round_len_valid_dlcs ≡ passed
unfolding fd_round_len_valid_dlcs
fd_round_len_valid_dlcs_passes = refl

unfoldable pub golden_udp_fd : Test
unfolding build_udp parse_udp text_eq
golden_udp_fd = do
  pkt ← build_udp (fd_frame 0x200 canfd_brs (counted 12 0)) 0
  let expected =
      (0x02 ∷ 0x00 ∷ 0x00 ∷ 0x00 ∷ 0x01 ∷ 0x00 ∷ 0x00 ∷ 0x02 ∷ 0x00 ∷ 0x8c ∷ 0x01 ∷ [])
      ++ counted 12 0
  assert_same pkt expected
  r ← parse_udp pkt
  fs ← expect r
  got ← nth fs 0
  assert (got.fd && got.fd_flags == canfd_brs && got.len == 12)
  xs ← slice got.bytes 0 12
  ys ← slice expected 11 23
  assert_same xs ys

golden_udp_fd_passes : golden_udp_fd ≡ passed
unfolding golden_udp_fd
golden_udp_fd_passes = refl

unfoldable pub fd_flag_translation : Test
unfolding kvaser_to_fd_flags fd_flags_to_kvaser
fd_flag_translation = do
  assert_eq (kvaser_to_fd_flags (bit_or can_msg_brs can_msg_esi)) (bit_or canfd_brs canfd_esi)
  assert_eq (fd_flags_to_kvaser canfd_brs) can_msg_brs
  assert_eq (fd_flags_to_kvaser canfd_esi) can_msg_esi

fd_flag_translation_passes : fd_flag_translation ≡ passed
unfolding fd_flag_translation
fd_flag_translation_passes = refl

unfoldable pub parse_udp_rejects_overlong_len_without_panic : Test
unfolding build_udp parse_udp
parse_udp_rejects_overlong_len_without_panic = do
  let pkt =
      (0x02 ∷ 0x00 ∷ 0x00 ∷ 0x00 ∷ 0x01 ∷ [])
      ++ (0x00 ∷ 0x00 ∷ 0x01 ∷ 0x23 ∷ [])
      ++ 100 ∷ replicate 100 0xab
  r ← parse_udp pkt
  assert (is_none r)
  let fd =
      (0x02 ∷ 0x00 ∷ 0x00 ∷ 0x00 ∷ 0x01 ∷ 0x00 ∷ 0x00 ∷ 0x02 ∷ 0x00 ∷ [])
      ++ bit_or canfd_frame 100 ∷ 0x00 ∷ replicate 100 0xcd
  r' ← parse_udp fd
  assert (is_none r')
  f ← mk 0x123 (counted 8 1)
  whole ← build_udp f 0
  r'' ← parse_udp whole
  fs ← expect r''
  g ← nth fs 0
  assert_eq g.len 8

parse_udp_rejects_overlong_len_without_panic_passes :
    parse_udp_rejects_overlong_len_without_panic ≡ passed
unfolding parse_udp_rejects_overlong_len_without_panic
parse_udp_rejects_overlong_len_without_panic_passes = refl

unfoldable pub parse_udp_rejects_overlong_classic_keeps_valid_fd : Test
unfolding build_udp parse_udp
parse_udp_rejects_overlong_classic_keeps_valid_fd = do
  let pkt =
      (0x02 ∷ 0x00 ∷ 0x00 ∷ 0x00 ∷ 0x01 ∷ [])
      ++ (0x00 ∷ 0x00 ∷ 0x01 ∷ 0x23 ∷ [])
      ++ 9 ∷ replicate 9 0xab
  r ← parse_udp pkt
  assert (is_none r)
  f ← mk 0x123 (counted 8 1)
  ok8 ← build_udp f 0
  r' ← parse_udp ok8
  fs ← expect r'
  g ← nth fs 0
  assert_eq g.len 8
  pktfd ← build_udp (fd_frame 0x200 0 (counted 16 0)) 0
  r'' ← parse_udp pktfd
  got ← expect r''
  h ← nth got 0
  assert (h.fd && h.len == 16)

parse_udp_rejects_overlong_classic_keeps_valid_fd_passes :
    parse_udp_rejects_overlong_classic_keeps_valid_fd ≡ passed
unfolding parse_udp_rejects_overlong_classic_keeps_valid_fd
parse_udp_rejects_overlong_classic_keeps_valid_fd_passes = refl

unfoldable pub parse_udp_huge_count_no_bodies_is_graceful_none : Test
unfolding build_udp parse_udp
parse_udp_huge_count_no_bodies_is_graceful_none = do
  r ← parse_udp (0x02 ∷ 0x00 ∷ 0x00 ∷ 0xff ∷ 0xff ∷ [])
  assert (is_none r)
  f ← mk 0x123 (1 ∷ 2 ∷ 3 ∷ [])
  whole ← build_udp f 0
  r' ← parse_udp whole
  fs ← expect r'
  assert_eq (length fs) 1

parse_udp_huge_count_no_bodies_is_graceful_none_passes :
    parse_udp_huge_count_no_bodies_is_graceful_none ≡ passed
unfolding parse_udp_huge_count_no_bodies_is_graceful_none
parse_udp_huge_count_no_bodies_is_graceful_none_passes = refl

unfoldable pub udp_prealloc_cap_clamps_attacker_count : Test
unfolding udp_prealloc_cap
udp_prealloc_cap_clamps_attacker_count = do
  assert_eq (udp_prealloc_cap 65535 7) (7 / frame_base_size + 1)
  assert_eq (udp_prealloc_cap 3 (data_packet_base_size + 3 * frame_base_size)) 3
  assert (leb (udp_prealloc_cap 65535 100) (100 / frame_base_size + 1))

udp_prealloc_cap_clamps_attacker_count_passes : udp_prealloc_cap_clamps_attacker_count ≡ passed
unfolding udp_prealloc_cap_clamps_attacker_count
udp_prealloc_cap_clamps_attacker_count_passes = refl

unfoldable pub kvaser_translation_roundtrip : Test
unfolding kvaser_to_canid canid_to_kvaser
kvaser_translation_roundtrip = do
  let cid = kvaser_to_canid 0x1abc_def8 can_msg_ext
  assert_eq cid (bit_or 0x1abc_def8 can_eff_flag)
  let (id, fl) = canid_to_kvaser cid false
  assert_eq id 0x1abc_def8
  assert (has fl can_msg_ext)
  let cid' = kvaser_to_canid 0x123 can_msg_std
  assert_eq cid' 0x123
  let (id', fl') = canid_to_kvaser cid' false
  assert_eq id' 0x123
  assert (has fl' can_msg_std)

kvaser_translation_roundtrip_passes : kvaser_translation_roundtrip ≡ passed
unfolding kvaser_translation_roundtrip
kvaser_translation_roundtrip_passes = refl
