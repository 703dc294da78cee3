-- ===== src/Wire/Tests.antt =====
-- The wire format on concrete packets.
use kvasilloni.Prelude.{
  ℕ, ◌≤◌, ◌≡◌, refl, List, [], ◌∷◌, ◌++◌, none, some, true, All, replicate, arith,
}
use kvasilloni.Prelude.Bytes.{IsBytes}
use kvasilloni.Prelude.Exec.{done}
use kvasilloni.Wire.Flags.{fd_round_len}
use kvasilloni.Wire.Frame.{Frame, default_frame, kvaser_to_canid, canid_to_kvaser}
use kvasilloni.Wire.Encode.{encode_frame, build_udp, build_udp_batch}
use kvasilloni.Wire.Udp.{parse_udp}
use kvasilloni.Wire.UdpRead.{parse_udp-read, udp_header, read_datagram}
use kvasilloni.Wire.UdpRoundTrip.{claimed, parse_udp-build_udp_batch, parse_udp-build_udp}
use kvasilloni.Wire.Encoded.{IsSendable, delivered}
use kvasilloni.Wire.Decoded.{parse_udp-IsSendable}
use kvasilloni.Wire.Ids.{
  is_fd_len, fd_round_len-least, IsCanonical, kvaser_to_canid-canid_to_kvaser,
}

abbrev pub classic_two : Frame
classic_two = record default_frame { can_id = 0x123; len = 2; bytes = 0xde ∷ 0xad ∷ replicate 62 0 }

abbrev pub fd_twelve : Frame
fd_twelve = record default_frame {
  can_id = 0x9234_5678;
  len = 12;
  fd = true;
  fd_flags = 1;
  bytes = replicate 12 7 ++ replicate 52 0;
}

pub classic_two-IsSendable : IsSendable classic_two
classic_two-IsSendable = record {
  id_fits = omega arith;
  len_fits = omega arith;
  flags_fit = omega arith;
  size = refl;
  bytes_fit = omega arith;
}

pub fd_twelve-IsSendable : IsSendable fd_twelve
fd_twelve-IsSendable = record {
  id_fits = omega arith;
  len_fits = omega arith;
  flags_fit = omega arith;
  size = refl;
  bytes_fit = omega arith;
}

abbrev pub packet : List ℕ
packet = 2 ∷ 0 ∷ 7 ∷ 0 ∷ 1 ∷ 0 ∷ 0 ∷ 1 ∷ 0x23 ∷ 2 ∷ 0xde ∷ 0xad ∷ []

pub packet-IsBytes : IsBytes packet
packet-IsBytes = omega arith

build_udp-packet : build_udp classic_two 7 ≡ done packet
unfolding build_udp encode_frame
build_udp-packet = refl

pub parse_udp-packet : parse_udp packet ≡ done (some (classic_two ∷ []))
unfolding parse_udp
parse_udp-packet = refl

-- A classic frame that claims nine bytes rejects the datagram.
parse_udp-nine : parse_udp (2 ∷ 0 ∷ 7 ∷ 0 ∷ 1 ∷ 0 ∷ 0 ∷ 1 ∷ 0x23 ∷ 9 ∷ replicate 9 1) ≡ done none
unfolding parse_udp
parse_udp-nine = refl

parse_udp-read_example : parse_udp packet ≡ done (read_datagram packet (udp_header packet))
parse_udp-read_example = parse_udp-read packet packet-IsBytes

abbrev two_frames : List Frame
two_frames = classic_two ∷ fd_twelve ∷ []

parse_udp-build_udp_batch_example :
    (pkt : List ℕ) × (build_udp_batch two_frames 9 2 ≡ done pkt)
    × (parse_udp pkt ≡ done (claimed 2 two_frames))
parse_udp-build_udp_batch_example =
    parse_udp-build_udp_batch two_frames 9 2 (classic_two-IsSendable, (fd_twelve-IsSendable, tt))
      (omega arith) (omega arith)

parse_udp-build_udp_example :
    (pkt : List ℕ) × (build_udp fd_twelve 255 ≡ done pkt)
    × (parse_udp pkt ≡ done (some (delivered fd_twelve ∷ [])))
parse_udp-build_udp_example = parse_udp-build_udp fd_twelve 255 fd_twelve-IsSendable (omega arith)

parse_udp-IsSendable_example : All IsSendable (classic_two ∷ [])
parse_udp-IsSendable_example =
    parse_udp-IsSendable packet (classic_two ∷ []) packet-IsBytes parse_udp-packet

fd_round_len-least_example :
    (is_fd_len (fd_round_len 33) ≡ true)
    × (33 ≤ fd_round_len 33)
    × ((m : ℕ) → is_fd_len m ≡ true → 33 ≤ m → fd_round_len 33 ≤ m)
fd_round_len-least_example = fd_round_len-least 33 (omega arith)

canonical : IsCanonical 0x9234_5678
canonical = record { fits = omega arith; standard = omega arith; extended = omega arith }

kvaser_to_canid-canid_to_kvaser_example :
    kvaser_to_canid (canid_to_kvaser 0x9234_5678 true).0 (canid_to_kvaser 0x9234_5678 true).1
    ≡ 0x9234_5678
kvaser_to_canid-canid_to_kvaser_example = kvaser_to_canid-canid_to_kvaser 0x9234_5678 true canonical
