-- ===== src/UnitTests/WireAlways.antt =====
-- The property tests of src/wire.rs hold on every input.
use kvasilloni.Prelude.{
  ℕ, zero, suc, ◌/◌, ◌^◌, ◌≤◌, ◌<◌, ◌≡◌, refl, ap, ◌∙◌, Bool, true, false, List, [], ◌∷◌, ◌++◌,
  Option, none, some, if◌then◌else◌, All, inl, inr, Bool-cases, bit_and, bit_or, take, drop, length,
  replicate, All-append, All-take, All-drop, length-take, length-append, length-drop, take-append,
  arith,
}
use Prim.Native.Nat.{bit_and-bitwise}
use native.Mathlib.Nat.{pow-suc}
use kvasilloni.Prelude.Bits.{bit_and_digit, bit_or_digit}
use kvasilloni.Prelude.Bytes.{IsByte, IsBytes}
use kvasilloni.Prelude.Exec.{done, ◌>>=◌, slice, copy_to-eq-done}
use kvasilloni.Prelude.Text.{text_eq_refl}
use kvasilloni.Wire.Frame.{Frame, default_frame, is_rtr}
use kvasilloni.Wire.Udp.{parse_udp}
use kvasilloni.Wire.UdpRead.{parse_udp-read, udp_header, read_datagram}
use kvasilloni.Wire.UdpRoundTrip.{parse_udp-build_udp}
use kvasilloni.Wire.Decoded.{parse_udp-IsSendable}
use kvasilloni.Wire.Encoded.{IsSendable, delivered}
use kvasilloni.Transport.StreamRead.{read_stream}
use kvasilloni.Transport.StreamFrames.{read_stream-IsSendable}
use kvasilloni.Fuzz.{fuzz_decode_stream}
use kvasilloni.Fuzz.Total.{fuzz_targets-done}
use kvasilloni.UnitTests.Asserts.{passed, for_each}
use kvasilloni.UnitTests.WireTrips.{slice-front, stream_roundtrip-delivered}
use kvasilloni.UnitTests.WireProps.{
  truncated, not_rtr, arb_frame, same_header, same_payload, frame_eq, assert_len_class,
  prop_tcp_roundtrip, prop_udp_roundtrip, check_parsed, drive_decode_stream,
  prop_parse_udp_never_panics, prop_decode_stream_never_panics, prop_udp_prealloc_cap_bounded,
}

bit_or-lt : (n a b : ℕ) → a < 2 ^ n → b < 2 ^ n → bit_or a b < 2 ^ n
bit_or-lt zero zero zero ha hb = omega arith
bit_or-lt zero (suc a) b ha hb = absurd (omega arith)
bit_or-lt zero zero (suc b) ha hb = absurd (omega arith)
bit_or-lt (suc n) a b ha hb = omega (
  arith,
  bit_or_digit a b,
  bit_or-lt n (a / 2) (b / 2) (omega (arith, pow-suc 2 n)) (omega (arith, pow-suc 2 n)),
  pow-suc 2 n,
)

bit_and-le : (n a b : ℕ) → a ≤ n → bit_and a b ≤ a
bit_and-le n zero b h = simp bit_and-bitwise (omega arith)
bit_and-le zero (suc a) b h = absurd (omega arith)
bit_and-le (suc n) (suc a) b h =
    omega (arith, bit_and_digit (suc a) b, bit_and-le n (suc a / 2) (b / 2) (omega arith))

class_delivered : (f : Frame) → IsSendable f → assert_len_class (delivered f) ≡ passed
unfolding assert_len_class
class_delivered f v = ground (arith, v.len_fits)

-- What the generator makes: a frame that can be sent, and without flags if it is classic.
abbrev IsDrawn : Frame → Type 0
IsDrawn f = IsSendable f × (f.fd ≡ false → f.fd_flags ≡ 0)

module _ (id : ℕ) (fd rtr : Bool) (raw_flags : ℕ) (bytes : List ℕ) (id_fits : id < 2 ^ 32)
    (flags_fit : raw_flags < 256) (bytes_fit : IsBytes bytes) where
  few : length (truncated fd bytes) ≤ (if fd then 64 else 8)
  few = ground (arith, length-take 64 bytes, length-take 8 bytes)

  short : length (truncated fd bytes) ≤ length default_frame.bytes
  short = ground (arith, few)

  abbrev drawn : Frame
  drawn = record default_frame {
    can_id = if rtr then bit_or id 0x4000_0000 else bit_and id not_rtr;
    fd = fd;
    fd_flags = if fd then bit_and raw_flags 3 else 0;
    len = length (truncated fd bytes);
    bytes = truncated fd bytes ++ drop (length (truncated fd bytes)) default_frame.bytes;
  }

  arb_frame-drawn : arb_frame id fd rtr raw_flags bytes ≡ done drawn
  unfolding arb_frame
  arb_frame-drawn =
      rw
        (copy_to-eq-done default_frame.bytes (length (truncated fd bytes)) (truncated fd bytes)
          short refl)
        refl

  drawn-IsDrawn : IsDrawn drawn
  drawn-IsDrawn = (
    record {
      id_fits = ground (arith, bit_or-lt 32 id 0x4000_0000, bit_and-le id id not_rtr, id_fits);
      len_fits = few;
      flags_fit = ground (arith, bit_and-le raw_flags raw_flags 3);
      size = omega (
        arith,
        short,
        length-append (truncated fd bytes) (drop (length (truncated fd bytes)) default_frame.bytes),
        length-drop (length (truncated fd bytes)) default_frame.bytes,
      );
      bytes_fit =
          All-append IsByte _ _ (All-take IsByte _ bytes bytes_fit)
            (All-drop IsByte (length (truncated fd bytes)) default_frame.bytes (omega arith));
    },
    λ e. rw e,
  )

assert_len_class-passed : (f : Frame) → IsSendable f → assert_len_class f ≡ passed
unfolding assert_len_class
assert_len_class-passed f v = ground (arith, v.len_fits)

for_each-passed : (fs : List Frame) → All IsSendable fs → for_each fs assert_len_class ≡ passed
for_each-passed [] v = refl
for_each-passed (f ∷ fs) v = rw (assert_len_class-passed f v.0) (for_each-passed fs v.1)

same_header-delivered : (f : Frame) → IsDrawn f → same_header f (delivered f) ≡ true
same_header-delivered f v = ground (arith, v.1)

slice-padded :
    (n : ℕ) (xs zs : List ℕ) → n ≤ length xs → slice (take n xs ++ zs) 0 n ≡ done (take n xs)
slice-padded n xs zs h =
    slice-front n (take n xs ++ zs) (omega (arith, length-append (take n xs) zs, length-take n xs))
    ∙ ap done (
        ap (λ k. take k (take n xs ++ zs)) (omega (arith, length-take n xs))
        ∙ take-append (take n xs) zs)

same_payload-delivered :
    (f : Frame) → IsSendable f → f.len ≤ 64 → same_payload f (delivered f) ≡ done true
unfolding same_payload
same_payload-delivered f v h = elim (Bool-cases (is_rtr f)) [
  | inl rtr ↦ simp rtr
  | inr rtr ↦ simp (
    rtr,
    slice-front f.len f.bytes (omega (arith, v.size)),
    slice-padded f.len f.bytes (drop f.len (replicate 64 0)) (omega (arith, v.size)),
    text_eq_refl (take f.len f.bytes),
  )
]

frame_eq-delivered : (f : Frame) → IsDrawn f → frame_eq f (delivered f) ≡ done true
unfolding frame_eq
frame_eq-delivered f v =
    rw (same_header-delivered f v) (same_payload-delivered f v.0 (ground (arith, v.0.len_fits)))

prop_tcp_roundtrip-passed : (f : Frame) → IsDrawn f → prop_tcp_roundtrip f ≡ passed
unfolding prop_tcp_roundtrip
prop_tcp_roundtrip-passed f v =
    rw (stream_roundtrip-delivered f v.0, frame_eq-delivered f v) (class_delivered f v.0)

prop_udp_roundtrip-passed :
    (f : Frame) (seq : ℕ) → IsDrawn f → seq < 256 → prop_udp_roundtrip f seq ≡ passed
unfolding prop_udp_roundtrip
prop_udp_roundtrip-passed f seq v h =
    let (pkt, built, parsed) = parse_udp-build_udp f seq v.0 h in
    rw (built, parsed, frame_eq-delivered f v) (class_delivered f v.0)

check_parsed-passed :
    (buf : List ℕ) (r : Option (List Frame))
    → IsBytes buf
    → parse_udp buf ≡ done r
    → check_parsed (some r) ≡ passed
check_parsed-passed buf none hb e = refl
check_parsed-passed buf (some fs) hb e = for_each-passed fs (parse_udp-IsSendable buf fs hb e)

prop_parse_udp-passed : (buf : List ℕ) → IsBytes buf → prop_parse_udp_never_panics buf ≡ passed
unfolding prop_parse_udp_never_panics
prop_parse_udp-passed buf hb =
    rw (parse_udp-read buf hb)
      (check_parsed-passed buf (read_datagram buf (udp_header buf)) hb (parse_udp-read buf hb))

prop_decode_stream-passed :
    (buf : List ℕ) → IsBytes buf → prop_decode_stream_never_panics buf ≡ passed
unfolding prop_decode_stream_never_panics drive_decode_stream
prop_decode_stream-passed buf hb =
    rw driven
      (for_each-passed (read_stream (length buf) buf) (read_stream-IsSendable (length buf) buf hb))
  where
    driven : drive_decode_stream buf ≡ done (read_stream (length buf) buf)
    driven = unfold fuzz_decode_stream drive_decode_stream in (fuzz_targets-done buf hb).1

-- The five property tests of the wire format pass on every input that their strategies can draw,
-- and beyond: for every identifier, kind, raw flags and bytes, of any number, the frame that the
-- generator makes survives both codecs; for all bytes, of any number, neither decoder panics, and
-- every frame that they return has at most 8 bytes, or 64 if it is CAN FD; and the capacity that
-- is reserved for a datagram is bounded by its size and by its claim.
pub wire_props-passed :
    (id raw_flags seq count buf_len : ℕ) (fd rtr : Bool) (bytes buf : List ℕ)
    → id < 2 ^ 32
    → raw_flags < 256
    → seq < 256
    → IsBytes bytes
    → IsBytes buf
    → ((arb_frame id fd rtr raw_flags bytes >>= prop_tcp_roundtrip) ≡ passed)
      × ((arb_frame id fd rtr raw_flags bytes >>= λ f. prop_udp_roundtrip f seq) ≡ passed)
      × (prop_parse_udp_never_panics buf ≡ passed)
      × (prop_decode_stream_never_panics buf ≡ passed)
      × (prop_udp_prealloc_cap_bounded count buf_len ≡ passed)
unfolding prop_udp_prealloc_cap_bounded
wire_props-passed id raw_flags seq count buf_len fd rtr bytes buf hi hr hs hy hb =
    let e = arb_frame-drawn id fd rtr raw_flags bytes hi hr hy in
    let v = drawn-IsDrawn id fd rtr raw_flags bytes hi hr hy in
    (
      rw e (prop_tcp_roundtrip-passed (drawn id fd rtr raw_flags bytes hi hr hy) v),
      rw e (prop_udp_roundtrip-passed (drawn id fd rtr raw_flags bytes hi hr hy) seq v hs),
      prop_parse_udp-passed buf hb,
      prop_decode_stream-passed buf hb,
      ground arith,
    )
