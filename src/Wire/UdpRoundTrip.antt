-- ===== src/Wire/UdpRoundTrip.antt =====
-- Datagrams of frames, encoded and parsed again.
use kvasilloni.Prelude.{
  ℕ, zero, suc, ◌^◌, ◌<◌, ◌≡◌, refl, sym, ap, ◌∙◌, List, [], ◌∷◌, ◌++◌, Option, none, some, All,
  All-append, map, length, arith, append_assoc, append-nil, drop-append,
}
use kvasilloni.Prelude.Bytes.{IsByte, IsBytes, u16_to_be}
use kvasilloni.Prelude.Exec.{Exec, done, panic, ◌>>=◌}
use kvasilloni.Wire.Frame.{Frame}
use kvasilloni.Wire.Encode.{encode_frames, build_udp, build_udp_batch}
use kvasilloni.Wire.Udp.{parse_udp}
use kvasilloni.Wire.Reference.{read_frame, read_frames, read_next, cons_frame}
use kvasilloni.Wire.Encoded.{
  IsSendable, wire_bytes, delivered, encode_frame-eq-wire, read_frame-wire, wire-IsBytes,
}
use kvasilloni.Wire.UdpRead.{parse_udp-read, udp_header, read_datagram}

abbrev pub wire_all : List Frame → List ℕ
wire_all [] = []
wire_all (f ∷ fs) = wire_bytes f ++ wire_all fs

pub encode_frames-eq-wire :
    (fs : List Frame) (out : List ℕ)
    → All IsSendable fs
    → encode_frames out fs ≡ done (out ++ wire_all fs)
unfolding encode_frames
encode_frames-eq-wire [] out v = rw append-nil
encode_frames-eq-wire (f ∷ fs) out v = rw (encode_frame-eq-wire f v.0 out) (
    encode_frames-eq-wire fs (out ++ wire_bytes f) v.1
    ∙ ap done (append_assoc out (wire_bytes f) (wire_all fs)))

pub wire_all-IsBytes : (fs : List Frame) → All IsSendable fs → IsBytes (wire_all fs)
wire_all-IsBytes [] v = tt
wire_all-IsBytes (f ∷ fs) v =
    All-append IsByte (wire_bytes f) (wire_all fs) (wire-IsBytes f v.0) (wire_all-IsBytes fs v.1)

-- The first `count` frames, if there are so many.
abbrev pub claimed : ℕ → List Frame → Option (List Frame)
claimed zero fs = some []
claimed (suc n) [] = none
claimed (suc n) (f ∷ fs) = cons_frame (delivered f) (claimed n fs)

read_frames-wire :
    (count : ℕ) (fs : List Frame)
    → All IsSendable fs
    → read_frames count (wire_all fs) ≡ claimed count fs
unfolding read_frames
read_frames-wire zero fs v = refl
read_frames-wire (suc n) [] v = unfold read_frame in refl
read_frames-wire (suc n) (f ∷ fs) v =
    ap (λ r. read_next r (wire_all (f ∷ fs)) (read_frames n)) (read_frame-wire f v.0 (wire_all fs))
    ∙ ap (λ bs. cons_frame (delivered f) (read_frames n bs))
        (drop-append (wire_bytes f) (wire_all fs))
    ∙ ap (cons_frame (delivered f)) (read_frames-wire n fs v.1)

datagram-IsBytes :
    (fs : List Frame) (seq_no count : ℕ)
    → All IsSendable fs
    → seq_no < 256
    → IsBytes (2 ∷ 0 ∷ seq_no ∷ (u16_to_be count ++ wire_all fs))
datagram-IsBytes fs seq_no count v h = ground (arith, wire_all-IsBytes fs v)

udp_header-packet :
    (seq_no count : ℕ) (rest : List ℕ)
    → count < 2 ^ 16
    → udp_header (2 ∷ 0 ∷ seq_no ∷ (u16_to_be count ++ rest)) ≡ some count
udp_header-packet seq_no count rest h = ground arith

bind_done {ℓ} : {A : Type ℓ} (m : Exec A) → (m >>= done) ≡ m
bind_done (done a) = refl
bind_done panic = refl

-- A datagram of sendable frames is built without a panic. Parsing it gives back the frames it
-- claims to hold, in order, and nothing at all if it claims more frames than it holds.
pub parse_udp-build_udp_batch :
    (fs : List Frame) (seq_no count : ℕ)
    → All IsSendable fs
    → seq_no < 256
    → count < 2 ^ 16
    → (pkt : List ℕ) × (build_udp_batch fs seq_no count ≡ done pkt)
      × (parse_udp pkt ≡ done (claimed count fs))
unfolding build_udp_batch
parse_udp-build_udp_batch fs seq_no count v hs hc = (
  2 ∷ 0 ∷ seq_no ∷ (u16_to_be count ++ wire_all fs),
  encode_frames-eq-wire fs (2 ∷ 0 ∷ seq_no ∷ u16_to_be count) v,
  parse_udp-read (2 ∷ 0 ∷ seq_no ∷ (u16_to_be count ++ wire_all fs))
        (datagram-IsBytes fs seq_no count v hs)
      ∙ ap (λ h. done (read_datagram (2 ∷ 0 ∷ seq_no ∷ (u16_to_be count ++ wire_all fs)) h))
          (udp_header-packet seq_no count (wire_all fs) hc)
      ∙ ap done (read_frames-wire count fs v),
)

claimed-all : (fs : List Frame) → claimed (length fs) fs ≡ some (map delivered fs)
claimed-all [] = refl
claimed-all (f ∷ fs) = rw (claimed-all fs)

-- One frame, as `canWrite` sends it.
pub parse_udp-build_udp :
    (f : Frame) (seq_no : ℕ)
    → IsSendable f
    → seq_no < 256
    → (pkt : List ℕ) × (build_udp f seq_no ≡ done pkt)
      × (parse_udp pkt ≡ done (some (delivered f ∷ [])))
unfolding build_udp build_udp_batch encode_frames
parse_udp-build_udp f seq_no v hs =
    let (pkt, built, parsed) =
      parse_udp-build_udp_batch (f ∷ []) seq_no 1 (v, tt) hs (omega arith) in
    (pkt, sym (bind_done (build_udp f seq_no)) ∙ built, parsed)
