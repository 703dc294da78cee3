-- ===== src/Transport/StreamFrames.antt =====
-- The TCP transport end to end, and its agreement with UDP.
use mathlib.Core.Option.{some-injective}
use kvasilloni.Prelude.{
  ℕ, zero, suc, ◌≤◌, ◌<◌, ◌≡◌, refl, sym, ap, ◌∙◌, List, [], ◌∷◌, ◌++◌, Option, none, some, All,
  All-drop, map, drop, length, arith, length-append, length-drop, drop-append,
}
use kvasilloni.Prelude.Bytes.{IsByte, IsBytes}
use kvasilloni.Prelude.Exec.{done}
use kvasilloni.Wire.Frame.{Frame}
use kvasilloni.Wire.Encode.{encode_frames}
use kvasilloni.Wire.Udp.{parse_udp}
use kvasilloni.Wire.Reference.{read_frame, read_frames, read_next}
use kvasilloni.Wire.Encoded.{IsSendable, wire_bytes, delivered, read_frame-wire}
use kvasilloni.Wire.UdpRead.{parse_udp-read, udp_header, read_datagram, read_frame-size}
use kvasilloni.Wire.UdpRoundTrip.{wire_all, encode_frames-eq-wire, wire_all-IsBytes}
use kvasilloni.Wire.Decoded.{read_frame-IsSendable, done-injective, cons_frame-eq-some}
use kvasilloni.Transport.Rx.{tcp_rx_frames}
use kvasilloni.Transport.StreamRounds.{primed}
use kvasilloni.Transport.StreamRead.{read_stream, read_more, tcp_rx_frames-read}

-- At least one round for each frame.
length-wire_all : (fs : List Frame) → length fs ≤ length (wire_all fs)
length-wire_all [] = omega arith
length-wire_all (f ∷ fs) =
    omega (arith, length-wire_all fs, length-append (wire_bytes f) (wire_all fs))

read_stream-wire :
    (m : ℕ) (fs : List Frame)
    → All IsSendable fs
    → length fs ≤ m
    → read_stream m (wire_all fs) ≡ map delivered fs
unfolding read_stream
read_stream-wire zero [] v h = refl
read_stream-wire zero (f ∷ fs) v h = absurd (omega arith)
read_stream-wire (suc m) [] v h = unfold read_frame in refl
read_stream-wire (suc m) (f ∷ fs) v h =
    ap (λ r. read_more r (wire_all (f ∷ fs)) (λ rest. read_stream m rest))
      (read_frame-wire f v.0 (wire_all fs))
    ∙ ap (λ bs. delivered f ∷ read_stream m bs) (drop-append (wire_bytes f) (wire_all fs))
    ∙ ap (◌∷◌ (delivered f)) (read_stream-wire m fs v.1 (omega arith))

-- Frames written to the stream one after another come out of the receive loop in order, each
-- as it is delivered, and the loop does not panic.
pub tcp_rx_frames-encode_frames :
    (fs : List Frame)
    → All IsSendable fs
    → (bs : List ℕ) × (encode_frames [] fs ≡ done bs)
      × ((fuel : ℕ) → length bs < fuel → tcp_rx_frames fuel primed bs ≡ done (map delivered fs))
tcp_rx_frames-encode_frames fs v = (
  wire_all fs,
  encode_frames-eq-wire fs [] v,
  λ fuel h.
      tcp_rx_frames-read (length (wire_all fs)) fuel (wire_all fs) (wire_all-IsBytes fs v)
        (omega arith) h
      ∙ ap done (read_stream-wire (length (wire_all fs)) fs v (length-wire_all fs)),
)

pub read_stream-IsSendable : (m : ℕ) (bs : List ℕ) → IsBytes bs → All IsSendable (read_stream m bs)
unfolding read_stream
read_stream-IsSendable zero bs hb = tt
read_stream-IsSendable (suc m) bs hb = go (read_frame bs) refl (read_stream-IsSendable m)
  where
    go :
        (r : Option (Frame × ℕ))
        → read_frame bs ≡ r
        → ((cs : List ℕ) → IsBytes cs → All IsSendable (read_stream m cs))
        → All IsSendable (read_more r bs (λ rest. read_stream m rest))
    go none e ih = tt
    go (some (f, k)) e ih =
        (read_frame-IsSendable bs hb e, ih (drop k bs) (All-drop IsByte k bs hb))

-- On every byte stream the receive loop ends without a panic, and every frame that it pushes is
-- within the limit of its class.
pub tcp_rx_frames-IsSendable :
    (fuel : ℕ) (bs : List ℕ)
    → IsBytes bs
    → length bs < fuel
    → (fs : List Frame) × (tcp_rx_frames fuel primed bs ≡ done fs) × All IsSendable fs
tcp_rx_frames-IsSendable fuel bs hb h = (
  read_stream (length bs) bs,
  tcp_rx_frames-read (length bs) fuel bs hb (omega arith) h,
  read_stream-IsSendable (length bs) bs hb,
)

-- The first `n` frames of the reference decoder are the first frames of the stream.
read_stream-prefix :
    (n m : ℕ) (bs : List ℕ) (fs : List Frame)
    → length bs ≤ m
    → read_frames n bs ≡ some fs
    → (rest : List Frame) × (read_stream m bs ≡ fs ++ rest)
unfolding read_stream read_frames
read_stream-prefix zero m bs fs h e =
    (read_stream m bs, ap (λ gs. gs ++ read_stream m bs) (some-injective [] fs e))
read_stream-prefix (suc n) zero [] fs h e = absurd (unfold read_frame in cc)
read_stream-prefix (suc n) zero (b ∷ bs) fs h e = absurd (omega arith)
read_stream-prefix (suc n) (suc m) bs fs h e = go (read_frame bs) refl e (read_stream-prefix n m)
  where
    go :
        (r : Option (Frame × ℕ))
        → read_frame bs ≡ r
        → read_next r bs (λ rest. read_frames n rest) ≡ some fs
        → ((cs : List ℕ) (gs : List Frame)
            → length cs ≤ m
            → read_frames n cs ≡ some gs
            → (rest : List Frame) × (read_stream m cs ≡ gs ++ rest))
        → (rest : List Frame) × (read_more r bs (λ rest. read_stream m rest) ≡ fs ++ rest)
    go none p q ih = cc
    go (some (f, k)) p q ih =
        let (gs, read, both) = cons_frame-eq-some f (read_frames n (drop k bs)) q in
        let (rest, same) =
          ih (drop k bs) gs (omega (arith, read_frame-size bs p, length-drop k bs)) read in
        (rest, ap (◌∷◌ f) same ∙ ap (λ t. t ++ rest) (sym both))

-- The two transports agree: when a datagram parses, the stream decoder given the bytes behind
-- its header delivers the same frames first.
pub parse_udp-tcp_rx_frames :
    (buf : List ℕ) (fs : List Frame) (fuel : ℕ)
    → IsBytes buf
    → parse_udp buf ≡ done (some fs)
    → length buf < fuel
    → (rest : List Frame) × (tcp_rx_frames fuel primed (drop 5 buf) ≡ done (fs ++ rest))
parse_udp-tcp_rx_frames buf fs fuel hb e h = go (udp_header buf) (sym (parse_udp-read buf hb) ∙ e)
  where
    go :
        (r : Option ℕ)
        → done (read_datagram buf r) ≡ done (some fs)
        → (rest : List Frame) × (tcp_rx_frames fuel primed (drop 5 buf) ≡ done (fs ++ rest))
    go none p = cc
    go (some n) p =
        let m = length buf in
        let (rest, same) =
          read_stream-prefix n m (drop 5 buf) fs (omega (arith, length-drop 5 buf))
            (done-injective p) in
        (
          rest,
          tcp_rx_frames-read m fuel (drop 5 buf) (All-drop IsByte 5 buf hb)
                (omega (arith, length-drop 5 buf)) (omega (arith, length-drop 5 buf))
              ∙ ap done same,
        )
