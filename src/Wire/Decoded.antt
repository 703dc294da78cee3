-- ===== src/Wire/Decoded.antt =====
-- What the decoders let through: every decoded frame could have been sent.
use kvasilloni.Prelude.{
  ℕ, zero, suc, ◌^◌, ◌≤◌, ◌<◌, ◌≡◌, ◌⊎◌, inl, inr, ◌∙◌, sym, refl, List, [], ◌∷◌, Option, none,
  some, Bool, All, All-append, All-take, All-drop, All-get_or, take, drop, length, get_or, arith,
  length-append, length-take, length-drop,
}
use mathlib.Core.Option.{some-injective}
use mathlib.Core.Path.{subst}
use kvasilloni.Prelude.Bytes.{IsByte, IsBytes, u32_from_be}
use kvasilloni.Prelude.Exec.{done}
use kvasilloni.Wire.Frame.{Frame}
use kvasilloni.Wire.Udp.{parse_udp}
use kvasilloni.Wire.Reference.{
  len_limit, with_payload, read_body, read_frame, read_frames, read_next, cons_frame, add_size,
  classic_header, fd_header,
}
use kvasilloni.Wire.Encoded.{IsSendable}
use kvasilloni.Wire.UdpRead.{parse_udp-read, udp_header, read_datagram}

pub done-injective {ℓ} : {A : Type ℓ} {a b : A} → done a ≡ done b → a ≡ b
done-injective e = cc

-- A header as the decoder builds it, before the length is checked.
record IsHeader (h : Frame) : Type 0 where
  id_fits : h.can_id < 2 ^ 32
  flags_fit : h.fd_flags < 256
  size : length h.bytes ≡ 64
  bytes_fit : IsBytes h.bytes

with_payload-IsSendable :
    (h : Frame) (rest : List ℕ)
    → IsHeader h
    → IsBytes rest
    → h.len ≤ len_limit h.fd
    → h.len ≤ length rest
    → IsSendable (with_payload h rest)
with_payload-IsSendable h rest v hb fits there = record {
  id_fits = v.id_fits;
  len_fits = fits;
  flags_fit = v.flags_fit;
  size = omega (
    arith,
    length-append (take h.len rest) (drop h.len h.bytes),
    length-take h.len rest,
    length-drop h.len h.bytes,
    v.size,
    limit_le h.fd,
  );
  bytes_fit =
      All-append IsByte (take h.len rest) (drop h.len h.bytes) (All-take IsByte h.len rest hb)
        (All-drop IsByte h.len h.bytes v.bytes_fit);
}
  where
    limit_le : (fd : Bool) → len_limit fd ≤ 64
    limit_le fd = ground arith

read_body-IsSendable :
    (h : Frame) (rest : List ℕ) {f : Frame} {n : ℕ}
    → IsHeader h
    → IsBytes rest
    → read_body h rest ≡ some (f, n)
    → IsSendable f
unfolding read_body
read_body-IsSendable h rest v hb e =
    ground (arith, v.id_fits, v.flags_fit, v.size, v.bytes_fit, with_payload-IsSendable h rest v hb)

add_size-eq-some :
    (k : ℕ) (r : Option (Frame × ℕ)) {f : Frame} {n : ℕ}
    → add_size k r ≡ some (f, n)
    → (m : ℕ) × (r ≡ some (f, m))
add_size-eq-some k none e = cc
add_size-eq-some k (some (g, m)) e = (m, ground arith)

-- A successful read went through the body of one of the two headers.
read_frame-body :
    (bs : List ℕ) {f : Frame} {n : ℕ}
    → read_frame bs ≡ some (f, n)
    → (add_size 5 (read_body (classic_header bs) (drop 5 bs)) ≡ some (f, n))
      ⊎ (add_size 6 (read_body (fd_header bs) (drop 6 bs)) ≡ some (f, n))
unfolding read_frame
read_frame-body bs e = ground arith

byte_at : (bs : List ℕ) (i : ℕ) → IsBytes bs → get_or bs i 0 < 256
byte_at bs i hb = All-get_or IsByte bs i 0 hb (omega arith)

id-fits :
    (bs : List ℕ)
    → IsBytes bs
    → u32_from_be (get_or bs 0 0) (get_or bs 1 0) (get_or bs 2 0) (get_or bs 3 0) < 2 ^ 32
id-fits bs hb = omega (arith, byte_at bs 0 hb, byte_at bs 1 hb, byte_at bs 2 hb, byte_at bs 3 hb)

classic_header-IsHeader : (bs : List ℕ) → IsBytes bs → IsHeader (classic_header bs)
classic_header-IsHeader bs hb = record {
  id_fits = id-fits bs hb;
  flags_fit = omega arith;
  size = refl;
  bytes_fit = omega arith;
}

fd_header-IsHeader : (bs : List ℕ) → IsBytes bs → IsHeader (fd_header bs)
fd_header-IsHeader bs hb = record {
  id_fits = id-fits bs hb;
  flags_fit = byte_at bs 5 hb;
  size = refl;
  bytes_fit = omega arith;
}

pub read_frame-IsSendable :
    (bs : List ℕ) {f : Frame} {n : ℕ} → IsBytes bs → read_frame bs ≡ some (f, n) → IsSendable f
read_frame-IsSendable bs hb e = elim (read_frame-body bs e) [
  | inl c ↦
      read_body-IsSendable (classic_header bs) (drop 5 bs) (classic_header-IsHeader bs hb)
        (All-drop IsByte 5 bs hb) (add_size-eq-some 5 _ c).1
  | inr w ↦
      read_body-IsSendable (fd_header bs) (drop 6 bs) (fd_header-IsHeader bs hb)
        (All-drop IsByte 6 bs hb) (add_size-eq-some 6 _ w).1
]

pub cons_frame-eq-some :
    (f : Frame) (r : Option (List Frame)) {fs : List Frame}
    → cons_frame f r ≡ some fs
    → (gs : List Frame) × (r ≡ some gs) × (fs ≡ f ∷ gs)
cons_frame-eq-some f none e = cc
cons_frame-eq-some f (some gs) e = (gs, refl, ground arith)

read_frames-IsSendable :
    (n : ℕ) (bs : List ℕ) (fs : List Frame)
    → IsBytes bs
    → read_frames n bs ≡ some fs
    → All IsSendable fs
unfolding read_frames
read_frames-IsSendable zero bs fs hb e = subst (All IsSendable) (some-injective [] fs e) tt
read_frames-IsSendable (suc n) bs fs hb e = go (read_frame bs) refl e (read_frames-IsSendable n)
  where
    go :
        (r : Option (Frame × ℕ))
        → read_frame bs ≡ r
        → read_next r bs (λ rest. read_frames n rest) ≡ some fs
        → ((cs : List ℕ) (gs : List Frame)
            → IsBytes cs
            → read_frames n cs ≡ some gs
            → All IsSendable gs)
        → All IsSendable fs
    go none p h ih = cc
    go (some (f, k)) p h ih =
        let (gs, rest, both) = cons_frame-eq-some f (read_frames n (drop k bs)) h in
        rw both (read_frame-IsSendable bs hb p, ih (drop k bs) gs (All-drop IsByte k bs hb) rest)

-- Every frame that `parse_udp` returns is within the limit of its class, 8 bytes or 64, and all
-- its fields have the widths of their types.
pub parse_udp-IsSendable :
    (buf : List ℕ) (fs : List Frame)
    → IsBytes buf
    → parse_udp buf ≡ done (some fs)
    → All IsSendable fs
parse_udp-IsSendable buf fs hb e = go (udp_header buf) (sym (parse_udp-read buf hb) ∙ e)
  where
    go : (h : Option ℕ) → done (read_datagram buf h) ≡ done (some fs) → All IsSendable fs
    go none p = cc
    go (some n) p =
        read_frames-IsSendable n (drop 5 buf) fs (All-drop IsByte 5 buf hb) (done-injective p)
