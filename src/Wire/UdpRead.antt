-- ===== src/Wire/UdpRead.antt =====
-- `parse_udp` never panics, and reads what the reference reads.
use kvasilloni.Prelude.{
  ℕ, zero, suc, ◌+◌, ◌*◌, ◌≤◌, ◌≡◌, refl, ap, ◌∙◌, List, [], ◌∷◌, ◌++◌, Option, none, some, ◌&&◌,
  drop, length, get_or, ltb, ◌==◌, if◌then◌else◌, arith, length-drop, drop-drop, append_assoc,
  append-nil,
}
use kvasilloni.Prelude.Bytes.{IsBytes, u16_from_be}
use kvasilloni.Prelude.Exec.{done}
use kvasilloni.Wire.Frame.{Frame}
use kvasilloni.Wire.Udp.{next_frame, parse_frames, parse_udp}
use kvasilloni.Wire.Reference.{read_body, read_frame, read_frames, read_next, add_size, cons_frame}
use kvasilloni.Wire.UdpFrame.{parse_one-read}

-- What is read lies inside the bytes.
pub read_frame-size :
    (bs : List ℕ) {f : Frame} {n : ℕ} → read_frame bs ≡ some (f, n) → (5 ≤ n) × (n ≤ length bs)
unfolding read_frame read_body
read_frame-size bs h = ground (arith, length-drop 5 bs, length-drop 6 bs)

abbrev append_frames : List Frame → Option (List Frame) → Option (List Frame)
append_frames frames none = none
append_frames frames (some fs) = some (frames ++ fs)

append_nil_frames : (r : Option (List Frame)) → append_frames [] r ≡ r
append_nil_frames none = refl
append_nil_frames (some fs) = refl

append-cons_frame :
    (frames : List Frame) (f : Frame) (r : Option (List Frame))
    → append_frames (frames ++ f ∷ []) r ≡ append_frames frames (cons_frame f r)
append-cons_frame frames f none = refl
append-cons_frame frames f (some fs) = ap some (append_assoc frames (f ∷ []) fs)

abbrev ReadsOn : ℕ → List ℕ → Type 0
ReadsOn left buf =
    (p : ℕ) (frames : List Frame)
    → p ≤ length buf
    → parse_frames left buf p frames ≡ done (append_frames frames (read_frames left (drop p buf)))

next_frame-read :
    (left : ℕ) (buf : List ℕ) (p : ℕ) (frames : List Frame) (r : Option (Frame × ℕ))
    → ReadsOn left buf
    → read_frame (drop p buf) ≡ r
    → p ≤ length buf
    → next_frame (add_size p r) (λ f p'. parse_frames left buf p' (frames ++ f ∷ []))
      ≡ done (append_frames frames (read_next r (drop p buf) (read_frames left)))
next_frame-read left buf p frames none ih e hp = refl
next_frame-read left buf p frames (some (f, k)) ih e hp = rw (drop-drop p k buf) (
    ih (p + k) (frames ++ f ∷ []) (omega (arith, read_frame-size (drop p buf) e, length-drop p buf))
    ∙ ap done (append-cons_frame frames f (read_frames left (drop (p + k) buf))))

parse_frames-read : (left : ℕ) (buf : List ℕ) → IsBytes buf → ReadsOn left buf
unfolding parse_frames read_frames
parse_frames-read zero buf hb p frames hp = rw append-nil
parse_frames-read (suc left) buf hb p frames hp = rw (parse_one-read buf p hb hp) (
    next_frame-read left buf p frames (read_frame (drop p buf)) (parse_frames-read left buf hb) refl
      hp)

-- The number of frames that a datagram claims, if its header is one of this protocol.
abbrev pub udp_header : List ℕ → Option ℕ
udp_header buf =
    if ltb (length buf) 5
    then none
    else if get_or buf 0 0 == 2 && get_or buf 1 0 == 0
    then some (get_or buf 3 0 * 256 + get_or buf 4 0)
    else none

abbrev pub read_datagram : List ℕ → Option ℕ → Option (List Frame)
read_datagram buf none = none
read_datagram buf (some count) = read_frames count (drop 5 buf)

-- On every sequence of bytes `parse_udp` returns without a panic, and it returns what the
-- reference decoder reads behind a header that is a data header of version 2.
pub parse_udp-read :
    (buf : List ℕ) → IsBytes buf → parse_udp buf ≡ done (read_datagram buf (udp_header buf))
unfolding parse_udp
parse_udp-read buf hb = ground (
  arith,
  parse_frames-read (u16_from_be (get_or buf 3 0) (get_or buf 4 0)) buf hb 5 [],
  append_nil_frames (read_frames (u16_from_be (get_or buf 3 0) (get_or buf 4 0)) (drop 5 buf)),
)
