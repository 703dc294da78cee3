-- ===== src/Wire/UdpFrame.antt =====
-- One round of `parse_udp` against the reference decoder.
use kvasilloni.Prelude.{
  ℕ, ◌+◌, ◌-◌, ◌≤◌, ◌<◌, ◌≡◌, refl, List, Option, none, some, true, bit_and, drop, length, get_or,
  ltb, leb, le→leb, le→ltb-false, if◌then◌else◌, arith, length-drop, get_or-drop, drop-drop,
  All-get_or, length-take,
}
use native.Mathlib.Decide.{dec_lt}
use kvasilloni.Prelude.Bits.{bit_and_flag, bit_and_mask}
use kvasilloni.Prelude.Bytes.{IsByte, IsBytes, u32_from_be}
use kvasilloni.Prelude.Exec.{index-eq-done, done, ◌>>=◌, index}
use kvasilloni.Wire.Flags.{canfd_frame, has}
use kvasilloni.Wire.Frame.{Frame, default_frame}
use kvasilloni.Wire.Udp.{parse_body, parse_one}
use kvasilloni.Wire.Reference.{read_body, read_frame, add_size, classic_header, fd_header}

parse_body-read :
    (buf : List ℕ) (p : ℕ) (f : Frame)
    → p ≤ length buf
    → f.len < 128
    → length f.bytes ≡ 64
    → parse_body buf p f ≡ done (add_size p (read_body f (drop p buf)))
unfolding parse_body read_body
parse_body-read buf p f hp hl hb =
    ground (arith, bit_and_mask 7 f.len, length-drop p buf, length-take f.len (drop p buf))

abbrev head_at : List ℕ → ℕ → Frame
head_at buf p = record default_frame {
  can_id =
      u32_from_be (get_or buf p 0) (get_or buf (p + 1) 0) (get_or buf (p + 2) 0)
        (get_or buf (p + 3) 0);
}

-- With the header present, the code reads the length byte and goes on behind it.
parse_one-long :
    (buf : List ℕ) (p : ℕ)
    → p + 5 ≤ length buf
    → parse_one buf p ≡ (
        if has (get_or buf (p + 4) 0) canfd_frame
        then (if ltb (length buf) (p + 5 + 1) then done none else (do
          fl ← index buf (p + 5)
          parse_body buf (p + 6) (record (head_at buf p) {
            fd = true;
            len = bit_and (get_or buf (p + 4) 0) 0x7f;
            fd_flags = fl;
          })))
        else parse_body buf (p + 5) (record (head_at buf p) { len = get_or buf (p + 4) 0 }))
unfolding parse_one
parse_one-long buf p h =
    rw
      (
        index-eq-done buf p (omega arith),
        index-eq-done buf (p + 1) (omega arith),
        index-eq-done buf (p + 2) (omega arith),
        index-eq-done buf (p + 3) (omega arith),
        index-eq-done buf (p + 4) (omega arith),
      )
      (ground arith)

classic_header-drop :
    (buf : List ℕ) (p : ℕ)
    → classic_header (drop p buf) ≡ record (head_at buf p) { len = get_or buf (p + 4) 0 }
classic_header-drop buf p = ground (
  arith,
  get_or-drop p 0 buf 0,
  get_or-drop p 1 buf 0,
  get_or-drop p 2 buf 0,
  get_or-drop p 3 buf 0,
  get_or-drop p 4 buf 0,
)

fd_header-drop :
    (buf : List ℕ) (p : ℕ)
    → fd_header (drop p buf) ≡ record (head_at buf p) {
      len = get_or buf (p + 4) 0 - 128;
      fd = true;
      fd_flags = get_or buf (p + 5) 0;
    }
fd_header-drop buf p = ground (
  arith,
  get_or-drop p 0 buf 0,
  get_or-drop p 1 buf 0,
  get_or-drop p 2 buf 0,
  get_or-drop p 3 buf 0,
  get_or-drop p 4 buf 0,
  get_or-drop p 5 buf 0,
)

abbrev classic_at : List ℕ → ℕ → Frame
classic_at buf p = record (head_at buf p) { len = get_or buf (p + 4) 0 }

abbrev fd_at : List ℕ → ℕ → Frame
fd_at buf p = record (head_at buf p) {
  len = get_or buf (p + 4) 0 - 128;
  fd = true;
  fd_flags = get_or buf (p + 5) 0;
}

read_frame-classic :
    (buf : List ℕ) (p : ℕ)
    → p + 5 ≤ length buf
    → get_or buf (p + 4) 0 < 128
    → read_frame (drop p buf) ≡ add_size 5 (read_body (classic_at buf p) (drop (p + 5) buf))
unfolding read_frame
read_frame-classic buf p h c =
    ground (
      arith,
      length-drop p buf,
      get_or-drop p 4 buf 0,
      drop-drop p 5 buf,
      classic_header-drop buf p,
    )

read_frame-fd :
    (buf : List ℕ) (p : ℕ)
    → p + 6 ≤ length buf
    → 128 ≤ get_or buf (p + 4) 0
    → read_frame (drop p buf) ≡ add_size 6 (read_body (fd_at buf p) (drop (p + 6) buf))
unfolding read_frame
read_frame-fd buf p h c =
    ground
      (arith, length-drop p buf, get_or-drop p 4 buf 0, drop-drop p 6 buf, fd_header-drop buf p)

read_frame-cut :
    (buf : List ℕ) (p : ℕ)
    → p + 5 ≤ length buf
    → length buf < p + 6
    → 128 ≤ get_or buf (p + 4) 0
    → read_frame (drop p buf) ≡ none
unfolding read_frame
read_frame-cut buf p h k c = ground (arith, length-drop p buf, get_or-drop p 4 buf 0)

has-fd : (raw : ℕ) → raw < 256 → has raw canfd_frame ≡ leb 128 raw
has-fd raw h = ground (arith, bit_and_flag 7 raw)

add_size_twice : (p k : ℕ) (r : Option (Frame × ℕ)) → add_size (p + k) r ≡ add_size p (add_size k r)
add_size_twice p k none = refl
add_size_twice p k (some (f, n)) = ground arith

module _ (buf : List ℕ) (p : ℕ) (hb : IsBytes buf) (hp : p + 5 ≤ length buf) where
  raw_byte : get_or buf (p + 4) 0 < 256
  raw_byte = All-get_or IsByte buf (p + 4) 0 hb (omega arith)

  parse_one-classic :
      get_or buf (p + 4) 0 < 128 → parse_one buf p ≡ done (add_size p (read_frame (drop p buf)))
  parse_one-classic c = ground (
    arith,
    parse_one-long buf p hp,
    has-fd (get_or buf (p + 4) 0) raw_byte,
    parse_body-read buf (p + 5) (classic_at buf p) hp c refl,
    read_frame-classic buf p hp c,
    add_size_twice p 5 (read_body (classic_at buf p) (drop (p + 5) buf)),
  )

  seven_bits :
      128 ≤ get_or buf (p + 4) 0 → bit_and (get_or buf (p + 4) 0) 0x7f ≡ get_or buf (p + 4) 0 - 128
  seven_bits c = omega (arith, bit_and_mask 7 (get_or buf (p + 4) 0), raw_byte)

  parse_one-fd :
      128 ≤ get_or buf (p + 4) 0 → parse_one buf p ≡ done (add_size p (read_frame (drop p buf)))
  parse_one-fd c = elim (dec_lt (length buf) (p + 6)) [
    | yes cut ↦ ground (
      arith,
      parse_one-long buf p hp,
      has-fd (get_or buf (p + 4) 0) raw_byte,
      read_frame-cut buf p hp cut c,
    )
    | no whole ↦
        rw
          (
            parse_one-long buf p hp,
            has-fd (get_or buf (p + 4) 0) raw_byte,
            le→leb 128 (get_or buf (p + 4) 0) c,
            le→ltb-false (length buf) (p + 5 + 1) (omega arith),
            index-eq-done buf (p + 5) (omega arith),
            seven_bits c,
            read_frame-fd buf p (omega arith) c,
            ← add_size_twice p 6 (read_body (fd_at buf p) (drop (p + 6) buf)),
          )
          (parse_body-read buf (p + 6) (fd_at buf p) (omega arith) (omega (arith, raw_byte)) refl)
  ]

pub parse_one-read :
    (buf : List ℕ) (p : ℕ)
    → IsBytes buf
    → p ≤ length buf
    → parse_one buf p ≡ done (add_size p (read_frame (drop p buf)))
parse_one-read buf p hb hp = elim (dec_lt (length buf) (p + 5)) [
  | yes short ↦ unfold parse_one read_frame in ground (arith, length-drop p buf)
  | no long ↦ elim (dec_lt (get_or buf (p + 4) 0) 128) [
    | yes classic ↦ parse_one-classic buf p hb (omega arith) classic
    | no wide ↦ parse_one-fd buf p hb (omega arith) (omega arith)
  ]
]
