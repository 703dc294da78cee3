-- ===== src/Wire/Reference.antt =====
-- An independent description of the format of a frame, over a plain list of bytes: four bytes of
-- identifier, one of length with the CAN FD bit, the flags of a CAN FD frame, and the payload
-- unless the frame is a remote request.
use kvasilloni.Prelude.{
  ℕ, zero, suc, ◌+◌, ◌-◌, Bool, true, List, [], ◌∷◌, ◌++◌, Option, none, some, take, drop, length,
  get_or, ltb, if◌then◌else◌,
}
use kvasilloni.Prelude.Bytes.{u32_from_be}
use kvasilloni.Wire.Frame.{Frame, default_frame, is_rtr}

abbrev pub len_limit : Bool → ℕ
len_limit fd = if fd then 64 else 8

abbrev pub with_payload : Frame → List ℕ → Frame
with_payload f rest = record f { bytes = take f.len rest ++ drop f.len f.bytes }

-- The frame, and the number of bytes that its payload takes.
unfoldable pub read_body : Frame → List ℕ → Option (Frame × ℕ)
read_body f rest =
    if ltb (len_limit f.fd) f.len
    then none
    else if is_rtr f
    then some (f, 0)
    else if ltb (length rest) f.len
    then none
    else some (with_payload f rest, f.len)

abbrev pub add_size : ℕ → Option (Frame × ℕ) → Option (Frame × ℕ)
add_size k none = none
add_size k (some (f, n)) = some (f, k + n)

abbrev pub classic_header : List ℕ → Frame
classic_header bs = record default_frame {
  can_id = u32_from_be (get_or bs 0 0) (get_or bs 1 0) (get_or bs 2 0) (get_or bs 3 0);
  len = get_or bs 4 0;
}

abbrev pub fd_header : List ℕ → Frame
fd_header bs = record default_frame {
  can_id = u32_from_be (get_or bs 0 0) (get_or bs 1 0) (get_or bs 2 0) (get_or bs 3 0);
  len = get_or bs 4 0 - 128;
  fd = true;
  fd_flags = get_or bs 5 0;
}

-- The first frame of the bytes, and the number of bytes that it takes.
unfoldable pub read_frame : List ℕ → Option (Frame × ℕ)
read_frame bs =
    if ltb (length bs) 5
    then none
    else if ltb (get_or bs 4 0) 128
    then add_size 5 (read_body (classic_header bs) (drop 5 bs))
    else if ltb (length bs) 6
    then none
    else add_size 6 (read_body (fd_header bs) (drop 6 bs))

abbrev pub cons_frame : Frame → Option (List Frame) → Option (List Frame)
cons_frame f none = none
cons_frame f (some fs) = some (f ∷ fs)

abbrev pub read_next :
    Option (Frame × ℕ) → List ℕ → (List ℕ → Option (List Frame)) → Option (List Frame)
read_next none bs more = none
read_next (some (f, k)) bs more = cons_frame f (more (drop k bs))

-- The first `n` frames.
unfoldable pub read_frames : ℕ → List ℕ → Option (List Frame)
unfolding read_frame
read_frames zero bs = some []
read_frames (suc n) bs = read_next (read_frame bs) bs (λ rest. read_frames n rest)
