-- ===== src/Wire/Encode.antt =====
-- The encoders of src/wire.rs: `encode_frame` and `build_udp`.
use kvasilloni.Prelude.{ℕ, not, List, [], ◌∷◌, ◌++◌, bit_and, bit_or, if◌then◌else◌}
use kvasilloni.Prelude.Bytes.{u32_to_be, u16_to_be}
use kvasilloni.Prelude.Exec.{Exec, done, ◌>>=◌, slice}
use kvasilloni.Wire.Flags.{canfd_frame, frame_version, op_data}
use kvasilloni.Wire.Frame.{Frame, is_rtr}

unfoldable pub encode_frame : List ℕ → Frame → Exec (List ℕ)
encode_frame out f =
    let len = bit_and f.len 0x7f in
    let len' = if f.fd then bit_or len canfd_frame else len in
    let head = out ++ (u32_to_be f.can_id ++ len' ∷ []) in
    let flagged = if f.fd then head ++ f.fd_flags ∷ [] else head in
    if not (is_rtr f)
    then (do
      let dlen = bit_and f.len 0x7f
      payload ← slice f.bytes 0 dlen
      done (flagged ++ payload))
    else done flagged

-- The frames of a datagram, back to back.
unfoldable pub encode_frames : List ℕ → List Frame → Exec (List ℕ)
unfolding encode_frame
encode_frames out [] = done out
encode_frames out (f ∷ fs) = do out' ← encode_frame out f; encode_frames out' fs

unfoldable pub build_udp : Frame → ℕ → Exec (List ℕ)
unfolding encode_frame
build_udp f seq_no = encode_frame (frame_version ∷ op_data ∷ seq_no ∷ u16_to_be 1) f

-- A datagram of several frames, as a cannelloni peer sends it.
unfoldable pub build_udp_batch : List Frame → ℕ → ℕ → Exec (List ℕ)
unfolding encode_frames
build_udp_batch frames seq_no count =
    encode_frames (frame_version ∷ op_data ∷ seq_no ∷ u16_to_be count) frames
