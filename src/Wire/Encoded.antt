-- ===== src/Wire/Encoded.antt =====
-- The bytes that `encode_frame` emits, and what the reference decoder makes of them.
use kvasilloni.Prelude.{
  ℕ, ◌+◌, ◌^◌, ◌≤◌, ◌<◌, ◌≡◌, ap, ◌∙◌, List, [], ◌∷◌, ◌++◌, some, bit_and, bit_or, take, drop,
  replicate, length, if◌then◌else◌, arith, length-take, length-append, append_assoc, take-append,
  All-take, Bool-cases, inl, inr,
}
use kvasilloni.Prelude.Bits.{bit_and_mask, bit_or_flag}
use kvasilloni.Prelude.Bytes.{IsByte, IsBytes, u32_to_be, u32_from_be-to_be}
use kvasilloni.Prelude.Exec.{done, slice, slice-eq-done}
use kvasilloni.Wire.Flags.{canfd_frame}
use kvasilloni.Wire.Frame.{Frame, is_rtr}
use kvasilloni.Wire.Encode.{encode_frame}
use kvasilloni.Wire.Reference.{len_limit, read_body, read_frame}

-- A frame that its sender may emit: its fields have the widths of their types, and its length
-- fits its class.
pub record IsSendable (f : Frame) : Type 0 where
  pub id_fits : f.can_id < 2 ^ 32
  pub len_fits : f.len ≤ len_limit f.fd
  pub flags_fit : f.fd_flags < 256
  pub size : length f.bytes ≡ 64
  pub bytes_fit : IsBytes f.bytes

abbrev pub payload_of : Frame → List ℕ
payload_of f = if is_rtr f then [] else take f.len f.bytes

abbrev pub wire_bytes : Frame → List ℕ
wire_bytes f =
    u32_to_be f.can_id
    ++ (if f.fd then (f.len + 128) ∷ f.fd_flags ∷ payload_of f else f.len ∷ payload_of f)

-- What a receiver gets: no flags on a classic frame, no payload on a remote request, and zeros
-- behind the payload.
abbrev pub delivered : Frame → Frame
delivered f = record f {
  fd_flags = if f.fd then f.fd_flags else 0;
  bytes = if is_rtr f then replicate 64 0 else take f.len f.bytes ++ drop f.len (replicate 64 0);
  rx_time_ms = 0;
}

module _ (f : Frame) (v : IsSendable f) where
  len_le : f.len ≤ 64
  len_le = ground (arith, v.len_fits)

  low_len : bit_and f.len 0x7f ≡ f.len
  low_len = omega (arith, bit_and_mask 7 f.len, len_le)

  fd_len : bit_or f.len canfd_frame ≡ f.len + 128
  fd_len = bit_or_flag 7 f.len (omega (arith, len_le))

  payload_slice : slice f.bytes 0 f.len ≡ done (take f.len f.bytes)
  payload_slice =
      slice-eq-done f.bytes 0 f.len (omega arith) (omega (arith, len_le, v.size))
      ∙ ap (λ n. done (take n f.bytes)) (omega arith)

  -- Encoding a sendable frame does not panic, and appends the bytes of the format.
  pub encode_frame-eq-wire : (out : List ℕ) → encode_frame out f ≡ done (out ++ wire_bytes f)
  unfolding encode_frame
  encode_frame-eq-wire out = elim (Bool-cases f.fd) [
    | inl fd ↦ elim (Bool-cases (is_rtr f)) [
      | inl rtr ↦ simp (low_len, fd_len, fd, rtr, append_assoc)
      | inr rtr ↦ simp (low_len, fd_len, payload_slice, fd, rtr, append_assoc)
    ]
    | inr fd ↦ elim (Bool-cases (is_rtr f)) [
      | inl rtr ↦ simp (low_len, fd, rtr)
      | inr rtr ↦ simp (low_len, payload_slice, fd, rtr, append_assoc)
    ]
  ]

  length-payload : length (payload_of f) ≡ (if is_rtr f then 0 else f.len)
  length-payload = ground (arith, length-take f.len f.bytes, len_le, v.size)

  abbrev bare : Frame
  bare = record (delivered f) { bytes = replicate 64 0 }

  read_body-bare :
      (rest : List ℕ)
      → read_body bare (payload_of f ++ rest) ≡ some (delivered f, length (payload_of f))
  unfolding read_body
  read_body-bare rest = ground (
    arith,
    length-payload,
    v.len_fits,
    length-append (payload_of f) rest,
    take-append (payload_of f) rest,
  )

  pub read_frame-wire :
      (rest : List ℕ)
      → read_frame (wire_bytes f ++ rest) ≡ some (delivered f, length (wire_bytes f))
  unfolding read_frame
  read_frame-wire rest =
      ground (arith, read_body-bare rest, u32_from_be-to_be f.can_id v.id_fits, len_le, v.len_fits)

  pub wire-IsBytes : IsBytes (wire_bytes f)
  wire-IsBytes = ground (arith, v.bytes_fit, v.flags_fit, len_le, All-take IsByte f.len f.bytes)
