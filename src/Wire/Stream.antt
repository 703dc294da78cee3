-- ===== src/Wire/Stream.antt =====
-- `decode_stream` of src/wire.rs: the streaming decoder of the TCP transport.
use kvasilloni.Prelude.{ℕ, true, false, not, ◌||◌, List, bit_and, length, ltb, ◌==◌, if◌then◌else◌}
use kvasilloni.Prelude.Bytes.{u32_from_be}
use kvasilloni.Prelude.Exec.{Exec, done, ◌>>=◌, index, slice, copy_to}
use kvasilloni.Wire.Flags.{canfd_frame, max_frame_len, classic_frame_max_len, has}
use kvasilloni.Wire.Frame.{Frame, default_frame, is_rtr}

pub data DecodeState : Type 0 where
  init can_id len flags payload : DecodeState

pub data Decoded : Type 0 where
  need : ℕ → Decoded
  complete error : Decoded

-- The result, and what the call leaves in `*f` and `*state`.
abbrev pub Decoding : Type 0
Decoding = Decoded × Frame × DecodeState

-- The arm `Len`, with its byte read.
abbrev pub decode_len : ℕ → Frame → Decoding
decode_len raw f =
    if has raw canfd_frame
    then (let f' = record f { fd = true; len = bit_and raw 0x7f } in
        if ltb max_frame_len f'.len then (error, f', len) else (need 1, f', flags))
    else (let f' = record f { fd = false; len = raw } in
        if ltb classic_frame_max_len f'.len
        then (error, f', len)
        else if is_rtr f'
        then (complete, f', init)
        else if f'.len == 0
        then (complete, f', init)
        else (need f'.len, f', payload))

-- The arm `Flags`, with its byte read.
abbrev pub decode_flags : ℕ → Frame → Decoding
decode_flags raw f =
    let f' = record f { fd_flags = raw } in
    if is_rtr f' || f'.len == 0 then (complete, f', init) else (need f'.len, f', payload)

unfoldable pub decode_stream : List ℕ → Frame → DecodeState → Exec Decoding
decode_stream chunk f init = done (need 4, default_frame, can_id)
decode_stream chunk f can_id = if not (length chunk == 4) then done (error, f, can_id) else (do
  a ← index chunk 0
  b ← index chunk 1
  c ← index chunk 2
  d ← index chunk 3
  done (need 1, record f { can_id = u32_from_be a b c d }, len))
decode_stream chunk f len =
    if not (length chunk == 1)
    then done (error, f, len)
    else (do raw ← index chunk 0; done (decode_len raw f))
decode_stream chunk f flags =
    if not (length chunk == 1)
    then done (error, f, flags)
    else (do raw ← index chunk 0; done (decode_flags raw f))
decode_stream chunk f payload =
    let n = f.len in
    if not (length chunk == n) || ltb (length f.bytes) n then done (error, f, payload) else (do
      src ← slice chunk 0 n
      bytes' ← copy_to f.bytes n src
      done (complete, record f { bytes = bytes' }, init))
