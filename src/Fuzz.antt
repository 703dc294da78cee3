-- ===== src/Fuzz.antt =====
-- fuzz/fuzz_targets: the drivers that feed arbitrary bytes to the two decoders, with no firewall
-- around them. The bytes behind the offset stand for the buffer and the offset.
pub mod Total
mod Tests
use kvasilloni.Prelude.{ℕ, zero, suc, ◌+◌, List, [], ◌∷◌, take, drop, length, ltb, if◌then◌else◌}
use kvasilloni.Prelude.Exec.{Exec, done, ◌>>=◌}
use kvasilloni.Wire.Frame.{Frame, default_frame}
use kvasilloni.Wire.Stream.{
  DecodeState, init, Decoded, need, complete, error, Decoding, decode_stream,
}
use kvasilloni.Wire.Udp.{parse_udp}

-- parse_udp.rs
unfoldable pub fuzz_parse_udp : List ℕ → Exec (Unit {0})
unfolding parse_udp
fuzz_parse_udp bytes = do frames ← parse_udp bytes; done tt

-- The reads of one frame: how many bytes, and the decoder's two variables.
abbrev pub Resume : Type 0
Resume = ℕ → Frame → DecodeState → Exec (List Frame)

-- The outer loop: the call with no bytes that starts a frame.
abbrev pub restart : Resume → Decoding → Exec (List Frame)
restart go (need n, f, st) = go n f st
restart go (_, f, st) = done []

abbrev pub first : Frame → Exec (List Frame) → Exec (List Frame)
first f r = do fs ← r; done (f ∷ fs)

abbrev pub fuzz_next : Resume → Decoding → Exec (List Frame)
fuzz_next go (need n, f, st) = go n f st
fuzz_next go (complete, f, st) = first f (do d ← decode_stream [] f st; restart go d)
fuzz_next go (error, f, st) = done []

-- The frames that the driver of decode_stream.rs completes.
unfoldable pub fuzz_reads : ℕ → List ℕ → ℕ → Frame → DecodeState → Exec (List Frame)
unfolding decode_stream
fuzz_reads zero bytes want f st = done []
fuzz_reads (suc fuel) bytes want f st = if ltb (length bytes) want then done [] else (do
  d ← decode_stream (take want bytes) f st
  fuzz_next (λ n f' st'. fuzz_reads fuel (drop want bytes) n f' st') d)

unfoldable pub fuzz_decode_stream : List ℕ → Exec (List Frame)
unfolding fuzz_reads
fuzz_decode_stream bytes = do
  d ← decode_stream [] default_frame init
  restart (fuzz_reads (length bytes + 1) bytes) d
