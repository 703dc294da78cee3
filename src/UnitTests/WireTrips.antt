-- ===== src/UnitTests/WireTrips.antt =====
-- The round trips of the property tests: both decoders give back what was sent.
use kvasilloni.Prelude.{
  ℕ, zero, suc, ◌+◌, ◌≤◌, ◌<◌, ◌≡◌, refl, ap, sym, ◌∙◌, List, [], ◌∷◌, take, drop, length,
  append-nil, arith, le→ltb-false,
}
use native.Mathlib.Decide.{dec_lt}
use kvasilloni.Prelude.Exec.{Exec, done, panic, ◌>>=◌, slice, slice-eq-done}
use kvasilloni.Wire.Frame.{Frame, default_frame}
use kvasilloni.Wire.Stream.{DecodeState, can_id, need, complete, error, Decoding, decode_stream}
use kvasilloni.Wire.Encoded.{
  IsSendable, wire_bytes, delivered, encode_frame-eq-wire, read_frame-wire, wire-IsBytes,
}
use kvasilloni.Wire.Reference.{read_frame}
use kvasilloni.Transport.StreamRead.{read_stream}
use kvasilloni.Fuzz.{fuzz_decode_stream, first, fuzz_next, fuzz_reads}
use kvasilloni.Fuzz.Total.{fuzz_targets-done}
use kvasilloni.UnitTests.WireStream.{trip_next, trip_rounds, stream_roundtrip}

-- The first frame that the driver completes is the one that the round trip ends with.
abbrev Follows : ℕ → List ℕ → Type 0
Follows fuel rest =
    (n : ℕ) (f : Frame) (st : DecodeState) (g : Frame) (gs : List Frame)
    → fuzz_reads fuel rest n f st ≡ done (g ∷ gs)
    → trip_rounds fuel rest n f st ≡ done g

first-injective :
    (f g : Frame) (r : Exec (List Frame)) (gs : List Frame) → first f r ≡ done (g ∷ gs) → f ≡ g
first-injective f g (done fs) gs e = cc
first-injective f g panic gs e = cc

trip_next-Follows :
    (fuel : ℕ) (rest : List ℕ) (r : Exec Decoding) (g : Frame) (gs : List Frame)
    → Follows fuel rest
    → (r >>= fuzz_next (λ n f st. fuzz_reads fuel rest n f st)) ≡ done (g ∷ gs)
    → (r >>= trip_next (λ n f st. trip_rounds fuel rest n f st)) ≡ done g
trip_next-Follows fuel rest panic g gs ih e = cc
trip_next-Follows fuel rest (done (need n, f, st)) g gs ih e = ih n f st g gs e
trip_next-Follows fuel rest (done (complete, f, st)) g gs ih e =
    ap done (first-injective f g _ gs e)
trip_next-Follows fuel rest (done (error, f, st)) g gs ih e = cc

module _ (fuel : ℕ) (rest : List ℕ) (n : ℕ) (f : Frame) (st : DecodeState) where
  reads_cut : length rest < n → fuzz_reads (suc fuel) rest n f st ≡ done []
  unfolding fuzz_reads
  reads_cut cut = ground arith

  reads_fed :
      n ≤ length rest
      → fuzz_reads (suc fuel) rest n f st ≡ (
          decode_stream (take n rest) f st
          >>= fuzz_next (λ n' f' st'. fuzz_reads fuel (drop n rest) n' f' st'))
  unfolding fuzz_reads
  reads_fed fed = rw (le→ltb-false (length rest) n fed) refl

pub slice-front : (n : ℕ) (xs : List ℕ) → n ≤ length xs → slice xs 0 n ≡ done (take n xs)
slice-front n xs h = slice-eq-done xs 0 n (omega arith) h ∙ ap (λ k. done (take k xs)) (omega arith)

trip_rounds-Follows : (fuel : ℕ) (rest : List ℕ) → Follows fuel rest
unfolding trip_rounds
trip_rounds-Follows zero rest n f st g gs e = unfold fuzz_reads in cc
trip_rounds-Follows (suc fuel) rest n f st g gs e = elim (dec_lt (length rest) n) [
  | yes cut ↦ absurd (nothing_read (sym (reads_cut fuel rest n f st cut) ∙ e))
  | no fed ↦ rw (slice-front n rest (omega arith)) (
      trip_next-Follows fuel (drop n rest) (decode_stream (take n rest) f st) g gs
        (trip_rounds-Follows fuel (drop n rest))
        (sym (reads_fed fuel rest n f st (omega arith)) ∙ e))
]
  where
    nothing_read : done [] ≡ done (g ∷ gs) → ⊥
    nothing_read h = cc

-- The first frame of the stream is the one that was sent.
read_stream-wire_bytes :
    (f : Frame)
    → IsSendable f
    → read_stream (length (wire_bytes f)) (wire_bytes f)
      ≡ delivered f
        ∷ read_stream (length (drop 1 (wire_bytes f))) (drop (length (wire_bytes f)) (wire_bytes f))
unfolding read_stream
read_stream-wire_bytes f v =
    rw (ap read_frame (sym (append-nil (wire_bytes f))) ∙ read_frame-wire f v []) refl

-- A frame that is encoded and streamed through the decoder comes out as it is delivered.
pub stream_roundtrip-delivered :
    (f : Frame) → IsSendable f → stream_roundtrip f ≡ done (delivered f)
unfolding stream_roundtrip decode_stream fuzz_decode_stream
stream_roundtrip-delivered f v = rw (encode_frame-eq-wire f v []) (
    trip_rounds-Follows (length (wire_bytes f) + 1) (wire_bytes f) 4 default_frame can_id
      (delivered f) _
      ((fuzz_targets-done (wire_bytes f) (wire-IsBytes f v)).1
        ∙ ap done (read_stream-wire_bytes f v)))
