-- ===== src/Fuzz/Total.antt =====
-- The fuzz targets never panic: the firewalls of the receive threads have nothing to catch.
use kvasilloni.Prelude.{
  ℕ, ◌++◌, zero, suc, ◌+◌, ◌≤◌, ◌<◌, ◌≡◌, refl, ap, sym, ◌∙◌, inl, inr, Bool-cases, not, ◌||◌, List,
  [], ◌∷◌, take, drop, length, ltb, ◌==◌, arith, length-take, lt→ltb, le→ltb-false, le→ltb-false,
}
use native.Mathlib.Decide.{dec_lt}
use mathlib.Core.Path.{subst}
use kvasilloni.Prelude.Bytes.{IsBytes}
use kvasilloni.Prelude.Exec.{catch_unwind, Exec, done, ◌>>=◌}
use kvasilloni.Wire.Frame.{Frame, default_frame}
use kvasilloni.Wire.Stream.{
  DecodeState, init, can_id, len, flags, payload, need, complete, error, Decoding, decode_stream,
  decode_len, decode_flags,
}
use kvasilloni.Wire.UdpRead.{parse_udp-read}
use kvasilloni.Transport.Rx.{RxThread, tcp_rx_frames, react, follow}
use kvasilloni.Transport.StreamRounds.{round_fed, round_starved}
use kvasilloni.Transport.StreamRead.{read_stream, tcp_rx_frames-read}
use kvasilloni.Fuzz.{first, fuzz_parse_udp, fuzz_next, fuzz_reads, fuzz_decode_stream}

take_whole : (xs : List ℕ) → take (length xs) xs ≡ xs
take_whole [] = refl
take_whole (x ∷ xs) = ap (◌∷◌ x) (take_whole xs)

take_all : (n : ℕ) (xs : List ℕ) → length xs ≡ n → take n xs ≡ xs
take_all n xs e = ap (λ k. take k xs) (sym e) ∙ take_whole xs

-- What the driver asks for next: some bytes, and no more than the receive loop's buffer holds.
abbrev Asks : Frame → DecodeState → ℕ → Type 0
Asks f flags n = (n ≡ 1) × (f.len ≤ 64)
Asks f _ n = (0 < n) × (n ≤ 80)

abbrev Answers : Decoding → Type 0
Answers (need n, f, st) = Asks f st n
Answers (complete, f, st) = st ≡ init
Answers (error, f, st) = Unit

decode_len-Answers : (raw : ℕ) (f : Frame) → Answers (decode_len raw f)
decode_len-Answers raw f = ground arith

decode_flags-Answers : (raw : ℕ) (f : Frame) → f.len ≤ 64 → Answers (decode_flags raw f)
decode_flags-Answers raw f k = ground (arith, k)

-- The decoder returns for any chunk, frame and state, and it keeps to what the driver can ask for.
abbrev Returns : Frame → DecodeState → ℕ → Exec Decoding → Type 0
Returns f st n r = (d : Decoding) × (r ≡ done d) × (Asks f st n → Answers d)

decode_stream-Returns :
    (chunk : List ℕ) (f : Frame) (st : DecodeState)
    → Returns f st (length chunk) (decode_stream chunk f st)
unfolding decode_stream
decode_stream-Returns chunk f init = (_, refl, λ w. omega arith)
decode_stream-Returns (a ∷ b ∷ c ∷ d ∷ []) f can_id = (_, refl, λ w. omega arith)
decode_stream-Returns (a ∷ b ∷ c ∷ d ∷ e ∷ rest) f can_id =
    ((error, f, can_id), ground arith, λ w. tt)
decode_stream-Returns chunk f can_id = (_, refl, λ w. tt)
decode_stream-Returns (a ∷ []) f len = (decode_len a f, refl, λ w. decode_len-Answers a f)
decode_stream-Returns (a ∷ b ∷ rest) f len = ((error, f, len), ground arith, λ w. tt)
decode_stream-Returns chunk f len = (_, refl, λ w. tt)
decode_stream-Returns (a ∷ []) f flags = (decode_flags a f, refl, λ w. decode_flags-Answers a f w.1)
decode_stream-Returns (a ∷ b ∷ rest) f flags = ((error, f, flags), ground arith, λ w. tt)
decode_stream-Returns chunk f flags = (_, refl, λ w. tt)
decode_stream-Returns chunk f payload =
    elim (Bool-cases (not (length chunk == f.len) || ltb (length f.bytes) f.len)) [
      | inl bad ↦ ((error, f, payload), rw bad refl, λ w. tt)
      | inr good ↦ (
        (complete, record f { bytes = chunk ++ drop f.len f.bytes }, init),
        ground (arith, good, take_all f.len chunk),
        λ w. refl,
      )
    ]

abbrev at_want : Frame → DecodeState → ℕ → RxThread
at_want f st n = record { frame = f; state = st; want = n }

Asks-few : (f : Frame) (st : DecodeState) (n : ℕ) → Asks f st n → (0 < n) × (n ≤ 80)
Asks-few f init n w = w
Asks-few f can_id n w = w
Asks-few f len n w = w
Asks-few f flags n w = omega (arith, w.0)
Asks-few f payload n w = w

-- With the same reads ahead, the driver does with an answer what the receive loop does.
fuzz_next-eq :
    (fuel : ℕ) (bs : List ℕ) (d : Decoding)
    → Answers d
    → ((n : ℕ) (f : Frame) (st : DecodeState)
        → Asks f st n
        → fuzz_reads fuel bs n f st ≡ tcp_rx_frames fuel (at_want f st n) bs)
    → fuzz_next (λ n f st. fuzz_reads fuel bs n f st) d
      ≡ (react d >>= follow (λ t. tcp_rx_frames fuel t bs))
unfolding decode_stream
fuzz_next-eq fuel bs (need n, f, st) w ih = ih n f st w
fuzz_next-eq fuel bs (complete, f, st) w ih =
    rw w (ap (first f) (ih 4 default_frame can_id (omega arith)))
fuzz_next-eq fuel bs (error, f, st) w ih = refl

-- The driver's reads do what the rounds of the receive loop do.
fuzz_reads-eq :
    (fuel : ℕ) (bs : List ℕ) (n : ℕ) (f : Frame) (st : DecodeState)
    → Asks f st n
    → fuzz_reads fuel bs n f st ≡ tcp_rx_frames fuel (at_want f st n) bs
unfolding fuzz_reads
fuzz_reads-eq zero bs n f st w = unfold tcp_rx_frames in refl
fuzz_reads-eq (suc fuel) bs n f st w = elim (dec_lt (length bs) n) [
  | yes cut ↦
      rw (lt→ltb (length bs) n cut)
        (sym (round_starved (at_want f st n) bs few.0 few.1 (suc fuel) cut))
  | no fed ↦
      let (d, e, answers) = decode_stream-Returns (take n bs) f st in
      let size : length (take n bs) ≡ n = omega (arith, length-take n bs) in
      rw (le→ltb-false (length bs) n (omega arith), e)
        (fuzz_next-eq fuel (drop n bs) d (answers (subst (Asks f st) (sym size) w))
            (fuzz_reads-eq fuel (drop n bs))
          ∙ ap
              (λ r.
                react (catch_unwind r (error, f, st))
                >>= follow (λ t. tcp_rx_frames fuel t (drop n bs)))
              (sym e)
          ∙ sym (round_fed (at_want f st n) bs few.0 few.1 fuel (omega arith)))
]
  where
    few : (0 < n) × (n ≤ 80)
    few = Asks-few f st n w

-- Neither fuzz target panics, on any bytes: the one parses the datagram to its end, and the other
-- completes exactly the frames that the reference decoder reads, as the receive loop does.
pub fuzz_targets-done :
    (bs : List ℕ)
    → IsBytes bs
    → (fuzz_parse_udp bs ≡ done tt) × (fuzz_decode_stream bs ≡ done (read_stream (length bs) bs))
unfolding fuzz_parse_udp fuzz_decode_stream decode_stream
fuzz_targets-done bs hb = (
  rw (parse_udp-read bs hb) refl,
  fuzz_reads-eq (length bs + 1) bs 4 default_frame can_id (omega arith)
      ∙ tcp_rx_frames-read (length bs) (length bs + 1) bs hb (omega arith) (omega arith),
)
