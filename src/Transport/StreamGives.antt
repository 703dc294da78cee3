-- ===== src/Transport/StreamGives.antt =====
-- One frame of the TCP receive loop against the reference decoder.
use kvasilloni.Prelude.{
  ℕ, suc, ◌-◌, ◌≤◌, ◌<◌, ◌≡◌, refl, ap, ◌∙◌, List, [], ◌∷◌, Option, none, true, false, take, drop,
  length, ltb, if◌then◌else◌, arith, lt→ltb, le→ltb-false,
}
use native.Mathlib.Decide.{dec_lt}
use kvasilloni.Prelude.Bits.{bit_and_flag, bit_and_mask}
use kvasilloni.Prelude.Bytes.{IsBytes}
use kvasilloni.Prelude.Exec.{◌>>=◌}
use kvasilloni.Wire.Frame.{Frame}
use kvasilloni.Wire.Stream.{len, flags, need, error, decode_stream, decode_len}
use kvasilloni.Wire.Reference.{read_body, read_frame, len_limit}
use kvasilloni.Transport.Rx.{RxThread, tcp_rx_frames, react, follow, guarded_decode_stream}
use kvasilloni.Transport.StreamRounds.{
  primed, round_fed, round_starved, id_at, round_id, Gives, Gives-broken, Gives-step, Gives-mono,
  at_rest, finish, Gives-finish,
}

abbrev len_thread : Frame → RxThread
len_thread f = record { frame = f; state = len; want = 1 }

abbrev flags_thread : Frame → RxThread
flags_thread f = record { frame = f; state = flags; want = 1 }

-- The round that reads one byte.
byte_round :
    (t : RxThread) (b : ℕ) (rs : List ℕ) (n : ℕ)
    → t.want ≡ 1
    → tcp_rx_frames (suc n) t (b ∷ rs) ≡ (
        react (guarded_decode_stream (b ∷ []) t.frame t.state)
        >>= follow (λ t'. tcp_rx_frames n t' rs))
byte_round t b rs n e =
    round_fed t (b ∷ rs) (omega arith) (omega arith) n (omega arith)
    ∙ ap
        (λ k.
          react (guarded_decode_stream (take k (b ∷ rs)) t.frame t.state)
          >>= follow (λ t'. tcp_rx_frames n t' (drop k (b ∷ rs))))
        e

abbrev flags_result : Frame → List ℕ → Option (Frame × List ℕ)
flags_result f [] = none
flags_result f (fl ∷ rest) = at_rest rest (read_body (record f { fd_flags = fl }) rest)

Gives-flags :
    (f : Frame) (rs : List ℕ)
    → f.len ≤ len_limit f.fd
    → length f.bytes ≡ 64
    → Gives (flags_thread f) rs 3 (flags_result f rs)
Gives-flags f [] h size =
    λ n. round_starved (flags_thread f) [] (omega arith) (omega arith) n (omega arith)
Gives-flags f (fl ∷ rest) h size = Gives-mono (flags_thread f) (fl ∷ rest) 2 3 _ (omega arith) (
    Gives-finish (flags_thread f) (fl ∷ rest) rest (record f { fd_flags = fl }) h size
      λ n. byte_round (flags_thread f) fl rest n refl ∙ unfold decode_stream in refl)

classic_len :
    (raw : ℕ) (f : Frame)
    → raw < 128
    → decode_len raw f ≡ (
        let f' = record f { fd = false; len = raw } in
        if ltb 8 raw then (error, f', len) else finish f')
classic_len raw f h = ground (arith, bit_and_flag 7 raw)

fd_len :
    (raw : ℕ) (f : Frame)
    → 128 ≤ raw
    → raw < 256
    → decode_len raw f ≡ (
        let f' = record f { fd = true; len = raw - 128 } in
        if ltb 64 (raw - 128) then (error, f', len) else (need 1, f', flags))
fd_len raw f h k = ground (arith, bit_and_flag 7 raw, bit_and_mask 7 raw)

read_body-over :
    (f : Frame) (rs : List ℕ) → len_limit f.fd < f.len → at_rest rs (read_body f rs) ≡ none
unfolding read_body
read_body-over f rs h = ground arith

abbrev classic : Frame → ℕ → Frame
classic f raw = record f { fd = false; len = raw }

abbrev wide : Frame → ℕ → Frame
wide f raw = record f { fd = true; len = raw - 128 }

wide_result-none :
    (f : Frame) (raw : ℕ) (rs : List ℕ) → 64 < raw - 128 → flags_result (wide f raw) rs ≡ none
wide_result-none f raw [] h = refl
wide_result-none f raw (fl ∷ rest) h = read_body-over (record (wide f raw) { fd_flags = fl }) rest h

fd_len-over :
    (raw : ℕ) (f : Frame) → 64 < raw - 128 → raw < 256 → decode_len raw f ≡ (error, wide f raw, len)
fd_len-over raw f h k = fd_len raw f (omega arith) k ∙ rw (lt→ltb 64 (raw - 128) h)

fd_len-fits :
    (raw : ℕ) (f : Frame)
    → 128 ≤ raw
    → raw - 128 ≤ 64
    → decode_len raw f ≡ (need 1, wide f raw, flags)
fd_len-fits raw f h k = fd_len raw f h (omega arith) ∙ rw (le→ltb-false 64 (raw - 128) k)

module _ (f : Frame) (raw : ℕ) (rs : List ℕ) (size : length f.bytes ≡ 64) where
  len_round :
      (n : ℕ)
      → tcp_rx_frames (suc n) (len_thread f) (raw ∷ rs)
        ≡ (react (decode_len raw f) >>= follow (λ t'. tcp_rx_frames n t' rs))
  len_round n = byte_round (len_thread f) raw rs n refl ∙ unfold decode_stream in refl

  -- An error of the decoder ends the loop.
  len_error :
      (f' : Frame) (u : ℕ)
      → decode_len raw f ≡ (error, f', len)
      → Gives (len_thread f) (raw ∷ rs) u none
  len_error f' u e = Gives-broken (len_thread f) (raw ∷ rs) u λ n. len_round n ∙ rw e

  Gives-classic :
      raw < 128 → Gives (len_thread f) (raw ∷ rs) 4 (at_rest rs (read_body (classic f raw) rs))
  Gives-classic h = elim (dec_lt 8 raw) [
    | yes over ↦
        rw (read_body-over (classic f raw) rs over)
          (len_error (classic f raw) 4 (classic_len raw f h ∙ rw (lt→ltb 8 raw over)))
    | no fits ↦
        Gives-mono (len_thread f) (raw ∷ rs) 2 4 (at_rest rs (read_body (classic f raw) rs))
          (omega arith)
          (Gives-finish (len_thread f) (raw ∷ rs) rs (classic f raw) (omega arith) size λ n.
            len_round n
            ∙ ap (λ d. react d >>= follow (λ t'. tcp_rx_frames n t' rs))
                (classic_len raw f h ∙ rw (le→ltb-false 8 raw (omega arith))))
  ]

  Gives-fd :
      128 ≤ raw → raw < 256 → Gives (len_thread f) (raw ∷ rs) 4 (flags_result (wide f raw) rs)
  Gives-fd h k = elim (dec_lt 64 (raw - 128)) [
    | yes over ↦
        rw (wide_result-none f raw rs over) (len_error (wide f raw) 4 (fd_len-over raw f over k))
    | no fits ↦
        Gives-step (len_thread f) (flags_thread (wide f raw)) (raw ∷ rs) rs
          (λ n.
            len_round n
            ∙ ap (λ d. react d >>= follow (λ t'. tcp_rx_frames n t' rs))
                (fd_len-fits raw f h (omega arith)))
          3 _ (Gives-flags (wide f raw) rs (omega arith) size)
  ]

read_frame-short : (bs : List ℕ) → length bs < 5 → read_frame bs ≡ none
unfolding read_frame
read_frame-short bs h = ground arith

abbrev whole : ℕ → ℕ → ℕ → ℕ → ℕ → List ℕ → List ℕ
whole a b c d raw rs = a ∷ b ∷ c ∷ d ∷ raw ∷ rs

read_frame-classic :
    (a b c d raw : ℕ) (rs : List ℕ)
    → raw < 128
    → at_rest (whole a b c d raw rs) (read_frame (whole a b c d raw rs))
      ≡ at_rest rs (read_body (classic (id_at a b c d) raw) rs)
unfolding read_frame
read_frame-classic a b c d raw rs h = ground arith

read_frame-fd :
    (a b c d raw : ℕ) (rs : List ℕ)
    → 128 ≤ raw
    → at_rest (whole a b c d raw rs) (read_frame (whole a b c d raw rs))
      ≡ flags_result (wide (id_at a b c d) raw) rs
unfolding read_frame
read_frame-fd a b c d raw [] h = ground arith
read_frame-fd a b c d raw (fl ∷ rs) h = ground arith

-- Between two frames, the loop reads exactly the frame that the reference decoder reads.
pub Gives-frame : (bs : List ℕ) → IsBytes bs → Gives primed bs 5 (at_rest bs (read_frame bs))
Gives-frame (a ∷ b ∷ c ∷ d ∷ raw ∷ rs) hb = elim (dec_lt raw 128) [
  | yes low ↦ rw (read_frame-classic a b c d raw rs low) (
      Gives-step primed (len_thread (id_at a b c d)) (whole a b c d raw rs) (raw ∷ rs)
        (λ n. round_id n a b c d (raw ∷ rs)) 4 _ (Gives-classic (id_at a b c d) raw rs refl low))
  | no high ↦ rw (read_frame-fd a b c d raw rs (omega arith)) (
      Gives-step primed (len_thread (id_at a b c d)) (whole a b c d raw rs) (raw ∷ rs)
        (λ n. round_id n a b c d (raw ∷ rs)) 4 _
        (Gives-fd (id_at a b c d) raw rs refl (omega arith) (omega arith)))
]
Gives-frame (a ∷ b ∷ c ∷ d ∷ []) hb = rw (read_frame-short (a ∷ b ∷ c ∷ d ∷ []) (omega arith)) (
    Gives-step primed (len_thread (id_at a b c d)) (a ∷ b ∷ c ∷ d ∷ []) []
      (λ n. round_id n a b c d []) 4 none
      λ n.
        round_starved (len_thread (id_at a b c d)) [] (omega arith) (omega arith) n (omega arith))
Gives-frame bs hb =
    rw (read_frame-short bs (omega arith))
      λ n. round_starved primed bs (omega arith) (omega arith) n (omega arith)
