-- ===== src/Transport/StreamRounds.antt =====
-- The rounds of `tcp_rx_loop`, and how a frame ends.
use kvasilloni.Prelude.{
  ℕ, zero, suc, ◌≤◌, ◌<◌, ◌≡◌, refl, ap, ◌∙◌, List, [], ◌∷◌, Option, none, some, Bool, true, false,
  ◌||◌, ◌==◌, inl, inr, Bool-cases, take, drop, length, ltb, if◌then◌else◌, arith, length-take,
  take-take, lt→ltb, le→ltb-false,
}
use native.Mathlib.Decide.{dec_lt}
use kvasilloni.Prelude.Bytes.{u32_from_be}
use kvasilloni.Prelude.Exec.{done, catch_unwind, ◌>>=◌}
use kvasilloni.Wire.Frame.{Frame, default_frame, is_rtr}
use kvasilloni.Wire.Stream.{
  init, can_id, len, payload, need, complete, error, Decoding, decode_stream,
}
use kvasilloni.Wire.Reference.{read_body, with_payload, len_limit}
use kvasilloni.Transport.Rx.{
  RxThread, tcp_rx_frames, react, follow, guarded_decode_stream, deliver_first,
}

-- The thread between two frames.
abbrev pub primed : RxThread
primed = record { frame = default_frame; state = can_id; want = 4 }

module _ (t : RxThread) (bs : List ℕ) (some_wanted : 0 < t.want) (few : t.want ≤ 80) where
  pub round_fed :
      (n : ℕ)
      → t.want ≤ length bs
      → tcp_rx_frames (suc n) t bs ≡ (
          react (guarded_decode_stream (take t.want bs) t.frame t.state)
          >>= follow (λ t'. tcp_rx_frames n t' (drop t.want bs)))
  unfolding tcp_rx_frames
  round_fed n fed = ground arith

  pub round_starved : (n : ℕ) → length bs < t.want → tcp_rx_frames n t bs ≡ done []
  unfolding tcp_rx_frames
  round_starved zero h = refl
  round_starved (suc n) h = ground arith

abbrev pub id_at : ℕ → ℕ → ℕ → ℕ → Frame
id_at a b c d = record default_frame { can_id = u32_from_be a b c d }

-- The first two rounds read the identifier and the length.
pub round_id :
    (n a b c d : ℕ) (rest : List ℕ)
    → tcp_rx_frames (suc n) primed (a ∷ b ∷ c ∷ d ∷ rest)
      ≡ tcp_rx_frames n (record { frame = id_at a b c d; state = len; want = 1 }) rest
round_id n a b c d rest =
    round_fed primed (a ∷ b ∷ c ∷ d ∷ rest) (omega arith) (omega arith) n (omega arith)
    ∙ unfold decode_stream in refl

abbrev pub more : ℕ → ℕ → ℕ
more zero n = n
more (suc k) n = suc (more k n)

-- From thread state `t` on, the bytes make no frame, or else they make this frame within `u`
-- rounds, and the loop goes on with the rest.
abbrev pub Gives : RxThread → List ℕ → ℕ → Option (Frame × List ℕ) → Type 0
Gives t bs u none = (n : ℕ) → tcp_rx_frames n t bs ≡ done []
Gives t bs u (some (f, rest)) =
    (used : ℕ) × (used ≤ u)
    × ((n : ℕ) → tcp_rx_frames (more used n) t bs ≡ deliver_first f (tcp_rx_frames n primed rest))

-- A round that ends the loop.
pub Gives-broken :
    (t : RxThread) (bs : List ℕ) (u : ℕ)
    → ((n : ℕ) → tcp_rx_frames (suc n) t bs ≡ done [])
    → Gives t bs u none
unfolding tcp_rx_frames
Gives-broken t bs u e zero = refl
Gives-broken t bs u e (suc n) = e n

module _ (t t' : RxThread) (bs bs' : List ℕ)
    (step : (n : ℕ) → tcp_rx_frames (suc n) t bs ≡ tcp_rx_frames n t' bs') (u : ℕ) where
  pub Gives-step : (r : Option (Frame × List ℕ)) → Gives t' bs' u r → Gives t bs (suc u) r
  Gives-step none g = Gives-broken t bs u (λ n. step n ∙ g n)
  Gives-step (some (f, rest)) (used, h, g) = (suc used, omega arith, λ n. step (more used n) ∙ g n)

-- A round that completes a frame.
pub Gives-complete :
    (t : RxThread) (bs rest : List ℕ) (f : Frame)
    → ((n : ℕ) → tcp_rx_frames (suc n) t bs ≡ deliver_first f (tcp_rx_frames n primed rest))
    → Gives t bs 1 (some (f, rest))
Gives-complete t bs rest f e = (1, omega arith, e)

pub Gives-mono :
    (t : RxThread) (bs : List ℕ) (u v : ℕ) (r : Option (Frame × List ℕ))
    → u ≤ v
    → Gives t bs u r
    → Gives t bs v r
Gives-mono t bs u v none h g = g
Gives-mono t bs u v (some (f, rest)) h (used, k, g) = (used, omega arith, g)

abbrev pub at_rest : List ℕ → Option (Frame × ℕ) → Option (Frame × List ℕ)
at_rest bs none = none
at_rest bs (some (f, k)) = some (f, drop k bs)

abbrev pub payload_thread : Frame → RxThread
payload_thread f = record { frame = f; state = payload; want = f.len }

module _ (f : Frame) (rs : List ℕ) (pos : 0 < f.len) (few : f.len ≤ 64)
    (size : length f.bytes ≡ 64) where
  pub payload_round :
      (n : ℕ)
      → f.len ≤ length rs
      → tcp_rx_frames (suc n) (payload_thread f) rs
        ≡ deliver_first (with_payload f rs) (tcp_rx_frames n primed (drop f.len rs))
  payload_round n fed =
      round_fed (payload_thread f) rs pos (omega arith) n fed
      ∙ ap
          (λ d.
            react (catch_unwind d (error, f, payload))
            >>= follow (λ t'. tcp_rx_frames n t' (drop f.len rs)))
          (decode_payload fed)
      ∙ unfold decode_stream in refl
    where
      decode_payload :
          f.len ≤ length rs
          → decode_stream (take f.len rs) f payload ≡ done (complete, with_payload f rs, init)
      decode_payload h =
          unfold decode_stream in ground (arith, length-take f.len rs, take-take f.len rs)

  pub Gives-payload :
      Gives
        (payload_thread f)
        rs
        1
        (if ltb (length rs) f.len then none else some (with_payload f rs, drop f.len rs))
  Gives-payload = elim (dec_lt (length rs) f.len) [
    | yes cut ↦
        rw (lt→ltb (length rs) f.len cut)
          (λ n. round_starved (payload_thread f) rs pos (omega arith) n cut)
    | no whole ↦ rw (le→ltb-false (length rs) f.len (omega arith)) (
        Gives-complete (payload_thread f) rs (drop f.len rs) (with_payload f rs)
          (λ n. payload_round n (omega arith)))
  ]

-- The end of a frame whose length fits: nothing more to read, or the payload.
abbrev pub finish : Frame → Decoding
finish f = if is_rtr f || f.len == 0 then (complete, f, init) else (need f.len, f, payload)

pub read_body-rtr :
    (f : Frame) (rs : List ℕ)
    → f.len ≤ len_limit f.fd
    → is_rtr f ≡ true
    → at_rest rs (read_body f rs) ≡ some (f, rs)
unfolding read_body
read_body-rtr f rs h r = ground arith

pub read_body-empty :
    (f : Frame) (rs : List ℕ)
    → is_rtr f ≡ false
    → f.len ≡ 0
    → at_rest rs (read_body f rs) ≡ some (f, rs)
unfolding read_body
read_body-empty f rs r e = ground arith

pub read_body-full :
    (f : Frame) (rs : List ℕ)
    → f.len ≤ len_limit f.fd
    → is_rtr f ≡ false
    → at_rest rs (read_body f rs)
      ≡ (if ltb (length rs) f.len then none else some (with_payload f rs, drop f.len rs))
unfolding read_body
read_body-full f rs h r = ground arith

pub len_limit-le : (fd : Bool) → len_limit fd ≤ 64
len_limit-le fd = ground arith

module _ (t : RxThread) (bs rs : List ℕ) (f : Frame) (fits : f.len ≤ len_limit f.fd)
    (size : length f.bytes ≡ 64)
    (step : (n : ℕ)
      → tcp_rx_frames (suc n) t bs
        ≡ (react (finish f) >>= follow (λ t'. tcp_rx_frames n t' rs))) where
  pub finish_complete :
      (is_rtr f || f.len == 0) ≡ true
      → at_rest rs (read_body f rs) ≡ some (f, rs)
      → Gives t bs 2 (at_rest rs (read_body f rs))
  finish_complete e whole = rw whole (
      Gives-mono t bs 1 2 (some (f, rs)) (omega arith)
        (Gives-complete t bs rs f λ n. step n ∙ rw e (unfold decode_stream in refl)))

  pub finish-payload :
      is_rtr f ≡ false
      → 0 < f.len
      → (is_rtr f || f.len == 0) ≡ false
      → Gives t bs 2 (at_rest rs (read_body f rs))
  finish-payload r pos e = rw (read_body-full f rs fits r) (
      Gives-step t (payload_thread f) bs rs (λ n. step n ∙ rw e) 1 _
        (Gives-payload f rs pos (omega (arith, len_limit-le f.fd)) size))

  pub Gives-finish : Gives t bs 2 (at_rest rs (read_body f rs))
  Gives-finish = elim (Bool-cases (is_rtr f)) [
    | inl r ↦ finish_complete (ground arith) (read_body-rtr f rs fits r)
    | inr r ↦ elim (dec_lt 0 f.len) [
      | yes pos ↦ finish-payload r pos (ground arith)
      | no z ↦ finish_complete (ground arith) (read_body-empty f rs r (omega arith))
    ]
  ]
