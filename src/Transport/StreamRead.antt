-- ===== src/Transport/StreamRead.antt =====
-- `tcp_rx_loop` never panics, and delivers the frames that the reference decoder reads.
use kvasilloni.Prelude.{
  ℕ, zero, suc, ◌+◌, ◌-◌, ◌≤◌, ◌<◌, ◌≡◌, refl, ap, ◌∙◌, List, [], ◌∷◌, Option, none, some, All-drop,
  drop, length, arith, length-drop,
}
use kvasilloni.Prelude.Bytes.{IsByte, IsBytes}
use kvasilloni.Prelude.Exec.{done}
use kvasilloni.Wire.Frame.{Frame}
use kvasilloni.Wire.Reference.{read_frame}
use kvasilloni.Transport.Rx.{tcp_rx_frames, deliver_first}
use kvasilloni.Transport.StreamRounds.{primed, round_starved, more, Gives, at_rest}
use kvasilloni.Wire.UdpRead.{read_frame-size}
use kvasilloni.Transport.StreamGives.{Gives-frame}

-- The frames that the reference decoder reads one after another, at most `m` of them.
abbrev pub read_more : Option (Frame × ℕ) → List ℕ → (List ℕ → List Frame) → List Frame
read_more none bs next = []
read_more (some (f, k)) bs next = f ∷ next (drop k bs)

unfoldable pub read_stream : ℕ → List ℕ → List Frame
unfolding read_frame
read_stream zero bs = []
read_stream (suc m) bs = read_more (read_frame bs) bs (λ rest. read_stream m rest)

more-add : (k n : ℕ) → more k n ≡ k + n
more-add zero n = omega arith
more-add (suc k) n = omega (arith, more-add k n)

abbrev ReadsOn : ℕ → Type 0
ReadsOn m =
    (fuel : ℕ) (bs : List ℕ)
    → IsBytes bs
    → length bs ≤ m
    → length bs < fuel
    → tcp_rx_frames fuel primed bs ≡ done (read_stream m bs)

tcp_rx_next :
    (m fuel : ℕ) (bs : List ℕ) (r : Option (Frame × ℕ))
    → ReadsOn m
    → IsBytes bs
    → length bs ≤ suc m
    → length bs < fuel
    → read_frame bs ≡ r
    → Gives primed bs 5 (at_rest bs r)
    → tcp_rx_frames fuel primed bs ≡ done (read_more r bs (λ rest. read_stream m rest))
tcp_rx_next m fuel bs none ih hb hm hf e g = g fuel
tcp_rx_next m fuel bs (some (f, k)) ih hb hm hf e (used, h, g) =
    ap (λ n. tcp_rx_frames n primed bs) (omega (arith, more-add used (fuel - used), room))
    ∙ g (fuel - used)
    ∙ ap (deliver_first f) (
        ih (fuel - used) (drop k bs) (All-drop IsByte k bs hb)
          (omega (arith, length-drop k bs, room)) (omega (arith, length-drop k bs, room)))
  where
    room : (5 ≤ k) × (k ≤ length bs)
    room = read_frame-size bs e

-- The loop on a stream of bytes that then ends: it never panics, and it pushes exactly the frames
-- that the reference decoder reads one after another, up to the first malformed or cut frame. As
-- many rounds as there are bytes, and one more, are enough.
pub tcp_rx_frames-read :
    (m fuel : ℕ) (bs : List ℕ)
    → IsBytes bs
    → length bs ≤ m
    → length bs < fuel
    → tcp_rx_frames fuel primed bs ≡ done (read_stream m bs)
unfolding read_stream
tcp_rx_frames-read zero fuel bs hb hm hf =
    round_starved primed bs (omega arith) (omega arith) fuel (omega arith)
tcp_rx_frames-read (suc m) fuel bs hb hm hf =
    tcp_rx_next m fuel bs (read_frame bs) (tcp_rx_frames-read m) hb hm hf refl (Gives-frame bs hb)
