-- ===== src/Transport/NotifyDrain.antt =====
-- The drain of `set_notify`: when it returns, earlier callbacks have ended for good.
use kvasilloni.Prelude.{ℕ, ◌+◌, ◌≤◌, ◌≡◌, List, [], ◌∷◌, ◌++◌, All, arith}
use mathlib.Core.Path.{subst}
use kvasilloni.Transport.Shared.{Notify}
use kvasilloni.Transport.Notify.{
  RxPhase, outside, active, calling, NotifyState, NotifyStep, take_active, call, pass, return_call,
  set_notify_store, set_notify_drain, set_notify_inside, NotifySteps, stay, after, notify_start,
}

-- The callback that runs, if one does, was stored by this call or a later one.
abbrev NoOlder : ℕ → RxPhase → Type 0
NoOlder bound outside = Unit
NoOlder bound active = Unit
NoOlder bound (calling k n) = bound ≤ k

abbrev Given : ℕ → ℕ → Type 0
Given number d = d ≤ number

record IsDrained (s : NotifyState) : Type 0 where
  running : NoOlder s.returned s.rx
  known : s.returned ≤ s.number
  pending : All (Given s.number) s.waiting

All-middle :
    (n : ℕ) (xs ys : List ℕ) (d : ℕ)
    → All (Given n) (xs ++ d ∷ ys)
    → (d ≤ n) × All (Given n) (xs ++ ys)
All-middle n [] ys d a = a
All-middle n (x ∷ xs) ys d a = let (here, rest) = All-middle n xs ys d a.1 in (here, (a.0, rest))

All-later : (n : ℕ) (xs : List ℕ) → All (Given n) xs → All (Given (n + 1)) xs
All-later n [] a = tt
All-later n (x ∷ xs) a = (omega (arith, a.0), All-later n xs a.1)

step-IsDrained : {s t : NotifyState} → NotifyStep s t → IsDrained s → IsDrained t
step-IsDrained (take_active e) v = record { running = tt; known = v.known; pending = v.pending }
step-IsDrained (call e a) v = record { running = v.known; known = v.known; pending = v.pending }
step-IsDrained (pass e a) v = record { running = tt; known = v.known; pending = v.pending }
step-IsDrained (return_call e) v = record { running = tt; known = v.known; pending = v.pending }
step-IsDrained (set_notify_store {s} n) v = record {
  running = v.running;
  known = omega (arith, v.known);
  pending = (omega arith, All-later s.number s.waiting v.pending);
}
step-IsDrained (set_notify_drain {s} xs ys d e free) v =
    let (here, rest) = All-middle s.number xs ys d (subst (All (Given s.number)) e v.pending) in
    record { running = rw free tt; known = omega (arith, v.known, here); pending = rest }
step-IsDrained (set_notify_inside {s} n) v = record {
  running = v.running;
  known = omega (arith, v.known);
  pending = All-later s.number s.waiting v.pending;
}

steps-IsDrained : {s t : NotifyState} → NotifySteps s t → IsDrained s → IsDrained t
steps-IsDrained stay v = v
steps-IsDrained (after r last) v = step-IsDrained last (steps-IsDrained r v)

-- In every state that the threads can reach, a callback of this channel that runs was stored by a
-- call of `set_notify` no earlier than any that has drained and returned, which are those made
-- outside all callbacks: once such a call returns, the callback that it replaced is not running and
-- never runs again. A call made inside a callback, of this channel or of another, does not wait and
-- is not counted among these.
pub calling-returned :
    (s : NotifyState) (k : ℕ) (n : Notify)
    → NotifySteps notify_start s
    → s.rx ≡ calling k n
    → s.returned ≤ k
calling-returned s k n r e =
    subst (NoOlder s.returned) e
      (steps-IsDrained r (record { running = tt; known = omega arith; pending = tt })).running
