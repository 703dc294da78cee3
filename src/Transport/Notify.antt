-- ===== src/Transport/Notify.antt =====
-- The handshake of src/transport.rs between `push`, which calls the app's callback, and
-- `set_notify`, which replaces it: the lock `cb_active` and the drain, as steps of the threads. The
-- lock of the stored callback is held for one read or one write, with no other lock taken meanwhile,
-- so that each of these is one step.
use kvasilloni.Prelude.{ℕ, ◌+◌, ◌-◌, ◌≡◌, Bool, true, false, not, ◌&&◌, List, [], ◌∷◌, ◌++◌, ◌==◌}
use kvasilloni.Wire.Flags.{has}
use kvasilloni.Transport.Shared.{Notify, notify_rx}

-- Where the receive thread is in `push`: outside, with `cb_active` held, or inside the callback that
-- the given call of `set_notify` stored, `cb_active` still held.
pub data RxPhase : Type 0 where
  outside : RxPhase
  active : RxPhase
  calling : ℕ → Notify → RxPhase

-- Calls of `set_notify` are numbered as they store; `waiting` are those that have still to drain,
-- and `returned` is the greatest number of those that drained and returned.
pub record NotifyState : Type 0 where
  pub stored : Notify
  pub number : ℕ
  pub rx : RxPhase
  pub waiting : List ℕ
  pub returned : ℕ

abbrev pub armed : Notify → Bool
armed n = not (n.cb == 0) && has n.flags notify_rx

abbrev pub larger : ℕ → ℕ → ℕ
larger a b = a + (b - a)

pub data NotifyStep : NotifyState → NotifyState → Type 0 where
  -- `push` takes `cb_active`
  take_active : {s : NotifyState} → s.rx ≡ outside → NotifyStep s (record s { rx = active })
  -- it reads the stored callback and calls it
  call :
      {s : NotifyState}
      → s.rx ≡ active
      → armed s.stored ≡ true
      → NotifyStep s (record s { rx = calling s.number s.stored })
  -- or finds none, and releases
  pass :
      {s : NotifyState}
      → s.rx ≡ active
      → armed s.stored ≡ false
      → NotifyStep s (record s { rx = outside })
  -- the callback returns, and `push` releases
  return_call :
      {s : NotifyState} {k : ℕ} {n : Notify}
      → s.rx ≡ calling k n
      → NotifyStep s (record s { rx = outside })
  -- `set_notify` of a thread outside all callbacks stores
  set_notify_store :
      {s : NotifyState} (n : Notify)
      → NotifyStep s
          (record s { stored = n; number = s.number + 1; waiting = (s.number + 1) ∷ s.waiting })
  -- and gets `cb_active`, which nobody holds, and returns
  set_notify_drain :
      {s : NotifyState} (xs ys : List ℕ) (d : ℕ)
      → s.waiting ≡ xs ++ d ∷ ys
      → s.rx ≡ outside
      → NotifyStep s (record s { waiting = xs ++ ys; returned = larger s.returned d })
  -- `set_notify` of a thread that is inside a callback, of this channel or of another, stores, and
  -- skips the drain: the mark of the thread does not say whose callback it is in
  set_notify_inside :
      {s : NotifyState} (n : Notify) → NotifyStep s (record s { stored = n; number = s.number + 1 })

pub data NotifySteps : NotifyState → NotifyState → Type 0 where
  stay : {s : NotifyState} → NotifySteps s s
  after : {s t u : NotifyState} → NotifySteps s t → NotifyStep t u → NotifySteps s u

abbrev pub notify_start : NotifyState
notify_start = record {
  stored = record { cb = 0; flags = 0; tag = 0 };
  number = 0;
  rx = outside;
  waiting = [];
  returned = 0;
}
