-- ===== src/UnitTests/TransportWait.antt =====
-- The tests of src/transport.rs on blocking reads. A list of operations is what the other threads do
-- between two checks of the predicate; its end is the timeout.
use kvasilloni.Prelude.{
  ℕ, zero, suc, ◌≡◌, refl, ◌∙◌, false, not, ◌&&◌, List, [], ◌∷◌, ◌++◌, replicate,
}
use kvasilloni.Transport.Filter.{accepts}
use kvasilloni.Transport.Shared.{
  Shared, new_shared, Op, push_op, close_op, push, pop, level, apply_all, is_empty, wait_while,
  pop_wait, peek_wait,
}
use kvasilloni.UnitTests.Asserts.{Test, passed, ◌>>◌, assert, assert_eq, is_none}
use kvasilloni.UnitTests.TransportRing.{frame, gives_id}

-- The reader wakes up `n` times with nothing to do, and then this happens.
abbrev pub idle : ℕ → List (List Op) → List (List Op)
idle n rounds = replicate n [] ++ rounds

unfoldable pub pop_wait_times_out_when_empty : ℕ → Test
unfolding pop_wait
pop_wait_times_out_when_empty n = do
  let (s, r) = pop_wait (idle n []) new_shared
  assert (is_none r)

unfoldable pub pop_wait_returns_pushed_frame : ℕ → ℕ → List (List Op) → Test
unfolding pop_wait
pop_wait_returns_pushed_frame now n later = do
  let (s, r) = pop_wait (idle n ((push_op now (frame 0x321) ∷ []) ∷ later)) new_shared
  gives_id r 0x321

unfoldable pub peek_wait_leaves_frame_queued : ℕ → List (List Op) → Test
unfolding push peek_wait level accepts
peek_wait_leaves_frame_queued now later = do
  let (s, _) = push now (frame 0x55) new_shared
  let (s', ready) = peek_wait later s
  assert ready
  assert_eq (level s') 1

-- That the reader returns promptly: nothing that happens later changes what it returns.
unfoldable pub mark_closed_wakes_blocked_pop_wait : ℕ → List (List Op) → Test
unfolding pop_wait
mark_closed_wakes_blocked_pop_wait n later = do
  let (s, r) = pop_wait (idle n ((close_op ∷ []) ∷ later)) new_shared
  assert (is_none r)

unfoldable pub mark_closed_wakes_blocked_peek_wait : ℕ → List (List Op) → Test
unfolding peek_wait
mark_closed_wakes_blocked_peek_wait n later = do
  let (s, ready) = peek_wait (idle n ((close_op ∷ []) ∷ later)) new_shared
  assert (not ready)

wait_while-idle :
    (n : ℕ) (rounds : List (List Op))
    → wait_while (idle n rounds) new_shared ≡ wait_while rounds new_shared
unfolding wait_while apply_all
wait_while-idle zero rounds = refl
wait_while-idle (suc n) rounds = wait_while-idle n rounds

-- A reader that finds a frame, or that the connection is closed, waits no longer.
wait_while-ready :
    (later : List (List Op)) (s : Shared)
    → (is_empty s.q && not s.closed) ≡ false
    → wait_while later s ≡ s
unfolding wait_while
wait_while-ready [] s e = refl
wait_while-ready (os ∷ later) s e = rw e refl

-- The wait ends with the round in which this happens.
pub wait_while-woken :
    (n : ℕ) (os : List Op) (later : List (List Op))
    → (is_empty (apply_all os new_shared).q && not (apply_all os new_shared).closed) ≡ false
    → wait_while (idle n (os ∷ later)) new_shared ≡ apply_all os new_shared
wait_while-woken n os later e =
    wait_while-idle n (os ∷ later)
    ∙ (unfold wait_while is_empty in wait_while-ready later (apply_all os new_shared) e)

pop_wait_times_out_when_empty_passes : (n : ℕ) → pop_wait_times_out_when_empty n ≡ passed
unfolding pop_wait_times_out_when_empty pop
pop_wait_times_out_when_empty_passes n = rw (wait_while-idle n []) (unfold wait_while in refl)

pop_wait_returns_pushed_frame_passes :
    (now n : ℕ) (later : List (List Op)) → pop_wait_returns_pushed_frame now n later ≡ passed
unfolding pop_wait_returns_pushed_frame apply_all accepts is_empty pop
pop_wait_returns_pushed_frame_passes now n later =
    rw (wait_while-woken n (push_op now (frame 0x321) ∷ []) later refl) refl

peek_wait_leaves_frame_queued_passes :
    (now : ℕ) (later : List (List Op)) → peek_wait_leaves_frame_queued now later ≡ passed
unfolding peek_wait_leaves_frame_queued is_empty
peek_wait_leaves_frame_queued_passes now later =
    rw (wait_while-ready later (push now (frame 0x55) new_shared).0 refl) refl

mark_closed_wakes_blocked_pop_wait_passes :
    (n : ℕ) (later : List (List Op)) → mark_closed_wakes_blocked_pop_wait n later ≡ passed
unfolding mark_closed_wakes_blocked_pop_wait apply_all is_empty pop
mark_closed_wakes_blocked_pop_wait_passes n later =
    rw (wait_while-woken n (close_op ∷ []) later refl) refl

mark_closed_wakes_blocked_peek_wait_passes :
    (n : ℕ) (later : List (List Op)) → mark_closed_wakes_blocked_peek_wait n later ≡ passed
unfolding mark_closed_wakes_blocked_peek_wait apply_all is_empty
mark_closed_wakes_blocked_peek_wait_passes n later =
    rw (wait_while-woken n (close_op ∷ []) later refl) refl
