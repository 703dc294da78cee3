-- ===== src/Transport/Wait.antt =====
-- The blocking reads: when they return, and with what.
use kvasilloni.Prelude.{
  refl, ◌≡◌, ◌⊎◌, inl, inr, true, false, not, ◌&&◌, List, [], ◌∷◌, arith, Bool-cases,
}
use kvasilloni.Transport.Shared.{Shared, Op, apply_all, wait_while, is_empty, pop, pop_wait}

-- The state after the first rounds of what the other threads do.
abbrev pub after : List (List Op) → Shared → Shared
after [] s = s
after (os ∷ rounds) s = after rounds (apply_all os s)

-- The reader sees a frame, or sees that the connection is closed.
abbrev pub Wakes : Shared → Type 0
Wakes s = (is_empty s.q ≡ false) ⊎ (s.closed ≡ true)

-- How a wait over the given rounds ended in the state `t`: at the first check that found a frame
-- or a closed connection, or else when time was up.
pub data Waited : List (List Op) → Shared → Shared → Type 0 where
  woken : {rounds : List (List Op)} {s : Shared} → Wakes s → Waited rounds s s
  elapsed : {s : Shared} → Waited [] s s
  again :
      {os : List Op} {rounds : List (List Op)} {s t : Shared}
      → is_empty s.q ≡ true
      → s.closed ≡ false
      → Waited rounds (apply_all os s) t
      → Waited (os ∷ rounds) s t

wait_while-Waited : (rounds : List (List Op)) (s : Shared) → Waited rounds s (wait_while rounds s)
unfolding wait_while
wait_while-Waited [] s = elapsed
wait_while-Waited (os ∷ rounds) s = elim (Bool-cases (is_empty s.q && not s.closed)) [
  | inl blocked ↦
      rw blocked (again (ground arith) (ground arith) (wait_while-Waited rounds (apply_all os s)))
  | inr free ↦ rw free (woken (ground arith))
]

-- A blocking read ends at the first check of its predicate that finds a frame or a closed
-- connection, or else when its time is up, and then takes the front of the ring if there is one.
pub pop_wait-Waited :
    (rounds : List (List Op)) (s : Shared)
    → (t : Shared) × Waited rounds s t × (pop_wait rounds s ≡ pop t)
unfolding pop_wait
pop_wait-Waited rounds s = (wait_while rounds s, wait_while-Waited rounds s, refl)
