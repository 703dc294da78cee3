-- ===== src/System/Waits.antt =====
-- A read that waits, and a wait alone, is served as the specification says.
use kvasilloni.Prelude.{
  ℕ, ◌≡◌, ap, refl, ◌∙◌, Bool, true, false, if◌then◌else◌, not, ◌&&◌, List, [], ◌∷◌, map, some, All,
  inl, inr, Bool-cases,
}
use kvasilloni.Transport.Shared.{Shared, push, is_empty, apply_all, wait_while, pop_wait, peek_wait}
use kvasilloni.Transport.Conn.{Conn}
use kvasilloni.Api.Codes.{can_ok, can_err_nomsg, can_err_invhandle}
use kvasilloni.Api.Table.{World, put}
use kvasilloni.Api.Receive.{
  Outs, read_from, read_wait_duration, can_read_wait, can_read_sync, sync_on, sync_code,
}
use kvasilloni.System.Ports.{
  Port, Arrivals, Reply, reported, returned, sync_after, read_port, arrive_all, await, patience,
  read_after,
}
use kvasilloni.System.Spec.{RoomForAny, waits, syncs, IsRequest, AllSendable, serve}
use kvasilloni.System.Requests.{port_of, view, with_outs, with_code, push_ops, run}
use mathlib.Core.Path.{subst}
use mathlib.Core.Option.{some-injective}
use kvasilloni.Api.Memory.{safe}
use kvasilloni.System.Good.{IsGood}
use kvasilloni.System.Keeps.{lookup-IsGood}
use kvasilloni.System.Serves.{read_from-answer}
use kvasilloni.System.Refines.{Sound, Meets, Follows, found-Meets}
use kvasilloni.System.Follows.{push-Follows}
use kvasilloni.System.Reads.{HasRoomAt-any, read-Follows}

-- A connection whose receive state was changed.
abbrev with_shared : Conn → Shared → Conn
with_shared c s = record c { shared = s }

-- The connection is good, and has this port.
abbrev IsAt : Conn → Port → Type 0
IsAt c p = IsGood c × (port_of c ≡ p)

apply_all-arrive :
    (fs : Arrivals) (c : Conn)
    → AllSendable fs
    → IsGood c
    → IsAt (with_shared c (apply_all (push_ops fs) c.shared)) (arrive_all fs (port_of c))
unfolding apply_all
apply_all-arrive [] c v g = (g, refl)
apply_all-arrive ((now, f) ∷ fs) c v g =
    let follows = push-Follows now f c v.0 g in
    let (good, same) =
      apply_all-arrive fs (with_shared c (push now f c.shared).0) v.1 follows.good in
    (good, same ∙ ap (arrive_all fs) follows.port)

wait_while-await :
    (rounds : List Arrivals) (c : Conn)
    → All AllSendable rounds
    → IsGood c
    → IsAt (with_shared c (wait_while (map push_ops rounds) c.shared)) (await rounds (port_of c))
unfolding wait_while is_empty
wait_while-await [] c v g = (g, refl)
wait_while-await (fs ∷ rounds) c v g =
    elim (Bool-cases (is_empty c.shared.q && not c.shared.closed)) [
      | inl goes_on ↦
          let (good, same) = apply_all-arrive fs c v.0 g in
          let (good', same') =
            wait_while-await rounds (with_shared c (apply_all (push_ops fs) c.shared)) v.1 good in
          rw goes_on (good', same' ∙ ap (await rounds) same)
      | inr ready ↦ rw ready (g, refl)
    ]

-- The ring of the connection at the end of the wait is read.
wait-Follows :
    (h : ℕ) (o : Outs) (w : World) (c : Conn) (rounds : List Arrivals)
    → All AllSendable rounds
    → RoomForAny o.msg
    → IsGood c
    → (c' : Conn) × (reply : Reply) × (with_outs
          (read_from h o w (some c) (pop_wait (map push_ops rounds)))
        ≡ safe (put h c' w, reply))
      × Follows c c' reply (read_after rounds o)
unfolding pop_wait
wait-Follows h o w c rounds v room g =
    let d = with_shared c (wait_while (map push_ops rounds) c.shared) in
    let (good, same) = wait_while-await rounds c v g in
    let (c', reply, did, follows) = read-Follows h o w d good in
    (
      c',
      reply,
      ap with_outs (
            read_from-answer h o w (some d) (λ x e. subst IsGood (some-injective d x e) good)
              (HasRoomAt-any o (some d) room))
          ∙ did,
      record {
        good = follows.good;
        port = follows.port ∙ ap (λ p. (read_port o p.waiting p).0) same;
        told = follows.told ∙ ap (λ p. (read_port o p.waiting p).1) same;
      },
    )

pub waits-Meets :
    (during : ℕ → List Arrivals) (in_callback : Bool) (hnd : ℕ) (o : Outs) (timeout : ℕ) (w : World)
    → IsRequest (waits during in_callback hnd o timeout)
    → Sound w
    → Meets
        (run (waits during in_callback hnd o timeout) w)
        (serve (waits during in_callback hnd o timeout) (view w))
unfolding run serve can_read_wait read_wait_duration
waits-Meets during in_callback hnd o timeout w i s =
    let rounds = during (patience in_callback timeout) in
    found-Meets hnd (reported o can_err_invhandle) (read_after rounds o) w
      (λ r. with_outs (read_from hnd o w r (pop_wait (map push_ops rounds)))) s refl
      (λ c found.
        wait-Follows hnd o w c rounds (i.1 (patience in_callback timeout)) i.0
          (lookup-IsGood hnd w.conns c s.good found))

-- What `canReadSync` leaves, and its code.
sync-Follows :
    (c : Conn) (rounds : List Arrivals)
    → All AllSendable rounds
    → IsGood c
    → Follows c
        (with_shared c (wait_while (map push_ops rounds) c.shared))
        (returned (sync_code (not (is_empty (wait_while (map push_ops rounds) c.shared).q))))
        (sync_after rounds)
unfolding is_empty
sync-Follows c rounds v g =
    let s = wait_while (map push_ops rounds) c.shared in
    let (good, same) = wait_while-await rounds c v g in
    record {
      good = good;
      port = same;
      told =
          ap returned (swapped (is_empty s.q))
          ∙ ap (λ p. returned (if is_empty p.waiting then can_err_nomsg else can_ok)) same;
    }
  where
    swapped : (b : Bool) → sync_code (not b) ≡ (if b then can_err_nomsg else can_ok)
    swapped true = refl
    swapped false = refl

pub syncs-Meets :
    (during : ℕ → List Arrivals) (in_callback : Bool) (hnd timeout : ℕ) (w : World)
    → IsRequest (syncs during in_callback hnd timeout)
    → Sound w
    → Meets
        (run (syncs during in_callback hnd timeout) w)
        (serve (syncs during in_callback hnd timeout) (view w))
unfolding run serve can_read_sync read_wait_duration peek_wait
syncs-Meets during in_callback hnd timeout w i s =
    let rounds = during (patience in_callback timeout) in
    found-Meets hnd (returned can_err_invhandle) (sync_after rounds) w
      (λ r. with_code (sync_on hnd w r (peek_wait (map push_ops rounds)))) s refl
      (λ c found. (
        with_shared c (wait_while (map push_ops rounds) c.shared),
        returned (sync_code (not (is_empty (wait_while (map push_ops rounds) c.shared).q))),
        refl,
        sync-Follows c rounds (i (patience in_callback timeout))
            (lookup-IsGood hnd w.conns c s.good found),
      ))
