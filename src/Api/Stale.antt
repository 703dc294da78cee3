-- ===== src/Api/Stale.antt =====
-- A closed handle over any sequence of later calls.
use kvasilloni.Prelude.{
  ℕ, ◌+◌, ◌%◌, ◌^◌, ◌<◌, ◌≤◌, ◌≡◌, refl, ◌∙◌, inl, inr, Bool, List, [], ◌∷◌, Option, none, some,
  length, arith, Option-cases, All,
}
use kvasilloni.Prelude.Exec.{Exec, done, panic}
use native.Mathlib.Decide.{ℕ_discrete}
use mathlib.Core.Path.{subst}
use kvasilloni.Config.Types.{Text, Config}
use kvasilloni.Transport.Peers.{IoResult, ok, err}
use kvasilloni.Transport.Shared.{pop}
use kvasilloni.Transport.Conn.{Conn, Sockets, connect, Wires, write}
use kvasilloni.Wire.Frame.{Frame}
use kvasilloni.Api.Codes.{can_err_invhandle}
use kvasilloni.Api.Memory.{Access, safe, fault}
use kvasilloni.Api.Table.{Conns, remove, World, lookup, put, with_conn, can_open_channel, can_close}
use kvasilloni.Api.Send.{frame_of, send_frame, can_write}
use kvasilloni.Api.Receive.{received, read_out, write_read_outputs, Outs, can_read}
use kvasilloni.Api.Control.{can_flush_receive_queue, can_accept, can_set_notify}
use kvasilloni.Api.Handles.{
  IsTable, Unique, Before, lookup-remove_self, lookup-insert_other, lookup-remove_other,
  Unique-insert, below-insert, can_open_channel-ok, can_close_lem,
}
use kvasilloni.Api.Calls.{
  Call, open_call, close_call, write_call, read_call, flush_call, accept_call, notify_call,
  sent_world, received_world, step, steps,
}

-- The handle was handed out and is closed, and the handle counter is within a bound.
pub record IsStale (h bound : ℕ) (w : World) : Type 0 where
  pub table : IsTable w
  pub given : h < w.next_handle
  pub closed : lookup h w.conns ≡ none
  pub few : w.next_handle ≤ bound

lookup-lt :
    (k n : ℕ) (m : List (ℕ × Conn)) (d : Conn) → All (λ e. e.0 < n) m → lookup k m ≡ some d → k < n
unfolding lookup
lookup-lt k n [] d b e = cc
lookup-lt k n ((i, c) ∷ m) d b e = ground (arith, e, b, lookup-lt k n m d b.1)

-- A call that changes the connection behind another, open handle keeps the handle stale.
put-IsStale :
    (h b k : ℕ) (c d : Conn) (w : World)
    → lookup k w.conns ≡ some d
    → IsStale h b w
    → IsStale h b (put k c w)
put-IsStale h b k c d w found s = record {
  table = record {
    unique = Unique-insert k c w.conns s.table.unique;
    below =
        below-insert w.next_handle k c w.conns
          (lookup-lt k w.next_handle w.conns d s.table.below found) s.table.below;
    positive = s.table.positive;
  };
  given = s.given;
  closed = lookup-insert_other h k c w.conns (λ e. cc) ∙ s.closed;
  few = s.few;
}

with_conn-IsStale :
    (h b k e : ℕ) (f : Conn → Conn × ℕ) (w : World)
    → IsStale h b w
    → IsStale h b (with_conn k e f w).0
unfolding with_conn
with_conn-IsStale h b k e f w s = elim (Option-cases (lookup k w.conns)) [
  | inl missing ↦ rw missing s
  | inr (d, found) ↦ rw found (put-IsStale h b k (f d).0 d w found s)
]

send_frame-IsStale :
    (h b : ℕ) (net : Wires) (k : ℕ) (w : World) (r : Exec (Access Frame))
    → IsStale h b w
    → IsStale h b (sent_world w (send_frame net k w r))
send_frame-IsStale h b net k w panic s = s
send_frame-IsStale h b net k w (done fault) s = s
send_frame-IsStale h b net k w (done (safe f)) s = elim (Option-cases (lookup k w.conns)) [
  | inl missing ↦ rw missing s
  | inr (d, found) ↦ rw found (put-IsStale h b k (write net f d).conn d w found s)
]

received-IsStale :
    (h b : ℕ) (w w' : World) (o : Outs) (r : Exec (Access Outs))
    → IsStale h b w
    → IsStale h b w'
    → IsStale h b (received_world w (received w' o r))
received-IsStale h b w w' o panic s s' = s'
received-IsStale h b w w' o (done fault) s s' = s
received-IsStale h b w w' o (done (safe o')) s s' = s'

read_out-IsStale :
    (h b : ℕ) (w w' : World) (o : Outs) (fd_capable : Bool) (r : Option Frame)
    → IsStale h b w
    → IsStale h b w'
    → IsStale h b (received_world w (read_out w' o fd_capable r))
read_out-IsStale h b w w' o fd_capable none s s' = s'
read_out-IsStale h b w w' o fd_capable (some f) s s' =
    received-IsStale h b w w' o (write_read_outputs f o fd_capable) s s'

can_read-IsStale :
    (h b k : ℕ) (o : Outs) (w : World)
    → IsStale h b w
    → IsStale h b (received_world w (can_read k o w))
unfolding can_read
can_read-IsStale h b k o w s = elim (Option-cases (lookup k w.conns)) [
  | inl missing ↦ rw missing s
  | inr (d, found) ↦ rw found (
      read_out-IsStale h b w (put k (record d { shared = (pop d.shared).0 }) w) o d.fd_capable
        (pop d.shared).1 s (put-IsStale h b k (record d { shared = (pop d.shared).0 }) d w found s))
]

weaken : (h b : ℕ) (w : World) → IsStale h b w → IsStale h (b + 1) w
weaken h b w s = record {
  table = s.table;
  given = s.given;
  closed = s.closed;
  few = omega (arith, s.few);
}

update-IsTable :
    (w w' : World) → w.conns ≡ w'.conns → w.next_handle ≡ w'.next_handle → IsTable w → IsTable w'
update-IsTable w w' e n t = record {
  unique = subst Unique e t.unique;
  below = subst (λ k. All (Before k) w'.conns) n (subst (All (Before w.next_handle)) e t.below);
  positive = subst (λ k. 1 ≤ k) n t.positive;
}

with_log :
    (h b : ℕ) (log : Option Text) (w : World)
    → IsStale h b w
    → IsStale h b (record w { log_path = log })
with_log h b log w s = record {
  table = update-IsTable w (record w { log_path = log }) refl refl s.table;
  given = s.given;
  closed = s.closed;
  few = s.few;
}

lookup-remove-none :
    (h k : ℕ) (m : Conns) → Unique m → lookup h m ≡ none → lookup h (remove k m) ≡ none
lookup-remove-none h k m u e = elim (ℕ_discrete h k) [
  | yes same ↦ rw same (lookup-remove_self k m u)
  | no other ↦ lookup-remove_other h k m other ∙ e
]

closed-IsStale :
    (h b : ℕ) (on_rx : Bool) (hnd : ℕ) (w : World)
    → IsStale h b w
    → IsStale h b (can_close on_rx hnd w).0
unfolding can_close
closed-IsStale h b on_rx hnd w s = record {
  table = (can_close_lem on_rx hnd w s.table).3;
  given = s.given;
  closed = lookup-remove-none h hnd w.conns s.table.unique s.closed;
  few = s.few;
}

opened_next :
    (net : Sockets) (cfg : Config) (flags : ℕ) (c : Conn) (w : World)
    → connect net cfg ≡ ok c
    → (can_open_channel net cfg flags w).0.next_handle ≡ (w.next_handle + 1) % 2 ^ 32
unfolding can_open_channel
opened_next net cfg flags c w e = rw e refl

open-IsStale :
    (h b : ℕ) (net : Sockets) (cfg : Config) (flags : ℕ) (w : World)
    → b + 1 < 2 ^ 31
    → IsStale h b w
    → IsStale h (b + 1) (can_open_channel net cfg flags w).0
open-IsStale h b net cfg flags w room s = go (connect net cfg) refl
  where
    go :
        (r : IoResult Conn)
        → connect net cfg ≡ r
        → IsStale h (b + 1) (can_open_channel net cfg flags w).0
    go (ok c) e =
        let small : w.next_handle + 1 < 2 ^ 31 = omega (arith, s.few, room) in
        let opened = can_open_channel-ok net cfg flags c w s.table small e in
        record {
          table = opened.4;
          given = omega (arith, opened_next net cfg flags c w e, s.given, small);
          closed = opened.3 h (ground (arith, s.given)) ∙ s.closed;
          few = omega (arith, opened_next net cfg flags c w e, s.few, small);
        }
    go (err x) e = unfold can_open_channel in rw e (weaken h b _ (with_log h b cfg.log w s))

-- One call keeps a handle stale and hands out at most one handle.
step-IsStale :
    (h b : ℕ) (c : Call) (w : World) → b + 1 < 2 ^ 31 → IsStale h b w → IsStale h (b + 1) (step c w)
unfolding step
step-IsStale h b (open_call net cfg flags) w room s = open-IsStale h b net cfg flags w room s
step-IsStale h b (close_call on_rx hnd) w room s = weaken h b _ (closed-IsStale h b on_rx hnd w s)
step-IsStale h b (write_call net hnd id msg dlc flag) w room s =
    weaken h b _ (unfold can_write in send_frame-IsStale h b net hnd w (frame_of id msg dlc flag) s)
step-IsStale h b (read_call hnd o) w room s = weaken h b _ (can_read-IsStale h b hnd o w s)
step-IsStale h b (flush_call hnd) w room s =
    weaken h b _
      (unfold can_flush_receive_queue in with_conn-IsStale h b hnd can_err_invhandle _ w s)
step-IsStale h b (accept_call hnd envelope flag) w room s =
    weaken h b _ (unfold can_accept in with_conn-IsStale h b hnd can_err_invhandle _ w s)
step-IsStale h b (notify_call hnd cb flags tag) w room s =
    weaken h b _ (unfold can_set_notify in with_conn-IsStale h b hnd can_err_invhandle _ w s)

steps-IsStale :
    (h b : ℕ) (cs : List Call) (w : World)
    → b + length cs < 2 ^ 31
    → IsStale h b w
    → IsStale h (b + length cs) (steps cs w)
unfolding steps
steps-IsStale h b [] w room s = rw (let e : b + 0 ≡ b = omega arith in e) s
steps-IsStale h b (c ∷ cs) w room s =
    let e : b + length (c ∷ cs) ≡ (b + 1) + length cs = omega arith in
    rw e (
      steps-IsStale h (b + 1) cs (step c w) (omega (arith, room))
        (step-IsStale h b c w (omega (arith, room)) s))

-- Once a handle is closed it stays closed: after any later calls it finds no connection, so that
-- reading it returns canERR_INVHANDLE with the out-parameters and the world unchanged, and so does
-- any call through `with_conn`. The handles given out so far, with the calls to come, must fit a
-- positive c_int.
pub steps-closed :
    (hnd : ℕ) (on_rx : Bool) (cs : List Call) (w : World) (o : Outs)
    → IsTable w
    → hnd < w.next_handle
    → w.next_handle + length cs < 2 ^ 31
    → let w' = steps cs (step (close_call on_rx hnd) w) in
      (lookup hnd w'.conns ≡ none)
      × (can_read hnd o w' ≡ safe (w', o, can_err_invhandle))
      × ((e : ℕ) (f : Conn → Conn × ℕ) → with_conn hnd e f w' ≡ (w', e))
unfolding step can_read with_conn
steps-closed hnd on_rx cs w o t given room =
    let closed = can_close_lem on_rx hnd w t in
    let s : IsStale hnd w.next_handle (can_close on_rx hnd w).0 =
      unfold can_close in
      record { table = closed.3; given = given; closed = closed.1; few = omega arith } in
    let gone = (steps-IsStale hnd w.next_handle cs (can_close on_rx hnd w).0 room s).closed in
    (gone, rw gone refl, λ e f. rw gone refl)
