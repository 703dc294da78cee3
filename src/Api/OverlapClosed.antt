-- ===== src/Api/OverlapClosed.antt =====
-- A connection that canClose took out of the table and closed, whatever calls are still in flight.
use kvasilloni.Prelude.{
  ℕ, ◌≤◌, ◌<◌, ◌≡◌, ◌≢◌, sym, refl, Bool, [], ◌∷◌, some, length, ◌==◌, arith, All, inl, inr,
  Bool-cases, length-append,
}
use kvasilloni.Api.OverlapRefs.{
  NoRef, Under, IsLinked, NoRef-insert, NoRef-remove, NoRef-removed, find_ref-NoRef, length-update,
  Overlap-IsLinked,
}
use mathlib.Core.Path.{subst}
use mathlib.Core.Option.{some-injective}
use kvasilloni.Wire.Frame.{Frame}
use kvasilloni.Transport.Peers.{not_connected}
use kvasilloni.Transport.Conn.{Conn, Wires, failed, write, write_locked, close}
use kvasilloni.Transport.ConnLaws.{write-not_ready}
use kvasilloni.Transport.Teardown.{tcp_rx_end}
use kvasilloni.Api.Overlap.{
  closes, perform, Refs, find_ref, remove_ref, deref, update, Store, new_store, Overlap, admits,
  resolves, works, checks, sends, unlinks, releases, drops, receives, rx_ends, Overlaps, stay, more,
}
use kvasilloni.Api.OverlapOff.{IsOff, deref-some, deref-update_self, Overlaps-IsOff}
use kvasilloni.Api.OverlapPending.{pending, Overlaps-pending}

-- The connection is there, but no handle leads to it.
record IsUnlinked (r : ℕ) (s : Store) : Type 0 where
  pub absent : NoRef r s.refs
  pub there : r < length s.conns

find_ref-lt : (k r n : ℕ) (m : Refs) → All (Under n) m → find_ref k m ≡ some r → r < n
unfolding find_ref
find_ref-lt k r n [] b e = cc
find_ref-lt k r n ((i, q) ∷ m) b e = elim (Bool-cases (i == k)) [
  | inl same ↦ subst (λ x. x < n) (some-injective q r (rw same at e)) b.0
  | inr other ↦ find_ref-lt k r n m b.1 (rw other at e)
]

update-IsUnlinked :
    (r q : ℕ) (f : Conn → Conn) (s : Store)
    → IsUnlinked r s
    → IsUnlinked r (record s { conns = update q f s.conns })
update-IsUnlinked r q f s g = record {
  absent = g.absent;
  there = subst (λ n. r < n) (sym (length-update q f s.conns)) g.there;
}

Overlap-IsUnlinked : {s t : Store} (r : ℕ) → Overlap s t → IsUnlinked r s → IsUnlinked r t
Overlap-IsUnlinked {s} r (admits c) g = record {
  absent = NoRef-insert r s.next_handle (length s.conns) s.refs (ground (arith, g.there)) g.absent;
  there = omega (arith, g.there, length-append s.conns (c ∷ []));
}
Overlap-IsUnlinked r (resolves hnd q found) g = record { absent = g.absent; there = g.there }
Overlap-IsUnlinked {s} r (works q m h) g = update-IsUnlinked r q (perform m) s g
Overlap-IsUnlinked r (checks q c held found ready) g = record { absent = g.absent; there = g.there }
Overlap-IsUnlinked {s} r (sends net f before q behind e) g =
    let h = update-IsUnlinked r q (λ c. (write_locked net f c).conn) s g in
    record { absent = h.absent; there = h.there }
Overlap-IsUnlinked {s} r (unlinks hnd q found) g = record {
  absent = NoRef-remove r hnd s.refs g.absent;
  there = g.there;
}
Overlap-IsUnlinked r (releases before q behind e) g = record { absent = g.absent; there = g.there }
Overlap-IsUnlinked {s} r (drops q on_rx unlisted unheld) g =
    update-IsUnlinked r q (perform (closes on_rx)) s g
Overlap-IsUnlinked {s} r (receives q now f) g = update-IsUnlinked r q _ s g
Overlap-IsUnlinked {s} r (rx_ends q) g = update-IsUnlinked r q tcp_rx_end s g

Overlaps-IsLinked : {s t : Store} → Overlaps s t → IsLinked s → IsLinked t
Overlaps-IsLinked stay g = g
Overlaps-IsLinked (more before o) g = Overlap-IsLinked o (Overlaps-IsLinked before g)

Overlaps-IsUnlinked : {s t : Store} (r : ℕ) → Overlaps s t → IsUnlinked r s → IsUnlinked r t
Overlaps-IsUnlinked r stay g = g
Overlaps-IsUnlinked r (more before o) g = Overlap-IsUnlinked r o (Overlaps-IsUnlinked r before g)

closed-IsOff :
    (r : ℕ) (on_rx : Bool) (t : Store) (c : Conn)
    → deref r t.conns ≡ some c
    → IsOff r (record t { conns = update r (perform (closes on_rx)) t.conns })
unfolding perform close
closed-IsOff r on_rx t c e =
    (perform (closes on_rx) c, deref-update_self r (perform (closes on_rx)) t.conns c e, refl)

-- canClose takes a handle out of the table in `s`, and closes its connection in `t`, while other
-- calls, also on the same connection, go on before, between and after. From then on, in every later
-- `u`, no handle leads to the connection, and it is still not ready, so that a write that looks from
-- then on sends nothing and returns an error. Of the writes that found it ready and had still to
-- take the lock of its transmitter when it was closed, which may send yet, there are no more.
pub closes-overlapped :
    (s t u : Store) (hnd r : ℕ) (on_rx : Bool)
    → Overlaps new_store s
    → find_ref hnd s.refs ≡ some r
    → Overlaps (record s { refs = remove_ref hnd s.refs; held = r ∷ s.held }) t
    → Overlaps (record t { conns = update r (perform (closes on_rx)) t.conns }) u
    → ((k : ℕ) → find_ref k u.refs ≢ some r)
      × ((c : Conn) × (deref r u.conns ≡ some c)
          × ((net : Wires) (f : Frame)
              → write net f c ≡ record { conn = c; result = failed not_connected; sent = [] }))
      × (pending r u.passed ≤ pending r t.passed)
closes-overlapped s t u hnd r on_rx start found between after =
    let linked = Overlaps-IsLinked start record { unshared = tt; under = tt } in
    let gone : IsUnlinked r (record s { refs = remove_ref hnd s.refs; held = r ∷ s.held }) =
      record {
        absent = NoRef-removed hnd r s.refs linked.unshared found;
        there = find_ref-lt hnd r (length s.conns) s.refs linked.under found;
      } in
    let gone' = Overlaps-IsUnlinked r between gone in
    let gone'' =
      Overlaps-IsUnlinked r after (update-IsUnlinked r r (perform (closes on_rx)) t gone') in
    let (c, e) = deref-some r t.conns gone'.there in
    let off : IsOff r (record t { conns = update r (perform (closes on_rx)) t.conns }) =
      closed-IsOff r on_rx t c e in
    let (d, found_later, quiet) = Overlaps-IsOff r after off in
    (
      λ k. find_ref-NoRef k r u.refs gone''.absent,
      (d, found_later, λ net f. write-not_ready net f d quiet),
      Overlaps-pending r after off,
    )
