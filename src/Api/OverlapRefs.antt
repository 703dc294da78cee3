-- ===== src/Api/OverlapRefs.antt =====
-- The table of references under overlapping calls: no two handles share a connection.
use kvasilloni.Prelude.{
  ℕ, zero, suc, ◌+◌, ◌<◌, ◌≡◌, ◌≢◌, ap, sym, refl, List, [], ◌∷◌, some, length, ◌==◌, arith, All,
  inl, inr, Bool-cases, length-append,
}
use mathlib.Core.Path.{subst}
use mathlib.Core.Option.{some-injective}
use kvasilloni.Transport.Conn.{Conn}
use kvasilloni.Api.Overlap.{
  perform, Refs, find_ref, insert_ref, remove_ref, update, Store, Overlap, admits, resolves, works,
  checks, sends, unlinks, releases, drops, closes, receives, rx_ends,
}

-- No handle has the reference.
abbrev pub Misses : ℕ → ℕ × ℕ → Type 0
Misses r e = e.1 ≢ r

abbrev pub NoRef : ℕ → Refs → Type 0
NoRef r m = All (Misses r) m

-- No two handles share a connection.
abbrev pub Unshared : Refs → Type 0
Unshared [] = Unit
Unshared ((h, r) ∷ m) = NoRef r m × Unshared m

abbrev pub Under : ℕ → ℕ × ℕ → Type 0
Under n e = e.1 < n

pub record IsLinked (s : Store) : Type 0 where
  pub unshared : Unshared s.refs
  pub under : All (Under (length s.conns)) s.refs

pub find_ref-NoRef : (k r : ℕ) (m : Refs) → NoRef r m → find_ref k m ≢ some r
unfolding find_ref
find_ref-NoRef k r [] h e = cc
find_ref-NoRef k r ((i, q) ∷ m) h e = elim (Bool-cases (i == k)) [
  | inl same ↦ h.0 (some-injective q r (rw same at e))
  | inr other ↦ find_ref-NoRef k r m h.1 (rw other at e)
]

pub NoRef-insert : (r h n : ℕ) (m : Refs) → n ≢ r → NoRef r m → NoRef r (insert_ref h n m)
unfolding insert_ref
NoRef-insert r h n [] ne g = (ne, tt)
NoRef-insert r h n ((i, q) ∷ m) ne g = ground (arith, ne, g, NoRef-insert r h n m ne g.1)

pub NoRef-remove : (r h : ℕ) (m : Refs) → NoRef r m → NoRef r (remove_ref h m)
unfolding remove_ref
NoRef-remove r h [] g = tt
NoRef-remove r h ((i, q) ∷ m) g = ground (arith, g, NoRef-remove r h m g.1)

NoRef-Under : (n : ℕ) (m : Refs) → All (Under n) m → NoRef n m
NoRef-Under n [] b = tt
NoRef-Under n ((i, q) ∷ m) b = (ground (arith, b.0), NoRef-Under n m b.1)

Unshared-insert : (h n : ℕ) (m : Refs) → All (Under n) m → Unshared m → Unshared (insert_ref h n m)
unfolding insert_ref
Unshared-insert h n [] b u = (tt, tt)
Unshared-insert h n ((i, q) ∷ m) b u = elim (Bool-cases (i == h)) [
  | inl same ↦ rw same (NoRef-Under n m b.1, u.1)
  | inr other ↦
      rw other (NoRef-insert q h n m (ground (arith, b.0)) u.0, Unshared-insert h n m b.1 u.1)
]

Unshared-remove : (h : ℕ) (m : Refs) → Unshared m → Unshared (remove_ref h m)
unfolding remove_ref
Unshared-remove h [] u = tt
Unshared-remove h ((i, q) ∷ m) u =
    ground (arith, u, NoRef-remove q h m u.0, Unshared-remove h m u.1)

-- The reference that is taken out stays out.
pub NoRef-removed :
    (h r : ℕ) (m : Refs) → Unshared m → find_ref h m ≡ some r → NoRef r (remove_ref h m)
unfolding find_ref remove_ref
NoRef-removed h r [] u e = cc
NoRef-removed h r ((i, q) ∷ m) u e = elim (Bool-cases (i == h)) [
  | inl same ↦ rw same (subst (λ x. NoRef x m) (some-injective q r (rw same at e)) u.0)
  | inr other ↦ rw other (
    (λ x. find_ref-NoRef h r m (subst (λ y. NoRef y m) x u.0) (rw other at e)),
    NoRef-removed h r m u.1 (rw other at e),
  )
]

Under-insert : (n h : ℕ) (m : Refs) → All (Under n) m → All (Under (n + 1)) (insert_ref h n m)
unfolding insert_ref
Under-insert n h [] b = (omega arith, tt)
Under-insert n h ((i, q) ∷ m) b = ground (arith, b, Under-weaken n m b.1, Under-insert n h m b.1)
  where
    Under-weaken : (k : ℕ) (l : Refs) → All (Under k) l → All (Under (k + 1)) l
    Under-weaken k [] b = tt
    Under-weaken k ((j, p) ∷ l) b = (omega (arith, b.0), Under-weaken k l b.1)

Under-remove : (n h : ℕ) (m : Refs) → All (Under n) m → All (Under n) (remove_ref h m)
unfolding remove_ref
Under-remove n h [] b = tt
Under-remove n h ((i, q) ∷ m) b = ground (arith, b, Under-remove n h m b.1)

pub length-update : (r : ℕ) (f : Conn → Conn) (cs : List Conn) → length (update r f cs) ≡ length cs
unfolding update
length-update r f [] = refl
length-update zero f (c ∷ cs) = refl
length-update (suc r) f (c ∷ cs) = ap suc (length-update r f cs)

pub Overlap-IsLinked : {s t : Store} → Overlap s t → IsLinked s → IsLinked t
Overlap-IsLinked {s} (admits c) g = record {
  unshared = Unshared-insert s.next_handle (length s.conns) s.refs g.under g.unshared;
  under =
      subst (λ n. All (Under n) (insert_ref s.next_handle (length s.conns) s.refs))
        (sym (length-append s.conns (c ∷ [])))
        (Under-insert (length s.conns) s.next_handle s.refs g.under);
}
Overlap-IsLinked (resolves hnd r found) g = record { unshared = g.unshared; under = g.under }
Overlap-IsLinked {s} (works r m h) g = record {
  unshared = g.unshared;
  under = subst (λ n. All (Under n) s.refs) (sym (length-update r (perform m) s.conns)) g.under;
}
Overlap-IsLinked (checks r c held found ready) g = record { unshared = g.unshared; under = g.under }
Overlap-IsLinked {s} (sends net f before r behind e) g = record {
  unshared = g.unshared;
  under = subst (λ n. All (Under n) s.refs) (sym (length-update r _ s.conns)) g.under;
}
Overlap-IsLinked {s} (unlinks hnd r found) g = record {
  unshared = Unshared-remove hnd s.refs g.unshared;
  under = Under-remove (length s.conns) hnd s.refs g.under;
}
Overlap-IsLinked (releases before r behind e) g = record { unshared = g.unshared; under = g.under }
Overlap-IsLinked {s} (drops r on_rx unlisted unheld) g = record {
  unshared = g.unshared;
  under =
      subst (λ n. All (Under n) s.refs) (sym (length-update r (perform (closes on_rx)) s.conns))
        g.under;
}
Overlap-IsLinked {s} (receives r now f) g = record {
  unshared = g.unshared;
  under = subst (λ n. All (Under n) s.refs) (sym (length-update r _ s.conns)) g.under;
}
Overlap-IsLinked {s} (rx_ends r) g = record {
  unshared = g.unshared;
  under = subst (λ n. All (Under n) s.refs) (sym (length-update r _ s.conns)) g.under;
}
