-- ===== src/Api/OverlapPending.antt =====
-- The writes that found their connection ready and have still to send.
use kvasilloni.Prelude.{
  ℕ, ◌+◌, ◌≤◌, if◌then◌else◌, true, ◌≡◌, ap, sym, ◌∙◌, false, List, [], ◌∷◌, ◌++◌, some, ◌==◌,
  arith,
}
use mathlib.Core.Path.{subst}
use mathlib.Core.Option.{some-injective}
use native.Mathlib.Decide.{ℕ_discrete}
use kvasilloni.Api.Overlap.{
  deref, Store, Overlap, admits, resolves, works, checks, sends, unlinks, releases, drops, receives,
  rx_ends, Overlaps, stay, more,
}
use kvasilloni.Api.OverlapOff.{IsOff, Overlaps-IsOff}

-- How many writes on the connection have passed their check and have still to send.
abbrev pub pending : ℕ → List ℕ → ℕ
pending r [] = 0
pending r (q ∷ qs) = (if q == r then 1 else 0) + pending r qs

pending-append : (r : ℕ) (xs ys : List ℕ) → pending r (xs ++ ys) ≡ pending r xs + pending r ys
pending-append r [] ys = omega arith
pending-append r (x ∷ xs) ys = omega (arith, pending-append r xs ys)

pending-removed :
    (r : ℕ) (before : List ℕ) (q : ℕ) (behind : List ℕ)
    → pending r (before ++ behind) ≤ pending r (before ++ q ∷ behind)
pending-removed r before q behind =
    omega (arith, pending-append r before behind, pending-append r before (q ∷ behind))

-- No write passes its check on a connection that is not ready.
Overlap-pending :
    {s t : Store} (r : ℕ) → Overlap s t → IsOff r s → pending r t.passed ≤ pending r s.passed
Overlap-pending {s} r (checks q c held found ready) (d, there, off) = elim (ℕ_discrete q r) [
  | yes same ↦
      let e : deref r s.conns ≡ some c = subst (λ x. deref x s.conns ≡ some c) same found in
      let both : d ≡ c = some-injective d c (sym there ∙ e) in
      absurd (not_both (sym (ap (λ x. x.negotiated) both) ∙ off) ready)
  | no other ↦ ground (arith, other)
]
  where
    not_both : c.negotiated ≡ false → c.negotiated ≡ true → ⊥
    not_both a b = cc
Overlap-pending {s} r (sends net f before q behind e) g =
    subst (λ l. pending r (before ++ behind) ≤ pending r l) (sym e)
      (pending-removed r before q behind)
Overlap-pending r (admits c) g = omega arith
Overlap-pending r (resolves hnd q found) g = omega arith
Overlap-pending r (works q m h) g = omega arith
Overlap-pending r (unlinks hnd q found) g = omega arith
Overlap-pending r (releases before q behind e) g = omega arith
Overlap-pending r (drops q on_rx unlisted unheld) g = omega arith
Overlap-pending r (receives q now f) g = omega arith
Overlap-pending r (rx_ends q) g = omega arith

pub Overlaps-pending :
    {s t : Store} (r : ℕ) → Overlaps s t → IsOff r s → pending r t.passed ≤ pending r s.passed
Overlaps-pending r stay g = omega arith
Overlaps-pending r (more {s} {t} {u} before o) g =
    let one = Overlap-pending r o (Overlaps-IsOff r before g) in
    let rest = Overlaps-pending r before g in omega (arith, one, rest)
