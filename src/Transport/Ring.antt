-- ===== src/Transport/Ring.antt =====
-- The ring over any sequence of operations: bounded, in order, and lossless without the latch.
use kvasilloni.Prelude.{
  ℕ, ◌≤◌, ◌≡◌, refl, sym, ap, ◌∙◌, true, false, ◌⊎◌, List, [], ◌∷◌, ◌++◌, All, length,
  if◌then◌else◌, arith, length-append, append_assoc, append-nil, inl, inr,
}
use kvasilloni.Wire.Frame.{Frame}
use kvasilloni.Transport.Filter.{accepts}
use kvasilloni.Transport.Shared.{
  Shared, Op, push_op, pop_op, clear_op, apply, apply_all, stamped, ring_cap,
}

apply-length : (o : Op) (s : Shared) → length s.q ≤ ring_cap → length (apply o s).q ≤ ring_cap
unfolding apply
apply-length (push_op now f) s h = ground (arith, length-append s.q (stamped now f ∷ []))
apply-length pop_op s h = ground arith
apply-length _ s h = ground arith

-- Whatever the threads do, the ring never holds more than its capacity.
pub apply_all-length :
    (os : List Op) (s : Shared) → length s.q ≤ ring_cap → length (apply_all os s).q ≤ ring_cap
unfolding apply_all
apply_all-length [] s h = h
apply_all-length (o ∷ os) s h = apply_all-length os (apply o s) (apply-length o s h)

-- The frame that an operation offers to the ring: one that the filter in force accepts.
abbrev offered_by : Op → Shared → List Frame
offered_by (push_op now f) s = if accepts s.filters f then stamped now f ∷ [] else []
offered_by _ s = []

abbrev pub offered : List Op → Shared → List Frame
offered [] s = []
offered (o ∷ os) s = offered_by o s ++ offered os (apply o s)

-- The frame that an operation takes out for a reader.
abbrev taken_by : Op → List Frame → List Frame
taken_by pop_op (f ∷ fs) = f ∷ []
taken_by _ _ = []

abbrev pub popped : List Op → Shared → List Frame
popped [] s = []
popped (o ∷ os) s = taken_by o s.q ++ popped os (apply o s)

-- The first list is the second with some elements left out.
pub data IsSubseq : List Frame → List Frame → Type 0 where
  nil : IsSubseq [] []
  keep : {xs ys : List Frame} (x : Frame) → IsSubseq xs ys → IsSubseq (x ∷ xs) (x ∷ ys)
  skip : {xs ys : List Frame} (y : Frame) → IsSubseq xs ys → IsSubseq xs (y ∷ ys)

IsSubseq-refl : (xs : List Frame) → IsSubseq xs xs
IsSubseq-refl [] = nil
IsSubseq-refl (x ∷ xs) = keep x (IsSubseq-refl xs)

IsSubseq-prefix : {xs ys : List Frame} (zs : List Frame) → IsSubseq xs ys → IsSubseq xs (zs ++ ys)
IsSubseq-prefix [] h = h
IsSubseq-prefix (z ∷ zs) h = skip z (IsSubseq-prefix zs h)

IsSubseq-insert :
    {xs : List Frame} (y : Frame) (us vs : List Frame)
    → IsSubseq xs (us ++ vs)
    → IsSubseq xs (us ++ y ∷ vs)
IsSubseq-insert y [] vs h = skip y h
IsSubseq-insert y (u ∷ us) vs (keep x h) = keep x (IsSubseq-insert y us vs h)
IsSubseq-insert y (u ∷ us) vs (skip x h) = skip x (IsSubseq-insert y us vs h)

IsSubseq-eq : {xs us ys vs : List Frame} → xs ≡ us → ys ≡ vs → IsSubseq us vs → IsSubseq xs ys
IsSubseq-eq e e' h = rw (e, e') h

-- What an offered frame does to the ring: refused by the filter, dropped, or queued.
push-cases :
    (now : ℕ) (f : Frame) (s : Shared)
    → let s' = apply (push_op now f) s in
      let new = offered_by (push_op now f) s in
      ((s'.q ≡ s.q) × (new ≡ []))
      ⊎ ((s'.q ≡ s.q) × (new ≡ stamped now f ∷ []) × (s'.overflow ≡ true))
      ⊎ ((s'.q ≡ s.q ++ stamped now f ∷ []) × (new ≡ stamped now f ∷ []))
unfolding apply
push-cases now f s = ground arith

pop-cases :
    (s : Shared)
    → ((s.q ≡ []) × ((apply pop_op s).q ≡ []) × (taken_by pop_op s.q ≡ []))
      ⊎ ((f : Frame) × (s.q ≡ f ∷ (apply pop_op s).q) × (taken_by pop_op s.q ≡ f ∷ []))
unfolding apply
pop-cases s = go s.q refl
  where
    go :
        (q : List Frame)
        → s.q ≡ q
        → ((s.q ≡ []) × ((apply pop_op s).q ≡ []) × (taken_by pop_op s.q ≡ []))
          ⊎ ((f : Frame) × (s.q ≡ f ∷ (apply pop_op s).q) × (taken_by pop_op s.q ≡ f ∷ []))
    go [] e = inl (ground arith)
    go (f ∷ q) e = inr (f, ground arith, ground arith)

-- One operation keeps the order.
IsSubseq-step :
    (o : Op) (s : Shared) {xs : List Frame} (rest : List Frame)
    → IsSubseq xs ((apply o s).q ++ rest)
    → IsSubseq (taken_by o s.q ++ xs) (s.q ++ (offered_by o s ++ rest))
IsSubseq-step (push_op now f) s rest h = elim (push-cases now f s) [
  | inl (same, new) ↦ rw new (rw same at h)
  | inr (inl (same, new, late)) ↦ rw new (IsSubseq-insert _ s.q rest (rw same at h))
  | inr (inr (more, new)) ↦ rw new (rw (more, append_assoc) at h)
]
IsSubseq-step pop_op s {xs} rest h = elim (pop-cases s) [
  | inl (empty, same, none_taken) ↦
      IsSubseq-eq (ap (λ t. t ++ xs) none_taken) (ap (λ t. t ++ rest) (empty ∙ sym same)) h
  | inr (f, front, taken) ↦
      IsSubseq-eq (ap (λ t. t ++ xs) taken) (ap (λ t. t ++ rest) front) (keep f h)
]
IsSubseq-step clear_op s rest h = IsSubseq-prefix s.q (unfold apply in h)
IsSubseq-step _ s rest h = unfold apply in h

-- What the readers take, followed by what is left, is a subsequence of what the ring held at the
-- start followed by the frames offered since: no frame is reordered, duplicated or made up.
pub apply_all-InOrder :
    (os : List Op) (s : Shared) → IsSubseq (popped os s ++ (apply_all os s).q) (s.q ++ offered os s)
unfolding apply_all
apply_all-InOrder [] s = rw append-nil (IsSubseq-refl s.q)
apply_all-InOrder (o ∷ os) s =
    rw append_assoc (IsSubseq-step o s (offered os (apply o s)) (apply_all-InOrder os (apply o s)))

-- The operation does not flush the ring.
abbrev KeepsRing : Op → Type 0
KeepsRing clear_op = ⊥
KeepsRing _ = Unit

-- Without a flush, an operation that leaves the overrun latch clear found it clear.
overflow-step :
    (o : Op) (s : Shared) → KeepsRing o → (apply o s).overflow ≡ false → s.overflow ≡ false
unfolding apply
overflow-step (push_op now f) s k e = ground arith
overflow-step pop_op s k e = ground arith
overflow-step clear_op s k e = absurd k
overflow-step _ s k e = e

-- Such an operation loses nothing.
lossless-step :
    (o : Op) (s : Shared)
    → KeepsRing o
    → (apply o s).overflow ≡ false
    → s.q ++ offered_by o s ≡ taken_by o s.q ++ (apply o s).q
lossless-step (push_op now f) s k e = elim (push-cases now f s) [
  | inl (same, new) ↦ rw (new, append-nil) (sym same)
  | inr (inl (same, new, late)) ↦ cc
  | inr (inr (more, new)) ↦ rw new (sym more)
]
lossless-step pop_op s k e = elim (pop-cases s) [
  | inl (empty, same, none_taken) ↦ rw (append-nil, none_taken) (empty ∙ sym same)
  | inr (f, front, taken) ↦ rw (append-nil, taken) front
]
lossless-step clear_op s k e = absurd k
lossless-step _ s k e = unfold apply in append-nil s.q

apply_all-overflow :
    (os : List Op) (s : Shared)
    → All KeepsRing os
    → (apply_all os s).overflow ≡ false
    → s.overflow ≡ false
unfolding apply_all
apply_all-overflow [] s k e = e
apply_all-overflow (o ∷ os) s k e = overflow-step o s k.0 (apply_all-overflow os (apply o s) k.1 e)

-- While the overrun latch is clear and nothing flushed the ring, no accepted frame is lost: what
-- the readers took, followed by what is left, is all that was there and all that was offered.
pub apply_all-lossless :
    (os : List Op) (s : Shared)
    → All KeepsRing os
    → (apply_all os s).overflow ≡ false
    → popped os s ++ (apply_all os s).q ≡ s.q ++ offered os s
unfolding apply_all
apply_all-lossless [] s k e = sym (append-nil s.q)
apply_all-lossless (o ∷ os) s k e =
    let s' = apply o s in
    let calm = apply_all-overflow os s' k.1 e in
    append_assoc (taken_by o s.q) (popped os s') (apply_all os s').q
    ∙ ap (λ t. taken_by o s.q ++ t) (apply_all-lossless os s' k.1 e)
    ∙ sym (append_assoc (taken_by o s.q) s'.q (offered os s'))
    ∙ ap (λ t. t ++ offered os s') (sym (lossless-step o s k.0 calm))
    ∙ append_assoc s.q (offered_by o s) (offered os s')
