-- ===== src/Transport/Pushed.antt =====
-- What the ring of src/transport.rs holds after many frames came in.
use kvasilloni.Prelude.{
  ℕ, zero, suc, ◌≤◌, ◌≡◌, ap, sym, refl, ◌∙◌, inl, inr, Bool-cases, leb, true, List, [], ◌∷◌, ◌++◌,
  length, take, if◌then◌else◌, arith, length-append, append_assoc, take-append, append-nil,
}
use mathlib.Core.Path.{subst}
use kvasilloni.Wire.Frame.{Frame}
use kvasilloni.Transport.Filter.{Accept, accepts}
use kvasilloni.Transport.Shared.{Shared, push, stamped, ring_cap}
use kvasilloni.Transport.Rx.{push_all}

-- The frames that the filter lets through, with the time of reception.
abbrev pub wanted : ℕ → Accept → List Frame → List Frame
wanted now a [] = []
wanted now a (f ∷ fs) = if accepts a f then stamped now f ∷ wanted now a fs else wanted now a fs

-- As many as the ring can hold, the oldest first.
abbrev pub fitting : List Frame → List Frame
fitting q = take ring_cap q

take-all : (n : ℕ) (xs ys : List Frame) → length xs ≡ n → take n (xs ++ ys) ≡ xs
take-all n xs ys e = subst (λ k. take k (xs ++ ys) ≡ xs) e (take-append xs ys)

take-long : (n : ℕ) (xs : List Frame) → length xs ≤ n → take n xs ≡ xs
take-long zero [] h = refl
take-long zero (x ∷ xs) h = absurd (omega (arith, h))
take-long (suc n) [] h = refl
take-long (suc n) (x ∷ xs) h = ap (◌∷◌ x) (take-long n xs (omega (arith, h)))

fits : (q : List Frame) → length q ≤ ring_cap → take ring_cap (q ++ []) ≡ q
fits q h = ap fitting (append-nil q) ∙ take-long ring_cap q h

pub push_all-q :
    (now : ℕ) (fs : List Frame) (s : Shared)
    → length s.q ≤ ring_cap
    → (push_all now fs s).0.q ≡ fitting (s.q ++ wanted now s.filters fs)
unfolding push_all push
push_all-q now [] s h = sym (fits s.q h)
push_all-q now (f ∷ fs) s h = elim (Bool-cases (accepts s.filters f)) [
  | inr refused ↦ rw refused (push_all-q now fs s h)
  | inl taken ↦ elim (Bool-cases (leb ring_cap (length s.q))) [
    | inl full ↦
        let n : length s.q ≡ ring_cap = ground (arith, full, h) in
        rw (taken, full)
          (push_all-q now fs (record s { overflow = true }) h
            ∙ take-all ring_cap s.q (wanted now s.filters fs) n
            ∙ sym (take-all ring_cap s.q (stamped now f ∷ wanted now s.filters fs) n))
    | inr space ↦
        let s' = record s { q = s.q ++ stamped now f ∷ [] } in
        let room : length s'.q ≤ ring_cap =
          ground (arith, space, length-append s.q (stamped now f ∷ [])) in
        rw (taken, space)
          (push_all-q now fs s' room
            ∙ ap fitting (append_assoc s.q (stamped now f ∷ []) (wanted now s.filters fs)))
  ]
]
