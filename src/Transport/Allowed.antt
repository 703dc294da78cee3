-- ===== src/Transport/Allowed.antt =====
-- Whom the peer check of src/transport.rs lets in, against the list of addresses.
use kvasilloni.Prelude.{◌≡◌, ◌≢◌, refl, ap, sym, inl, inr, true, List, [], ◌∷◌, arith, Bool-cases}
use mathlib.Core.Path.{subst}
use kvasilloni.Config.Types.{Config}
use kvasilloni.Transport.Peers.{IpAddr, v4, v6, ip_eq, any_ip, peer_allowed, effective_allow}

pub data IsListed (a : IpAddr) : List IpAddr → Type 0 where
  first : {rest : List IpAddr} → IsListed a (a ∷ rest)
  later : {b : IpAddr} {rest : List IpAddr} → IsListed a rest → IsListed a (b ∷ rest)

ip_eq_refl : (a : IpAddr) → ip_eq a a ≡ true
ip_eq_refl (v4 n) = ground arith
ip_eq_refl (v6 n) = ground arith

ip_eq-same : (a b : IpAddr) → ip_eq a b ≡ true → a ≡ b
ip_eq-same (v4 n) (v4 m) e = let same : n ≡ m = ground (arith, e) in ap v4 same
ip_eq-same (v4 n) (v6 m) e = cc
ip_eq-same (v6 n) (v4 m) e = cc
ip_eq-same (v6 n) (v6 m) e = let same : n ≡ m = ground (arith, e) in ap v6 same

any_ip-listed : (a : IpAddr) (allow : List IpAddr) → any_ip a allow ≡ true → IsListed a allow
any_ip-listed a [] e = cc
any_ip-listed a (b ∷ rest) e = elim (Bool-cases (ip_eq b a)) [
  | inl same ↦ subst (λ x. IsListed a (x ∷ rest)) (sym (ip_eq-same b a same)) first
  | inr other ↦ later (any_ip-listed a rest (rw other at e))
]

listed-any_ip : (a : IpAddr) (allow : List IpAddr) → IsListed a allow → any_ip a allow ≡ true
listed-any_ip a [] h = elim h [ ]
listed-any_ip a (b ∷ rest) first = rw (ip_eq_refl a) refl
listed-any_ip a (b ∷ rest) (later h) = elim (Bool-cases (ip_eq b a)) [
  | inl same ↦ rw same refl
  | inr other ↦ rw other (listed-any_ip a rest h)
]

pub peer_allowed-listed :
    (a : IpAddr) (allow : List IpAddr) → peer_allowed a allow true ≡ true → IsListed a allow
unfolding peer_allowed
peer_allowed-listed a allow e = any_ip-listed a allow e

pub listed-peer_allowed :
    (a : IpAddr) (allow : List IpAddr) → IsListed a allow → peer_allowed a allow true ≡ true
unfolding peer_allowed
listed-peer_allowed a allow h = listed-any_ip a allow h

-- A peer that the configuration lets in: any, with the check off, and else one of the list, or the
-- configured peer where the list is empty.
pub record MayEnter (cfg : Config) (peer a : IpAddr) : Type 0 where
  pub by_list : cfg.peer_check ≡ true → cfg.allow ≢ [] → IsListed a cfg.allow
  pub by_default : cfg.peer_check ≡ true → cfg.allow ≡ [] → a ≡ peer

only-peer : (a peer : IpAddr) → IsListed a (peer ∷ []) → a ≡ peer
only-peer a _ first = refl
only-peer a peer (later h) = elim h [ ]

pub peer_allowed-MayEnter :
    (cfg : Config) (peer a : IpAddr)
    → peer_allowed a (effective_allow cfg.allow peer) cfg.peer_check ≡ true
    → MayEnter cfg peer a
unfolding effective_allow
peer_allowed-MayEnter cfg peer a h = record {
  by_list = λ on some_listed. by_list cfg.allow some_listed (listed on);
  by_default = λ on empty.
      only-peer a peer (subst (λ m. IsListed a (effective_allow m peer)) empty (listed on));
}
  where
    listed : cfg.peer_check ≡ true → IsListed a (effective_allow cfg.allow peer)
    listed on = peer_allowed-listed a (effective_allow cfg.allow peer) (rw on at h)

    by_list : (m : List IpAddr) → m ≢ [] → IsListed a (effective_allow m peer) → IsListed a m
    by_list [] ne i = absurd (ne refl)
    by_list (b ∷ rest) ne i = i
