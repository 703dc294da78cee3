-- ===== src/Transport/PeerCheck.antt =====
-- The peer check of the UDP receive loop.
use kvasilloni.Prelude.{
  ℕ, ◌≡◌, refl, inl, inr, true, false, List, [], ◌∷◌, take, if◌then◌else◌, Bool-cases,
}
use kvasilloni.Transport.Peers.{IpAddr, IoError, would_block, timed_out, ok, err, peer_allowed}
use kvasilloni.Transport.Allowed.{IsListed, peer_allowed-listed, listed-peer_allowed}
use kvasilloni.Transport.Shared.{Shared}
use kvasilloni.Transport.Rx.{Datagram, guarded_udp_ingest, udp_rx_loop}

-- The events without the datagrams of the peers that are not allowed.
abbrev pub only_allowed : List IpAddr → List Datagram → List Datagram
only_allowed allow [] = []
only_allowed allow (ok (bytes, from) ∷ events) =
    if peer_allowed from allow true
    then ok (bytes, from) ∷ only_allowed allow events
    else only_allowed allow events
only_allowed allow (err e ∷ events) = err e ∷ only_allowed allow events

-- The second list is the first without the datagrams whose sender is not in the list of addresses.
pub data Without (allow : List IpAddr) : List Datagram → List Datagram → Type 0 where
  none_left : Without allow [] []
  keeps :
      {bytes : List ℕ} {from : IpAddr} {es fs : List Datagram}
      → IsListed from allow
      → Without allow es fs
      → Without allow (ok (bytes, from) ∷ es) (ok (bytes, from) ∷ fs)
  leaves_out :
      {bytes : List ℕ} {from : IpAddr} {es fs : List Datagram}
      → ¬ IsListed from allow
      → Without allow es fs
      → Without allow (ok (bytes, from) ∷ es) fs
  fails :
      {e : IoError} {es fs : List Datagram}
      → Without allow es fs
      → Without allow (err e ∷ es) (err e ∷ fs)

only_allowed-Without :
    (allow : List IpAddr) (events : List Datagram)
    → Without allow events (only_allowed allow events)
only_allowed-Without allow [] = none_left
only_allowed-Without allow (ok (bytes, from) ∷ events) =
    elim (Bool-cases (peer_allowed from allow true)) [
      | inl allowed ↦
          rw allowed
            (keeps (peer_allowed-listed from allow allowed) (only_allowed-Without allow events))
      | inr refused ↦ rw refused (
          leaves_out (λ h. let e = listed-peer_allowed from allow h in cc)
            (only_allowed-Without allow events))
    ]
only_allowed-Without allow (err e ∷ events) = fails (only_allowed-Without allow events)

anyone_allowed : (from : IpAddr) (allow : List IpAddr) → peer_allowed from allow false ≡ true
unfolding peer_allowed
anyone_allowed from allow = refl

loop-only_allowed :
    (now : ℕ) (events : List Datagram) (allow : List IpAddr) (s : Shared)
    → udp_rx_loop now events allow true s
      ≡ udp_rx_loop now (only_allowed allow events) allow false s
unfolding udp_rx_loop
loop-only_allowed now [] allow s = refl
loop-only_allowed now (ok (bytes, from) ∷ events) allow s =
    elim (Bool-cases (peer_allowed from allow true)) [
      | inl allowed ↦
          let s' = (guarded_udp_ingest now (take 2048 bytes) s).0 in
          rw (allowed, anyone_allowed from allow, loop-only_allowed now events allow s') refl
      | inr refused ↦ rw refused (loop-only_allowed now events allow s)
    ]
loop-only_allowed now (err would_block ∷ events) allow s = loop-only_allowed now events allow s
loop-only_allowed now (err timed_out ∷ events) allow s = loop-only_allowed now events allow s
loop-only_allowed now (err _ ∷ events) allow s = refl

-- With the peer check on, the receive loop does what it does without it on the datagrams that are
-- left without those whose sender's address is not in the list: these change neither the ring nor
-- the latches and fire no callback.
pub udp_rx_loop-only_allowed :
    (now : ℕ) (events : List Datagram) (allow : List IpAddr) (s : Shared)
    → (kept : List Datagram) × Without allow events kept
      × (udp_rx_loop now events allow true s ≡ udp_rx_loop now kept allow false s)
udp_rx_loop-only_allowed now events allow s = (
  only_allowed allow events,
  only_allowed-Without allow events,
  loop-only_allowed now events allow s,
)
