-- ===== src/UnitTests/TransportRing.antt =====
-- The tests of src/transport.rs on the receive state: the ring, the filter, the waits and the
-- notify callback. What the other threads do during a wait is the list of their operations.
use kvasilloni.Prelude.{
  ℕ, zero, suc, ◌+◌, ◌≤◌, ◌≡◌, refl, true, false, not, ◌&&◌, [], ◌∷◌, Option, none, some, bit_or,
  leb, le→leb,
}
use kvasilloni.Prelude.Bytes.{u32_from_be}
use kvasilloni.Prelude.Exec.{◌>>=◌}
use kvasilloni.Wire.Flags.{can_eff_flag, can_eff_mask, can_sff_mask}
use kvasilloni.Wire.Frame.{Frame, default_frame, canid_to_kvaser}
use kvasilloni.Transport.Peers.{IpAddr, v4, v6, ip_eq, peer_allowed, wildcard_for}
use kvasilloni.Transport.Filter.{accepts}
use kvasilloni.Transport.Shared.{
  Shared, new_shared, Call, notify_rx, ring_cap, push, pop, clear, level, overflowed, set_accept,
  set_notify,
}
use kvasilloni.UnitTests.Asserts.{Test, passed, ◌>>◌, assert, assert_eq, expect, is_none}

abbrev pub frame : ℕ → Frame
frame can_id = record default_frame { can_id = can_id; len = 1 }

-- The identifier of the frame that a call gives is this one.
abbrev pub gives_id : Option Frame → ℕ → Test
gives_id r id = do f ← expect r; assert_eq f.can_id id

unfoldable pub push_pop_and_clear : ℕ → Test
unfolding push pop clear level accepts
push_pop_and_clear now = do
  let (s1, _) = push now (frame 0x100) new_shared
  let (s2, _) = push now (frame 0x200) s1
  assert_eq (level s2) 2
  let (s3, r) = pop s2
  gives_id r 0x100
  let s4 = clear s3
  assert_eq (level s4) 0
  let (s5, r') = pop s4
  assert (is_none r')

push_pop_and_clear_passes : (now : ℕ) → push_pop_and_clear now ≡ passed
unfolding push_pop_and_clear
push_pop_and_clear_passes now = refl

-- `for i in from..from + n { s.push(make(i)) }`
unfoldable pub push_counted : ℕ → (ℕ → Frame) → ℕ → ℕ → Shared → Shared
unfolding push
push_counted now make zero from s = s
push_counted now make (suc n) from s = push_counted now make n (from + 1) (push now (make from) s).0

unfoldable pub overflow_latches_on_full_ring_and_clears_on_flush : ℕ → Test
unfolding push_counted level overflowed clear
overflow_latches_on_full_ring_and_clears_on_flush now = do
  assert (not (overflowed new_shared))
  let s = push_counted now (λ i. frame (0x100 + i)) (ring_cap + 10) 0 new_shared
  assert (overflowed s)
  assert_eq (level s) ring_cap
  assert (not (overflowed (clear s)))

-- The clock is read before, in and after `push`.
unfoldable pub push_stamps_receive_timestamp : ℕ → ℕ → ℕ → Test
unfolding push pop accepts
push_stamps_receive_timestamp t0 now t1 = do
  let (s, _) = push now (frame 0x7ff) new_shared
  let (s', r) = pop s
  f ← expect r
  assert (leb t0 f.rx_time_ms && leb f.rx_time_ms t1)

push_stamps_receive_timestamp_passes :
    (t0 now t1 : ℕ) → t0 ≤ now → now ≤ t1 → push_stamps_receive_timestamp t0 now t1 ≡ passed
unfolding push_stamps_receive_timestamp
push_stamps_receive_timestamp_passes t0 now t1 h k = rw (le→leb t0 now h, le→leb now t1 k) refl

-- The IPv4 address of four bytes.
abbrev pub v4_of : ℕ → ℕ → ℕ → ℕ → IpAddr
v4_of a b c d = v4 (u32_from_be a b c d)

unfoldable pub peer_allowed_matches_only_listed_ips_unless_disabled : Test
unfolding peer_allowed
peer_allowed_matches_only_listed_ips_unless_disabled = do
  let a = v4_of 127 0 0 1
  let b = v4_of 10 0 0 9
  let allow = a ∷ []
  assert (peer_allowed a allow true)
  assert (not (peer_allowed b allow true))
  assert (peer_allowed b allow false)

peer_allowed_matches_only_listed_ips_unless_disabled_passes :
    peer_allowed_matches_only_listed_ips_unless_disabled ≡ passed
unfolding peer_allowed_matches_only_listed_ips_unless_disabled
peer_allowed_matches_only_listed_ips_unless_disabled_passes = refl

unfoldable pub wildcard_matches_peer_family : Test
wildcard_matches_peer_family = do
  assert (ip_eq (wildcard_for (v4_of 127 0 0 1)) (v4 0))
  assert (ip_eq (wildcard_for (v6 1)) (v6 0))

wildcard_matches_peer_family_passes : wildcard_matches_peer_family ≡ passed
unfolding wildcard_matches_peer_family
wildcard_matches_peer_family_passes = refl

unfoldable pub accept_filter_drops_nonmatching : ℕ → Test
unfolding set_accept push pop level accepts
accept_filter_drops_nonmatching now = do
  let s0 = set_accept 4 can_sff_mask (set_accept 3 0x123 new_shared)
  let (s1, _) = push now (frame 0x123) s0
  let (s2, _) = push now (frame 0x124) s1
  assert_eq (level s2) 1
  gives_id (pop s2).1 0x123

accept_filter_drops_nonmatching_passes : (now : ℕ) → accept_filter_drops_nonmatching now ≡ passed
unfolding accept_filter_drops_nonmatching
accept_filter_drops_nonmatching_passes now = refl

unfoldable pub ext_filter_independent_of_std : ℕ → Test
unfolding set_accept push level accepts
ext_filter_independent_of_std now = do
  let s0 = set_accept 6 can_eff_mask (set_accept 5 0x18ee_ff00 new_shared)
  let (s1, _) = push now (frame 0x123) s0
  let (s2, _) = push now (frame (bit_or 0x18ee_ff00 can_eff_flag)) s1
  let (s3, _) = push now (frame (bit_or 0x18ee_ff01 can_eff_flag)) s2
  assert_eq (level s3) 2

ext_filter_independent_of_std_passes : (now : ℕ) → ext_filter_independent_of_std now ≡ passed
unfolding ext_filter_independent_of_std
ext_filter_independent_of_std_passes now = refl

-- A call of the app's callback counts, and keeps the identifier it was called with.
abbrev pub counted_call : Option Call → ℕ × ℕ → ℕ × ℕ
counted_call none c = c
counted_call (some (cb, d)) (count, last_id) = (count + 1, d.id)

-- The address of the callback.
abbrev pub some_cb : ℕ
some_cb = 0x1000

unfoldable pub notify_fires_for_each_rx_when_armed : ℕ → Test
unfolding set_notify push accepts
notify_fires_for_each_rx_when_armed now = do
  let s0 = set_notify some_cb notify_rx 0 new_shared
  let (s1, call) = push now (frame 0x111) s0
  let (s2, call') = push now (frame 0x222) s1
  let (count, last_id) = counted_call call' (counted_call call (0, 0))
  assert_eq count 2
  assert_eq last_id 0x222
  let (s3, call'') = push now (frame 0x333) (set_notify 0 0 0 s2)
  assert_eq (counted_call call'' (count, last_id)).0 2

notify_fires_for_each_rx_when_armed_passes :
    (now : ℕ) → notify_fires_for_each_rx_when_armed now ≡ passed
unfolding notify_fires_for_each_rx_when_armed canid_to_kvaser
notify_fires_for_each_rx_when_armed_passes now = refl

unfoldable pub notify_silent_when_flag_not_set : ℕ → Test
unfolding set_notify push accepts
notify_silent_when_flag_not_set now = do
  let (s, call) = push now (frame 0x111) (set_notify some_cb 0 0 new_shared)
  assert_eq (counted_call call (0, 0)).0 0

notify_silent_when_flag_not_set_passes : (now : ℕ) → notify_silent_when_flag_not_set now ≡ passed
unfolding notify_silent_when_flag_not_set
notify_silent_when_flag_not_set_passes now = refl

-- A push, and the callback that it fires: one that disarms itself, on this thread.
abbrev pub disarms_self : Shared × Option Call → Shared
disarms_self (s, none) = s
disarms_self (s, some c) = set_notify 0 0 0 s

unfoldable pub set_notify_reentrant_does_not_deadlock : ℕ → Test
unfolding set_notify push accepts
set_notify_reentrant_does_not_deadlock now = do
  let s0 = set_notify some_cb notify_rx 0 new_shared
  let (s1, call) = push now (frame 0x123) s0
  assert_eq (counted_call call (0, 0)).0 1
  let s2 = disarms_self (s1, call)
  assert_eq s2.notify.cb 0
  let (s3, call') = push now (frame 0x124) s2
  assert_eq (counted_call call' (1, 0)).0 1

set_notify_reentrant_does_not_deadlock_passes :
    (now : ℕ) → set_notify_reentrant_does_not_deadlock now ≡ passed
unfolding set_notify_reentrant_does_not_deadlock
set_notify_reentrant_does_not_deadlock_passes now = refl
