-- ===== src/Api/Handles.antt =====
-- The table of handles: what a call may touch, and the life of a handle.
use kvasilloni.Prelude.{
  ℕ, ◌+◌, ◌%◌, ◌^◌, ◌<◌, ◌≤◌, ◌≡◌, ◌≢◌, refl, Bool, [], ◌∷◌, none, some, arith, All,
}
use kvasilloni.Config.Types.{Config}
use kvasilloni.Transport.Peers.{ok}
use kvasilloni.Transport.Conn.{Conn, Sockets, connect, set_fd_capable}
use kvasilloni.Api.Codes.{can_ok, can_open_can_fd}
use kvasilloni.Api.Table.{Conns, World, lookup, insert, remove, can_open_channel, can_close}
use kvasilloni.Wire.Flags.{has}

pub lookup-insert_self : (h : ℕ) (c : Conn) (m : Conns) → lookup h (insert h c m) ≡ some c
unfolding lookup insert
lookup-insert_self h c [] = ground arith
lookup-insert_self h c ((k, d) ∷ m) = ground (arith, lookup-insert_self h c m)

pub lookup-insert_other :
    (h k : ℕ) (c : Conn) (m : Conns) → h ≢ k → lookup h (insert k c m) ≡ lookup h m
unfolding lookup insert
lookup-insert_other h k c [] ne = ground arith
lookup-insert_other h k c ((i, d) ∷ m) ne = ground (arith, lookup-insert_other h k c m ne)

pub lookup-remove_other : (h k : ℕ) (m : Conns) → h ≢ k → lookup h (remove k m) ≡ lookup h m
unfolding lookup remove
lookup-remove_other h k [] ne = refl
lookup-remove_other h k ((i, d) ∷ m) ne = ground (arith, lookup-remove_other h k m ne)

-- Every key is in use only once, and was handed out before `next`.
abbrev pub Before : ℕ → ℕ × Conn → Type 0
Before next e = e.0 < next

-- The handle is no key of the table.
abbrev pub Fresh : ℕ → Conns → Type 0
Fresh h [] = Unit
Fresh h ((k, d) ∷ m) = (k ≢ h) × Fresh h m

abbrev pub Unique : Conns → Type 0
Unique [] = Unit
Unique ((k, d) ∷ m) = Fresh k m × Unique m

-- The table of a world: each key once, and all below the next handle, which is a positive c_int.
pub record IsTable (w : World) : Type 0 where
  pub unique : Unique w.conns
  pub below : All (Before w.next_handle) w.conns
  pub positive : 1 ≤ w.next_handle

pub lookup-Fresh : (h : ℕ) (m : Conns) → Fresh h m → lookup h m ≡ none
unfolding lookup
lookup-Fresh h [] f = refl
lookup-Fresh h ((k, d) ∷ m) f = ground (arith, lookup-Fresh h m f.1, f.0)

pub lookup-remove_self : (h : ℕ) (m : Conns) → Unique m → lookup h (remove h m) ≡ none
unfolding remove lookup
lookup-remove_self h [] u = refl
lookup-remove_self h ((k, d) ∷ m) u =
    ground (arith, lookup-remove_self h m u.1, lookup-Fresh h m, u.0)

pub Fresh-below : (h : ℕ) (m : Conns) → All (Before h) m → Fresh h m
Fresh-below h [] b = tt
Fresh-below h ((k, d) ∷ m) b = (ground (arith, b.0), Fresh-below h m b.1)

Fresh-insert : (h k : ℕ) (c : Conn) (m : Conns) → k ≢ h → Fresh h m → Fresh h (insert k c m)
unfolding insert
Fresh-insert h k c [] ne f = (ne, tt)
Fresh-insert h k c ((i, d) ∷ m) ne f = ground (arith, f, ne, Fresh-insert h k c m ne f.1)

pub Unique-insert : (k : ℕ) (c : Conn) (m : Conns) → Unique m → Unique (insert k c m)
unfolding insert
Unique-insert k c [] u = (tt, tt)
Unique-insert k c ((i, d) ∷ m) u = ground (arith, u, Unique-insert k c m u.1, Fresh-insert i k c m)

pub below-insert :
    (n k : ℕ) (c : Conn) (m : Conns) → k < n → All (Before n) m → All (Before n) (insert k c m)
unfolding insert
below-insert n k c [] h b = (h, tt)
below-insert n k c ((i, d) ∷ m) h b = ground (arith, h, b, below-insert n k c m h b.1)

pub below-weaken : (n : ℕ) (m : Conns) → All (Before n) m → All (Before (n + 1)) m
below-weaken n [] b = tt
below-weaken n ((k, d) ∷ m) b = (omega (arith, b.0), below-weaken n m b.1)

Fresh-remove : (h k : ℕ) (m : Conns) → Fresh h m → Fresh h (remove k m)
unfolding remove
Fresh-remove h k [] f = tt
Fresh-remove h k ((i, d) ∷ m) f = ground (arith, f, Fresh-remove h k m f.1)

pub Unique-remove : (k : ℕ) (m : Conns) → Unique m → Unique (remove k m)
unfolding remove
Unique-remove k [] u = tt
Unique-remove k ((i, d) ∷ m) u = ground (arith, u, Unique-remove k m u.1, Fresh-remove i k m u.0)

pub below-remove : (n k : ℕ) (m : Conns) → All (Before n) m → All (Before n) (remove k m)
unfolding remove
below-remove n k [] b = tt
below-remove n k ((i, d) ∷ m) b = ground (arith, b, below-remove n k m b.1)

-- Opening a channel, when the connection succeeds, gives the next handle, which was not in use;
-- the handle finds the new connection, every other handle finds what it found before, and the
-- table stays well formed. The handle counter must not have reached the end of the positive c_int.
pub can_open_channel-ok :
    (net : Sockets) (cfg : Config) (flags : ℕ) (c : Conn) (w : World)
    → IsTable w
    → w.next_handle + 1 < 2 ^ 31
    → connect net cfg ≡ ok c
    → let (w', h) = can_open_channel net cfg flags w in
      (h ≡ w.next_handle)
      × (lookup h w.conns ≡ none)
      × (lookup h w'.conns ≡ some (set_fd_capable (has flags can_open_can_fd) c))
      × ((k : ℕ) → k ≢ h → lookup k w'.conns ≡ lookup k w.conns)
      × IsTable w'
unfolding can_open_channel
can_open_channel-ok net cfg flags c w t room opened = rw opened (
  refl,
  lookup-Fresh w.next_handle w.conns (Fresh-below w.next_handle w.conns t.below),
  lookup-insert_self w.next_handle (set_fd_capable (has flags can_open_can_fd) c) w.conns,
  λ k ne.
      lookup-insert_other k w.next_handle (set_fd_capable (has flags can_open_can_fd) c) w.conns ne,
  record {
    unique =
        Unique-insert w.next_handle (set_fd_capable (has flags can_open_can_fd) c) w.conns t.unique;
    below =
        (let e : (w.next_handle + 1) % 2 ^ 32 ≡ w.next_handle + 1 = omega (arith, room) in
          rw e (
            below-insert (w.next_handle + 1) w.next_handle
              (set_fd_capable (has flags can_open_can_fd) c) w.conns (omega arith)
              (below-weaken w.next_handle w.conns t.below)));
    positive = omega (arith, room);
  },
)

-- Closing a handle returns canOK whether or not it is open; afterwards it finds no connection,
-- every other handle finds what it found before, and the table stays well formed.
pub can_close_lem :
    (on_rx : Bool) (hnd : ℕ) (w : World)
    → IsTable w
    → let (w', closed, code) = can_close on_rx hnd w in
      (code ≡ can_ok)
      × (lookup hnd w'.conns ≡ none)
      × ((k : ℕ) → k ≢ hnd → lookup k w'.conns ≡ lookup k w.conns)
      × IsTable w'
unfolding can_close
can_close_lem on_rx hnd w t = (
  refl,
  lookup-remove_self hnd w.conns t.unique,
  λ k ne. lookup-remove_other k hnd w.conns ne,
  record {
    unique = Unique-remove hnd w.conns t.unique;
    below = below-remove w.next_handle hnd w.conns t.below;
    positive = t.positive;
  },
)
