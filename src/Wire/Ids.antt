-- ===== src/Wire/Ids.antt =====
-- The translation of identifiers and message flags, as arithmetic, and its round trips.
use kvasilloni.Prelude.{
  ℕ, ◌+◌, ◌/◌, ◌%◌, ◌^◌, ◌≤◌, ◌<◌, ◌≡◌, Bool, true, ◌||◌, leb, ◌==◌, if◌then◌else◌, arith,
}
use kvasilloni.Prelude.Bits.{bit_and_flag, bit_and_mask, bit_or_flag}
use kvasilloni.Wire.Flags.{has, fd_round_len, kvaser_to_fd_flags, fd_flags_to_kvaser}
use kvasilloni.Wire.Frame.{kvaser_to_canid, canid_to_kvaser}

-- The digit of weight `2 ^ k`, as a Boolean.
abbrev pub set? : ℕ → ℕ → Bool
set? k x = x / 2 ^ k % 2 == 1

pub has-set? : (k x : ℕ) → 1 ≤ 2 ^ k → has x (2 ^ k) ≡ set? k x
has-set? k x h = grind (arith, bit_and_flag k x)

-- What `kvaser_to_canid` computes.
abbrev pub canid_of : Bool → Bool → ℕ → ℕ
canid_of ext rtr id =
    (if ext then id % 2 ^ 29 + 2 ^ 31 else id % 2 ^ 11) + (if rtr then 2 ^ 30 else 0)

pub kvaser_to_canid-eq :
    (id flag : ℕ) → kvaser_to_canid id flag ≡ canid_of (set? 2 flag) (set? 0 flag) id
unfolding kvaser_to_canid
kvaser_to_canid-eq id flag = ground (
  arith,
  has-set? 2 flag (omega arith),
  has-set? 0 flag (omega arith),
  bit_and_mask 29 id,
  bit_and_mask 11 id,
  bit_or_flag 31 (id % 2 ^ 29),
  bit_or_flag 30 (id % 2 ^ 29 + 2 ^ 31),
  bit_or_flag 30 (id % 2 ^ 11),
)

abbrev pub flags_of : Bool → Bool → Bool → ℕ
flags_of ext rtr fd = (if ext then 4 else 2) + (if rtr then 1 else 0) + (if fd then 2 ^ 16 else 0)

pub canid_to_kvaser-eq :
    (c : ℕ) (fd : Bool)
    → canid_to_kvaser c fd
      ≡ (if set? 31 c then c % 2 ^ 29 else c % 2 ^ 11, flags_of (set? 31 c) (set? 30 c) fd)
unfolding canid_to_kvaser
canid_to_kvaser-eq c fd = ground (
  arith,
  has-set? 31 c (omega arith),
  has-set? 30 c (omega arith),
  bit_and_mask 29 c,
  bit_and_mask 11 c,
)

pub canid_to_kvaser-kvaser_to_canid :
    (id flag : ℕ) (fd : Bool)
    → canid_to_kvaser (kvaser_to_canid id flag) fd
      ≡ (if set? 2 flag then id % 2 ^ 29 else id % 2 ^ 11, flags_of (set? 2 flag) (set? 0 flag) fd)
canid_to_kvaser-kvaser_to_canid id flag fd =
    ground (arith, kvaser_to_canid-eq id flag, canid_to_kvaser-eq (kvaser_to_canid id flag) fd)

-- A SocketCAN identifier with no bits outside its kind: 29 bits under the extended flag, 11 bits
-- otherwise, and the flag of a remote request.
pub record IsCanonical (c : ℕ) : Type 0 where
  pub fits : c < 2 ^ 32
  pub standard : c < 2 ^ 31 → c % 2 ^ 30 < 2 ^ 11
  pub extended : 2 ^ 31 ≤ c → c % 2 ^ 30 < 2 ^ 29

-- Receiving a canonical identifier and sending it back gives the same identifier.
pub kvaser_to_canid-canid_to_kvaser :
    (c : ℕ) (fd : Bool)
    → IsCanonical c
    → kvaser_to_canid (canid_to_kvaser c fd).0 (canid_to_kvaser c fd).1 ≡ c
kvaser_to_canid-canid_to_kvaser c fd v = ground (
  arith,
  canid_to_kvaser-eq c fd,
  kvaser_to_canid-eq (canid_to_kvaser c fd).0 (canid_to_kvaser c fd).1,
  v.fits,
  v.standard,
  v.extended,
)

-- What `kvaser_to_canid` makes is canonical.
pub kvaser_to_canid-IsCanonical : (id flag : ℕ) → IsCanonical (kvaser_to_canid id flag)
kvaser_to_canid-IsCanonical id flag = ground (arith, kvaser_to_canid-eq id flag)

fd_flags_to_kvaser-eq :
    (x : ℕ)
    → fd_flags_to_kvaser x ≡ (if set? 0 x then 2 ^ 17 else 0) + (if set? 1 x then 2 ^ 18 else 0)
unfolding fd_flags_to_kvaser
fd_flags_to_kvaser-eq x = ground (arith, has-set? 0 x (omega arith), has-set? 1 x (omega arith))

pub kvaser_to_fd_flags-eq :
    (k : ℕ) → kvaser_to_fd_flags k ≡ (if set? 17 k then 1 else 0) + (if set? 18 k then 2 else 0)
unfolding kvaser_to_fd_flags
kvaser_to_fd_flags-eq k = ground (arith, has-set? 17 k (omega arith), has-set? 18 k (omega arith))

-- The bit-rate switch and the error indicator survive both translations, and no other flag does.
pub kvaser_to_fd_flags-fd_flags_to_kvaser :
    (x : ℕ) → kvaser_to_fd_flags (fd_flags_to_kvaser x) ≡ x % 4
kvaser_to_fd_flags-fd_flags_to_kvaser x =
    ground (arith, fd_flags_to_kvaser-eq x, kvaser_to_fd_flags-eq (fd_flags_to_kvaser x))

-- What `canWrite` takes from the caller's flags comes back in the reader's flags.
pub fd_flags_to_kvaser-kvaser_to_fd_flags :
    (k : ℕ)
    → fd_flags_to_kvaser (kvaser_to_fd_flags k)
      ≡ (if set? 17 k then 2 ^ 17 else 0) + (if set? 18 k then 2 ^ 18 else 0)
fd_flags_to_kvaser-kvaser_to_fd_flags k =
    ground (arith, fd_flags_to_kvaser-eq (kvaser_to_fd_flags k), kvaser_to_fd_flags-eq k)

pub kvaser_to_fd_flags-lt : (k : ℕ) → kvaser_to_fd_flags k < 4
kvaser_to_fd_flags-lt k = ground (arith, kvaser_to_fd_flags-eq k)

-- The lengths that a CAN FD frame can have.
abbrev pub is_fd_len : ℕ → Bool
is_fd_len n = leb n 8 || n == 12 || n == 16 || n == 20 || n == 24 || n == 32 || n == 48 || n == 64

-- `fd_round_len` gives the least CAN FD length that holds `n` bytes, for every `n` up to 64.
pub fd_round_len-least :
    (n : ℕ)
    → n ≤ 64
    → (is_fd_len (fd_round_len n) ≡ true)
      × (n ≤ fd_round_len n)
      × ((m : ℕ) → is_fd_len m ≡ true → n ≤ m → fd_round_len n ≤ m)
unfolding fd_round_len
fd_round_len-least n h = (ground arith, ground arith, λ m valid le. ground arith)

pub fd_round_len-le : (n : ℕ) → fd_round_len n ≤ 64
unfolding fd_round_len
fd_round_len-le n = ground arith
