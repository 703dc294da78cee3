-- ===== src/System/Described.antt =====
-- The frame that a caller describes to `canWrite` of src/lib.rs, independently of how it is built.
use kvasilloni.Prelude.{
  ℕ, zero, suc, ◌+◌, ◌%◌, ◌^◌, ◌≤◌, ◌≡◌, refl, ap, ◌∙◌, false, List, [], ◌∷◌, ◌++◌, none, some,
  length, take, drop, min, leb, if◌then◌else◌, arith, length-take, inl, inr, Bool-cases,
}
use mathlib.Core.Path.{subst}
use kvasilloni.Wire.Flags.{fd_round_len, kvaser_to_fd_flags}
use kvasilloni.Wire.Frame.{Frame, kvaser_to_canid}
use kvasilloni.Wire.Ids.{set?, has-set?, canid_of, kvaser_to_canid-eq, kvaser_to_fd_flags-eq}
use kvasilloni.Wire.Encoded.{delivered}
use kvasilloni.Api.Memory.{Buffer}
use kvasilloni.Api.Send.{header_of, user_bytes}
use kvasilloni.Api.Sending.{blank, Holds, payload, filled_with}
use kvasilloni.Api.ReadBack.{remote_id}

abbrev first_above : ℕ → List ℕ → ℕ
first_above n [] = n
first_above n (m ∷ ms) = if leb n m then m else first_above n ms

-- The least length of a CAN FD frame that holds `n` bytes.
abbrev pub fd_len : ℕ → ℕ
fd_len n = if leb n 8 then n else first_above n (12 ∷ 16 ∷ 20 ∷ 24 ∷ 32 ∷ 48 ∷ 64 ∷ [])

-- How many of the caller's bytes count.
abbrev pub taken : ℕ → ℕ → ℕ
taken dlc flag = if set? 16 flag then min dlc 64 else min dlc 8

-- The caller's bytes, with zeros behind up to 64; none of a null pointer.
abbrev pub data_of : Buffer → ℕ → List ℕ
data_of none n = blank
data_of (some buf) n = take n buf ++ drop n blank

-- The identifier cut to its kind, with the bits of the extended kind (31) and of a remote request
-- (30); the class; the two switches of CAN FD; the length; the bytes, none for a remote request.
abbrev pub described : ℕ → Buffer → ℕ → ℕ → Frame
described id msg dlc flag = record {
  can_id = canid_of (set? 2 flag) (set? 0 flag) (id % 2 ^ 32);
  len = if set? 16 flag then fd_len (taken dlc flag) else taken dlc flag;
  fd = set? 16 flag;
  fd_flags =
      if set? 16 flag then (if set? 17 flag then 1 else 0) + (if set? 18 flag then 2 else 0) else 0;
  bytes = if set? 0 flag then blank else data_of msg (taken dlc flag);
  rx_time_ms = 0;
}

fd_len-eq : (n : ℕ) → n ≤ 64 → fd_round_len n ≡ fd_len n
unfolding fd_round_len
fd_len-eq n h = ground (arith, h)

fd_len-le : (n : ℕ) → n ≤ 64 → n ≤ fd_len n
fd_len-le n h = ground (arith, h)

take-drop : (n : ℕ) (zs : List ℕ) → take n zs ++ drop n zs ≡ zs
take-drop zero zs = refl
take-drop (suc n) [] = refl
take-drop (suc n) (z ∷ zs) = ap (◌∷◌ z) (take-drop n zs)

-- Bytes in front of a blank, cut to a length that holds them and filled up again.
refilled :
    (xs zs : List ℕ) (n : ℕ)
    → length xs ≤ n
    → length xs ≤ length zs
    → take n (xs ++ drop (length xs) zs) ++ drop n zs ≡ xs ++ drop (length xs) zs
refilled [] zs n h k = take-drop n zs
refilled (x ∷ xs) zs zero h k = absurd (omega (arith, h))
refilled (x ∷ xs) [] (suc n) h k = absurd (omega (arith, k))
refilled (x ∷ xs) (z ∷ zs) (suc n) h k =
    ap (◌∷◌ x) (refilled xs zs n (omega (arith, h)) (omega (arith, k)))

header_of-described :
    (id dlc flag : ℕ)
    → header_of id dlc flag ≡ record {
      can_id = kvaser_to_canid (id % 2 ^ 32) flag;
      len = if set? 16 flag then fd_round_len (taken dlc flag) else taken dlc flag;
      fd = set? 16 flag;
      fd_flags = if set? 16 flag then kvaser_to_fd_flags flag else 0;
      bytes = blank;
      rx_time_ms = 0;
    }
unfolding header_of
header_of-described id dlc flag = elim (Bool-cases (set? 16 flag)) [
  | inl fd ↦ rw (has-set? 16 flag (omega arith), fd) refl
  | inr classic ↦ rw (has-set? 16 flag (omega arith), classic) refl
]

user_bytes-taken : (dlc flag : ℕ) → user_bytes dlc flag ≡ taken dlc flag
unfolding user_bytes
user_bytes-taken dlc flag = rw (has-set? 16 flag (omega arith)) refl

-- The length of the frame holds the bytes taken.
taken-le :
    (dlc flag : ℕ)
    → taken dlc flag ≤ (if set? 16 flag then fd_len (taken dlc flag) else taken dlc flag)
taken-le dlc flag = ground (arith, fd_len-le (min dlc 64))

len-eq :
    (dlc flag : ℕ)
    → (if set? 16 flag then fd_round_len (taken dlc flag) else taken dlc flag)
      ≡ (if set? 16 flag then fd_len (taken dlc flag) else taken dlc flag)
len-eq dlc flag = elim (Bool-cases (set? 16 flag)) [
  | inl fd ↦ rw fd (fd_len-eq (min dlc 64) (omega arith))
  | inr classic ↦ rw classic refl
]

fd_flags-eq :
    (flag : ℕ)
    → (if set? 16 flag then (if set? 16 flag then kvaser_to_fd_flags flag else 0) else 0) ≡ (
        if set? 16 flag
        then (if set? 17 flag then 1 else 0) + (if set? 18 flag then 2 else 0)
        else 0)
fd_flags-eq flag = elim (Bool-cases (set? 16 flag)) [
  | inl fd ↦ rw fd (kvaser_to_fd_flags-eq flag)
  | inr classic ↦ rw classic refl
]

-- The bytes that arrive, when the frame is no remote request.
bytes-eq :
    (msg : Buffer) (dlc flag n : ℕ)
    → Holds msg dlc flag
    → set? 0 flag ≡ false
    → taken dlc flag ≤ n
    → take n (payload msg dlc flag ++ drop (length (payload msg dlc flag)) blank) ++ drop n blank
      ≡ data_of msg (taken dlc flag)
bytes-eq none dlc flag n holds plain h = take-drop n blank
bytes-eq (some buf) dlc flag n holds plain h =
    let k = taken dlc flag in
    let room : k ≤ length buf = subst (λ m. m ≤ length buf) (user_bytes-taken dlc flag) holds.0 in
    let whole : length (take k buf) ≡ k = omega (arith, length-take k buf, room) in
    rw (has-set? 0 flag (omega arith), plain, user_bytes-taken dlc flag)
      (refilled (take k buf) blank n (omega (arith, whole, h)) (ground (arith, whole))
        ∙ ap (λ m. take k buf ++ drop m blank) whole)

pub delivered-described :
    (id : ℕ) (msg : Buffer) (dlc flag : ℕ)
    → Holds msg dlc flag
    → delivered (filled_with id dlc flag (payload msg dlc flag)) ≡ described id msg dlc flag
delivered-described id msg dlc flag holds = elim (Bool-cases (set? 0 flag)) [
  | inl remote ↦
      rw
        (
          header_of-described id dlc flag,
          remote_id (id % 2 ^ 32) flag,
          remote,
          kvaser_to_canid-eq (id % 2 ^ 32) flag,
          len-eq dlc flag,
          fd_flags-eq flag,
        )
        (rw remote refl)
  | inr plain ↦
      rw
        (
          header_of-described id dlc flag,
          remote_id (id % 2 ^ 32) flag,
          plain,
          kvaser_to_canid-eq (id % 2 ^ 32) flag,
          len-eq dlc flag,
          fd_flags-eq flag,
        )
        (rw plain (
          ap
            (λ b. record (described id msg dlc flag) {
              can_id = canid_of (set? 2 flag) false (id % 2 ^ 32);
              bytes = b;
            })
            (bytes-eq msg dlc flag _ holds plain (taken-le dlc flag))))
]
