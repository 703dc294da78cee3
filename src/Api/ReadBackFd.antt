-- ===== src/Api/ReadBackFd.antt =====
-- The outputs of `canRead` on a CAN FD frame that `canWrite` sent.
use kvasilloni.Prelude.{
  ℕ, ◌+◌, ◌%◌, ◌^◌, ◌≤◌, ◌<◌, ◌≡◌, refl, ap, ◌∙◌, Bool, true, false, List, ◌++◌, some, length, take,
  drop, min, if◌then◌else◌, arith, bit_or, length-append, length-drop, length-take,
}
use kvasilloni.Wire.Flags.{fd_round_len, kvaser_to_fd_flags}
use kvasilloni.Wire.Frame.{Frame, default_frame, kvaser_to_canid}
use kvasilloni.Wire.Ids.{
  set?, has-set?, flags_of, canid_to_kvaser-kvaser_to_canid, fd_flags_to_kvaser-kvaser_to_fd_flags,
  fd_round_len-le,
}
use kvasilloni.Api.Memory.{store}
use kvasilloni.Api.Send.{header_of, user_bytes}
use kvasilloni.Api.Receive.{Outs}
use kvasilloni.Api.Sending.{blank, Holds, payload}
use kvasilloni.Api.Reading.{outs_of}
use kvasilloni.Api.ReadBack.{
  received_frame, remote_id, take-take_append, over_front, after_read-data,
}

-- The flags of CAN FD that the writer gave.
abbrev pub switches : ℕ → ℕ
switches flag = (if set? 17 flag then 2 ^ 17 else 0) + (if set? 18 flag then 2 ^ 18 else 0)

-- The writer's bytes, and zeros behind them.
abbrev pub padded : ℕ → List ℕ → List ℕ
padded dlc buf = take dlc buf ++ drop dlc blank

abbrev pub fd_outs : ℕ → ℕ → ℕ → List ℕ → ℕ → Outs → Outs
fd_outs now id dlc buf flag o = record {
  id = store o.id (if set? 2 flag then id % 2 ^ 29 else id % 2 ^ 11);
  msg = over_front (fd_round_len dlc) (padded dlc buf) o.msg;
  dlc = store o.dlc (fd_round_len dlc);
  flag = store o.flag (flags_of (set? 2 flag) false true + switches flag);
  time = store o.time (now % 2 ^ 32);
}

abbrev fd_frame : ℕ → ℕ → ℕ → ℕ → List ℕ → Frame
fd_frame now id dlc flag buf = record {
  can_id = kvaser_to_canid (id % 2 ^ 32) flag;
  len = fd_round_len dlc;
  fd = true;
  fd_flags = kvaser_to_fd_flags flag;
  bytes = take (fd_round_len dlc) (padded dlc buf) ++ drop (fd_round_len dlc) blank;
  rx_time_ms = now;
}

header_of-fd :
    (id dlc flag : ℕ)
    → dlc ≤ 64
    → set? 16 flag ≡ true
    → header_of id dlc flag ≡ record default_frame {
      can_id = kvaser_to_canid (id % 2 ^ 32) flag;
      fd = true;
      fd_flags = kvaser_to_fd_flags flag;
      len = fd_round_len dlc;
    }
unfolding header_of
header_of-fd id dlc flag h fd =
    let e : min dlc 64 ≡ dlc = omega (arith, h) in rw (has-set? 16 flag (omega arith), fd, e) refl

payload-fd :
    (dlc flag : ℕ) (buf : List ℕ)
    → dlc ≤ 64
    → set? 16 flag ≡ true
    → set? 0 flag ≡ false
    → payload (some buf) dlc flag ≡ take dlc buf
unfolding user_bytes
payload-fd dlc flag buf h fd not_remote =
    let e : min dlc 64 ≡ dlc = omega (arith, h) in
    rw (has-set? 16 flag (omega arith), has-set? 0 flag (omega arith), fd, not_remote)
      (ap (λ n. take n buf) e)

received-fd :
    (now id dlc flag : ℕ) (buf : List ℕ)
    → dlc ≤ 64
    → dlc ≤ length buf
    → set? 16 flag ≡ true
    → set? 0 flag ≡ false
    → received_frame now id (some buf) dlc flag ≡ fd_frame now id dlc flag buf
received-fd now id dlc flag buf h k fd not_remote =
    let e : length (take dlc buf) ≡ dlc = omega (arith, length-take dlc buf) in
    rw
      (
        payload-fd dlc flag buf h fd not_remote,
        header_of-fd id dlc flag h fd,
        remote_id (id % 2 ^ 32) flag,
        not_remote,
        e,
      )
      refl

-- The digits of the flags that a reader gets do not overlap.
or_switches :
    (a b c : Bool)
    → bit_or (flags_of a false true) ((if b then 2 ^ 17 else 0) + (if c then 2 ^ 18 else 0))
      ≡ flags_of a false true + ((if b then 2 ^ 17 else 0) + (if c then 2 ^ 18 else 0))
or_switches a b c = ground arith

outs_of-fd_frame :
    (now id dlc flag : ℕ) (buf : List ℕ) (o : Outs)
    → id < 2 ^ 32
    → dlc ≤ 64
    → dlc ≤ length buf
    → set? 0 flag ≡ false
    → outs_of (fd_frame now id dlc flag buf) o true ≡ fd_outs now id dlc buf flag o
outs_of-fd_frame now id dlc flag buf o fits h k not_remote =
    let n = fd_round_len dlc in
    let e : min n 64 ≡ n = omega (arith, fd_round_len-le dlc) in
    let same : id % 2 ^ 32 ≡ id = omega (arith, fits) in
    let long : n ≤ length (padded dlc buf) = omega (
      arith,
      fd_round_len-le dlc,
      length-append (take dlc buf) (drop dlc blank),
      length-take dlc buf,
      length-drop dlc blank,
    ) in
    rw
      (
        e,
        after_read-data (fd_frame now id dlc flag buf) n (padded dlc buf) o.msg
            (remote_id (id % 2 ^ 32) flag ∙ not_remote)
            (take-take_append n (padded dlc buf) (drop n blank) long),
        same,
        canid_to_kvaser-kvaser_to_canid id flag true,
        not_remote,
        fd_flags_to_kvaser-kvaser_to_fd_flags flag,
        or_switches (set? 2 flag) (set? 17 flag) (set? 18 flag),
      )
      refl

claimed_fd :
    (dlc flag : ℕ) (buf : List ℕ)
    → dlc ≤ 64
    → set? 16 flag ≡ true
    → user_bytes dlc flag ≤ length buf
    → dlc ≤ length buf
unfolding user_bytes
claimed_fd dlc flag buf h fd k = ground (arith, has-set? 16 flag (omega arith), fd, h, k)

-- What `canRead` gives for a CAN FD data frame of `canWrite`.
pub outs_of-fd :
    (now id dlc flag : ℕ) (buf : List ℕ) (o : Outs)
    → id < 2 ^ 32
    → dlc ≤ 64
    → Holds (some buf) dlc flag
    → set? 16 flag ≡ true
    → set? 0 flag ≡ false
    → outs_of (received_frame now id (some buf) dlc flag) o true ≡ fd_outs now id dlc buf flag o
outs_of-fd now id dlc flag buf o fits h holds fd not_remote =
    let k = claimed_fd dlc flag buf h fd holds.0 in
    ap (λ f. outs_of f o true) (received-fd now id dlc flag buf h k fd not_remote)
    ∙ outs_of-fd_frame now id dlc flag buf o fits h k not_remote
