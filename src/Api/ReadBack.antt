-- ===== src/Api/ReadBack.antt =====
-- The outputs of `canRead` on what `canWrite` sent: the identifier, the flags and the bytes.
use kvasilloni.Prelude.{
  ℕ, ◌%◌, ◌^◌, ◌<◌, ◌≤◌, ◌≡◌, refl, sym, ap, All-append, All-drop, length-append, length-drop,
  take-append, ◌∙◌, inl, inr, Bool, false, List, ◌++◌, none, some, length, take, drop, min,
  if◌then◌else◌, arith, Bool-cases, length-take, All-take,
}
use kvasilloni.Prelude.Bytes.{IsByte, IsBytes}
use kvasilloni.Wire.Flags.{has, can_rtr_flag}
use kvasilloni.Wire.Frame.{Frame, is_rtr, default_frame, kvaser_to_canid}
use kvasilloni.Wire.Ids.{
  set?, has-set?, kvaser_to_canid-eq, flags_of, canid_to_kvaser-kvaser_to_canid,
}
use kvasilloni.Wire.Encoded.{IsSendable, delivered}
use kvasilloni.Transport.Shared.{stamped}
use kvasilloni.Api.Memory.{store, Buffer}
use kvasilloni.Api.Send.{header_of, user_bytes}
use kvasilloni.Api.Receive.{Outs}
use kvasilloni.Api.Sending.{blank, payload, filled_with}
use kvasilloni.Api.Reading.{after_read, room_of, outs_of}

-- The frame that the receive thread queues for what the sender wrote.
abbrev pub received_frame : ℕ → ℕ → Buffer → ℕ → ℕ → Frame
received_frame now id msg dlc flag =
    stamped now (delivered (filled_with id dlc flag (payload msg dlc flag)))

pub header_of-classic :
    (id dlc flag : ℕ)
    → set? 16 flag ≡ false
    → header_of id dlc flag
      ≡ record default_frame { can_id = kvaser_to_canid (id % 2 ^ 32) flag; len = min dlc 8 }
unfolding header_of
header_of-classic id dlc flag classic = ground (arith, has-set? 16 flag (omega arith), classic)

-- A frame is a remote request when the caller asked for one.
pub remote_id : (id flag : ℕ) → has (kvaser_to_canid id flag) can_rtr_flag ≡ set? 0 flag
remote_id id flag =
    ground (arith, has-set? 30 (kvaser_to_canid id flag) (omega arith), kvaser_to_canid-eq id flag)

payload-classic :
    (dlc flag : ℕ) (buf : List ℕ)
    → dlc ≤ 8
    → set? 16 flag ≡ false
    → set? 0 flag ≡ false
    → payload (some buf) dlc flag ≡ take dlc buf
unfolding user_bytes
payload-classic dlc flag buf h classic not_remote =
    let e : min dlc 8 ≡ dlc = omega (arith, h) in
    rw (has-set? 16 flag (omega arith), has-set? 0 flag (omega arith), classic, not_remote)
      (ap (λ n. take n buf) e)

pub take-take_append :
    (dlc : ℕ) (buf rest : List ℕ)
    → dlc ≤ length buf
    → take dlc (take dlc buf ++ rest) ≡ take dlc buf
take-take_append dlc buf rest k =
    let e : length (take dlc buf) ≡ dlc = omega (arith, length-take dlc buf) in
    ap (λ n. take n (take dlc buf ++ rest)) (sym e) ∙ take-append (take dlc buf) rest

-- What a classic data frame of `canWrite` becomes.
abbrev classic_frame : ℕ → ℕ → ℕ → ℕ → List ℕ → Frame
classic_frame now id dlc flag buf = record {
  can_id = kvaser_to_canid (id % 2 ^ 32) flag;
  len = dlc;
  fd = false;
  fd_flags = 0;
  bytes = take dlc buf ++ drop dlc blank;
  rx_time_ms = now;
}

received-classic :
    (now id dlc flag : ℕ) (buf : List ℕ)
    → dlc ≤ 8
    → dlc ≤ length buf
    → set? 16 flag ≡ false
    → set? 0 flag ≡ false
    → received_frame now id (some buf) dlc flag ≡ classic_frame now id dlc flag buf
received-classic now id dlc flag buf h k classic not_remote =
    let e : min dlc 8 ≡ dlc = omega (arith, h) in
    rw
      (
        payload-classic dlc flag buf h classic not_remote,
        header_of-classic id dlc flag classic,
        remote_id (id % 2 ^ 32) flag,
        not_remote,
        e,
        take-take_append dlc buf (drop (length (take dlc buf)) blank) k,
      )
      refl

-- The source's bytes over the front of the reader's buffer.
abbrev pub over_front : ℕ → List ℕ → Buffer → Buffer
over_front n src none = none
over_front n src (some dst) = some (take n src ++ drop n dst)

abbrev pub classic_outs : ℕ → ℕ → ℕ → List ℕ → ℕ → Outs → Outs
classic_outs now id dlc buf flag o = record {
  id = store o.id (if set? 2 flag then id % 2 ^ 29 else id % 2 ^ 11);
  msg = over_front dlc buf o.msg;
  dlc = store o.dlc dlc;
  flag = store o.flag (flags_of (set? 2 flag) false false);
  time = store o.time (now % 2 ^ 32);
}

pub after_read-data :
    (f : Frame) (n : ℕ) (src : List ℕ) (msg : Buffer)
    → is_rtr f ≡ false
    → take n f.bytes ≡ take n src
    → after_read f n msg ≡ over_front n src msg
after_read-data f n src none e h = refl
after_read-data f n src (some dst) e h = rw (e, h) refl

outs_of-classic_frame :
    (now id dlc flag : ℕ) (buf : List ℕ) (o : Outs) (fd_capable : Bool)
    → id < 2 ^ 32
    → dlc ≤ 8
    → dlc ≤ length buf
    → set? 0 flag ≡ false
    → outs_of (classic_frame now id dlc flag buf) o fd_capable ≡ classic_outs now id dlc buf flag o
outs_of-classic_frame now id dlc flag buf o fd_capable fits h k not_remote =
    let e : min dlc (room_of fd_capable) ≡ dlc = ground (arith, h) in
    let same : id % 2 ^ 32 ≡ id = omega (arith, fits) in
    rw
      (
        e,
        after_read-data (classic_frame now id dlc flag buf) dlc buf o.msg
            (remote_id (id % 2 ^ 32) flag ∙ not_remote)
            (take-take_append dlc buf (drop dlc blank) k),
        same,
        canid_to_kvaser-kvaser_to_canid id flag false,
        not_remote,
      )
      refl

pub outs_of-classic :
    (now id dlc flag : ℕ) (buf : List ℕ) (o : Outs) (fd_capable : Bool)
    → id < 2 ^ 32
    → dlc ≤ 8
    → dlc ≤ length buf
    → set? 16 flag ≡ false
    → set? 0 flag ≡ false
    → outs_of (received_frame now id (some buf) dlc flag) o fd_capable
      ≡ classic_outs now id dlc buf flag o
outs_of-classic now id dlc flag buf o fd_capable fits h k classic not_remote =
    ap (λ f. outs_of f o fd_capable) (received-classic now id dlc flag buf h k classic not_remote)
    ∙ outs_of-classic_frame now id dlc flag buf o fd_capable fits h k not_remote

pub claimed_bytes :
    (dlc flag : ℕ) (buf : List ℕ)
    → dlc ≤ 8
    → set? 16 flag ≡ false
    → user_bytes dlc flag ≤ length buf
    → dlc ≤ length buf
unfolding user_bytes
claimed_bytes dlc flag buf h classic k =
    ground (arith, has-set? 16 flag (omega arith), classic, h, k)

blank_front-length :
    (n : ℕ) (bs : List ℕ) → length bs ≡ 64 → n ≤ 64 → length (take n bs ++ drop n blank) ≡ 64
blank_front-length n bs h k =
    omega
      (arith, h, k, length-append (take n bs) (drop n blank), length-take n bs, length-drop n blank)

blank_front-IsBytes : (n : ℕ) (bs : List ℕ) → IsBytes bs → IsBytes (take n bs ++ drop n blank)
blank_front-IsBytes n bs h =
    All-append IsByte (take n bs) (drop n blank) (All-take IsByte n bs h)
      (All-drop IsByte n blank (omega arith))

pub delivered-IsSendable :
    (now : ℕ) (f : Frame) → IsSendable f → IsSendable (stamped now (delivered f))
delivered-IsSendable now f v = record {
  id_fits = v.id_fits;
  len_fits = v.len_fits;
  flags_fit = ground (arith, v.flags_fit);
  size = elim (Bool-cases (is_rtr f)) [
    | inl rtr ↦ rw rtr refl
    | inr plain ↦ rw plain (blank_front-length f.len f.bytes v.size (ground (arith, v.len_fits)))
  ];
  bytes_fit = elim (Bool-cases (is_rtr f)) [
    | inl rtr ↦ rw rtr (omega arith)
    | inr plain ↦ rw plain (blank_front-IsBytes f.len f.bytes v.bytes_fit)
  ];
}
