-- ===== src/Api/ReadBackRemote.antt =====
-- The outputs of `canRead` on a remote request that `canWrite` sent.
use kvasilloni.Prelude.{
  ℕ, ◌%◌, ◌^◌, ◌<◌, ◌≡◌, refl, ap, ◌∙◌, Bool, true, false, none, some, min, if◌then◌else◌, arith,
}
use kvasilloni.Wire.Frame.{Frame, is_rtr, default_frame, kvaser_to_canid}
use kvasilloni.Wire.Ids.{set?, flags_of, canid_to_kvaser-kvaser_to_canid}
use kvasilloni.Api.Memory.{store, Buffer}
use kvasilloni.Api.Receive.{Outs}
use kvasilloni.Api.Reading.{after_read, room_of, outs_of}
use kvasilloni.Api.ReadBack.{received_frame, header_of-classic, remote_id}

abbrev pub remote_outs : ℕ → ℕ → ℕ → ℕ → Outs → Outs
remote_outs now id dlc flag o = record o {
  id = store o.id (if set? 2 flag then id % 2 ^ 29 else id % 2 ^ 11);
  dlc = store o.dlc (min dlc 8);
  flag = store o.flag (flags_of (set? 2 flag) true false);
  time = store o.time (now % 2 ^ 32);
}

abbrev remote_frame : ℕ → ℕ → ℕ → ℕ → Frame
remote_frame now id dlc flag = record default_frame {
  can_id = kvaser_to_canid (id % 2 ^ 32) flag;
  len = min dlc 8;
  rx_time_ms = now;
}

received-remote :
    (now id dlc flag : ℕ) (msg : Buffer)
    → set? 16 flag ≡ false
    → set? 0 flag ≡ true
    → received_frame now id msg dlc flag ≡ remote_frame now id dlc flag
received-remote now id dlc flag msg classic remote =
    rw (header_of-classic id dlc flag classic, remote_id (id % 2 ^ 32) flag, remote) refl

after_read-remote : (f : Frame) (n : ℕ) (msg : Buffer) → is_rtr f ≡ true → after_read f n msg ≡ msg
after_read-remote f n none e = refl
after_read-remote f n (some buf) e = rw e refl

outs_of-remote_frame :
    (now id dlc flag : ℕ) (o : Outs) (fd_capable : Bool)
    → id < 2 ^ 32
    → set? 0 flag ≡ true
    → outs_of (remote_frame now id dlc flag) o fd_capable ≡ remote_outs now id dlc flag o
outs_of-remote_frame now id dlc flag o fd_capable fits remote =
    let e : min (min dlc 8) (room_of fd_capable) ≡ min dlc 8 = ground arith in
    let same : id % 2 ^ 32 ≡ id = omega (arith, fits) in
    rw
      (
        e,
        after_read-remote (remote_frame now id dlc flag) (min dlc 8) o.msg
            (remote_id (id % 2 ^ 32) flag ∙ remote),
        same,
        canid_to_kvaser-kvaser_to_canid id flag false,
        remote,
      )
      refl

-- What `canRead` gives for a classic remote request of `canWrite`.
pub outs_of-remote :
    (now id dlc flag : ℕ) (msg : Buffer) (o : Outs) (fd_capable : Bool)
    → id < 2 ^ 32
    → set? 16 flag ≡ false
    → set? 0 flag ≡ true
    → outs_of (received_frame now id msg dlc flag) o fd_capable ≡ remote_outs now id dlc flag o
outs_of-remote now id dlc flag msg o fd_capable fits classic remote =
    ap (λ f. outs_of f o fd_capable) (received-remote now id dlc flag msg classic remote)
    ∙ outs_of-remote_frame now id dlc flag o fd_capable fits remote
