-- ===== src/Wire/Frame.antt =====
-- `Frame` of src/wire.rs and the translation between Kvaser and SocketCAN identifiers. A signed
-- identifier is its 32-bit pattern, so the casts between i32 and u32 are the identity.
use kvasilloni.Prelude.{ℕ, Bool, false, List, bit_and, bit_or, replicate, if◌then◌else◌}
use kvasilloni.Wire.Flags.{
  can_eff_flag, can_rtr_flag, can_eff_mask, can_sff_mask, can_msg_rtr, can_msg_std, can_msg_ext,
  can_msg_fdf, max_frame_len, has,
}

-- `bytes` is the field `data`, an array of 64 bytes.
pub record Frame : Type 0 where
  pub can_id : ℕ
  pub len : ℕ
  pub fd : Bool
  pub fd_flags : ℕ
  pub bytes : List ℕ
  pub rx_time_ms : ℕ

abbrev pub default_frame : Frame
default_frame = record {
  can_id = 0;
  len = 0;
  fd = false;
  fd_flags = 0;
  bytes = replicate max_frame_len 0;
  rx_time_ms = 0;
}

abbrev pub is_rtr : Frame → Bool
is_rtr f = has f.can_id can_rtr_flag

unfoldable pub kvaser_to_canid : ℕ → ℕ → ℕ
kvaser_to_canid id kvaser_flag =
    let can_id =
      if has kvaser_flag can_msg_ext
      then bit_or (bit_and id can_eff_mask) can_eff_flag
      else bit_and id can_sff_mask in
    if has kvaser_flag can_msg_rtr then bit_or can_id can_rtr_flag else can_id

unfoldable pub canid_to_kvaser : ℕ → Bool → ℕ × ℕ
canid_to_kvaser can_id fd =
    let ext = has can_id can_eff_flag in
    let id = if ext then bit_and can_id can_eff_mask else bit_and can_id can_sff_mask in
    let kind = if ext then can_msg_ext else can_msg_std in
    let remote = if has can_id can_rtr_flag then bit_or kind can_msg_rtr else kind in
    (id, if fd then bit_or remote can_msg_fdf else remote)
