-- ===== src/UnitTests/ApiFrames.antt =====
-- The tests of src/lib.rs on the outputs of a read and on the helpers that fill a buffer.
use kvasilloni.Prelude.{
  ℕ, ◌-◌, ◌^◌, ◌≡◌, refl, Bool, true, false, not, List, [], ◌∷◌, ◌++◌, none, some, bit_or, drop,
  take, replicate,
}
use kvasilloni.Prelude.Exec.{Exec, ◌>>=◌, slice}
use kvasilloni.Prelude.Text.{codes, text_eq}
use kvasilloni.Wire.Flags.{
  canfd_brs, can_rtr_flag, can_msg_brs, can_msg_fdf, can_msg_rtr, has, fd_flags_to_kvaser,
}
use kvasilloni.Wire.Frame.{Frame, default_frame, canid_to_kvaser}
use kvasilloni.Api.Codes.{
  can_ok, can_err_param, can_err_nomsg, can_channel_cap_extended_can, can_channel_cap_virtual,
  can_channel_cap_can_fd,
}
use kvasilloni.Api.Memory.{out_u32, out_cstr}
use kvasilloni.Api.Receive.{Outs, write_read_outputs}
use kvasilloni.Api.Info.{can_get_channel_data, can_get_error_text}
use kvasilloni.UnitTests.Asserts.{Test, passed, ◌>>◌, assert, assert_eq, assert_same, expect}
use kvasilloni.UnitTests.WireUdp.{counted, fd_frame}
use kvasilloni.UnitTests.ApiPoints.{safely, until_nul, from_le, all_are}

-- The out-parameters of a caller whose buffer is this.
abbrev pub outs_with : List ℕ → Outs
outs_with buf = record { id = some 0; msg = some buf; dlc = some 0; flag = some 0; time = some 0 }

-- `write_read_outputs(..)` into such out-parameters.
abbrev pub read_into : Frame → List ℕ → Bool → Exec Outs
read_into f buf fd_capable = do r ← write_read_outputs f (outs_with buf) fd_capable; safely r

unfoldable pub classic_channel_caps_rx_to_eight_bytes : Test
unfolding write_read_outputs text_eq
classic_channel_caps_rx_to_eight_bytes = do
  let f = fd_frame 0x321 canfd_brs (counted 64 0)
  o ← read_into f (replicate 64 0xee) false
  dlc ← expect o.dlc
  flag ← expect o.flag
  buf ← expect o.msg
  assert_eq dlc 8
  assert (not (has flag can_msg_fdf))
  xs ← slice buf 0 8
  ys ← slice f.bytes 0 8
  assert_same xs ys
  assert (all_are 0xee (drop 8 buf))

classic_channel_caps_rx_to_eight_bytes_passes : classic_channel_caps_rx_to_eight_bytes ≡ passed
unfolding classic_channel_caps_rx_to_eight_bytes canid_to_kvaser
classic_channel_caps_rx_to_eight_bytes_passes = refl

unfoldable pub fd_channel_delivers_full_payload : Test
unfolding write_read_outputs text_eq
fd_channel_delivers_full_payload = do
  let f = fd_frame 0x321 canfd_brs (counted 64 0)
  o ← read_into f (replicate 64 0) true
  dlc ← expect o.dlc
  flag ← expect o.flag
  buf ← expect o.msg
  assert_eq dlc 64
  assert (has flag can_msg_fdf)
  assert (has flag can_msg_brs)
  assert_same buf f.bytes

fd_channel_delivers_full_payload_passes : fd_channel_delivers_full_payload ≡ passed
unfolding fd_channel_delivers_full_payload canid_to_kvaser fd_flags_to_kvaser
fd_channel_delivers_full_payload_passes = refl

unfoldable pub out_helpers_bounds_check : Test
unfolding out_u32 out_cstr
out_helpers_bounds_check = do
  let p = some (replicate 2 0)
  (_, e1) ← safely (out_u32 p 2 0xaabb_ccdd)
  assert_eq e1 can_err_param
  (_, e2) ← safely (out_u32 none 4 0)
  assert_eq e2 can_err_param
  (_, e3) ← safely (out_cstr p 0 (codes "x"))
  assert_eq e3 can_err_param

out_helpers_bounds_check_passes : out_helpers_bounds_check ≡ passed
unfolding out_helpers_bounds_check
out_helpers_bounds_check_passes = refl

unfoldable pub channel_data_cap_advertises_fd_extended_virtual : Test
unfolding can_get_channel_data
channel_data_cap_advertises_fd_extended_virtual = do
  (buf, code) ← safely (can_get_channel_data 0 1 (some (replicate 4 0)) 4)
  assert_eq code can_ok
  bytes ← expect buf
  let cap = from_le bytes
  assert (has cap can_channel_cap_can_fd)
  assert (has cap can_channel_cap_extended_can)
  assert (has cap can_channel_cap_virtual)

channel_data_cap_advertises_fd_extended_virtual_passes :
    channel_data_cap_advertises_fd_extended_virtual ≡ passed
unfolding channel_data_cap_advertises_fd_extended_virtual
channel_data_cap_advertises_fd_extended_virtual_passes = refl

unfoldable pub error_text_truncates_nul_terminates_and_handles_edges : Test
unfolding can_get_error_text text_eq
error_text_truncates_nul_terminates_and_handles_edges = do
  (b1, e1) ← safely (can_get_error_text can_err_nomsg (some (replicate 8 0xaa)) 4)
  assert_eq e1 can_ok
  buf ← expect b1
  assert_same (take 4 buf) (codes "No " ++ 0 ∷ [])
  assert (all_are 0xaa (drop 4 buf))
  (b2, e2) ← safely (can_get_error_text can_ok (some (replicate 4 0xaa)) 0)
  assert_eq e2 can_ok
  buf0 ← expect b2
  assert (all_are 0xaa buf0)
  (b3, e3) ← safely (can_get_error_text (2 ^ 32 - 12345) (some (replicate 32 0)) 32)
  assert_eq e3 can_ok
  ubuf ← expect b3
  s ← until_nul ubuf
  assert_same s (codes "Unknown error")

error_text_truncates_nul_terminates_and_handles_edges_passes :
    error_text_truncates_nul_terminates_and_handles_edges ≡ passed
unfolding error_text_truncates_nul_terminates_and_handles_edges
error_text_truncates_nul_terminates_and_handles_edges_passes = refl

unfoldable pub read_outputs_rtr_reports_dlc_without_copying_data : Test
unfolding write_read_outputs
read_outputs_rtr_reports_dlc_without_copying_data = do
  let f = record default_frame { can_id = bit_or 0x123 can_rtr_flag; len = 8 }
  o ← read_into f (replicate 8 0xee) false
  id ← expect o.id
  dlc ← expect o.dlc
  flag ← expect o.flag
  buf ← expect o.msg
  assert_eq id 0x123
  assert (has flag can_msg_rtr)
  assert_eq dlc 8
  assert (all_are 0xee buf)

read_outputs_rtr_reports_dlc_without_copying_data_passes :
    read_outputs_rtr_reports_dlc_without_copying_data ≡ passed
unfolding read_outputs_rtr_reports_dlc_without_copying_data canid_to_kvaser
read_outputs_rtr_reports_dlc_without_copying_data_passes = refl
