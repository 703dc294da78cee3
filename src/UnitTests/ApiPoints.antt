-- ===== src/UnitTests/ApiPoints.antt =====
-- The tests of src/lib.rs that need no open channel. A write past the end of a buffer fails a test.
use kvasilloni.Prelude.{
  ℕ, ◌+◌, ◌*◌, ◌-◌, ◌^◌, ◌≡◌, refl, Bool, true, false, ◌&&◌, List, [], ◌∷◌, none, some, replicate,
  length, ◌==◌, if◌then◌else◌,
}
use kvasilloni.Prelude.Exec.{Exec, done, panic, ◌>>=◌}
use kvasilloni.Prelude.Text.{codes, text_eq}
use kvasilloni.Config.Types.{default_config}
use kvasilloni.Api.Codes.{can_ok, can_err_param, can_err_invhandle, can_err_not_implemented}
use kvasilloni.Api.Memory.{Access, safe, fault}
use kvasilloni.Api.Table.{new_world, can_close}
use kvasilloni.Api.Send.{can_write}
use kvasilloni.Api.Receive.{Outs, can_read, can_read_wait, can_read_sync}
use kvasilloni.Api.Control.{
  can_flush_receive_queue, can_set_bus_output_control, can_get_bus_output_control, can_accept,
  can_set_notify, can_io_ctl,
}
use kvasilloni.Api.Info.{channels_memo, can_get_number_of_channels, can_get_channel_data}
use kvasilloni.Transport.Conn.{Wires}
use kvasilloni.Transport.Peers.{ok}
use kvasilloni.UnitTests.Asserts.{Test, passed, ◌>>◌, assert_eq, assert_same, expect}

-- Memory that is written within its bounds.
abbrev pub safely {ℓ} : {A : Type ℓ} → Access A → Exec A
safely (safe a) = done a
safely fault = panic

-- `CStr::from_bytes_until_nul`
abbrev pub until_nul : List ℕ → Exec (List ℕ)
until_nul [] = panic
until_nul (c ∷ cs) = if c == 0 then done [] else (do rest ← until_nul cs; done (c ∷ rest))

-- `from_le_bytes`
abbrev pub from_le : List ℕ → ℕ
from_le [] = 0
from_le (b ∷ bs) = b + 256 * from_le bs

abbrev pub all_are : ℕ → List ℕ → Bool
all_are v [] = true
all_are v (b ∷ bs) = b == v && all_are v bs

unfoldable pub bus_output_control_roundtrips : Test
unfolding can_set_bus_output_control can_get_bus_output_control
bus_output_control_roundtrips = do
  let (w, code) = can_set_bus_output_control 1 1 new_world
  assert_eq code can_ok
  let (dt, code') = can_get_bus_output_control 1 (some 0) w
  assert_eq code' can_ok
  v ← expect dt
  assert_eq v 1

bus_output_control_roundtrips_passes : bus_output_control_roundtrips ≡ passed
unfolding bus_output_control_roundtrips
bus_output_control_roundtrips_passes = refl

unfoldable pub ioctl_unknown_func_is_not_implemented : Test
unfolding can_io_ctl
ioctl_unknown_func_is_not_implemented = do
  (buf, code) ← safely (can_io_ctl 1 9999 none 0 new_world).1
  assert_eq code can_err_not_implemented

ioctl_unknown_func_is_not_implemented_passes : ioctl_unknown_func_is_not_implemented ≡ passed
unfolding ioctl_unknown_func_is_not_implemented
ioctl_unknown_func_is_not_implemented_passes = refl

unfoldable pub ioctl_get_timer_scale_writes_value : Test
unfolding can_io_ctl
ioctl_get_timer_scale_writes_value = do
  (buf, code) ← safely (can_io_ctl 1 12 (some (replicate 4 0)) 4 new_world).1
  assert_eq code can_ok
  v ← expect buf
  assert_eq (from_le v) 1000

ioctl_get_timer_scale_writes_value_passes : ioctl_get_timer_scale_writes_value ≡ passed
unfolding ioctl_get_timer_scale_writes_value
ioctl_get_timer_scale_writes_value_passes = refl

unfoldable pub number_of_channels_defaults_to_one : Test
unfolding can_get_number_of_channels
number_of_channels_defaults_to_one = do
  let (w, n, code) = can_get_number_of_channels default_config (some (2 ^ 32 - 1)) new_world
  assert_eq code can_ok
  v ← expect n
  assert_eq v 1

number_of_channels_defaults_to_one_passes : number_of_channels_defaults_to_one ≡ passed
unfolding number_of_channels_defaults_to_one
number_of_channels_defaults_to_one_passes = refl

unfoldable pub channel_data_name_and_serial : Test
unfolding can_get_channel_data text_eq
channel_data_name_and_serial = do
  (buf, code) ← safely (can_get_channel_data 2 13 (some (replicate 64 0)) 64)
  assert_eq code can_ok
  bytes ← expect buf
  name ← until_nul bytes
  assert_same name (codes "kvasilloni vcan2")
  (s, code') ← safely (can_get_channel_data 2 7 (some (replicate 8 0)) 8)
  assert_eq code' can_ok
  serial ← expect s
  assert_eq (from_le serial) 3
  (rest, code'') ← safely (can_get_channel_data 2 9999 buf 64)
  assert_eq code'' can_err_param

channel_data_name_and_serial_passes : channel_data_name_and_serial ≡ passed
unfolding channel_data_name_and_serial
channel_data_name_and_serial_passes = refl

abbrev pub null_outs : Outs
null_outs = record { id = none; msg = none; dlc = none; flag = none; time = none }

-- A socket that takes every datagram whole.
abbrev pub open_wires : Wires
open_wires = record { send_to = λ pkt a. ok (length pkt); write_all = λ buf. ok tt }

-- The handle -999 of a c_int.
abbrev pub bad_handle : ℕ
bad_handle = 2 ^ 32 - 999

unfoldable pub ops_on_unknown_handle_report_invhandle : Test
unfolding can_read can_write can_read_wait can_read_sync can_flush_receive_queue can_accept
    can_set_notify can_io_ctl can_close
ops_on_unknown_handle_report_invhandle = do
  let w = new_world
  (_, _, e1) ← safely (can_read bad_handle null_outs w)
  assert_eq e1 can_err_invhandle
  (_, e2, _) ← safely (can_write open_wires bad_handle 0x123 none 0 0 w)
  assert_eq e2 can_err_invhandle
  (_, _, e3) ← safely (can_read_wait (λ d. []) false bad_handle null_outs 0 w)
  assert_eq e3 can_err_invhandle
  assert_eq (can_read_sync (λ d. []) false bad_handle 0 w).1 can_err_invhandle
  assert_eq (can_flush_receive_queue bad_handle w).1 can_err_invhandle
  assert_eq (can_accept bad_handle 0 0 w).1 can_err_invhandle
  assert_eq (can_set_notify bad_handle 0 0 0 w).1 can_err_invhandle
  (_, e4) ← safely (can_io_ctl bad_handle 10 none 0 w).1
  assert_eq e4 can_err_invhandle
  assert_eq (can_close false bad_handle w).2 can_ok

ops_on_unknown_handle_report_invhandle_passes : ops_on_unknown_handle_report_invhandle ≡ passed
unfolding ops_on_unknown_handle_report_invhandle
ops_on_unknown_handle_report_invhandle_passes = refl

-- That the second loader does not run: its value makes no difference.
unfoldable pub channels_memo_reads_once : ℕ → Test
unfolding channels_memo
channels_memo_reads_once second = do
  let (cell, n) = channels_memo none 3
  assert_eq n 3
  let (cell', n') = channels_memo cell second
  assert_eq n' 3

channels_memo_reads_once_passes : (second : ℕ) → channels_memo_reads_once second ≡ passed
unfolding channels_memo_reads_once
channels_memo_reads_once_passes second = refl
