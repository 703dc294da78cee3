-- ===== src/Api/Codes.antt =====
-- The codes and flags of src/lib.rs. A c_int is its 32-bit two's complement pattern.
use kvasilloni.Prelude.{ℕ, ◌-◌, ◌^◌}

-- The pattern of `-k`.
abbrev pub neg : ℕ → ℕ
neg k = 2 ^ 32 - k

abbrev pub can_ok : ℕ
can_ok = 0

abbrev pub can_err_param : ℕ
can_err_param = neg 1

abbrev pub can_err_nomsg : ℕ
can_err_nomsg = neg 2

abbrev pub can_err_notfound : ℕ
can_err_notfound = neg 3

abbrev pub can_err_invhandle : ℕ
can_err_invhandle = neg 10

abbrev pub can_err_not_implemented : ℕ
can_err_not_implemented = neg 32

abbrev pub can_driver_normal : ℕ
can_driver_normal = 4

abbrev pub can_open_can_fd : ℕ
can_open_can_fd = 0x0400

abbrev pub can_stat_bus_off : ℕ
can_stat_bus_off = 0x0000_0002

abbrev pub can_stat_rx_pending : ℕ
can_stat_rx_pending = 0x0000_0020

abbrev pub can_stat_sw_overrun : ℕ
can_stat_sw_overrun = 0x0000_0400

abbrev pub can_channel_cap_extended_can : ℕ
can_channel_cap_extended_can = 0x0000_0001

abbrev pub can_channel_cap_virtual : ℕ
can_channel_cap_virtual = 0x0001_0000

abbrev pub can_channel_cap_can_fd : ℕ
can_channel_cap_can_fd = 0x0008_0000

abbrev pub can_wait_infinite : ℕ
can_wait_infinite = 0xffff_ffff
