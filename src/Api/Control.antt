-- ===== src/Api/Control.antt =====
-- The exports of src/lib.rs that read or set a channel's state without moving a frame.
use kvasilloni.Prelude.{
  ℕ, ◌%◌, ◌^◌, Bool, true, false, ◌||◌, Option, none, some, ltb, ◌==◌, bit_or, if◌then◌else◌,
}
use kvasilloni.Transport.Shared.{
  Shared, clear, level, overflowed, is_link_lost, set_accept, set_notify,
}
use kvasilloni.Transport.Conn.{Conn}
use kvasilloni.Transport.ConnRx.{clear_rx, rx_level, set_conn_accept, set_conn_notify}
use kvasilloni.Api.Codes.{
  can_ok, can_err_invhandle, can_err_not_implemented, can_stat_bus_off, can_stat_rx_pending,
  can_stat_sw_overrun,
}
use kvasilloni.Api.Memory.{safe, Cell, Buffer, Filled, store, out_u32, zero_fill}
use kvasilloni.Api.Table.{World, lookup, with_conn}

abbrev pub flush_conn : Conn → Conn × ℕ
flush_conn c = (clear_rx c, can_ok)

unfoldable pub can_flush_receive_queue : ℕ → World → World × ℕ
unfolding with_conn clear
can_flush_receive_queue hnd w = with_conn hnd can_err_invhandle flush_conn w

-- The transmit queue does not exist: a frame is sent within the call.
unfoldable pub can_flush_transmit_queue : ℕ → World → World × ℕ
can_flush_transmit_queue hnd w = (w, can_ok)

unfoldable pub can_write_sync : ℕ → ℕ → World → World × ℕ
can_write_sync hnd timeout w = (w, can_ok)

unfoldable pub can_obj_buf_set_filter : ℕ → ℕ → ℕ → ℕ → World → World × ℕ
can_obj_buf_set_filter hnd idx code mask w = (w, can_ok)

abbrev pub or_if : Bool → ℕ → ℕ → ℕ
or_if true bit st = bit_or st bit
or_if false bit st = st

unfoldable pub status_of : Shared → ℕ
unfolding level overflowed is_link_lost
status_of s =
    or_if (is_link_lost s) can_stat_bus_off
      (or_if (overflowed s) can_stat_sw_overrun (or_if (ltb 0 (level s)) can_stat_rx_pending 0))

abbrev pub status_at : Option Conn → ℕ
status_at none = 0
status_at (some c) = status_of c.shared

-- Lenient: an unknown handle reads as 0.
unfoldable pub can_read_status : ℕ → Cell → World → Cell × ℕ
unfolding status_of lookup
can_read_status hnd flags w = (store flags (status_at (lookup hnd w.conns)), can_ok)

unfoldable pub can_read_error_counters : ℕ → Cell → Cell → Cell → (Cell × Cell × Cell) × ℕ
can_read_error_counters hnd tx_err rx_err ov_err =
    ((store tx_err 0, store rx_err 0, store ov_err 0), can_ok)

unfoldable pub can_get_bus_statistics : ℕ → Buffer → ℕ → Filled
can_get_bus_statistics hnd none bufsiz = safe (none, can_ok)
can_get_bus_statistics hnd (some stat) bufsiz =
    if ltb 0 bufsiz then zero_fill stat bufsiz else safe (some stat, can_ok)

unfoldable pub can_set_bus_output_control : ℕ → ℕ → World → World × ℕ
can_set_bus_output_control hnd drivertype w = (record w { driver_type = drivertype }, can_ok)

unfoldable pub can_get_bus_output_control : ℕ → Cell → World → Cell × ℕ
can_get_bus_output_control hnd drivertype w = (store drivertype w.driver_type, can_ok)

abbrev pub accept_conn : ℕ → ℕ → Conn → Conn × ℕ
accept_conn flag envelope c = (set_conn_accept flag (envelope % 2 ^ 32) c, can_ok)

unfoldable pub can_accept : ℕ → ℕ → ℕ → World → World × ℕ
unfolding with_conn set_accept
can_accept hnd envelope flag w = with_conn hnd can_err_invhandle (accept_conn flag envelope) w

abbrev pub notify_conn : ℕ → ℕ → ℕ → Conn → Conn × ℕ
notify_conn callback flags tag c = (set_conn_notify callback flags tag c, can_ok)

unfoldable pub can_set_notify : ℕ → ℕ → ℕ → ℕ → World → World × ℕ
unfolding with_conn set_notify
can_set_notify hnd callback flags tag w =
    with_conn hnd can_err_invhandle (notify_conn callback flags tag) w

-- The world, and the buffer with the code.
abbrev pub Controlled : Type 0
Controlled = World × Filled

abbrev pub kept : Buffer → World × ℕ → Controlled
kept buf (w, code) = (w, safe (buf, code))

abbrev pub level_out : Buffer → ℕ → Option Conn → Filled
level_out buf len none = safe (buf, can_err_invhandle)
level_out buf len (some c) = out_u32 buf len (rx_level c % 2 ^ 32)

unfoldable pub can_io_ctl : ℕ → ℕ → Buffer → ℕ → World → Controlled
unfolding with_conn clear level out_u32 lookup
can_io_ctl hnd func buf len w =
    if func == 10
    then kept buf (with_conn hnd can_err_invhandle flush_conn w)
    else if func == 11 || func == 6 || func == 7 || func == 13
    then (w, safe (buf, can_ok))
    else if func == 12
    then (w, out_u32 buf len 1000)
    else if func == 8
    then (w, level_out buf len (lookup hnd w.conns))
    else if func == 9
    then (w, out_u32 buf len 0)
    else (w, safe (buf, can_err_not_implemented))
