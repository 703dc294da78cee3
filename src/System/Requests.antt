-- ===== src/System/Requests.antt =====
-- The requests of the specification as src/lib.rs and src/transport.rs serve them, and what an
-- application can see of their state.
use kvasilloni.Prelude.{ℕ, List, [], ◌∷◌, map, Option, none, some}
use kvasilloni.Wire.Frame.{Frame}
use kvasilloni.Transport.Shared.{Op, push_op, push}
use kvasilloni.Transport.Conn.{Conn}
use kvasilloni.Transport.Teardown.{tcp_rx_end}
use kvasilloni.Api.Memory.{Access, safe, fault, Cell}
use kvasilloni.Api.Table.{World, lookup, put, can_open_channel, can_close}
use kvasilloni.Api.Send.{Sent, can_write, can_write_wait}
use kvasilloni.Api.Receive.{Received, can_read, can_read_wait, can_read_sync}
use kvasilloni.Api.Control.{
  can_flush_receive_queue, can_accept, can_set_notify, can_read_status, Controlled, can_io_ctl,
  can_set_bus_output_control, can_get_bus_output_control,
}
use kvasilloni.Api.Info.{can_get_number_of_channels}
use kvasilloni.System.Ports.{
  Port, Device, Arrivals, Reply, returned, reported, stored, filled_in, handed, calls_back,
}
use kvasilloni.System.Spec.{
  Request, opens, closes, writes, reads, waits, writes_wait, syncs, flushes, filters_by, notifies,
  asks_status, controls, sets_driver, asks_driver, counts, frame_in, stream_ends,
}

abbrev pub port_of : Conn → Port
port_of c = record {
  waiting = c.shared.q;
  overrun = c.shared.overflow;
  lost = c.shared.link_lost;
  ended = c.shared.closed;
  ready = c.negotiated;
  link = c.tx;
  fd_capable = c.fd_capable;
  filters = c.shared.filters;
  notify = c.shared.notify;
}

abbrev pub port_at : Option Conn → Option Port
port_at none = none
port_at (some c) = some (port_of c)

-- Of the table the order of its entries is forgotten, of a channel its local port, its thread, its
-- locks.
abbrev pub view : World → Device
view w = record {
  ports = λ h. port_at (lookup h w.conns);
  next = w.next_handle;
  driver = w.driver_type;
  counted = w.enum_channels;
}

abbrev pub with_code : World × ℕ → Access (World × Reply)
with_code (w, code) = safe (w, returned code)

abbrev pub with_word : World → Cell × ℕ → Access (World × Reply)
with_word w (cell, code) = safe (w, stored cell code)

abbrev pub counted_word : World × Cell × ℕ → Access (World × Reply)
counted_word (w, cell, code) = safe (w, stored cell code)

abbrev pub with_outs : Access Received → Access (World × Reply)
with_outs fault = fault
with_outs (safe (w, o, code)) = safe (w, reported o code)

abbrev pub with_bytes : Access Sent → Access (World × Reply)
with_bytes fault = fault
with_bytes (safe (w, code, bytes)) = safe (w, handed bytes code)

abbrev pub with_buffer : Controlled → Access (World × Reply)
with_buffer (w, fault) = fault
with_buffer (w, safe (buf, code)) = safe (w, filled_in buf code)

abbrev pub closed_code : World × Option Conn × ℕ → Access (World × Reply)
closed_code (w, c, code) = safe (w, returned code)

-- The receive thread of a channel pushes a frame.
abbrev pub push_at : ℕ → ℕ → Frame → World → Option Conn → Access (World × Reply)
push_at hnd now f w none = safe (w, calls_back none)
push_at hnd now f w (some c) =
    let (s, call) = push now f c.shared in
    safe (put hnd (record c { shared = s }) w, calls_back call)

abbrev pub end_at : ℕ → World → Option Conn → Access (World × Reply)
end_at hnd w none = safe (w, calls_back none)
end_at hnd w (some c) = safe (put hnd (tcp_rx_end c) w, calls_back none)

abbrev pub push_ops : Arrivals → List Op
push_ops [] = []
push_ops ((now, f) ∷ fs) = push_op now f ∷ push_ops fs

unfoldable pub run : Request → World → Access (World × Reply)
unfolding can_open_channel can_close can_write can_read can_read_wait can_write_wait can_read_sync
    can_flush_receive_queue can_accept can_set_notify can_read_status can_io_ctl
    can_set_bus_output_control can_get_bus_output_control can_get_number_of_channels push tcp_rx_end
run (opens net cfg flags) w = with_code (can_open_channel net cfg flags w)
run (closes on_rx hnd) w = closed_code (can_close on_rx hnd w)
run (writes net hnd id msg dlc flag) w = with_bytes (can_write net hnd id msg dlc flag w)
run (reads hnd o) w = with_outs (can_read hnd o w)
run (waits during in_callback hnd o timeout) w =
    with_outs (can_read_wait (λ d. map push_ops (during d)) in_callback hnd o timeout w)
run (writes_wait net hnd id msg dlc flag timeout) w =
    with_bytes (can_write_wait net hnd id msg dlc flag timeout w)
run (syncs during in_callback hnd timeout) w =
    with_code (can_read_sync (λ d. map push_ops (during d)) in_callback hnd timeout w)
run (flushes hnd) w = with_code (can_flush_receive_queue hnd w)
run (filters_by hnd envelope flag) w = with_code (can_accept hnd envelope flag w)
run (notifies hnd callback flags tag) w = with_code (can_set_notify hnd callback flags tag w)
run (asks_status hnd cell) w = with_word w (can_read_status hnd cell w)
run (controls hnd func buf size) w = with_buffer (can_io_ctl hnd func buf size w)
run (sets_driver hnd drivertype) w = with_code (can_set_bus_output_control hnd drivertype w)
run (asks_driver hnd cell) w = with_word w (can_get_bus_output_control hnd cell w)
run (counts cfg cell) w = counted_word (can_get_number_of_channels cfg cell w)
run (frame_in hnd now f) w = push_at hnd now f w (lookup hnd w.conns)
run (stream_ends hnd) w = end_at hnd w (lookup hnd w.conns)

abbrev pub logged : Reply → Access (World × List Reply) → Access (World × List Reply)
logged reply fault = fault
logged reply (safe (w, replies)) = safe (w, reply ∷ replies)

abbrev pub then_run :
    Access (World × Reply) → (World → Access (World × List Reply)) → Access (World × List Reply)
then_run fault rest = fault
then_run (safe (w, reply)) rest = logged reply (rest w)

unfoldable pub run_all : List Request → World → Access (World × List Reply)
unfolding run
run_all [] w = safe (w, [])
run_all (r ∷ rs) w = then_run (run r w) (run_all rs)
