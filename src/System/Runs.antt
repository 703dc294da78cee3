-- ===== src/System/Runs.antt =====
-- Every request is served as the specification says.
use kvasilloni.Prelude.{ℕ, ◌+◌, ◌%◌, ◌^◌, ◌≡◌, ap, refl, ◌∙◌, Bool, [], Option, none, some}
use kvasilloni.Config.Types.{Config}
use kvasilloni.Wire.Flags.{has}
use kvasilloni.Transport.Peers.{IoResult, ok, err}
use kvasilloni.Transport.Shared.{push, clear, set_accept, set_notify}
use kvasilloni.Transport.Conn.{Conn, Sockets, Wires, connect, set_fd_capable, write}
use kvasilloni.Transport.Opening.{connect-ok}
use kvasilloni.Transport.Teardown.{tcp_rx_end}
use kvasilloni.Api.Codes.{can_ok, can_err_invhandle, can_open_can_fd}
use kvasilloni.Api.Memory.{safe, Buffer, Cell, store}
use kvasilloni.Api.Table.{World, lookup, with_conn, on_conn, admit, can_open_channel, can_close}
use kvasilloni.Api.Handles.{Unique-remove}
use kvasilloni.Api.Send.{send_on, write_code, can_write, can_write_wait}
use kvasilloni.Api.Control.{
  status_at, flush_conn, accept_conn, notify_conn, can_flush_receive_queue, can_accept,
  can_set_notify, can_read_status, can_set_bus_output_control, can_get_bus_output_control,
}
use kvasilloni.Api.Sending.{payload, filled_with, frame_of-filled}
use kvasilloni.Api.EndToEnd.{filled_with-IsSendable}
use kvasilloni.System.Ports.{
  Port, Reply, returned, stored, handed, calls_back, set_port, open_port, at_port, write_port,
  arrive, end_stream, status_port,
}
use kvasilloni.System.Spec.{
  Request, IsRequest, opens, closes, writes, reads, waits, writes_wait, syncs, flushes, filters_by,
  notifies, asks_status, controls, sets_driver, asks_driver, counts, frame_in, stream_ends, serve,
}
use kvasilloni.System.Requests.{port_of, port_at, view, with_code, with_bytes, push_at, end_at, run}
use kvasilloni.System.Good.{IsGood}
use kvasilloni.System.Keeps.{
  lookup-IsGood, remove-AllGood, clear-IsGood, set_accept-IsGood, set_notify-IsGood, connect-IsGood,
}
use kvasilloni.System.Controls.{controls-Meets, counts-Meets}
use kvasilloni.System.Reads.{reads-Meets}
use kvasilloni.System.Waits.{waits-Meets, syncs-Meets}
use kvasilloni.System.Refines.{Sound, Meets, insert-Meets, ports-remove, Follows, found-Meets}
use kvasilloni.System.Follows.{write-Follows, push-Follows, tcp_rx_end-Follows, status_of-word}

with_conn-Meets :
    (h : ℕ) (f : Conn → Conn × ℕ) (g : Port → Port × Reply) (w : World)
    → Sound w
    → ((c : Conn) → IsGood c → Follows c (f c).0 (returned (f c).1) g)
    → Meets
        (with_code (with_conn h can_err_invhandle f w))
        (at_port h (returned can_err_invhandle) g (port_at (lookup h w.conns)) (view w))
unfolding with_conn
with_conn-Meets h f g w s follows =
    found-Meets h (returned can_err_invhandle) g w
      (λ r. with_code (on_conn h can_err_invhandle f w r)) s refl
      (λ c found.
        ((f c).0, returned (f c).1, refl, follows c (lookup-IsGood h w.conns c s.good found)))

opens-Meets :
    (net : Sockets) (cfg : Config) (flags : ℕ) (w : World)
    → Sound w
    → Meets
        (with_code (can_open_channel net cfg flags w))
        (open_port flags (connect net cfg) (view w))
unfolding can_open_channel
opens-Meets net cfg flags w s = go (connect net cfg) refl
  where
    go :
        (r : IoResult Conn)
        → connect net cfg ≡ r
        → Meets
            (with_code (admit flags (record w { log_path = cfg.log }) r))
            (open_port flags r (view w))
    go (err e) x = (refl, refl, record { good = s.good; unique = s.unique })
    go (ok c) x =
        let (peer, parsed, opened) = connect-ok net cfg c x in
        let v = connect-IsGood net cfg c x in
        let fd = has flags can_open_can_fd in
        let v' : IsGood (set_fd_capable fd c) = record {
          ring = v.ring;
          clean = v.clean;
          seq = v.seq;
          live = v.live;
        } in
        let (seen, told, sound) =
          insert-Meets w.next_handle ((w.next_handle + 1) % 2 ^ 32) (set_fd_capable fd c)
            (returned w.next_handle) w s v' in
        (
          seen
              ∙ ap
                  (λ p. record (view w) {
                    ports = set_port w.next_handle (some p) (view w).ports;
                    next = (w.next_handle + 1) % 2 ^ 32;
                  })
                  (ap (λ d. port_of (set_fd_capable fd (record d { tx = c.tx }))) opened.0),
          told,
          record { good = sound.good; unique = sound.unique },
        )

writes-Meets :
    (net : Wires) (hnd id : ℕ) (msg : Buffer) (dlc flag : ℕ) (w : World)
    → IsRequest (writes net hnd id msg dlc flag)
    → Sound w
    → Meets
        (with_bytes (can_write net hnd id msg dlc flag w))
        (serve (writes net hnd id msg dlc flag) (view w))
unfolding can_write serve
writes-Meets net hnd id msg dlc flag w i s =
    let f = filled_with id dlc flag (payload msg dlc flag) in
    rw (frame_of-filled id msg dlc flag i) (
      found-Meets hnd (handed [] can_err_invhandle) (write_port net f) w
        (λ r. with_bytes (safe (send_on net hnd f w r))) s refl
        (λ c found. (
          (write net f c).conn,
          handed (write net f c).sent (write_code (write net f c).result),
          refl,
          write-Follows net f c (filled_with-IsSendable id msg dlc flag i)
              (lookup-IsGood hnd w.conns c s.good found),
        )))

closes-Meets :
    (on_rx : Bool) (hnd : ℕ) (w : World)
    → Sound w
    → Meets (run (closes on_rx hnd) w) (serve (closes on_rx hnd) (view w))
unfolding run serve can_close
closes-Meets on_rx hnd w s = (
  ap (λ p. record (view w) { ports = p }) (ports-remove hnd w.conns s.unique),
  refl,
  record { good = remove-AllGood hnd w.conns s.good; unique = Unique-remove hnd w.conns s.unique },
)

status-Meets :
    (hnd : ℕ) (cell : Cell) (w : World)
    → Sound w
    → Meets (run (asks_status hnd cell) w) (serve (asks_status hnd cell) (view w))
unfolding run serve can_read_status
status-Meets hnd cell w s = (refl, go (lookup hnd w.conns), s)
  where
    go : (r : Option Conn) → stored (store cell (status_at r)) can_ok ≡ status_port cell (port_at r)
    go none = refl
    go (some c) = ap (λ st. stored (store cell st) can_ok) (status_of-word c)

-- One request: the world and the reply are those of the specification.
pub run-Meets :
    (r : Request) (w : World) → IsRequest r → Sound w → Meets (run r w) (serve r (view w))
unfolding run serve
run-Meets (opens net cfg flags) w i s = opens-Meets net cfg flags w s
run-Meets (closes on_rx hnd) w i s = closes-Meets on_rx hnd w s
run-Meets (writes net hnd id msg dlc flag) w i s = writes-Meets net hnd id msg dlc flag w i s
run-Meets (reads hnd o) w i s = reads-Meets hnd o w i s
run-Meets (waits during in_callback hnd o timeout) w i s =
    waits-Meets during in_callback hnd o timeout w i s
run-Meets (writes_wait net hnd id msg dlc flag timeout) w i s =
    unfold can_write_wait can_write in writes-Meets net hnd id msg dlc flag w i s
run-Meets (syncs during in_callback hnd timeout) w i s =
    syncs-Meets during in_callback hnd timeout w i s
run-Meets (flushes hnd) w i s =
    unfold can_flush_receive_queue clear in
    with_conn-Meets hnd flush_conn _ w s
      (λ c v. record { good = clear-IsGood c v; port = refl; told = refl })
run-Meets (filters_by hnd envelope flag) w i s =
    unfold can_accept set_accept in
    with_conn-Meets hnd (accept_conn flag envelope) _ w s (λ c v. record {
      good = set_accept-IsGood flag (envelope % 2 ^ 32) c v;
      port = refl;
      told = refl;
    })
run-Meets (notifies hnd callback flags tag) w i s =
    unfold can_set_notify set_notify in
    with_conn-Meets hnd (notify_conn callback flags tag) _ w s
      (λ c v. record { good = set_notify-IsGood callback flags tag c v; port = refl; told = refl })
run-Meets (asks_status hnd cell) w i s = status-Meets hnd cell w s
run-Meets (controls hnd func buf size) w i s = controls-Meets hnd func buf size w i s
run-Meets (sets_driver hnd drivertype) w i s =
    unfold can_set_bus_output_control in (refl, refl, record { good = s.good; unique = s.unique })
run-Meets (asks_driver hnd cell) w i s = unfold can_get_bus_output_control in (refl, refl, s)
run-Meets (counts cfg cell) w i s = counts-Meets cfg cell w s
run-Meets (frame_in hnd now f) w i s =
    found-Meets hnd (calls_back none) (arrive now f) w (push_at hnd now f w) s refl (λ c found. (
      record c { shared = (push now f c.shared).0 },
      calls_back (push now f c.shared).1,
      refl,
      push-Follows now f c i (lookup-IsGood hnd w.conns c s.good found),
    ))
run-Meets (stream_ends hnd) w i s =
    found-Meets hnd (calls_back none) end_stream w (end_at hnd w) s refl (λ c found. (
      tcp_rx_end c,
      calls_back none,
      refl,
      tcp_rx_end-Follows c (lookup-IsGood hnd w.conns c s.good found),
    ))
