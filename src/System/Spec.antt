-- ===== src/System/Spec.antt =====
-- What the library promises: the requests, and how an abstract device of ports serves them.
use kvasilloni.Prelude.{
  ℕ, ◌%◌, ◌^◌, ◌≤◌, Bool, false, List, [], ◌∷◌, All, ◌-◌, none, some, length, ◌==◌, min,
  if◌then◌else◌,
}
use kvasilloni.Config.Types.{Config}
use kvasilloni.Wire.Frame.{Frame}
use kvasilloni.Wire.Encoded.{IsSendable}
use kvasilloni.Transport.Filter.{set_filter}
use kvasilloni.Transport.Conn.{Sockets, Wires, connect}
use kvasilloni.Api.Codes.{can_ok, can_err_invhandle, can_driver_normal}
use kvasilloni.Api.Memory.{Cell, Buffer, store}
use kvasilloni.Api.Outputs.{HasSize}
use kvasilloni.Api.Receive.{Outs}
use kvasilloni.Api.Sending.{Holds, payload, filled_with}
use kvasilloni.System.Ports.{
  Device, Arrivals, Reply, set_port, open_port, at_port, write_port, read_port, arrive, patience,
  read_after, sync_after, end_stream, status_port, control_port, first_count, returned, reported,
  stored, filled_in, handed, calls_back,
}

-- A request of the application, a frame that a receive thread has decoded, or the end of a stream.
pub data Request : Type 0 where
  opens : Sockets → Config → ℕ → Request
  closes : Bool → ℕ → Request
  writes : Wires → ℕ → ℕ → Buffer → ℕ → ℕ → Request
  reads : ℕ → Outs → Request
  waits : (ℕ → List Arrivals) → Bool → ℕ → Outs → ℕ → Request
  writes_wait : Wires → ℕ → ℕ → Buffer → ℕ → ℕ → ℕ → Request
  syncs : (ℕ → List Arrivals) → Bool → ℕ → ℕ → Request
  flushes : ℕ → Request
  filters_by : ℕ → ℕ → ℕ → Request
  notifies : ℕ → ℕ → ℕ → ℕ → Request
  asks_status : ℕ → Cell → Request
  controls : ℕ → ℕ → Buffer → ℕ → Request
  sets_driver : ℕ → ℕ → Request
  asks_driver : ℕ → Cell → Request
  counts : Config → Cell → Request
  frame_in : ℕ → ℕ → Frame → Request
  stream_ends : ℕ → Request

abbrev pub RoomForAny : Buffer → Type 0
RoomForAny none = Unit
RoomForAny (some buf) = 64 ≤ length buf

abbrev pub AllSendable : Arrivals → Type 0
AllSendable fs = All (λ x. IsSendable x.1) fs

-- What a caller must provide: the bytes it claims to write, room for what it reads, a buffer of
-- the size that it says. A receive thread provides frames within the limit of their class.
abbrev pub IsRequest : Request → Type 0
IsRequest (writes net hnd id msg dlc flag) = Holds msg dlc flag
IsRequest (reads hnd o) = RoomForAny o.msg
IsRequest (waits during in_callback hnd o timeout) =
    RoomForAny o.msg × ((d : ℕ) → All AllSendable (during d))
IsRequest (writes_wait net hnd id msg dlc flag timeout) = Holds msg dlc flag
IsRequest (syncs during in_callback hnd timeout) = (d : ℕ) → All AllSendable (during d)
IsRequest (controls hnd func buf size) = HasSize buf size
IsRequest (frame_in hnd now f) = IsSendable f
IsRequest _ = Unit

unfoldable pub serve : Request → Device → Device × Reply
serve (opens net cfg flags) d = open_port flags (connect net cfg) d
serve (closes on_rx hnd) d = (record d { ports = set_port hnd none d.ports }, returned can_ok)
serve (writes net hnd id msg dlc flag) d =
    at_port hnd (handed [] can_err_invhandle)
      (write_port net (filled_with id dlc flag (payload msg dlc flag))) (d.ports hnd) d
serve (reads hnd o) d =
    at_port hnd (reported o can_err_invhandle) (λ p. read_port o p.waiting p) (d.ports hnd) d
serve (waits during in_callback hnd o timeout) d =
    at_port hnd (reported o can_err_invhandle)
      (read_after (during (patience in_callback timeout)) o) (d.ports hnd) d
serve (writes_wait net hnd id msg dlc flag timeout) d =
    at_port hnd (handed [] can_err_invhandle)
      (write_port net (filled_with id dlc flag (payload msg dlc flag))) (d.ports hnd) d
serve (syncs during in_callback hnd timeout) d =
    at_port hnd (returned can_err_invhandle) (sync_after (during (patience in_callback timeout)))
      (d.ports hnd) d
serve (flushes hnd) d =
    at_port hnd (returned can_err_invhandle)
      (λ p. (record p { waiting = []; overrun = false }, returned can_ok)) (d.ports hnd) d
serve (filters_by hnd envelope flag) d =
    at_port hnd (returned can_err_invhandle)
      (λ p. (record p { filters = set_filter p.filters flag (envelope % 2 ^ 32) }, returned can_ok))
      (d.ports hnd) d
serve (notifies hnd callback flags tag) d =
    at_port hnd (returned can_err_invhandle)
      (λ p.
        (record p { notify = record { cb = callback; flags = flags; tag = tag } }, returned can_ok))
      (d.ports hnd) d
serve (asks_status hnd cell) d = (d, status_port cell (d.ports hnd))
serve (controls hnd func buf size) d =
    if func == 10
    then at_port hnd (filled_in buf can_err_invhandle)
        (λ p. (record p { waiting = []; overrun = false }, filled_in buf can_ok)) (d.ports hnd) d
    else (d, control_port func buf size (d.ports hnd))
serve (sets_driver hnd drivertype) d = (record d { driver = drivertype }, returned can_ok)
serve (asks_driver hnd cell) d = (d, stored (store cell d.driver) can_ok)
serve (counts cfg cell) d =
    let n = first_count d.counted cfg.channels in
    (record d { counted = some n }, stored (store cell (min n (2 ^ 31 - 1))) can_ok)
serve (frame_in hnd now f) d = at_port hnd (calls_back none) (arrive now f) (d.ports hnd) d
serve (stream_ends hnd) d = at_port hnd (calls_back none) end_stream (d.ports hnd) d

unfoldable pub serve_all : List Request → Device → Device × List Reply
unfolding serve
serve_all [] d = (d, [])
serve_all (r ∷ rs) d =
    let (d', reply) = serve r d in let (d'', replies) = serve_all rs d' in (d'', reply ∷ replies)

abbrev pub new_device : Device
new_device = record { ports = λ h. none; next = 1; driver = can_driver_normal; counted = none }
