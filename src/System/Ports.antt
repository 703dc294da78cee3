-- ===== src/System/Ports.antt =====
-- An open channel without its representation: a port is what an application can learn of a
-- channel, a device gives the port of each handle, and each request does to its port what is here.
use kvasilloni.Prelude.{
  ℕ, ◌+◌, ◌%◌, ◌^◌, Bool, true, false, List, [], ◌∷◌, ◌++◌, not, ◌&&◌, ◌-◌, Option, none, some,
  length, ltb, leb, ◌==◌, ◌||◌, drop, if◌then◌else◌,
}
use kvasilloni.Wire.Flags.{has}
use kvasilloni.Wire.Frame.{Frame}
use kvasilloni.Wire.Encoded.{wire_bytes}
use kvasilloni.Transport.Filter.{Accept, default_accept, accepts}
use kvasilloni.Transport.Peers.{IoResult, ok, err}
use kvasilloni.Transport.Shared.{Notify, Call, stamped, fire, is_empty, ring_cap}
use kvasilloni.Transport.Conn.{Conn, Tx, udp, tcp, Wires}
use kvasilloni.Api.Codes.{
  can_ok, can_err_param, can_err_nomsg, can_err_notfound, can_err_invhandle, can_open_can_fd,
  can_err_not_implemented,
}
use kvasilloni.Api.Memory.{Cell, Buffer, store, u32_to_le}
use kvasilloni.Api.Receive.{Outs}
use kvasilloni.Api.Reading.{outs_of}

pub record Port : Type 0 where
  pub waiting : List Frame
  pub overrun : Bool
  pub lost : Bool
  -- whether a read waits no longer
  pub ended : Bool
  pub ready : Bool
  pub link : Tx
  pub fd_capable : Bool
  pub filters : Accept
  pub notify : Notify

pub record Device : Type 0 where
  pub ports : ℕ → Option Port
  pub next : ℕ
  pub driver : ℕ
  -- the number of channels, once asked for
  pub counted : Option ℕ

-- Frames that come in, with the times of reception.
abbrev pub Arrivals : Type 0
Arrivals = List (ℕ × Frame)

-- What comes back: a code, with the out-parameters, a word, a buffer, or the bytes for the
-- socket, or the call of the application's callback.
pub data Reply : Type 0 where
  returned : ℕ → Reply
  reported : Outs → ℕ → Reply
  stored : Cell → ℕ → Reply
  filled_in : Buffer → ℕ → Reply
  handed : List (List ℕ) → ℕ → Reply
  calls_back : Option Call → Reply

abbrev pub set_port : ℕ → Option Port → (ℕ → Option Port) → ℕ → Option Port
set_port hnd p ports k = if k == hnd then p else ports k

abbrev pub fresh_port : Tx → Bool → Port
fresh_port link fd = record {
  waiting = [];
  overrun = false;
  lost = false;
  ended = false;
  ready = true;
  link = link;
  fd_capable = fd;
  filters = default_accept;
  notify = record { cb = 0; flags = 0; tag = 0 };
}

abbrev pub open_port : ℕ → IoResult Conn → Device → Device × Reply
open_port flags (err e) d = (d, returned can_err_notfound)
open_port flags (ok c) d = (
  record d {
    ports = set_port d.next (some (fresh_port c.tx (has flags can_open_can_fd))) d.ports;
    next = (d.next + 1) % 2 ^ 32;
  },
  returned d.next,
)

-- What a request does to its port, if the handle has one.
abbrev pub at_port : ℕ → Reply → (Port → Port × Reply) → Option Port → Device → Device × Reply
at_port hnd missing f none d = (d, missing)
at_port hnd missing f (some p) d =
    let (p', reply) = f p in (record d { ports = set_port hnd (some p') d.ports }, reply)

-- The datagram of one frame.
abbrev pub datagram_of : ℕ → Frame → List ℕ
datagram_of seq f = 2 ∷ 0 ∷ seq ∷ 0 ∷ 1 ∷ wire_bytes f

abbrev pub sent_all : List ℕ → IoResult ℕ → Bool
sent_all pkt (ok n) = n == length pkt
sent_all pkt (err e) = false

abbrev pub code_of : Bool → ℕ
code_of success = if success then can_ok else can_err_param

abbrev pub after_stream : List ℕ → IoResult (Unit {0}) → Port → Port × Reply
after_stream bs (ok u) p = (p, handed (bs ∷ []) can_ok)
after_stream bs (err e) p = (record p { ready = false }, handed (bs ∷ []) can_err_param)

abbrev pub write_link : Wires → Frame → Tx → Port → Port × Reply
write_link net f (udp remote seq) p = (
  record p { link = udp remote ((seq + 1) % 256) },
  handed (datagram_of seq f ∷ [])
      (code_of (sent_all (datagram_of seq f) (net.send_to (datagram_of seq f) remote))),
)
write_link net f tcp p = after_stream (wire_bytes f) (net.write_all (wire_bytes f)) p

abbrev pub write_port : Wires → Frame → Port → Port × Reply
write_port net f p = if p.ready then write_link net f p.link p else (p, handed [] can_err_param)

abbrev pub read_port : Outs → List Frame → Port → Port × Reply
read_port o [] p = (p, reported o can_err_nomsg)
read_port o (f ∷ fs) p = (record p { waiting = fs }, reported (outs_of f o p.fd_capable) can_ok)

-- BUS_OFF 2, RX_PENDING 32, SW_OVERRUN 1024.
abbrev pub status_word : Port → ℕ
status_word p =
    (if p.lost then 2 else 0)
    + (if is_empty p.waiting then 0 else 32)
    + (if p.overrun then 1024 else 0)

abbrev pub arrive : ℕ → Frame → Port → Port × Reply
arrive now f p =
    if accepts p.filters f
    then (if leb ring_cap (length p.waiting)
        then (record p { overrun = true }, calls_back none)
        else (
          record p { waiting = p.waiting ++ stamped now f ∷ [] },
          calls_back (fire p.notify (stamped now f)),
        ))
    else (p, calls_back none)

abbrev pub arrive_all : Arrivals → Port → Port
arrive_all [] p = p
arrive_all ((now, f) ∷ fs) p = arrive_all fs (arrive now f p).0

-- A read waits until a frame is there or the port has ended: each element is what comes in before it
-- looks again, and the list ends when time is up.
abbrev pub await : List Arrivals → Port → Port
await [] p = p
await (fs ∷ rounds) p =
    let later = await rounds (arrive_all fs p) in
    if is_empty p.waiting && not p.ended then later else p

-- In milliseconds. A read inside the notify callback does not wait.
abbrev pub patience : Bool → ℕ → ℕ
patience in_callback timeout =
    if in_callback then 0 else if timeout == 2 ^ 32 - 1 then 2 ^ 32 - 1 else timeout

abbrev pub read_after : List Arrivals → Outs → Port → Port × Reply
read_after rounds o p = let p' = await rounds p in read_port o p'.waiting p'

-- Like a read, but nothing is taken.
abbrev pub sync_after : List Arrivals → Port → Port × Reply
sync_after rounds p =
    let p' = await rounds p in
    (p', returned (if is_empty p'.waiting then can_err_nomsg else can_ok))

abbrev pub end_stream : Port → Port × Reply
end_stream p =
    if p.ready
    then (record p { ready = false; lost = true; ended = true }, calls_back none)
    else (p, calls_back none)

abbrev pub status_port : Cell → Option Port → Reply
status_port cell none = stored (store cell 0) can_ok
status_port cell (some p) = stored (store cell (status_word p)) can_ok

-- A number of 32 bits, with its least byte first, over the front of a buffer.
abbrev pub number_in : Buffer → ℕ → ℕ → Reply
number_in none size v = filled_in none can_err_param
number_in (some buf) size v =
    if ltb size 4
    then filled_in (some buf) can_err_param
    else filled_in (some (u32_to_le v ++ drop 4 buf)) can_ok

-- How many frames wait.
abbrev pub level_port : Buffer → ℕ → Option Port → Reply
level_port buf size none = filled_in buf can_err_invhandle
level_port buf size (some p) = number_in buf size (length p.waiting)

-- The control functions that change nothing: set (6) and get (12) the timer scale, set the transmit
-- acknowledgements (7) and requests (13), flush the transmit queue (11), and get the level of the
-- receive (8) and of the transmit queue (9).
abbrev pub control_port : ℕ → Buffer → ℕ → Option Port → Reply
control_port func buf size p =
    if func == 11 || func == 6 || func == 7 || func == 13
    then filled_in buf can_ok
    else if func == 12
    then number_in buf size 1000
    else if func == 8
    then level_port buf size p
    else if func == 9
    then number_in buf size 0
    else filled_in buf can_err_not_implemented

-- The configuration is read once.
abbrev pub first_count : Option ℕ → ℕ → ℕ
first_count none n = n
first_count (some m) n = m
