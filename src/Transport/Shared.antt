-- ===== src/Transport/Shared.antt =====
-- `Shared` of src/transport.rs: the bounded ring between the receive thread and the API, with the
-- latches, the filter and the notify callback. Each function is what its method does while it
-- holds the locks. The clock is an argument, and the call of the app's callback is a result.
use kvasilloni.Prelude.{
  ℕ, ◌^◌, ◌%◌, Bool, true, false, not, ◌&&◌, List, [], ◌∷◌, ◌++◌, Option, none, some, length, leb,
  ◌==◌, if◌then◌else◌,
}
use kvasilloni.Wire.Flags.{has}
use kvasilloni.Wire.Frame.{Frame, canid_to_kvaser}
use kvasilloni.Transport.Filter.{Accept, default_accept, accepts, set_filter}

abbrev pub ring_cap : ℕ
ring_cap = 8192

abbrev pub notify_rx : ℕ
notify_rx = 0x0001

abbrev pub event_rx : ℕ
event_rx = 32000

-- `cb` is the address of the callback, 0 for none.
pub record Notify : Type 0 where
  pub cb : ℕ
  pub flags : ℕ
  pub tag : ℕ

-- `canNotifyData` of a receive event; `time` is a 32-bit c_ulong on Windows.
pub record NotifyData : Type 0 where
  pub tag : ℕ
  pub event_type : ℕ
  pub id : ℕ
  pub time : ℕ

pub record Shared : Type 0 where
  pub q : List Frame
  pub closed : Bool
  pub overflow : Bool
  pub link_lost : Bool
  pub filters : Accept
  pub notify : Notify

abbrev pub new_shared : Shared
new_shared = record {
  q = [];
  closed = false;
  overflow = false;
  link_lost = false;
  filters = default_accept;
  notify = record { cb = 0; flags = 0; tag = 0 };
}

-- A call of the app's callback: its address and its argument.
abbrev pub Call : Type 0
Call = ℕ × NotifyData

abbrev pub stamped : ℕ → Frame → Frame
stamped now f = record f { rx_time_ms = now }

-- The callback that a delivered frame fires, read after the frame is queued.
abbrev pub fire : Notify → Frame → Option Call
fire n f =
    if not (n.cb == 0) && has n.flags notify_rx
    then some (
      n.cb,
      record {
        tag = n.tag;
        event_type = event_rx;
        id = (canid_to_kvaser f.can_id f.fd).0;
        time = f.rx_time_ms % 2 ^ 32;
      },
    )
    else none

unfoldable pub push : ℕ → Frame → Shared → Shared × Option Call
push now f s =
    if not (accepts s.filters f)
    then (s, none)
    else if leb ring_cap (length s.q)
    then (record s { overflow = true }, none)
    else (record s { q = s.q ++ stamped now f ∷ [] }, fire s.notify (stamped now f))

abbrev pub pop_front : List Frame → Shared → Shared × Option Frame
pop_front [] s = (s, none)
pop_front (f ∷ fs) s = (record s { q = fs }, some f)

unfoldable pub pop : Shared → Shared × Option Frame
pop s = pop_front s.q s

unfoldable pub mark_closed : Shared → Shared
mark_closed s = record s { closed = true }

unfoldable pub clear : Shared → Shared
clear s = record s { q = []; overflow = false }

unfoldable pub level : Shared → ℕ
level s = length s.q

unfoldable pub overflowed : Shared → Bool
overflowed s = s.overflow

unfoldable pub mark_link_lost : Shared → Shared
mark_link_lost s = record s { link_lost = true }

unfoldable pub is_link_lost : Shared → Bool
is_link_lost s = s.link_lost

unfoldable pub set_accept : ℕ → ℕ → Shared → Shared
unfolding set_filter
set_accept flag envelope s = record s { filters = set_filter s.filters flag envelope }

unfoldable pub set_notify : ℕ → ℕ → ℕ → Shared → Shared
set_notify cb flags tag s = record s { notify = record { cb = cb; flags = flags; tag = tag } }

-- What the other threads do to the shared state.
pub data Op : Type 0 where
  push_op : ℕ → Frame → Op
  pop_op : Op
  clear_op : Op
  close_op : Op
  lose_op : Op
  accept_op : ℕ → ℕ → Op
  notify_op : ℕ → ℕ → ℕ → Op

unfoldable pub apply : Op → Shared → Shared
unfolding push pop clear mark_closed mark_link_lost set_accept set_notify
apply (push_op now f) s = (push now f s).0
apply pop_op s = (pop s).0
apply clear_op s = clear s
apply close_op s = mark_closed s
apply lose_op s = mark_link_lost s
apply (accept_op flag envelope) s = set_accept flag envelope s
apply (notify_op cb flags tag) s = set_notify cb flags tag s

unfoldable pub apply_all : List Op → Shared → Shared
unfolding apply
apply_all [] s = s
apply_all (o ∷ os) s = apply_all os (apply o s)

unfoldable pub is_empty : List Frame → Bool
is_empty [] = true
is_empty (f ∷ fs) = false

-- `wait_timeout_while`: the reader checks its predicate whenever it holds the lock, and what the
-- others did between two checks is one element of the list. At the end of the list time is up.
unfoldable pub wait_while : List (List Op) → Shared → Shared
unfolding is_empty apply_all
wait_while [] s = s
wait_while (os ∷ rounds) s =
    let later = wait_while rounds (apply_all os s) in
    if is_empty s.q && not s.closed then later else s

unfoldable pub pop_wait : List (List Op) → Shared → Shared × Option Frame
unfolding wait_while pop
pop_wait rounds s = pop (wait_while rounds s)

unfoldable pub peek_wait : List (List Op) → Shared → Shared × Bool
unfolding wait_while is_empty
peek_wait rounds s = let s' = wait_while rounds s in (s', not (is_empty s'.q))
