-- ===== src/Api/Calls.antt =====
-- The calls of an application one after another, and what they leave.
use kvasilloni.Prelude.{ℕ, Bool, List, [], ◌∷◌}
use kvasilloni.Config.Types.{Config}
use kvasilloni.Transport.Conn.{Sockets, Wires}
use kvasilloni.Api.Memory.{Access, safe, fault, Buffer}
use kvasilloni.Api.Table.{World, can_open_channel, can_close}
use kvasilloni.Api.Send.{Sent, can_write}
use kvasilloni.Api.Receive.{Received, Outs, can_read}
use kvasilloni.Api.Control.{can_flush_receive_queue, can_accept, can_set_notify}

-- A call of the application, with what the socket library answers.
pub data Call : Type 0 where
  open_call : Sockets → Config → ℕ → Call
  close_call : Bool → ℕ → Call
  write_call : Wires → ℕ → ℕ → Buffer → ℕ → ℕ → Call
  read_call : ℕ → Outs → Call
  flush_call : ℕ → Call
  accept_call : ℕ → ℕ → ℕ → Call
  notify_call : ℕ → ℕ → ℕ → ℕ → Call

-- The world after a call that may fault; a fault ends the process, and the last world stands.
abbrev pub sent_world : World → Access Sent → World
sent_world w (safe (w', x, y)) = w'
sent_world w fault = w

abbrev pub received_world : World → Access Received → World
received_world w (safe (w', x, y)) = w'
received_world w fault = w

unfoldable pub step : Call → World → World
unfolding can_open_channel can_close can_write can_read can_flush_receive_queue can_accept
    can_set_notify
step (open_call net cfg flags) w = (can_open_channel net cfg flags w).0
step (close_call on_rx hnd) w = (can_close on_rx hnd w).0
step (write_call net hnd id msg dlc flag) w = sent_world w (can_write net hnd id msg dlc flag w)
step (read_call hnd o) w = received_world w (can_read hnd o w)
step (flush_call hnd) w = (can_flush_receive_queue hnd w).0
step (accept_call hnd envelope flag) w = (can_accept hnd envelope flag w).0
step (notify_call hnd cb flags tag) w = (can_set_notify hnd cb flags tag w).0

unfoldable pub steps : List Call → World → World
unfolding step
steps [] w = w
steps (c ∷ cs) w = steps cs (step c w)
