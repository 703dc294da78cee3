-- ===== src/Transport/Teardown.antt =====
-- The end of `tcp_rx_loop` of src/transport.rs, and the loop as a whole on a stream that ends.
use kvasilloni.Prelude.{ℕ, ◌+◌, Bool, false, List, [], ◌∷◌, length, if◌then◌else◌}
use kvasilloni.Prelude.Exec.{Exec, done, ◌>>=◌}
use kvasilloni.Wire.Frame.{Frame, default_frame}
use kvasilloni.Wire.Stream.{init}
use kvasilloni.Transport.Shared.{Call, mark_closed, mark_link_lost}
use kvasilloni.Transport.Conn.{Conn, Wires, write, close}
use kvasilloni.Transport.Rx.{push_all, prime, tcp_rx_frames}

-- `if running.swap(false) { .. }`: only a loop that nobody stopped reports a lost link.
unfoldable pub tcp_rx_end : Conn → Conn
unfolding mark_closed mark_link_lost
tcp_rx_end c =
    if c.running
    then record c {
      running = false;
      negotiated = false;
      shared = mark_closed (mark_link_lost c.shared);
    }
    else c

abbrev pushed : ℕ → List Frame → Conn → Conn × List Call
pushed now fs c =
    let (s, calls) = push_all now fs c.shared in (tcp_rx_end (record c { shared = s }), calls)

-- The loop over the bytes of a stream that then ends, with `running` set meanwhile: one round for
-- each byte, and one more, are enough.
unfoldable pub tcp_rx_loop : ℕ → List ℕ → Conn → Exec (Conn × List Call)
unfolding prime tcp_rx_frames push_all tcp_rx_end
tcp_rx_loop now bs c = do
  t ← prime default_frame init
  fs ← tcp_rx_frames (length bs + 1) t bs
  done (pushed now fs c)

-- What can happen to a connection after its opening, in any order.
pub data Event : Type 0 where
  rx_ended : Event
  wrote_frame : Wires → Frame → Event
  closed_by : Bool → Event

unfoldable pub act : Event → Conn → Conn
unfolding tcp_rx_end write close
act rx_ended c = tcp_rx_end c
act (wrote_frame net f) c = (write net f c).conn
act (closed_by on_rx) c = (close on_rx c).0

unfoldable pub act_all : List Event → Conn → Conn
unfolding act
act_all [] c = c
act_all (e ∷ es) c = act_all es (act e c)
