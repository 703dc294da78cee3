-- ===== src/System.antt =====
-- The library as a whole: the calls of src/lib.rs and the receive threads of src/transport.rs, in
-- any order, over one table of channels. A blocking read is its last step, after the steps of the
-- others while it waited.
pub mod Ports
pub mod Spec
pub mod Requests
mod Good
mod Described
mod Sends
mod Keeps
mod Reachable
mod Serves
mod ReadBack
mod Refines
mod Follows
mod Reads
mod Waits
mod Controls
mod Runs
mod Whole
mod Tests
use kvasilloni.Prelude.{ℕ, ◌+◌, ◌≡◌, Bool, List, [], ◌∷◌, ◌++◌, some, none, length}
use kvasilloni.Prelude.Bytes.{IsBytes}
use kvasilloni.Prelude.Exec.{done}
use kvasilloni.Wire.Frame.{Frame}
use kvasilloni.Transport.Peers.{IpAddr, ok}
use kvasilloni.Transport.Shared.{push}
use kvasilloni.Transport.Conn.{Conn}
use kvasilloni.Transport.Rx.{tcp_rx_frames, udp_rx_loop}
use kvasilloni.Transport.StreamRounds.{primed}
use kvasilloni.Transport.Teardown.{tcp_rx_end}
use kvasilloni.Api.Table.{World, lookup, put}
use kvasilloni.Api.Calls.{Call, write_call, step}

-- What a call hands over are bytes.
abbrev pub IsCall : Call → Type 0
IsCall (write_call net hnd id (some buf) dlc flag) = IsBytes buf
IsCall _ = Unit

-- One step: a call of the application, a datagram or a frame of a stream that a receive thread
-- takes in, whatever the peer sent, or the end of a stream.
pub data Move (w : World) : World → Type 0 where
  calls : (c : Call) → IsCall c → Move w (step c w)
  datagram :
      (hnd : ℕ) (c : Conn) (now : ℕ) (bytes : List ℕ) (from : IpAddr) (allow : List IpAddr)
      (check : Bool)
      → lookup hnd w.conns ≡ some c
      → IsBytes bytes
      → Move w (
          put hnd
            (record c { shared = (udp_rx_loop now (ok (bytes, from) ∷ []) allow check c.shared).0 })
            w)
  stream_frame :
      (hnd : ℕ) (c : Conn) (now : ℕ) (bs : List ℕ) (before : List Frame) (f : Frame)
      (behind : List Frame)
      → lookup hnd w.conns ≡ some c
      → IsBytes bs
      → tcp_rx_frames (length bs + 1) primed bs ≡ done (before ++ f ∷ behind)
      → Move w (put hnd (record c { shared = (push now f c.shared).0 }) w)
  stream_end :
      (hnd : ℕ) (c : Conn) → lookup hnd w.conns ≡ some c → Move w (put hnd (tcp_rx_end c) w)

pub data Moves (w : World) : World → Type 0 where
  here : Moves w w
  next : {u v : World} → Moves w u → Move u v → Moves w v
