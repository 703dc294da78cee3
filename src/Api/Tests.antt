-- ===== src/Api/Tests.antt =====
-- The exports on a concrete table of channels.
use kvasilloni.Prelude.{
  ℕ, ◌≤◌, ◌≡◌, ◌≢◌, refl, List, [], ◌∷◌, none, some, false, not, length, replicate, arith,
}
use kvasilloni.Wire.Flags.{has}
use kvasilloni.Wire.Frame.{Frame}
use kvasilloni.Wire.Tests.{classic_two}
use kvasilloni.Config.Types.{default_config}
use kvasilloni.Transport.Peers.{bind_udp, v4, SocketAddr, ok}
use kvasilloni.Transport.Shared.{new_shared, is_empty}
use kvasilloni.Transport.Conn.{udp, Conn, new_conn, Sockets, connect, set_fd_capable, Wires}
use kvasilloni.Prelude.Text.{codes, text_eq}
use kvasilloni.Api.Log.{opened, wrote_line}
use kvasilloni.Api.LogLines.{Line, log_all, log_all-until_open}
use kvasilloni.Api.Overlap.{
  find_ref, insert_ref, remove_ref, deref, update, perform, closes, Store, new_store, first, admits,
  resolves, checks, sends, Overlaps, stay, more,
}
use kvasilloni.Api.OverlapPending.{pending}
use kvasilloni.Api.OverlapClosed.{closes-overlapped}
use kvasilloni.Transport.Conn.{write, write_locked, failed}
use kvasilloni.Transport.Peers.{not_connected}
use kvasilloni.Api.Codes.{
  can_ok, can_err_invhandle, can_open_can_fd, can_stat_rx_pending, can_stat_sw_overrun,
  can_stat_bus_off,
}
use kvasilloni.Api.Memory.{safe, Buffer}
use kvasilloni.Api.Table.{World, new_world, lookup, with_conn, can_open_channel}
use kvasilloni.Api.Receive.{Outs, can_read}
use kvasilloni.Api.Control.{can_read_status}
use kvasilloni.Api.Handles.{IsTable, can_open_channel-ok}
use kvasilloni.Api.Calls.{Call, open_call, read_call, steps, step, close_call}
use kvasilloni.Api.Stale.{steps-closed}
use kvasilloni.Api.Outputs.{Keeps, bus_statistics, fill, fill-Keeps}
use kvasilloni.Api.Status.{can_read_status_lem}

abbrev pub peer : SocketAddr
peer = record { ip = v4 1; port = 20000 }

abbrev pub sockets : Sockets
sockets = record {
  parse_ip = λ t. some (v4 1);
  bind = λ a. ok a.port;
  listen = λ a. ok tt;
  try_clone = ok tt;
  set_timeout = ok tt;
  set_nonblocking = ok tt;
  accepts = [];
  connect_timeout = λ a. ok tt;
  write_banner = λ bs. ok tt;
  read_banner = λ peer. ok [];
  local_addr = some 20000;
}

abbrev pub wires : Wires
wires = record { send_to = λ pkt to. ok (length pkt); write_all = λ bs. ok tt }

abbrev pub udp_conn : Conn
udp_conn = new_conn (udp peer 0) 20000

-- One open channel, with these frames in its ring.
abbrev holding : List Frame → Conn
holding fs = record udp_conn { shared = record new_shared { q = fs } }

abbrev world_with : List Frame → World
world_with fs = record new_world { conns = (1, holding fs) ∷ []; next_handle = 2 }

world_with-IsTable : (fs : List Frame) → IsTable (world_with fs)
world_with-IsTable fs = record {
  unique = (tt, tt);
  below = (omega arith, tt);
  positive = omega arith;
}

abbrev pub outs : Outs
outs = record { id = some 0; msg = some (replicate 64 9); dlc = some 0; flag = none; time = some 0 }

abbrev pub bytes_in : List ℕ
bytes_in = 1 ∷ 2 ∷ 3 ∷ []

pub connect-udp : connect sockets default_config ≡ ok udp_conn
unfolding connect bind_udp
connect-udp = refl

can_open_channel-ok_example :
    let (w', h) = can_open_channel sockets default_config 0x0408 (world_with []) in
    (h ≡ 2)
    × (lookup h (world_with []).conns ≡ none)
    × (lookup h w'.conns ≡ some (set_fd_capable (has 0x0408 can_open_can_fd) udp_conn))
    × ((k : ℕ) → k ≢ h → lookup k w'.conns ≡ lookup k (world_with []).conns)
    × IsTable w'
can_open_channel-ok_example =
    can_open_channel-ok sockets default_config 0x0408 udp_conn (world_with [])
      (world_with-IsTable []) (omega arith) connect-udp

-- The channel is opened again, and the old handle is read.
abbrev calls : List Call
calls = open_call sockets default_config 8 ∷ read_call 1 outs ∷ []

steps-closed_example :
    let w' = steps calls (step (close_call false 1) (world_with [])) in
    (lookup 1 w'.conns ≡ none)
    × (can_read 1 outs w' ≡ safe (w', outs, can_err_invhandle))
    × ((e : ℕ) (f : Conn → Conn × ℕ) → with_conn 1 e f w' ≡ (w', e))
steps-closed_example =
    steps-closed 1 false calls (world_with []) outs (world_with-IsTable []) (omega arith)
      (omega arith)

can_read_status_lem_example :
    (st : ℕ) × (can_read_status 1 (some 7) (world_with (classic_two ∷ [])) ≡ (some st, can_ok))
    × (has st can_stat_rx_pending ≡ not (is_empty (classic_two ∷ [])))
    × (has st can_stat_sw_overrun ≡ false)
    × (has st can_stat_bus_off ≡ false)
unfolding lookup
can_read_status_lem_example =
    can_read_status_lem 1 7 (world_with (classic_two ∷ [])) (holding (classic_two ∷ [])) refl

abbrev room : Buffer
room = some (replicate 8 0)

fill-Keeps_example : Keeps room (fill (bus_statistics 1) room 8 (world_with []))
fill-Keeps_example = fill-Keeps (bus_statistics 1) room 8 (world_with []) (omega arith)

-- Two attempts to open the log fail, the third succeeds.
abbrev log_lines : List Line
log_lines =
    ((λ p. none), codes "one") ∷ ((λ p. some 7), codes "two") ∷ ((λ p. some 8), codes "three") ∷ []

log_all-until_open_example :
    (log_all (codes "a.log") log_lines (some (codes "b.log", 3))).1
    ≡ opened (codes "a.log")
      ∷ opened (codes "a.log")
      ∷ wrote_line 7 (codes "two")
      ∷ wrote_line 7 (codes "three")
      ∷ []
unfolding text_eq
log_all-until_open_example =
    log_all-until_open (codes "a.log") log_lines (some (codes "b.log", 3)) refl

-- A channel that a write has found ready, and that another call then takes out of the table.
abbrev busy : Store
busy = record {
  conns = udp_conn ∷ [];
  refs = (1, 0) ∷ [];
  next_handle = 2;
  held = 0 ∷ [];
  passed = 0 ∷ [];
}

busy-Overlaps : Overlaps new_store busy
unfolding find_ref insert_ref deref
busy-Overlaps =
    more (more (more stay (admits udp_conn)) (resolves 1 0 refl))
      (checks 0 udp_conn first refl refl)

abbrev taken_out : Store
taken_out = record busy { refs = remove_ref 1 busy.refs; held = 0 ∷ busy.held }

abbrev shut_down : Store
shut_down = record taken_out { conns = update 0 (perform (closes false)) taken_out.conns }

-- The write takes the lock of the transmitter only now, and sends.
abbrev written_late : Store
written_late = record shut_down {
  conns = update 0 (λ c. (write_locked wires classic_two c).conn) shut_down.conns;
  passed = [];
}

closes-overlapped_example :
    ((k : ℕ) → find_ref k written_late.refs ≢ some 0)
    × ((c : Conn) × (deref 0 written_late.conns ≡ some c)
        × ((net : Wires) (f : Frame)
            → write net f c ≡ record { conn = c; result = failed not_connected; sent = [] }))
    × (pending 0 written_late.passed ≤ pending 0 taken_out.passed)
unfolding find_ref
closes-overlapped_example =
    closes-overlapped busy taken_out written_late 1 0 false busy-Overlaps refl stay
      (more stay (sends wires classic_two [] 0 [] refl))

abbrev pub ten_bytes : List ℕ
ten_bytes = 1 ∷ 2 ∷ 3 ∷ 4 ∷ 5 ∷ 6 ∷ 7 ∷ 8 ∷ 9 ∷ 10 ∷ []

-- canMSG_EXT, canFDMSG_FDF and canFDMSG_BRS.
abbrev pub fd_brs_flag : ℕ
fd_brs_flag = 0x0003_0004
