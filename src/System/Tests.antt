-- ===== src/System/Tests.antt =====
-- The library from its start: a channel is opened, a datagram comes in, it is read.
use kvasilloni.Prelude.{ℕ, All, drop, ◌≡◌, refl, List, [], ◌∷◌, some, true, false, arith}
use kvasilloni.Config.Types.{default_config}
use kvasilloni.Wire.Tests.{packet, classic_two, classic_two-IsSendable}
use kvasilloni.Transport.Peers.{bind_udp, v4, ok}
use kvasilloni.Transport.Conn.{Conn, connect, set_fd_capable}
use kvasilloni.Transport.Rx.{udp_rx_loop}
use kvasilloni.Api.Codes.{can_ok}
use kvasilloni.Api.Memory.{safe}
use kvasilloni.Api.Table.{World, new_world, lookup, insert, put, can_open_channel}
use kvasilloni.Api.Send.{can_write, user_bytes}
use kvasilloni.Api.Receive.{can_read}
use kvasilloni.Api.Calls.{open_call, step}
use kvasilloni.Api.Handles.{lookup-insert_self}
use kvasilloni.Api.Tests.{sockets, wires, udp_conn, outs, bytes_in, ten_bytes, fd_brs_flag}
use kvasilloni.System.{Moves, here, next, calls, datagram}
use kvasilloni.System.Described.{described}
use kvasilloni.System.Good.{IsGood}
use kvasilloni.System.Reachable.{Moves-IsGood}
use kvasilloni.Transport.Filter.{accepts}
use kvasilloni.Api.ReadBack.{classic_outs}
use kvasilloni.Api.ReadBackFd.{fd_outs}
use kvasilloni.Api.ReadBackRemote.{remote_outs}
use kvasilloni.System.ReadBack.{
  ReadsBack, can_read-can_write, can_read-can_write_fd, can_read-can_write_remote,
}
use kvasilloni.System.Serves.{
  TakesEverything, answer, Carries, next_tx, can_read-answer, can_write-Carries,
}
use kvasilloni.System.Spec.{
  new_device, Request, IsRequest, opens, closes, reads, waits, writes, writes_wait, syncs,
  asks_status, controls, sets_driver, asks_driver, counts, frame_in, serve_all,
}
use kvasilloni.System.Requests.{view, run_all}
use kvasilloni.System.Whole.{run_all-serve_all}

abbrev opened : World
opened = step (open_call sockets default_config 8) new_world

abbrev classic_conn : Conn
classic_conn = set_fd_capable false udp_conn

lookup-opened : lookup 1 opened.conns ≡ some classic_conn
unfolding step can_open_channel lookup insert connect bind_udp
lookup-opened = refl

-- The channel with a frame in its ring, from a peer that is allowed.
abbrev served_conn : Conn
served_conn = record classic_conn {
  shared = (udp_rx_loop 5 (ok (packet, v4 1) ∷ []) (v4 1 ∷ []) true classic_conn.shared).0;
}

abbrev served : World
served = put 1 served_conn opened

served-Moves : Moves new_world served
served-Moves =
    next (next here (calls (open_call sockets default_config 8) tt))
      (datagram 1 classic_conn 5 packet (v4 1) (v4 1 ∷ []) true lookup-opened (omega arith))

lookup-served : lookup 1 served.conns ≡ some served_conn
lookup-served = lookup-insert_self 1 served_conn opened.conns

Moves-IsGood_example : IsGood served_conn
Moves-IsGood_example = Moves-IsGood served 1 served_conn served-Moves lookup-served

can_read-answer_example :
    can_read 1 outs served ≡ safe (answer 1 outs served (lookup 1 served.conns))
can_read-answer_example =
    can_read-answer 1 outs served served-Moves (rw lookup-served (omega arith))

can_write-Carries_example :
    (bytes : List ℕ) × (can_write wires 1 0x123 (some bytes_in) 3 2 served
      ≡ safe
          (put 1 (record served_conn { tx = next_tx served_conn.tx }) served, can_ok, bytes ∷ []))
    × Carries served_conn.tx bytes (described 0x123 (some bytes_in) 3 2)
unfolding user_bytes
can_write-Carries_example =
    can_write-Carries wires 1 0x123 (some bytes_in) 3 2 served served_conn served-Moves
      record { datagrams = λ pkt to. refl; stream = λ bs. refl } (omega arith, omega arith)
      lookup-served refl

abbrev requests : List Request
requests =
    opens sockets default_config 8
    ∷ frame_in 1 5 classic_two
    ∷ asks_status 1 (some 0)
    ∷ controls 1 8 (some (7 ∷ 7 ∷ 7 ∷ 7 ∷ [])) 4
    ∷ sets_driver 1 1
    ∷ asks_driver 1 (some 0)
    ∷ counts default_config (some 0)
    ∷ writes wires 1 0x123 (some bytes_in) 3 2
    ∷ writes_wait wires 1 0x123 (some bytes_in) 3 2 50
    ∷ syncs (λ d. []) false 1 10
    ∷ reads 1 outs
    ∷ waits (λ d. [] ∷ ((9, classic_two) ∷ []) ∷ []) false 1 outs 100
    ∷ closes false 1
    ∷ reads 1 outs
    ∷ []

run_all-serve_all_example :
    (w' : World) × (run_all requests new_world ≡ safe (w', (serve_all requests new_device).1))
    × (view w' ≡ (serve_all requests new_device).0)
unfolding user_bytes
run_all-serve_all_example =
    let later : All IsRequest (drop 7 requests) = (
      (omega arith, omega arith),
      (
        (omega arith, omega arith),
        (
          λ d. tt,
          (
            omega arith,
            ((omega arith, λ d. (tt, ((classic_two-IsSendable, tt), tt))), (tt, (omega arith, tt))),
          ),
        ),
      ),
    ) in
    run_all-serve_all requests
      (tt, (classic_two-IsSendable, (tt, (omega arith, (tt, (tt, (tt, later)))))))

served-takes : TakesEverything wires
served-takes = record { datagrams = λ pkt to. refl; stream = λ bs. refl }

can_read-can_write_example :
    ReadsBack wires 1 0x123
      (some bytes_in)
      3
      2
      served
      served_conn
      77
      1
      outs
      new_world
      classic_conn
      (classic_outs 77 0x123 3 bytes_in 2 outs)
unfolding user_bytes
can_read-can_write_example =
    can_read-can_write wires 1 0x123 3 2 bytes_in served served_conn 77 1 outs new_world
      classic_conn served-Moves served-takes lookup-served refl (omega arith) (omega arith)
      (omega arith, omega arith) refl refl (refl, unfold accepts in refl) (omega arith)

-- A channel that was opened for CAN FD.
abbrev fd_conn : Conn
fd_conn = set_fd_capable true udp_conn

can_read-can_write_fd_example :
    ReadsBack wires 1 0x123_4567
      (some ten_bytes)
      10
      fd_brs_flag
      served
      served_conn
      77
      1
      outs
      new_world
      fd_conn
      (fd_outs 77 0x123_4567 10 ten_bytes fd_brs_flag outs)
unfolding user_bytes
can_read-can_write_fd_example =
    can_read-can_write_fd wires 1 0x123_4567 10 fd_brs_flag ten_bytes served served_conn 77 1 outs
      new_world fd_conn served-Moves served-takes lookup-served refl (omega arith) (omega arith)
      (omega arith, omega arith) refl refl (refl, unfold accepts in refl) refl (omega arith)

can_read-can_write_remote_example :
    ReadsBack wires 1 0x123
      (some ten_bytes)
      5
      3
      served
      served_conn
      77
      1
      outs
      new_world
      classic_conn
      (remote_outs 77 0x123 5 3 outs)
unfolding user_bytes
can_read-can_write_remote_example =
    can_read-can_write_remote wires 1 0x123 5 3 (some ten_bytes) served served_conn 77 1 outs
      new_world classic_conn served-Moves served-takes lookup-served refl (omega arith)
      (omega arith, omega arith) refl refl (refl, unfold accepts in refl) (omega arith)
