-- ===== src/System/Keeps.antt =====
-- What the calls of the application and the end of a stream do to a table of good connections.
use kvasilloni.Prelude.{
  ℕ, ◌%◌, ◌^◌, ◌≡◌, sym, refl, inl, inr, Bool-cases, Option-cases, Bool, List, [], ◌∷◌, Option,
  none, some, All, arith, ◌==◌,
}
use mathlib.Core.Option.{some-injective}
use mathlib.Core.Path.{subst}
use kvasilloni.Prelude.Bytes.{IsBytes}
use kvasilloni.Prelude.Exec.{Exec, done, panic}
use kvasilloni.Wire.Frame.{Frame}
use kvasilloni.Config.Types.{Config}
use kvasilloni.Transport.Peers.{IoResult, ok, err}
use kvasilloni.Transport.Shared.{pop, clear, set_accept, set_notify, mark_closed, mark_link_lost}
use kvasilloni.Transport.Conn.{new_conn, Conn, Wires, Sockets, connect, set_fd_capable, write}
use kvasilloni.Transport.Opening.{connect-ok, IsFresh}
use kvasilloni.Transport.Teardown.{tcp_rx_end}
use kvasilloni.Wire.Flags.{has}
use kvasilloni.Api.Codes.{can_err_invhandle, can_open_can_fd}
use kvasilloni.Api.Memory.{Access, safe, fault, Buffer}
use kvasilloni.Api.Table.{
  Conns, World, lookup, insert, remove, put, can_open_channel, can_close, with_conn,
}
use kvasilloni.Api.Send.{can_write}
use kvasilloni.Api.Receive.{Outs, can_read, received, read_out, write_read_outputs}
use kvasilloni.Api.Calls.{
  Call, open_call, close_call, write_call, read_call, flush_call, accept_call, notify_call,
  sent_world, received_world, step,
}
use kvasilloni.Api.Control.{can_flush_receive_queue, can_accept, can_set_notify}
use kvasilloni.System.{IsCall}
use kvasilloni.System.Good.{IsGood, SeqFits, pop-IsGoodRing, update-IsGood}
use kvasilloni.System.Sends.{write-IsGood, frame_of-cases}

abbrev pub GoodEntry : ℕ × Conn → Type 0
GoodEntry e = IsGood e.1

abbrev pub AllGood : World → Type 0
AllGood w = All GoodEntry w.conns

pub lookup-IsGood :
    (h : ℕ) (m : Conns) (c : Conn) → All GoodEntry m → lookup h m ≡ some c → IsGood c
unfolding lookup
lookup-IsGood h [] c g e = cc
lookup-IsGood h ((k, d) ∷ m) c g e = elim (Bool-cases (k == h)) [
  | inl same ↦ subst IsGood (some-injective d c (rw same at e)) g.0
  | inr other ↦ lookup-IsGood h m c g.1 (rw other at e)
]

insert-AllGood :
    (h : ℕ) (c : Conn) (m : Conns) → IsGood c → All GoodEntry m → All GoodEntry (insert h c m)
unfolding insert
insert-AllGood h c [] v g = (v, tt)
insert-AllGood h c ((k, d) ∷ m) v g = elim (Bool-cases (k == h)) [
  | inl same ↦ rw same (v, g.1)
  | inr other ↦ rw other (g.0, insert-AllGood h c m v g.1)
]

pub remove-AllGood : (h : ℕ) (m : Conns) → All GoodEntry m → All GoodEntry (remove h m)
unfolding remove
remove-AllGood h [] g = tt
remove-AllGood h ((k, d) ∷ m) g = elim (Bool-cases (k == h)) [
  | inl same ↦ rw same g.1
  | inr other ↦ rw other (g.0, remove-AllGood h m g.1)
]

IsFresh-IsGood : (c : Conn) → IsFresh c → SeqFits c.tx → IsGood c
IsFresh-IsGood c fresh h =
    let new : IsGood (new_conn c.tx c.local_port) = record {
      ring = record { frames = tt; bounded = omega arith };
      clean = refl;
      seq = h;
      live = refl;
    } in
    subst IsGood (sym fresh) new

pub connect-IsGood : (net : Sockets) (cfg : Config) (c : Conn) → connect net cfg ≡ ok c → IsGood c
connect-IsGood net cfg c e =
    let (peer, parsed, opened) = connect-ok net cfg c e in
    let (fresh, over_udp, over_tcp) = opened in
    IsFresh-IsGood c fresh (elim (Bool-cases cfg.tcp) [
      | inl stream ↦ subst SeqFits (sym (over_tcp stream).0) tt
      | inr datagrams ↦ subst SeqFits (sym (over_udp datagrams)) (omega arith)
    ])

pub put-AllGood : (h : ℕ) (c : Conn) (w : World) → IsGood c → AllGood w → AllGood (put h c w)
put-AllGood h c w v g = insert-AllGood h c w.conns v g

-- A call on one connection that keeps it good.
with_conn-AllGood :
    (h e : ℕ) (f : Conn → Conn × ℕ) (w : World)
    → ((c : Conn) → IsGood c → IsGood (f c).0)
    → AllGood w
    → AllGood (with_conn h e f w).0
unfolding with_conn
with_conn-AllGood h e f w keeps g = elim (Option-cases (lookup h w.conns)) [
  | inl missing ↦ rw missing g
  | inr (c, found) ↦
      rw found (put-AllGood h (f c).0 w (keeps c (lookup-IsGood h w.conns c g found)) g)
]

open-AllGood :
    (net : Sockets) (cfg : Config) (flags : ℕ) (w : World)
    → AllGood w
    → AllGood (can_open_channel net cfg flags w).0
unfolding can_open_channel
open-AllGood net cfg flags w g = go (connect net cfg) refl
  where
    go : (r : IoResult Conn) → connect net cfg ≡ r → AllGood (can_open_channel net cfg flags w).0
    go (ok c) e =
        let v = connect-IsGood net cfg c e in
        let v' : IsGood (set_fd_capable (has flags can_open_can_fd) c) = record {
          ring = v.ring;
          clean = v.clean;
          seq = v.seq;
          live = v.live;
        } in
        rw e
          (insert-AllGood w.next_handle (set_fd_capable (has flags can_open_can_fd) c) w.conns v' g)
    go (err x) e = rw e g

write-AllGood :
    (net : Wires) (hnd id : ℕ) (msg : Buffer) (dlc flag : ℕ) (w : World)
    → ((buf : List ℕ) → msg ≡ some buf → IsBytes buf)
    → AllGood w
    → AllGood (sent_world w (can_write net hnd id msg dlc flag w))
unfolding can_write
write-AllGood net hnd id msg dlc flag w h g = elim (frame_of-cases id msg dlc flag h) [
  | inl over ↦ rw over g
  | inr (f, built, v) ↦ elim (Option-cases (lookup hnd w.conns)) [
    | inl missing ↦ rw (built, missing) g
    | inr (c, found) ↦
        rw (built, found)
          (put-AllGood hnd (write net f c).conn w
            (write-IsGood net f c v (lookup-IsGood hnd w.conns c g found)) g)
  ]
]

received-AllGood :
    (w w' : World) (o : Outs) (r : Exec (Access Outs))
    → AllGood w
    → AllGood w'
    → AllGood (received_world w (received w' o r))
received-AllGood w w' o panic g g' = g'
received-AllGood w w' o (done fault) g g' = g
received-AllGood w w' o (done (safe o')) g g' = g'

read_out-AllGood :
    (w w' : World) (o : Outs) (fd_capable : Bool) (r : Option Frame)
    → AllGood w
    → AllGood w'
    → AllGood (received_world w (read_out w' o fd_capable r))
read_out-AllGood w w' o fd_capable none g g' = g'
read_out-AllGood w w' o fd_capable (some f) g g' =
    received-AllGood w w' o (write_read_outputs f o fd_capable) g g'

read-AllGood :
    (hnd : ℕ) (o : Outs) (w : World) → AllGood w → AllGood (received_world w (can_read hnd o w))
unfolding can_read
read-AllGood hnd o w g = elim (Option-cases (lookup hnd w.conns)) [
  | inl missing ↦ rw missing g
  | inr (c, found) ↦
      let v = lookup-IsGood hnd w.conns c g found in
      let s = (pop c.shared).0 in
      rw found (
        read_out-AllGood w (put hnd (record c { shared = s }) w) o c.fd_capable (pop c.shared).1 g (
          put-AllGood hnd (record c { shared = s }) w
            (update-IsGood c s v (pop-IsGoodRing c.shared v.ring)) g))
]

pub clear-IsGood : (c : Conn) → IsGood c → IsGood (record c { shared = clear c.shared })
unfolding clear
clear-IsGood c v = update-IsGood c (clear c.shared) v record { frames = tt; bounded = omega arith }

pub set_accept-IsGood :
    (flag envelope : ℕ) (c : Conn)
    → IsGood c
    → IsGood (record c { shared = set_accept flag envelope c.shared })
unfolding set_accept
set_accept-IsGood flag envelope c v =
    update-IsGood c (set_accept flag envelope c.shared) v
      record { frames = v.ring.frames; bounded = v.ring.bounded }

pub set_notify-IsGood :
    (cb flags tag : ℕ) (c : Conn)
    → IsGood c
    → IsGood (record c { shared = set_notify cb flags tag c.shared })
unfolding set_notify
set_notify-IsGood cb flags tag c v =
    update-IsGood c (set_notify cb flags tag c.shared) v
      record { frames = v.ring.frames; bounded = v.ring.bounded }

pub tcp_rx_end-IsGood : (c : Conn) → IsGood c → IsGood (tcp_rx_end c)
unfolding tcp_rx_end mark_closed mark_link_lost
tcp_rx_end-IsGood c v = elim (Bool-cases c.running) [
  | inl run ↦ simp run (record {
    ring = record { frames = v.ring.frames; bounded = v.ring.bounded };
    clean = v.clean;
    seq = v.seq;
    live = refl;
  })
  | inr stopped ↦ simp stopped v
]

pub step-AllGood : (c : Call) (w : World) → IsCall c → AllGood w → AllGood (step c w)
unfolding step
step-AllGood (open_call net cfg flags) w i g = open-AllGood net cfg flags w g
step-AllGood (close_call on_rx hnd) w i g = unfold can_close in remove-AllGood hnd w.conns g
step-AllGood (write_call net hnd id none dlc flag) w i g =
    write-AllGood net hnd id none dlc flag w (λ buf e. cc) g
step-AllGood (write_call net hnd id (some buf) dlc flag) w i g =
    write-AllGood net hnd id (some buf) dlc flag w (λ b e. subst IsBytes (some-injective buf b e) i)
      g
step-AllGood (read_call hnd o) w i g = read-AllGood hnd o w g
step-AllGood (flush_call hnd) w i g =
    unfold can_flush_receive_queue in with_conn-AllGood hnd can_err_invhandle _ w clear-IsGood g
step-AllGood (accept_call hnd envelope flag) w i g =
    unfold can_accept in
    with_conn-AllGood hnd can_err_invhandle _ w
      (λ c v. set_accept-IsGood flag (envelope % 2 ^ 32) c v) g
step-AllGood (notify_call hnd cb flags tag) w i g =
    unfold can_set_notify in
    with_conn-AllGood hnd can_err_invhandle _ w (λ c v. set_notify-IsGood cb flags tag c v) g
