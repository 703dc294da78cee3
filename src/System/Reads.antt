-- ===== src/System/Reads.antt =====
-- A read is served as the specification says.
use kvasilloni.Prelude.{ℕ, ◌≡◌, ap, sym, refl, arith, List, [], ◌∷◌, Option, none, some}
use kvasilloni.Transport.Shared.{pop, pop_front}
use kvasilloni.Transport.Conn.{Conn}
use kvasilloni.Api.Codes.{can_ok, can_err_nomsg, can_err_invhandle}
use kvasilloni.Api.Table.{World, lookup, put}
use kvasilloni.Api.Receive.{Outs, can_read}
use kvasilloni.Api.Reading.{HasRoom, outs_of}
use kvasilloni.System.Ports.{Reply, reported, read_port}
use kvasilloni.System.Spec.{RoomForAny, reads, serve}
use kvasilloni.System.Requests.{port_of, view, with_outs}
use mathlib.Core.Path.{subst}
use kvasilloni.Wire.Frame.{Frame}
use kvasilloni.Api.Memory.{safe, Buffer}
use kvasilloni.System.Good.{IsGood, IsGoodRing, update-IsGood, pop-IsGoodRing}
use kvasilloni.System.Keeps.{lookup-IsGood}
use kvasilloni.System.Serves.{HasRoomAt, from_ring, answer, read_from-answer}
use kvasilloni.System.Refines.{Sound, Meets, Follows, found-Meets}

pub HasRoomAt-any : (o : Outs) (r : Option Conn) → RoomForAny o.msg → HasRoomAt o.msg r
HasRoomAt-any o none h = tt
HasRoomAt-any o (some c) h = go o.msg h
  where
    go : (msg : Buffer) → RoomForAny msg → HasRoom msg c.fd_capable
    go none h = tt
    go (some buf) h = ground (arith, h)

pub read-Follows :
    (h : ℕ) (o : Outs) (w : World) (c : Conn)
    → IsGood c
    → (c' : Conn) × (reply : Reply) × (with_outs (safe (answer h o w (some c)))
        ≡ safe (put h c' w, reply))
      × Follows c c' reply (λ p. read_port o p.waiting p)
unfolding pop
read-Follows h o w c v = go c.shared.q refl
  where
    go :
        (q : List Frame)
        → c.shared.q ≡ q
        → (c' : Conn) × (reply : Reply) × (with_outs (safe (from_ring h o w c q))
            ≡ safe (put h c' w, reply))
          × Follows c c' reply (λ p. read_port o p.waiting p)
    go [] e = (
      c,
      reported o can_err_nomsg,
      refl,
      record {
        good = v;
        port = ap (λ q. (read_port o q (port_of c)).0) (sym e);
        told = ap (λ q. (read_port o q (port_of c)).1) (sym e);
      },
    )
    go (f ∷ fs) e =
        let s = record c.shared { q = fs } in
        let r =
          subst (λ q. IsGoodRing (pop_front q c.shared).0) e (pop-IsGoodRing c.shared v.ring) in
        (
          record c { shared = s },
          reported (outs_of f o c.fd_capable) can_ok,
          refl,
          record {
            good = update-IsGood c s v r;
            port = ap (λ q. (read_port o q (port_of c)).0) (sym e);
            told = ap (λ q. (read_port o q (port_of c)).1) (sym e);
          },
        )

pub reads-Meets :
    (hnd : ℕ) (o : Outs) (w : World)
    → RoomForAny o.msg
    → Sound w
    → Meets (with_outs (can_read hnd o w)) (serve (reads hnd o) (view w))
unfolding can_read serve
reads-Meets hnd o w room s =
    let good : (c : Conn) → lookup hnd w.conns ≡ some c → IsGood c =
      λ c found. lookup-IsGood hnd w.conns c s.good found in
    rw
      (read_from-answer hnd o w (lookup hnd w.conns) good
        (HasRoomAt-any o (lookup hnd w.conns) room))
      (found-Meets hnd (reported o can_err_invhandle) (λ p. read_port o p.waiting p) w
        (λ r. with_outs (safe (answer hnd o w r))) s refl
        (λ c found. read-Follows hnd o w c (good c found)))
