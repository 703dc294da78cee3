-- ===== src/System/Controls.antt =====
-- `canIoCtl` and `canGetNumberOfChannels` are served as the specification says.
use kvasilloni.Prelude.{
  ℕ, ◌-◌, min, ◌%◌, ◌^◌, ◌≡◌, refl, arith, ◌||◌, ◌==◌, Option, none, some, inl, inr, Bool-cases,
  length, ltb, leb, true,
}
use kvasilloni.Config.Types.{Config}
use kvasilloni.Transport.Shared.{clear, level}
use kvasilloni.Transport.Conn.{Conn}
use kvasilloni.Api.Codes.{can_ok, can_err_invhandle}
use kvasilloni.Api.Memory.{Cell, store, Buffer, out_u32}
use kvasilloni.Api.Outputs.{HasSize}
use kvasilloni.Api.Table.{World, lookup, with_conn, on_conn}
use kvasilloni.Api.Control.{flush_conn, kept, level_out, can_io_ctl}
use kvasilloni.Api.Info.{channels_memo, can_get_number_of_channels}
use kvasilloni.System.Ports.{stored, first_count, filled_in, number_in, level_port}
use kvasilloni.System.Spec.{counts, controls, serve}
use kvasilloni.System.Requests.{port_at, view, with_buffer, counted_word, run}
use kvasilloni.System.Good.{IsGood}
use kvasilloni.System.Keeps.{lookup-IsGood, clear-IsGood}
use kvasilloni.System.Refines.{Sound, Meets, found-Meets}

-- A number for the caller, as it is wrapped to 32 bits.
number_in-Meets :
    (buf : Buffer) (size v : ℕ) (w : World)
    → HasSize buf size
    → Sound w
    → Meets (with_buffer (w, out_u32 buf size v)) (view w, number_in buf size v)
unfolding out_u32
number_in-Meets none size v w h s = (refl, refl, s)
number_in-Meets (some buf) size v w h s = elim (Bool-cases (ltb size 4)) [
  | inl short ↦ rw short (refl, refl, s)
  | inr enough ↦
      let room : leb 4 (length buf) ≡ true = ground (arith, h, enough) in
      rw (enough, room) (refl, refl, s)
]

level-Meets :
    (buf : Buffer) (size : ℕ) (w : World) (r : Option Conn)
    → ((c : Conn) → r ≡ some c → IsGood c)
    → HasSize buf size
    → Sound w
    → Meets (with_buffer (w, level_out buf size r)) (view w, level_port buf size (port_at r))
unfolding level
level-Meets buf size w none good h s = (refl, refl, s)
level-Meets buf size w (some c) good h s =
    let fits : length c.shared.q % 2 ^ 32 ≡ length c.shared.q =
      omega (arith, (good c refl).ring.bounded) in
    rw fits (number_in-Meets buf size (length c.shared.q) w h s)

flush-Meets :
    (hnd : ℕ) (buf : Buffer) (size : ℕ) (w : World)
    → Sound w
    → Meets
        (with_buffer (kept buf (with_conn hnd can_err_invhandle flush_conn w)))
        (serve (controls hnd 10 buf size) (view w))
unfolding with_conn serve clear
flush-Meets hnd buf size w s =
    found-Meets hnd (filled_in buf can_err_invhandle) _ w
      (λ r. with_buffer (kept buf (on_conn hnd can_err_invhandle flush_conn w r))) s refl
      (λ c found. (
        (flush_conn c).0,
        filled_in buf (flush_conn c).1,
        refl,
        record {
          good = clear-IsGood c (lookup-IsGood hnd w.conns c s.good found);
          port = refl;
          told = refl;
        },
      ))

pub controls-Meets :
    (hnd func : ℕ) (buf : Buffer) (size : ℕ) (w : World)
    → HasSize buf size
    → Sound w
    → Meets (run (controls hnd func buf size) w) (serve (controls hnd func buf size) (view w))
unfolding run serve can_io_ctl
controls-Meets hnd func buf size w h s = elim (Bool-cases (func == 10)) [
  | inl e ↦ rw e (flush-Meets hnd buf size w s)
  | inr e ↦ rw e (elim (Bool-cases (func == 11 || func == 6 || func == 7 || func == 13)) [
    | inl e ↦ rw e (refl, refl, s)
    | inr e ↦ rw e (elim (Bool-cases (func == 12)) [
      | inl e ↦ rw e (number_in-Meets buf size 1000 w h s)
      | inr e ↦ rw e (elim (Bool-cases (func == 8)) [
        | inl e ↦ rw e (
            level-Meets buf size w (lookup hnd w.conns)
              (λ c found. lookup-IsGood hnd w.conns c s.good found) h s)
        | inr e ↦ rw e (elim (Bool-cases (func == 9)) [
          | inl e ↦ rw e (number_in-Meets buf size 0 w h s)
          | inr e ↦ rw e (refl, refl, s)
        ])
      ])
    ])
  ])
]

pub counts-Meets :
    (cfg : Config) (cell : Cell) (w : World)
    → Sound w
    → Meets (run (counts cfg cell) w) (serve (counts cfg cell) (view w))
unfolding run serve can_get_number_of_channels channels_memo
counts-Meets cfg cell w s = go w.enum_channels
  where
    go :
        (memo : Option ℕ)
        → Meets
            (counted_word (
              let (m, n) = channels_memo memo cfg.channels in
              (record w { enum_channels = m }, store cell (min n (2 ^ 31 - 1)), can_ok)))
            (let n = first_count memo cfg.channels in
              (
                record (view w) { counted = some n },
                stored (store cell (min n (2 ^ 31 - 1))) can_ok,
              ))
    go none = (refl, refl, record { good = s.good; unique = s.unique })
    go (some n) = (refl, refl, record { good = s.good; unique = s.unique })
