-- ===== src/Api/Status.antt =====
-- What `canReadStatus` reports.
use kvasilloni.Prelude.{
  ℕ, ◌≡◌, refl, ◌∙◌, Bool, true, false, not, List, [], ◌∷◌, some, length, ltb, arith,
}
use kvasilloni.Wire.Flags.{has}
use kvasilloni.Transport.Shared.{is_empty, level, overflowed, is_link_lost}
use kvasilloni.Wire.Frame.{Frame}
use kvasilloni.Transport.Conn.{Conn}
use kvasilloni.Api.Codes.{can_ok, can_stat_rx_pending, can_stat_sw_overrun, can_stat_bus_off}
use kvasilloni.Api.Table.{World, lookup}
use kvasilloni.Api.Control.{or_if, status_of, can_read_status}

-- The three bits, each from its own source.
abbrev status_bits : Bool → Bool → Bool → ℕ
status_bits pending overrun lost =
    or_if lost can_stat_bus_off
      (or_if overrun can_stat_sw_overrun (or_if pending can_stat_rx_pending 0))

status_bits_lem :
    (p o l : Bool)
    → (has (status_bits p o l) can_stat_rx_pending ≡ p)
      × (has (status_bits p o l) can_stat_sw_overrun ≡ o)
      × (has (status_bits p o l) can_stat_bus_off ≡ l)
status_bits_lem true true true = (refl, refl, refl)
status_bits_lem true true false = (refl, refl, refl)
status_bits_lem true false true = (refl, refl, refl)
status_bits_lem true false false = (refl, refl, refl)
status_bits_lem false true true = (refl, refl, refl)
status_bits_lem false true false = (refl, refl, refl)
status_bits_lem false false true = (refl, refl, refl)
status_bits_lem false false false = (refl, refl, refl)

-- On an open channel, `canReadStatus` returns canOK and a status whose bits say, each on its own,
-- whether a frame is pending, whether one was dropped, and whether the link is lost.
pub can_read_status_lem :
    (hnd old : ℕ) (w : World) (c : Conn)
    → lookup hnd w.conns ≡ some c
    → (st : ℕ) × (can_read_status hnd (some old) w ≡ (some st, can_ok))
      × (has st can_stat_rx_pending ≡ not (is_empty c.shared.q))
      × (has st can_stat_sw_overrun ≡ c.shared.overflow)
      × (has st can_stat_bus_off ≡ c.shared.link_lost)
unfolding can_read_status status_of level overflowed is_link_lost is_empty
can_read_status_lem hnd old w c found =
    let s = c.shared in
    let (p, o, l) = status_bits_lem (ltb 0 (length s.q)) s.overflow s.link_lost in
    (status_bits (ltb 0 (length s.q)) s.overflow s.link_lost, rw found refl, p ∙ pending s.q, o, l)
  where
    pending : (q : List Frame) → ltb 0 (length q) ≡ not (is_empty q)
    pending [] = refl
    pending (f ∷ q) = ground arith
