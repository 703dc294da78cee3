-- ===== src/Api/OverlapOff.antt =====
-- A connection that is not ready stays so, whatever calls are in flight.
use kvasilloni.Prelude.{
  ℕ, zero, suc, ◌+◌, ◌%◌, ◌<◌, ◌≡◌, ◌≢◌, ap, refl, ◌∙◌, false, List, [], ◌∷◌, ◌++◌, some, length,
  arith, inl, inr, Bool-cases,
}
use mathlib.Core.Path.{subst}
use mathlib.Core.Option.{some-injective}
use native.Mathlib.Decide.{ℕ_discrete}
use kvasilloni.Prelude.Exec.{Exec, done, panic}
use kvasilloni.Wire.Frame.{Frame}
use kvasilloni.Wire.Encode.{encode_frame, build_udp}
use kvasilloni.Transport.Peers.{IoResult, ok, err}
use kvasilloni.Transport.Conn.{
  Conn, Tx, udp, tcp, Wires, write_locked, write_tx, write_udp, write_tcp, sent_udp, sent_tcp,
  close,
}
use kvasilloni.Transport.Teardown.{tcp_rx_end}
use kvasilloni.Api.Overlap.{
  Method, pops, clears, accepts_by, notifies, closes, perform, deref, update, Store, Overlap,
  admits, resolves, works, checks, sends, unlinks, releases, drops, receives, rx_ends, Overlaps,
  stay, more,
}

-- The connection behind the reference is not ready.
abbrev pub IsOff : ℕ → Store → Type 0
IsOff r s = (c : Conn) × (deref r s.conns ≡ some c) × (c.negotiated ≡ false)

pub deref-some : (r : ℕ) (cs : List Conn) → r < length cs → (c : Conn) × (deref r cs ≡ some c)
unfolding deref
deref-some r [] h = absurd (omega (arith, h))
deref-some zero (c ∷ cs) h = (c, refl)
deref-some (suc r) (c ∷ cs) h = deref-some r cs (omega (arith, h))

deref-append :
    (r : ℕ) (cs ds : List Conn) (c : Conn) → deref r cs ≡ some c → deref r (cs ++ ds) ≡ some c
unfolding deref
deref-append r [] ds c e = cc
deref-append zero (d ∷ cs) ds c e = e
deref-append (suc r) (d ∷ cs) ds c e = deref-append r cs ds c e

pub deref-update_self :
    (r : ℕ) (f : Conn → Conn) (cs : List Conn) (c : Conn)
    → deref r cs ≡ some c
    → deref r (update r f cs) ≡ some (f c)
unfolding deref update
deref-update_self r f [] c e = cc
deref-update_self zero f (d ∷ cs) c e = ap (λ x. some (f x)) (some-injective d c e)
deref-update_self (suc r) f (d ∷ cs) c e = deref-update_self r f cs c e

deref-update_other :
    (r q : ℕ) (f : Conn → Conn) (cs : List Conn) → r ≢ q → deref r (update q f cs) ≡ deref r cs
unfolding deref update
deref-update_other r q f [] ne = refl
deref-update_other zero zero f (d ∷ cs) ne = absurd (ne refl)
deref-update_other zero (suc q) f (d ∷ cs) ne = refl
deref-update_other (suc r) zero f (d ∷ cs) ne = refl
deref-update_other (suc r) (suc q) f (d ∷ cs) ne = deref-update_other r q f cs (λ e. ne (ap suc e))

update-IsOff :
    (r q : ℕ) (f : Conn → Conn) (s : Store)
    → ((c : Conn) → c.negotiated ≡ false → (f c).negotiated ≡ false)
    → IsOff r s
    → IsOff r (record s { conns = update q f s.conns })
update-IsOff r q f s keeps (c, e, off) = elim (ℕ_discrete r q) [
  | yes same ↦ (
    f c,
    subst (λ x. deref r (update x f s.conns) ≡ some (f c)) same (deref-update_self r f s.conns c e),
    keeps c off,
  )
  | no other ↦ (c, deref-update_other r q f s.conns other ∙ e, off)
]

perform-off : (m : Method) (c : Conn) → c.negotiated ≡ false → (perform m c).negotiated ≡ false
unfolding perform close
perform-off pops c off = off
perform-off clears c off = off
perform-off (accepts_by flag envelope) c off = off
perform-off (notifies cb flags tag) c off = off
perform-off (closes on_rx) c off = refl

sent_udp-off :
    (c : Conn) (pkt : List ℕ) (r : IoResult ℕ)
    → c.negotiated ≡ false
    → (sent_udp c pkt r).conn.negotiated ≡ false
sent_udp-off c pkt (ok n) off = off
sent_udp-off c pkt (err e) off = off

sent_tcp-off :
    (c : Conn) (buf : List ℕ) (r : IoResult (Unit {0}))
    → c.negotiated ≡ false
    → (sent_tcp c buf r).conn.negotiated ≡ false
sent_tcp-off c buf (ok u) off = off
sent_tcp-off c buf (err e) off = refl

write_tx-off :
    (net : Wires) (f : Frame) (t : Tx) (c : Conn)
    → c.negotiated ≡ false
    → (write_tx net f t c).conn.negotiated ≡ false
write_tx-off net f (udp remote seq) c off = go (build_udp f seq)
  where
    go : (pkt : Exec (List ℕ)) → (write_udp net remote seq c pkt).conn.negotiated ≡ false
    go panic = off
    go (done pkt) =
        sent_udp-off (record c { tx = udp remote ((seq + 1) % 256) }) pkt (net.send_to pkt remote)
          off
write_tx-off net f tcp c off = go (encode_frame [] f)
  where
    go : (buf : Exec (List ℕ)) → (write_tcp net c buf).conn.negotiated ≡ false
    go panic = off
    go (done buf) = sent_tcp-off c buf (net.write_all buf) off

write_locked-off :
    (net : Wires) (f : Frame) (c : Conn)
    → c.negotiated ≡ false
    → (write_locked net f c).conn.negotiated ≡ false
write_locked-off net f c off = elim (Bool-cases c.tx_poisoned) [
  | inl poisoned ↦ simp poisoned off
  | inr clean ↦ simp clean (write_tx-off net f c.tx c off)
]

tcp_rx_end-off : (c : Conn) → c.negotiated ≡ false → (tcp_rx_end c).negotiated ≡ false
unfolding tcp_rx_end
tcp_rx_end-off c off = elim (Bool-cases c.running) [
  | inl run ↦ simp run refl
  | inr stopped ↦ simp stopped off
]

pub Overlap-IsOff : {s t : Store} (r : ℕ) → Overlap s t → IsOff r s → IsOff r t
Overlap-IsOff {s} r (admits d) (c, e, off) = (c, deref-append r s.conns (d ∷ []) c e, off)
Overlap-IsOff r (resolves hnd q found) g = g
Overlap-IsOff {s} r (works q m h) g = update-IsOff r q (perform m) s (perform-off m) g
Overlap-IsOff r (checks q c held found ready) g = g
Overlap-IsOff {s} r (sends net f before q behind e) g =
    update-IsOff r q (λ c. (write_locked net f c).conn) s (write_locked-off net f) g
Overlap-IsOff r (unlinks hnd q found) g = g
Overlap-IsOff r (releases before q behind e) g = g
Overlap-IsOff {s} r (drops q on_rx unlisted unheld) g =
    update-IsOff r q (perform (closes on_rx)) s (perform-off (closes on_rx)) g
Overlap-IsOff {s} r (receives q now f) g = update-IsOff r q _ s (λ c off. off) g
Overlap-IsOff {s} r (rx_ends q) g = update-IsOff r q tcp_rx_end s tcp_rx_end-off g

pub Overlaps-IsOff : {s t : Store} (r : ℕ) → Overlaps s t → IsOff r s → IsOff r t
Overlaps-IsOff r stay g = g
Overlaps-IsOff r (more before o) g = Overlap-IsOff r o (Overlaps-IsOff r before g)
