-- ===== src/System/Refines.antt =====
-- The library meets its specification, one request at a time.
use kvasilloni.Prelude.{ℕ, ◌≡◌, ap, refl, ◌∙◌, Option, none, some, arith}
use mathlib.Core.Path.{subst⁻¹, fun_ext}
use native.Mathlib.Decide.{ℕ_discrete}
use kvasilloni.Transport.Conn.{Conn}
use kvasilloni.Api.Memory.{Access, safe, fault}
use kvasilloni.Api.Table.{World, Conns, lookup, insert, remove, put}
use kvasilloni.Api.Handles.{
  Unique, lookup-insert_self, lookup-insert_other, lookup-remove_self, lookup-remove_other,
  Unique-insert,
}
use kvasilloni.System.Ports.{Port, Device, Reply, set_port, at_port}
use kvasilloni.System.Requests.{port_of, port_at, view}
use kvasilloni.System.Good.{IsGood}
use kvasilloni.System.Keeps.{AllGood, put-AllGood}

pub record Sound (w : World) : Type 0 where
  pub good : AllGood w
  pub unique : Unique w.conns

-- The world and the reply are those of the specification.
abbrev pub Meets : Access (World × Reply) → Device × Reply → Type 0
Meets fault s = ⊥
Meets (safe (w, reply)) s = (view w ≡ s.0) × (reply ≡ s.1) × Sound w

ports-insert :
    (h : ℕ) (c : Conn) (m : Conns)
    → (λ k. port_at (lookup k (insert h c m)))
      ≡ set_port h (some (port_of c)) (λ k. port_at (lookup k m))
ports-insert h c m = fun_ext (λ k. elim (ℕ_discrete k h) [
  | yes same ↦ ground (arith, same, lookup-insert_self h c m)
  | no other ↦ ground (arith, other, lookup-insert_other k h c m other)
])

pub ports-remove :
    (h : ℕ) (m : Conns)
    → Unique m
    → (λ k. port_at (lookup k (remove h m))) ≡ set_port h none (λ k. port_at (lookup k m))
ports-remove h m u = fun_ext (λ k. elim (ℕ_discrete k h) [
  | yes same ↦ ground (arith, same, lookup-remove_self h m u)
  | no other ↦ ground (arith, other, lookup-remove_other k h m other)
])

pub insert-Meets :
    (h n : ℕ) (c : Conn) (reply : Reply) (w : World)
    → Sound w
    → IsGood c
    → Meets
        (safe (record w { next_handle = n; conns = insert h c w.conns }, reply))
        (record (view w) { ports = set_port h (some (port_of c)) (view w).ports; next = n }, reply)
insert-Meets h n c reply w s v = (
  ap (λ p. record (view w) { ports = p; next = n }) (ports-insert h c w.conns),
  refl,
  record { good = put-AllGood h c w v s.good; unique = Unique-insert h c w.conns s.unique },
)

pub conn-Meets :
    (h : ℕ) (missing : Reply) (f : Port → Port × Reply) (c c' : Conn) (reply : Reply) (w : World)
    → Sound w
    → IsGood c'
    → port_of c' ≡ (f (port_of c)).0
    → reply ≡ (f (port_of c)).1
    → Meets (safe (put h c' w, reply)) (at_port h missing f (some (port_of c)) (view w))
conn-Meets h missing f c c' reply w s v same_port same_reply =
    let (seen, told, sound) = insert-Meets h w.next_handle c' reply w s v in
    (
      seen ∙ ap (λ p. record (view w) { ports = set_port h (some p) (view w).ports }) same_port,
      same_reply,
      sound,
    )

-- What a call must do to one connection, for the port of the specification.
pub record Follows (c c' : Conn) (reply : Reply) (f : Port → Port × Reply) : Type 0 where
  pub good : IsGood c'
  pub port : port_of c' ≡ (f (port_of c)).0
  pub told : reply ≡ (f (port_of c)).1

-- A call that finds its connection, or returns at once.
pub found-Meets :
    (h : ℕ) (missing : Reply) (f : Port → Port × Reply) (w : World)
    (call : Option Conn → Access (World × Reply))
    → Sound w
    → call none ≡ safe (w, missing)
    → ((c : Conn)
        → lookup h w.conns ≡ some c
        → (c' : Conn) × (reply : Reply) × (call (some c) ≡ safe (put h c' w, reply))
          × Follows c c' reply f)
    → Meets (call (lookup h w.conns)) (at_port h missing f (port_at (lookup h w.conns)) (view w))
found-Meets h missing f w call s absent present = go (lookup h w.conns) refl
  where
    go :
        (r : Option Conn)
        → lookup h w.conns ≡ r
        → Meets (call r) (at_port h missing f (port_at r) (view w))
    go none e = subst⁻¹ (λ a. Meets a (view w, missing)) absent (refl, refl, s)
    go (some c) e =
        let (c', reply, did, follows) = present c e in
        subst⁻¹ (λ a. Meets a (at_port h missing f (some (port_of c)) (view w))) did
          (conn-Meets h missing f c c' reply w s follows.good follows.port follows.told)
