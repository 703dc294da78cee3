-- ===== src/System/Good.antt =====
-- What holds of every connection: its values fit their types, its ring its capacity, its frames
-- their class, and no panic has poisoned its lock.
use kvasilloni.Prelude.{
  ℕ, ◌≤◌, ◌<◌, ◌≡◌, ap, refl, Bool, false, List, [], ◌∷◌, Option, none, some, All, All-append, take,
  All-take, length, length-append, arith, inl, inr, Bool-cases, leb, not,
}
use mathlib.Core.Path.{subst}
use kvasilloni.Prelude.Bytes.{IsByte, IsBytes}
use kvasilloni.Prelude.Exec.{done}
use kvasilloni.Wire.Frame.{Frame}
use kvasilloni.Wire.Udp.{parse_udp}
use kvasilloni.Wire.UdpRead.{parse_udp-read, read_datagram, udp_header}
use kvasilloni.Wire.Decoded.{parse_udp-IsSendable}
use kvasilloni.Wire.Encoded.{IsSendable}
use kvasilloni.Transport.Peers.{IpAddr, ok, peer_allowed}
use kvasilloni.Transport.Filter.{accepts}
use kvasilloni.Transport.Shared.{Shared, push, pop, stamped, ring_cap, pop_front}
use kvasilloni.Transport.Conn.{Conn, Tx, udp, tcp}
use kvasilloni.Transport.Rx.{push_all, guarded_udp_ingest, udp_rx_loop}

pub record IsGoodRing (s : Shared) : Type 0 where
  pub frames : All IsSendable s.q
  pub bounded : length s.q ≤ ring_cap

abbrev pub SeqFits : Tx → Type 0
SeqFits (udp remote seq) = seq < 256
SeqFits tcp = Unit

pub record IsGood (c : Conn) : Type 0 where
  pub ring : IsGoodRing c.shared
  pub clean : c.tx_poisoned ≡ false
  pub seq : SeqFits c.tx
  -- The flags of the receive loop and of the handshake are raised and lowered together.
  pub live : c.running ≡ c.negotiated

stamped-IsSendable : (now : ℕ) (f : Frame) → IsSendable f → IsSendable (stamped now f)
stamped-IsSendable now f v = record {
  id_fits = v.id_fits;
  len_fits = v.len_fits;
  flags_fit = v.flags_fit;
  size = v.size;
  bytes_fit = v.bytes_fit;
}

pub push-IsGoodRing :
    (now : ℕ) (f : Frame) (s : Shared) → IsSendable f → IsGoodRing s → IsGoodRing (push now f s).0
unfolding push
push-IsGoodRing now f s v g = elim (Bool-cases (not (accepts s.filters f))) [
  | inl refused ↦ rw refused g
  | inr taken ↦ elim (Bool-cases (leb ring_cap (length s.q))) [
    | inl full ↦ rw (taken, full) (record { frames = g.frames; bounded = g.bounded })
    | inr space ↦
        rw (taken, space)
          (record {
            frames =
                All-append IsSendable s.q (stamped now f ∷ []) g.frames
                  (stamped-IsSendable now f v, tt);
            bounded = ground (arith, space, length-append s.q (stamped now f ∷ []));
          })
  ]
]

push_all-IsGoodRing :
    (now : ℕ) (fs : List Frame) (s : Shared)
    → All IsSendable fs
    → IsGoodRing s
    → IsGoodRing (push_all now fs s).0
unfolding push_all
push_all-IsGoodRing now [] s v g = g
push_all-IsGoodRing now (f ∷ fs) s v g =
    push_all-IsGoodRing now fs (push now f s).0 v.1 (push-IsGoodRing now f s v.0 g)

ingest-IsGoodRing :
    (now : ℕ) (buf : List ℕ) (s : Shared)
    → IsBytes buf
    → IsGoodRing s
    → IsGoodRing (guarded_udp_ingest now buf s).0
unfolding guarded_udp_ingest
ingest-IsGoodRing now buf s hb g = go (read_datagram buf (udp_header buf)) (parse_udp-read buf hb)
  where
    go :
        (r : Option (List Frame))
        → parse_udp buf ≡ done r
        → IsGoodRing (guarded_udp_ingest now buf s).0
    go none e = rw e g
    go (some fs) e = rw e (push_all-IsGoodRing now fs s (parse_udp-IsSendable buf fs hb e) g)

pub datagram-IsGoodRing :
    (now : ℕ) (bytes : List ℕ) (from : IpAddr) (allow : List IpAddr) (check : Bool) (s : Shared)
    → IsBytes bytes
    → IsGoodRing s
    → IsGoodRing (udp_rx_loop now (ok (bytes, from) ∷ []) allow check s).0
unfolding udp_rx_loop
datagram-IsGoodRing now bytes from allow check s hb g =
    elim (Bool-cases (peer_allowed from allow check)) [
      | inl yes_in ↦
          rw yes_in (ingest-IsGoodRing now (take 2048 bytes) s (All-take IsByte 2048 bytes hb) g)
      | inr out ↦ rw out g
    ]

pub pop-IsGoodRing : (s : Shared) → IsGoodRing s → IsGoodRing (pop s).0
unfolding pop
pop-IsGoodRing s g = go s.q refl
  where
    go : (q : List Frame) → s.q ≡ q → IsGoodRing (pop_front q s).0
    go [] e = g
    go (f ∷ fs) e =
        let (first, later) = subst (All IsSendable) e g.frames in
        record { frames = later; bounded = omega (arith, g.bounded, ap length e) }

pub update-IsGood :
    (c : Conn) (s : Shared) → IsGood c → IsGoodRing s → IsGood (record c { shared = s })
update-IsGood c s g r = record { ring = r; clean = g.clean; seq = g.seq; live = g.live }
