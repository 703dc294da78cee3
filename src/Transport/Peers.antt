-- ===== src/Transport/Peers.antt =====
-- The peers of src/transport.rs: which address to bind, and who may send.
use kvasilloni.Prelude.{ℕ, Bool, true, false, not, ◌&&◌, ◌||◌, List, [], ◌∷◌, ◌==◌, if◌then◌else◌}

-- `IpAddr`, with the address as one number.
pub data IpAddr : Type 0 where
  v4 : ℕ → IpAddr
  v6 : ℕ → IpAddr

pub record SocketAddr : Type 0 where
  pub ip : IpAddr
  pub port : ℕ

abbrev pub ip_eq : IpAddr → IpAddr → Bool
ip_eq (v4 a) (v4 b) = a == b
ip_eq (v4 a) (v6 b) = false
ip_eq (v6 a) (v4 b) = false
ip_eq (v6 a) (v6 b) = a == b

abbrev pub wildcard_for : IpAddr → IpAddr
wildcard_for (v4 a) = v4 0
wildcard_for (v6 a) = v6 0

pub data IoError : Type 0 where
  invalid_input not_connected lock_poisoned short_send addr_in_use would_block timed_out : IoError
  invalid_data other_error : IoError

pub data IoResult {ℓ} (A : Type ℓ) : Type ℓ where
  ok : A → IoResult A
  err : IoError → IoResult A

infixl 5 ◌>>=◌
abbrev pub ◌>>=◌ {ℓ κ} : {A : Type ℓ} {B : Type κ} → IoResult A → (A → IoResult B) → IoResult B
ok a >>= f = f a
err e >>= f = err e

abbrev is_in_use : IoError → Bool
is_in_use addr_in_use = true
is_in_use _ = false

-- `bind_udp` of a release build: `bind` is the socket library's, and gives the port that was bound.
unfoldable pub bind_udp : (SocketAddr → IoResult ℕ) → SocketAddr → Bool → IoResult ℕ
bind_udp bind addr allow_fallback = elim (bind addr) [
  | ok port ↦ ok port
  | err e ↦
      if allow_fallback && not (addr.port == 0) && is_in_use e
      then bind (record addr { port = 0 })
      else err e
]

unfoldable pub effective_allow : List IpAddr → IpAddr → List IpAddr
effective_allow [] peer = peer ∷ []
effective_allow (a ∷ rest) peer = a ∷ rest

abbrev pub any_ip : IpAddr → List IpAddr → Bool
any_ip from [] = false
any_ip from (a ∷ rest) = ip_eq a from || any_ip from rest

unfoldable pub peer_allowed : IpAddr → List IpAddr → Bool → Bool
peer_allowed from allow check = not check || any_ip from allow
