-- ===== src/Api/Table.antt =====
-- The table of open channels of src/lib.rs, with the other statics: `canOpenChannel`, `canClose`
-- and `with_conn`. One call runs at a time here; a connection is shared through its table entry.
use kvasilloni.Prelude.{
  ℕ, ◌+◌, ◌%◌, ◌^◌, Bool, List, [], ◌∷◌, Option, none, some, ◌==◌, if◌then◌else◌,
}
use kvasilloni.Wire.Flags.{has}
use kvasilloni.Config.Types.{Text, Config}
use kvasilloni.Transport.Peers.{IoResult, ok, err}
use kvasilloni.Transport.Conn.{Conn, Sockets, connect, set_fd_capable, close}
use kvasilloni.Api.Codes.{can_ok, can_err_notfound, can_open_can_fd, can_driver_normal}

abbrev pub Conns : Type 0
Conns = List (ℕ × Conn)

pub record World : Type 0 where
  pub conns : Conns
  pub next_handle : ℕ
  pub log_path : Option Text
  pub driver_type : ℕ
  pub enum_channels : Option ℕ

abbrev pub new_world : World
new_world = record {
  conns = [];
  next_handle = 1;
  log_path = none;
  driver_type = can_driver_normal;
  enum_channels = none;
}

unfoldable pub lookup : ℕ → Conns → Option Conn
lookup hnd [] = none
lookup hnd ((h, c) ∷ rest) = if h == hnd then some c else lookup hnd rest

unfoldable pub insert : ℕ → Conn → Conns → Conns
insert hnd c [] = (hnd, c) ∷ []
insert hnd c ((h, d) ∷ rest) = if h == hnd then (hnd, c) ∷ rest else (h, d) ∷ insert hnd c rest

unfoldable pub remove : ℕ → Conns → Conns
remove hnd [] = []
remove hnd ((h, d) ∷ rest) = if h == hnd then rest else (h, d) ∷ remove hnd rest

-- The connection behind a handle changed.
abbrev pub put : ℕ → Conn → World → World
put hnd c w = record w { conns = insert hnd c w.conns }

abbrev pub admit : ℕ → World → IoResult Conn → World × ℕ
admit flags w (ok c) = (
  record w {
    next_handle = (w.next_handle + 1) % 2 ^ 32;
    conns = insert w.next_handle (set_fd_capable (has flags can_open_can_fd) c) w.conns;
  },
  w.next_handle,
)
admit flags w (err e) = (w, can_err_notfound)

-- `cfg` is what `Config::load` returned.
unfoldable pub can_open_channel : Sockets → Config → ℕ → World → World × ℕ
unfolding insert
can_open_channel net cfg flags w = admit flags (record w { log_path = cfg.log }) (connect net cfg)

-- What becomes of the connection that is closed: no other call holds it here.
abbrev closing : Bool → Option Conn → Option Conn
closing on_rx none = none
closing on_rx (some c) = some (close on_rx c).0

-- The new table, the connection that was closed, and the code.
unfoldable pub can_close : Bool → ℕ → World → World × Option Conn × ℕ
unfolding lookup remove
can_close on_rx hnd w =
    (record w { conns = remove hnd w.conns }, closing on_rx (lookup hnd w.conns), can_ok)

abbrev pub on_conn : ℕ → ℕ → (Conn → Conn × ℕ) → World → Option Conn → World × ℕ
on_conn hnd e f w none = (w, e)
on_conn hnd e f w (some c) = let (c', code) = f c in (put hnd c' w, code)

unfoldable pub with_conn : ℕ → ℕ → (Conn → Conn × ℕ) → World → World × ℕ
unfolding lookup insert
with_conn hnd e f w = on_conn hnd e f w (lookup hnd w.conns)
