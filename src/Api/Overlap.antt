-- ===== src/Api/Overlap.antt =====
-- Calls of src/lib.rs that overlap. The table gives each handle a reference, the `Arc` of the
-- source: a call clones it under the lock of the table, and works on the connection later, without
-- that lock; canClose takes it out of the table first and closes the connection later. Each method
-- of a connection is one step, but a write is two: it looks whether the connection is ready, and
-- later takes the lock of the transmitter, which `close` does not take. A connection that nobody holds any more is closed by its `Drop`.
use kvasilloni.Prelude.{
  ℕ, zero, suc, ◌+◌, ◌%◌, ◌^◌, ◌≡◌, ◌≢◌, Bool, true, List, [], ◌∷◌, ◌++◌, Option, none, some,
  length, ◌==◌, if◌then◌else◌,
}
use kvasilloni.Wire.Frame.{Frame}
use kvasilloni.Transport.Shared.{push, pop, clear, set_accept, set_notify}
use kvasilloni.Transport.Conn.{Conn, Wires, write_locked, is_ready, close}
use kvasilloni.Transport.ConnRx.{read, clear_rx, set_conn_accept, set_conn_notify}
use kvasilloni.Transport.Teardown.{tcp_rx_end}

-- What a call of the application does to the connection that it holds.
pub data Method : Type 0 where
  pops : Method
  clears : Method
  accepts_by : ℕ → ℕ → Method
  notifies : ℕ → ℕ → ℕ → Method
  closes : Bool → Method

unfoldable pub perform : Method → Conn → Conn
unfolding pop clear set_accept set_notify close
perform pops c = (read c).0
perform clears c = clear_rx c
perform (accepts_by flag envelope) c = set_conn_accept flag envelope c
perform (notifies cb flags tag) c = set_conn_notify cb flags tag c
perform (closes on_rx) c = (close on_rx c).0

abbrev pub Refs : Type 0
Refs = List (ℕ × ℕ)

unfoldable pub find_ref : ℕ → Refs → Option ℕ
find_ref hnd [] = none
find_ref hnd ((h, r) ∷ rest) = if h == hnd then some r else find_ref hnd rest

unfoldable pub insert_ref : ℕ → ℕ → Refs → Refs
insert_ref hnd r [] = (hnd, r) ∷ []
insert_ref hnd r ((h, q) ∷ rest) =
    if h == hnd then (hnd, r) ∷ rest else (h, q) ∷ insert_ref hnd r rest

unfoldable pub remove_ref : ℕ → Refs → Refs
remove_ref hnd [] = []
remove_ref hnd ((h, r) ∷ rest) = if h == hnd then rest else (h, r) ∷ remove_ref hnd rest

-- The connection behind a reference.
unfoldable pub deref : ℕ → List Conn → Option Conn
deref r [] = none
deref zero (c ∷ cs) = some c
deref (suc r) (c ∷ cs) = deref r cs

unfoldable pub update : ℕ → (Conn → Conn) → List Conn → List Conn
update r f [] = []
update zero f (c ∷ cs) = f c ∷ cs
update (suc r) f (c ∷ cs) = c ∷ update r f cs

-- The connections, which stay as long as somebody holds them, the table, the references that the
-- calls in flight hold, and those of the writes that found their connection ready and have still to
-- take the lock of its transmitter.
pub record Store : Type 0 where
  pub conns : List Conn
  pub refs : Refs
  pub next_handle : ℕ
  pub held : List ℕ
  pub passed : List ℕ

abbrev pub new_store : Store
new_store = record { conns = []; refs = []; next_handle = 1; held = []; passed = [] }

pub data IsHeld : ℕ → List ℕ → Type 0 where
  first : {r : ℕ} {rs : List ℕ} → IsHeld r (r ∷ rs)
  later : {r q : ℕ} {rs : List ℕ} → IsHeld r rs → IsHeld r (q ∷ rs)

pub data Overlap : Store → Store → Type 0 where
  -- canOpenChannel enters its connection
  admits :
      {s : Store} (c : Conn)
      → Overlap s (record s {
        conns = s.conns ++ c ∷ [];
        refs = insert_ref s.next_handle (length s.conns) s.refs;
        next_handle = (s.next_handle + 1) % 2 ^ 32;
      })
  -- a call finds its connection
  resolves :
      {s : Store} (hnd r : ℕ)
      → find_ref hnd s.refs ≡ some r
      → Overlap s (record s { held = r ∷ s.held })
  -- and works on it
  works :
      {s : Store} (r : ℕ) (m : Method)
      → IsHeld r s.held
      → Overlap s (record s { conns = update r (perform m) s.conns })
  -- a write finds the connection that it holds ready
  checks :
      {s : Store} (r : ℕ) (c : Conn)
      → IsHeld r s.held
      → deref r s.conns ≡ some c
      → is_ready c ≡ true
      → Overlap s (record s { passed = r ∷ s.passed })
  -- and takes the lock and sends, whatever happened meanwhile
  sends :
      {s : Store} (net : Wires) (f : Frame) (before : List ℕ) (r : ℕ) (behind : List ℕ)
      → s.passed ≡ before ++ r ∷ behind
      → Overlap s (record s {
        conns = update r (λ c. (write_locked net f c).conn) s.conns;
        passed = before ++ behind;
      })
  -- canClose takes a connection out of the table, and holds it
  unlinks :
      {s : Store} (hnd r : ℕ)
      → find_ref hnd s.refs ≡ some r
      → Overlap s (record s { refs = remove_ref hnd s.refs; held = r ∷ s.held })
  -- a call ends and lets its connection go
  releases :
      {s : Store} (before : List ℕ) (r : ℕ) (behind : List ℕ)
      → s.held ≡ before ++ r ∷ behind
      → Overlap s (record s { held = before ++ behind })
  -- `Drop` closes a connection that nobody holds any more
  drops :
      {s : Store} (r : ℕ) (on_rx : Bool)
      → ((hnd : ℕ) → find_ref hnd s.refs ≢ some r)
      → ¬ IsHeld r s.held
      → Overlap s (record s { conns = update r (perform (closes on_rx)) s.conns })
  -- the receive thread of a connection pushes a frame
  receives :
      {s : Store} (r now : ℕ) (f : Frame)
      → Overlap s (record s {
        conns = update r (λ c. record c { shared = (push now f c.shared).0 }) s.conns;
      })
  -- or ends
  rx_ends : {s : Store} (r : ℕ) → Overlap s (record s { conns = update r tcp_rx_end s.conns })

pub data Overlaps : Store → Store → Type 0 where
  stay : {s : Store} → Overlaps s s
  more : {s t u : Store} → Overlaps s t → Overlap t u → Overlaps s u
