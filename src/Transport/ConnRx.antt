-- ===== src/Transport/ConnRx.antt =====
-- The receive side of `Conn` of src/transport.rs, which hands each call to its `Shared`.
use kvasilloni.Prelude.{ℕ, Option}
use kvasilloni.Wire.Frame.{Frame}
use kvasilloni.Transport.Shared.{pop, clear, level, set_accept, set_notify}
use kvasilloni.Transport.Conn.{Conn}

abbrev pub read : Conn → Conn × Option Frame
read c = let (s, frame) = pop c.shared in (record c { shared = s }, frame)

abbrev pub clear_rx : Conn → Conn
clear_rx c = record c { shared = clear c.shared }

abbrev pub rx_level : Conn → ℕ
rx_level c = level c.shared

abbrev pub set_conn_accept : ℕ → ℕ → Conn → Conn
set_conn_accept flag envelope c = record c { shared = set_accept flag envelope c.shared }

abbrev pub set_conn_notify : ℕ → ℕ → ℕ → Conn → Conn
set_conn_notify cb flags tag c = record c { shared = set_notify cb flags tag c.shared }
