-- ===== src/Api/Log.antt =====
-- `log`, `log_to`, `guard` and `guard_void` of src/lib.rs, and the exports that only log. A file
-- that is open for appending is a number that the file system gives.
use kvasilloni.Prelude.{ℕ, Bool, false, not, List, [], ◌∷◌, ◌++◌, Option, none, some, if◌then◌else◌}
use kvasilloni.Prelude.Exec.{Exec, done, catch_unwind}
use kvasilloni.Prelude.Text.{codes, text_eq}
use kvasilloni.Config.Types.{Text}
use kvasilloni.Api.Codes.{can_ok, can_err_param}
use kvasilloni.Api.Info.{show_int}

-- What a call asks of the file system.
pub data Effect : Type 0 where
  opened : Text → Effect
  wrote_line : ℕ → Text → Effect

-- The path and the file of the cached handle.
abbrev pub LogFile : Type 0
LogFile = Option (Text × ℕ)

-- The outcome of opening a path now.
abbrev pub Opening : Type 0
Opening = Text → Option ℕ

abbrev pub is_cached : Text → LogFile → Bool
is_cached path none = false
is_cached path (some (p, file)) = text_eq p path

abbrev pub reopened : Text → Option ℕ → Text → LogFile × List Effect
reopened path none msg = (none, opened path ∷ [])
reopened path (some file) msg = (some (path, file), opened path ∷ wrote_line file msg ∷ [])

abbrev pub append_line : LogFile → Text → List Effect
append_line none msg = []
append_line (some (path, file)) msg = wrote_line file msg ∷ []

unfoldable pub log_to : Opening → LogFile → Text → Text → LogFile × List Effect
unfolding text_eq
log_to try_open cache path msg =
    if not (is_cached path cache)
    then reopened path (try_open path) msg
    else (cache, append_line cache msg)

-- KVASILLONI_LOG, or else the path of the configuration.
abbrev log_path : Option Text → Option Text → Option Text
log_path (some path) configured = some path
log_path none configured = configured

abbrev log_at : Opening → LogFile → Option Text → Text → LogFile × List Effect
log_at try_open cache none msg = (cache, [])
log_at try_open cache (some path) msg = log_to try_open cache path msg

-- The process around a call of `log`.
pub record Logging : Type 0 where
  pub try_open : Opening
  pub env_log : Option Text
  pub configured : Option Text

unfoldable pub log : Logging → LogFile → Text → LogFile × List Effect
unfolding log_to
log p cache msg = log_at p.try_open cache (log_path p.env_log p.configured) msg

abbrev pub guard : Exec ℕ → ℕ
guard body = catch_unwind body can_err_param

abbrev pub guard_void : Exec (Unit {0}) → Unit {0}
guard_void body = catch_unwind body tt

-- An export that logs one line and returns a code.
abbrev pub Logged : Type 0
Logged = LogFile × List Effect × ℕ

abbrev log_then : LogFile × List Effect → ℕ → Logged
log_then (cache, effects) code = (cache, effects, code)

unfoldable pub can_initialize_library : Logging → LogFile → LogFile × List Effect
unfolding log
can_initialize_library p cache = log p cache (codes "canInitializeLibrary")

unfoldable pub can_set_bus_params : Logging → ℕ → ℕ → LogFile → Logged
unfolding log show_int
can_set_bus_params p hnd freq cache =
    log_then (log p cache (codes "canSetBusParams(freq=" ++ show_int freq ++ codes ")"))
      (guard (done can_ok))

unfoldable pub can_bus_on : Logging → ℕ → LogFile → Logged
unfolding log
can_bus_on p hnd cache = log_then (log p cache (codes "canBusOn")) (guard (done can_ok))

unfoldable pub can_bus_off : Logging → ℕ → LogFile → Logged
unfolding log
can_bus_off p hnd cache = log_then (log p cache (codes "canBusOff")) (guard (done can_ok))

unfoldable pub can_get_version : ℕ
can_get_version = 0x0900
