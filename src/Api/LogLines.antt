-- ===== src/Api/LogLines.antt =====
-- Which lines reach which file, over any number of calls of `log`.
use kvasilloni.Prelude.{ℕ, ◌≡◌, ap, refl, false, List, [], ◌∷◌, ◌++◌, Option, none, some}
use kvasilloni.Prelude.Text.{text_eq_refl}
use kvasilloni.Config.Types.{Text}
use kvasilloni.Api.Log.{Effect, opened, wrote_line, LogFile, Opening, is_cached, reopened, log_to}

-- A line, and whether its path could be opened when it was logged.
abbrev pub Line : Type 0
Line = Opening × Text

unfoldable pub log_all : Text → List Line → LogFile → LogFile × List Effect
unfolding log_to
log_all path [] cache = (cache, [])
log_all path ((try_open, msg) ∷ lines) cache =
    let (cache', effects) = log_to try_open cache path msg in
    let (cache'', later) = log_all path lines cache' in (cache'', effects ++ later)

abbrev write_lines : ℕ → List Line → List Effect
write_lines file [] = []
write_lines file ((try_open, msg) ∷ lines) = wrote_line file msg ∷ write_lines file lines

abbrev opened_with : Text → Option ℕ → Text → List Line → List Effect → List Effect
opened_with path none msg lines later = opened path ∷ later
opened_with path (some file) msg lines later =
    opened path ∷ wrote_line file msg ∷ write_lines file lines

-- The path is opened for each line until that succeeds; from then on only lines are written.
abbrev pub until_open : Text → List Line → List Effect
until_open path [] = []
until_open path ((try_open, msg) ∷ lines) =
    opened_with path (try_open path) msg lines (until_open path lines)

log_all-cached :
    (path : Text) (file : ℕ) (lines : List Line)
    → log_all path lines (some (path, file)) ≡ (some (path, file), write_lines file lines)
unfolding log_all log_to
log_all-cached path file [] = refl
log_all-cached path file ((try_open, msg) ∷ lines) =
    rw (text_eq_refl path, log_all-cached path file lines) refl

-- Over any number of lines for one path, where the cache holds no file of that path, the log opens
-- the path for each line until that succeeds, which loses the lines before; from then on every
-- line is written, in order, to the file of that one opening, and the path is not opened again.
pub log_all-until_open :
    (path : Text) (lines : List Line) (cache : LogFile)
    → is_cached path cache ≡ false
    → (log_all path lines cache).1 ≡ until_open path lines
unfolding log_all log_to
log_all-until_open path [] cache stale = refl
log_all-until_open path ((try_open, msg) ∷ lines) cache stale =
    rw stale (go (log_all-until_open path lines none refl) (try_open path))
  where
    go :
        (log_all path lines none).1 ≡ until_open path lines
        → (o : Option ℕ)
        → (reopened path o msg).1 ++ (log_all path lines (reopened path o msg).0).1
          ≡ opened_with path o msg lines (until_open path lines)
    go ih none = ap (λ e. opened path ∷ e) ih
    go ih (some file) =
        ap (λ r. opened path ∷ wrote_line file msg ∷ r.1) (log_all-cached path file lines)
