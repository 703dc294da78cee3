-- ===== src/UnitTests/ApiLog.antt =====
-- The tests of src/lib.rs on the log file, over a small file system: paths name files, and a file
-- that was opened can be written to even when its path is gone.
use kvasilloni.Prelude.{
  ℕ, ◌+◌, ◌≡◌, refl, Bool, not, List, [], ◌∷◌, ◌++◌, Option, none, some, ◌==◌, if◌then◌else◌,
}
use kvasilloni.Prelude.Exec.{Exec, done, ◌>>=◌}
use kvasilloni.Prelude.Text.{codes, text_eq}
use kvasilloni.Config.Types.{Text}
use kvasilloni.Api.Log.{Effect, opened, wrote_line, LogFile, Opening, log_to}
use kvasilloni.UnitTests.Asserts.{Test, passed, ◌>>◌, assert, assert_same, expect, is_none}

-- The paths with their files, the lines in the order they were written, and the next file's number.
pub record Disk : Type 0 where
  pub names : List (Text × ℕ)
  pub lines : List (ℕ × Text)
  pub next_file : ℕ

abbrev pub empty_disk : Disk
empty_disk = record { names = []; lines = []; next_file = 0 }

unfoldable pub file_at : List (Text × ℕ) → Text → Option ℕ
unfolding text_eq
file_at [] path = none
file_at ((p, file) ∷ names) path = if text_eq p path then some file else file_at names path

-- `exists`
abbrev pub exists : Disk → Text → Bool
exists d path = not (is_none (file_at d.names path))

-- `remove_file`
unfoldable pub unlinked : List (Text × ℕ) → Text → List (Text × ℕ)
unfolding text_eq
unlinked [] path = []
unlinked ((p, file) ∷ names) path =
    let rest = unlinked names path in if text_eq p path then rest else (p, file) ∷ rest

-- The only directory.
abbrev pub temp_dir : Text
temp_dir = codes "/tmp"

abbrev pub file_or_new : Disk → Option ℕ → ℕ
file_or_new d none = d.next_file
file_or_new d (some file) = file

-- Opening a path for appending, which creates a file; a directory cannot be opened.
abbrev pub opening : Disk → Opening
opening d path = if text_eq path temp_dir then none else some (file_or_new d (file_at d.names path))

abbrev pub created : Text → Disk → Disk
created path d =
    if exists d path
    then d
    else record d { names = (path, d.next_file) ∷ d.names; next_file = d.next_file + 1 }

abbrev pub perform : Effect → Disk → Disk
perform (opened path) d = if text_eq path temp_dir then d else created path d
perform (wrote_line file msg) d = record d { lines = d.lines ++ (file, msg) ∷ [] }

abbrev pub perform_all : List Effect → Disk → Disk
perform_all [] d = d
perform_all (e ∷ es) d = perform_all es (perform e d)

abbrev pub lines_of : ℕ → List (ℕ × Text) → Text
lines_of file [] = []
lines_of file ((f, msg) ∷ lines) =
    if f == file then msg ++ (b'\n' ∷ lines_of file lines) else lines_of file lines

-- `read_to_string`
abbrev pub contents : Disk → Text → Exec Text
contents d path = do file ← expect (file_at d.names path); done (lines_of file d.lines)

-- A call of `log_to`, with its effects on the disk.
unfoldable pub logged : Disk → LogFile → Text → Text → Disk × LogFile
unfolding log_to file_at
logged d cache path msg =
    let (cache', effects) = log_to (opening d) cache path msg in (perform_all effects d, cache')

unfoldable pub log_cache_reopens_on_path_change : Test
unfolding logged text_eq file_at
log_cache_reopens_on_path_change = do
  let pa = codes "/tmp/pc-a.log"
  let pb = codes "/tmp/pc-b.log"
  let (d1, c1) = logged empty_disk none pa (codes "to-a-1")
  let (d2, c2) = logged d1 c1 pa (codes "to-a-2")
  let (d3, c3) = logged d2 c2 pb (codes "to-b-1")
  a ← contents d3 pa
  assert_same a (codes "to-a-1\nto-a-2\n")
  b ← contents d3 pb
  assert_same b (codes "to-b-1\n")
  (path, file) ← expect c3
  assert_same path pb

log_cache_reopens_on_path_change_passes : log_cache_reopens_on_path_change ≡ passed
unfolding log_cache_reopens_on_path_change
log_cache_reopens_on_path_change_passes = refl

unfoldable pub log_cache_reuses_handle_for_same_path : Test
unfolding logged file_at unlinked
log_cache_reuses_handle_for_same_path = do
  let p = codes "/tmp/reuse.log"
  let (d1, c1) = logged empty_disk none p (codes "first")
  assert (exists d1 p)
  let d2 : Disk = record d1 { names = unlinked d1.names p }
  let (d3, c3) = logged d2 c1 p (codes "second")
  assert (not (exists d3 p))

log_cache_reuses_handle_for_same_path_passes : log_cache_reuses_handle_for_same_path ≡ passed
unfolding log_cache_reuses_handle_for_same_path
log_cache_reuses_handle_for_same_path_passes = refl

unfoldable pub log_cache_falls_back_on_open_failure : Test
unfolding logged text_eq file_at
log_cache_falls_back_on_open_failure = do
  let good = codes "/tmp/recover.log"
  let (d1, c1) = logged empty_disk none temp_dir (codes "nope")
  assert (is_none c1)
  let (d2, c2) = logged d1 c1 good (codes "recovered")
  text ← contents d2 good
  assert_same text (codes "recovered\n")

log_cache_falls_back_on_open_failure_passes : log_cache_falls_back_on_open_failure ≡ passed
unfolding log_cache_falls_back_on_open_failure
log_cache_falls_back_on_open_failure_passes = refl
