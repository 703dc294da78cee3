-- ===== src/Config/Modules.antt =====
-- The module locations of src/config.rs on Windows. The two functions of the Windows API and those
-- of std::path are arguments; a path is the list of its UTF-16 units, and 0 is the null handle.
use kvasilloni.Prelude.{
  ℕ, not, ◌&&◌, ◌||◌, List, Option, none, some, length, take, replicate, leb, ◌==◌, bit_or,
  if◌then◌else◌,
}
use kvasilloni.Transport.Peers.{IpAddr}
use kvasilloni.Prelude.Text.{codes}
use kvasilloni.Config.Types.{Text}
use kvasilloni.Config.Load.{Host}

pub record Windows : Type 0 where
  -- the flags; whether the call succeeded, and the handle it stored
  pub get_module_handle : ℕ → ℕ × ℕ
  -- the handle and the buffer; the buffer after the call, and what it returned
  pub get_module_file_name : ℕ → List ℕ → List ℕ × ℕ
  pub parent : Text → Option Text
  pub join : Text → Text → Text

abbrev from_address : ℕ
from_address = 0x4

abbrev unchanged_refcount : ℕ
unchanged_refcount = 0x2

unfoldable pub self_module : Windows → Option ℕ
self_module win =
    let (success, h) = win.get_module_handle (bit_or from_address unchanged_refcount) in
    if not (success == 0) && not (h == 0) then some h else none

abbrev pub path_size : ℕ
path_size = 32768

abbrev pub path_in : List ℕ × ℕ → Option Text
path_in (buf, n) = if n == 0 || leb (length buf) n then none else some (take n buf)

unfoldable pub module_path : Windows → ℕ → Option Text
module_path win h = path_in (win.get_module_file_name h (replicate path_size 0))

abbrev pub and_parent : Windows → Option Text → Option Text
and_parent win none = none
and_parent win (some p) = win.parent p

unfoldable pub exe_dir : Windows → Option Text
unfolding module_path
exe_dir win = and_parent win (module_path win 0)

abbrev dll_path : Windows → Option ℕ → Option Text
dll_path win none = none
dll_path win (some h) = module_path win h

unfoldable pub dll_dir : Windows → Option Text
unfolding module_path self_module
dll_dir win = and_parent win (dll_path win (self_module win))

abbrev ini_in : Windows → Option Text → Option Text
ini_in win none = none
ini_in win (some dir) = some (win.join dir (codes "kvasilloni.ini"))

-- The process with what Windows says of its modules.
unfoldable pub windows_host :
    Windows → (Text → Option IpAddr) → (Text → Option Text) → (Text → Option Text) → Host
unfolding dll_dir exe_dir
windows_host win parse_ip env read_file = record {
  parse_ip = parse_ip;
  env = env;
  read_file = read_file;
  ini_in_dll_dir = ini_in win (dll_dir win);
  ini_in_exe_dir = ini_in win (exe_dir win);
}
