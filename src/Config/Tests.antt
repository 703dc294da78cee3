-- ===== src/Config/Tests.antt =====
-- The configuration on concrete texts.
use kvasilloni.Prelude.{
  ℕ, ◌+◌, ◌≡◌, ◌∙◌, ◌++◌, ◌==◌, ltb, ap, arith, length, drop, List, Option, refl, [], ◌∷◌, none,
  some, true, false, if◌then◌else◌,
}
use kvasilloni.Prelude.Text.{codes, text_eq}
use mathlib.Core.Path.{subst⁻¹}
use kvasilloni.Prelude.Text.{is_whitespace, lowercase, lower}
use kvasilloni.Config.Types.{default_config}
use kvasilloni.Config.Settings.{env_layer, ini_layer, overlaid, bare}
use kvasilloni.Config.SettingLayers.{load-overlaid}
use kvasilloni.Config.Printer.{Item, setting, remark, blank_line, print, IsSetting, IsRemark}
use kvasilloni.Config.RoundTrip.{parse_ini-print}
use kvasilloni.Config.Modules.{Windows, module_path}
use kvasilloni.Config.ModulePaths.{Documented, module_path-usable}
use kvasilloni.Config.Types.{Text}
use kvasilloni.Config.Text.{u16_max, parse_uint, parse_bool}
use kvasilloni.Config.Ini.{parse_ini}
use kvasilloni.Config.Load.{Host, find_and_parse_ini, load}

abbrev ini_text : Text
ini_text = codes "[cannelloni]\n; a comment\nPort = 30001 ; inline\nproto=tcp\r\nchannels = 2"

parse_ini-ini_text :
    parse_ini ini_text
    ≡ (codes "channels", codes "2")
      ∷ (codes "proto", codes "tcp")
      ∷ (codes "port", codes "30001")
      ∷ []
unfolding parse_ini
parse_ini-ini_text = refl

parse_uint-too_large : parse_uint u16_max (codes "70000") ≡ none
unfolding parse_uint
parse_uint-too_large = refl

parse_bool-words : (parse_bool (codes " Yes ") ≡ true) × (parse_bool (codes "2") ≡ false)
unfolding parse_bool
parse_bool-words = (refl, refl)

-- The file sets a port, and the environment a timeout that does not fit.
abbrev host : Host
host = record {
  parse_ip = λ t. none;
  env = λ k.
      if text_eq k (codes "KVASILLONI_CONNECT_TIMEOUT") then some (codes "4294967296") else none;
  read_file = λ p. some ini_text;
  ini_in_dll_dir = some (codes "dll.ini");
  ini_in_exe_dir = none;
}

load-host :
    ((load host).remote_port ≡ 30001)
    × ((load host).tcp ≡ true)
    × ((load host).connect_timeout_ms ≡ 5000)
unfolding load text_eq
load-host = (refl, refl, refl)

load-overlaid_example :
    bare (load host)
    ≡ overlaid host.parse_ip
        (env_layer host.env)
        (overlaid host.parse_ip (ini_layer (find_and_parse_ini host)) default_config)
load-overlaid_example = load-overlaid host

-- A Windows whose modules have these names.
abbrev answer : Option Text → List ℕ → List ℕ × ℕ
answer none buf = (buf, 0)
answer (some p) buf =
    if ltb (length p) (length buf)
    then (p ++ 0 ∷ drop (length p + 1) buf, length p)
    else (buf, length buf)

abbrev windows_with : (ℕ → Option Text) → Windows
windows_with name = record {
  get_module_handle = λ flags. (1, 1);
  get_module_file_name = λ h buf. answer (name h) buf;
  parent = λ p. some p;
  join = λ dir file. dir ++ file;
}

windows_with-Documented : (name : ℕ → Option Text) → Documented (windows_with name) name
windows_with-Documented name = record {
  whole = λ h p buf e short. ap (λ o. answer o buf) e ∙ ground (arith, short);
  cut = λ h p buf e long.
      subst⁻¹ (λ o. (length (answer o buf).0 ≡ length buf) × ((answer o buf).1 ≡ length buf)) e
        (ground (arith, long), ground (arith, long));
  failed = λ h buf e. ap (λ o. (answer o buf).1) e;
}

abbrev one_module : ℕ → Option Text
one_module h = if h == 0 then some (codes "C:\\app.exe") else none

module_path-usable_example : module_path (windows_with one_module) 0 ≡ some (codes "C:\\app.exe")
module_path-usable_example =
    module_path-usable (windows_with one_module) one_module 0 (windows_with-Documented one_module)

abbrev ini_items : List Item
ini_items =
    remark b'[' (codes "cannelloni]")
    ∷ setting (codes "port") (codes "30001")
    ∷ blank_line
    ∷ remark b';' (codes " a note")
    ∷ setting (codes "port") (codes "30002")
    ∷ []

port-IsSetting : IsSetting (codes "port") (codes "30001")
unfolding is_whitespace
port-IsSetting = record {
  begins = omega arith;
  key_start = refl;
  key_end = refl;
  key_chars = omega arith;
  lower_case = unfold lowercase lower in refl;
  val_start = refl;
  val_end = refl;
  val_chars = omega arith;
}

later_port-IsSetting : IsSetting (codes "port") (codes "30002")
unfolding is_whitespace
later_port-IsSetting = record {
  begins = omega arith;
  key_start = refl;
  key_end = refl;
  key_chars = omega arith;
  lower_case = unfold lowercase lower in refl;
  val_start = refl;
  val_end = refl;
  val_chars = omega arith;
}

section-IsRemark : IsRemark b'[' (codes "cannelloni]")
unfolding is_whitespace
section-IsRemark = record { marks = refl; start = refl; end = refl; chars = omega arith }

note-IsRemark : IsRemark b';' (codes " a note")
unfolding is_whitespace
note-IsRemark = record { marks = refl; start = refl; end = refl; chars = omega arith }

parse_ini-print_example :
    parse_ini (print ini_items) ≡ (codes "port", codes "30002") ∷ (codes "port", codes "30001") ∷ []
parse_ini-print_example =
    parse_ini-print ini_items
      (section-IsRemark, (port-IsSetting, (tt, (note-IsRemark, (later_port-IsSetting, tt)))))
