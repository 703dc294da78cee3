-- ===== src/Api/Info.antt =====
-- The exports of src/lib.rs that describe the library: channel count and data, error texts.
use kvasilloni.Prelude.{
  ℕ, zero, suc, ◌+◌, ◌-◌, ◌/◌, ◌%◌, ◌^◌, min, ◌||◌, [], ◌∷◌, ◌++◌, Option, none, some, length, take,
  ltb, ◌==◌, bit_or, if◌then◌else◌,
}
use kvasilloni.Config.Types.{Text, Config}
use kvasilloni.Api.Codes.{
  can_ok, can_err_param, can_err_nomsg, can_err_notfound, can_channel_cap_extended_can,
  can_channel_cap_virtual, can_channel_cap_can_fd,
}
use kvasilloni.Api.Memory.{
  safe, Cell, Buffer, Filled, store, filled, write_bytes, out_u32, out_u64, out_cstr,
}
use kvasilloni.Api.Table.{World}

-- `OnceLock::get_or_init`: the memo after, and the value.
unfoldable pub channels_memo : Option ℕ → ℕ → Option ℕ × ℕ
channels_memo none loaded = (some loaded, loaded)
channels_memo (some n) loaded = (some n, n)

-- `cfg` is what `Config::load` would return.
unfoldable pub can_get_number_of_channels : Config → Cell → World → World × Cell × ℕ
unfolding channels_memo
can_get_number_of_channels cfg channel_count w =
    let (memo, n) = channels_memo w.enum_channels cfg.channels in
    (record w { enum_channels = memo }, store channel_count (min n (2 ^ 31 - 1)), can_ok)

-- The decimal digits of a number below 10^fuel, most significant first.
abbrev digits_into : ℕ → ℕ → Text → Text
digits_into zero n acc = acc
digits_into (suc fuel) n acc =
    let rest = digits_into fuel (n / 10) ((b'0' + n % 10) ∷ acc) in
    if ltb n 10 then (b'0' + n) ∷ acc else rest

-- `{n}` of a c_int: its pattern read as a signed number.
unfoldable pub show_int : ℕ → Text
show_int n = if ltb n (2 ^ 31) then digits_into 10 n [] else b'-' ∷ digits_into 10 (2 ^ 32 - n) []

-- "kvasilloni"
abbrev library_name : Text
library_name = b'k' ∷ b'v' ∷ b'a' ∷ b's' ∷ b'i' ∷ b'l' ∷ b'l' ∷ b'o' ∷ b'n' ∷ b'i' ∷ []

-- " vcan"
abbrev vcan : Text
vcan = b' ' ∷ b'v' ∷ b'c' ∷ b'a' ∷ b'n' ∷ []

-- " virtual CAN"
abbrev virtual_can : Text
virtual_can = b' ' ∷ b'v' ∷ b'i' ∷ b'r' ∷ b't' ∷ b'u' ∷ b'a' ∷ b'l' ∷ b' ' ∷ b'C' ∷ b'A' ∷ b'N' ∷ []

abbrev channel_caps : ℕ
channel_caps =
    bit_or (bit_or can_channel_cap_extended_can can_channel_cap_virtual) can_channel_cap_can_fd

-- `channel as u64`: the sign is extended.
abbrev sign_extend : ℕ → ℕ
sign_extend n = if ltb n (2 ^ 31) then n else n + (2 ^ 64 - 2 ^ 32)

unfoldable pub can_get_channel_data : ℕ → ℕ → Buffer → ℕ → Filled
unfolding out_u32 out_u64 out_cstr show_int
can_get_channel_data channel item buf size =
    if item == 13
    then out_cstr buf size (library_name ++ vcan ++ show_int channel)
    else if item == 26
    then out_cstr buf size (library_name ++ virtual_can)
    else if item == 24
    then out_cstr buf size library_name
    else if item == 1
    then out_u32 buf size channel_caps
    else if item == 3 || item == 4 || item == 5
    then out_u32 buf size 0
    else if item == 6
    then out_u32 buf size channel
    else if item == 7
    then out_u64 buf size ((sign_extend channel + 1) % 2 ^ 64)
    else safe (buf, can_err_param)

-- "OK"
abbrev text_ok : Text
text_ok = b'O' ∷ b'K' ∷ []

-- "Error in parameter"
abbrev text_param : Text
text_param =
    b'E' ∷ b'r' ∷ b'r' ∷ b'o' ∷ b'r' ∷ b' ' ∷ b'i' ∷ b'n' ∷ b' ' ∷ b'p' ∷ b'a' ∷ b'r' ∷ b'a' ∷ b'm'
    ∷ b'e' ∷ b't' ∷ b'e' ∷ b'r' ∷ []

-- "No messages available"
abbrev text_nomsg : Text
text_nomsg =
    b'N' ∷ b'o' ∷ b' ' ∷ b'm' ∷ b'e' ∷ b's' ∷ b's' ∷ b'a' ∷ b'g' ∷ b'e' ∷ b's' ∷ b' ' ∷ b'a' ∷ b'v'
    ∷ b'a' ∷ b'i' ∷ b'l' ∷ b'a' ∷ b'b' ∷ b'l' ∷ b'e' ∷ []

-- "Specified device not found"
abbrev text_notfound : Text
text_notfound =
    b'S' ∷ b'p' ∷ b'e' ∷ b'c' ∷ b'i' ∷ b'f' ∷ b'i' ∷ b'e' ∷ b'd' ∷ b' ' ∷ b'd' ∷ b'e' ∷ b'v' ∷ b'i'
    ∷ b'c' ∷ b'e' ∷ b' ' ∷ b'n' ∷ b'o' ∷ b't' ∷ b' ' ∷ b'f' ∷ b'o' ∷ b'u' ∷ b'n' ∷ b'd' ∷ []

-- "Unknown error"
abbrev text_unknown : Text
text_unknown =
    b'U' ∷ b'n' ∷ b'k' ∷ b'n' ∷ b'o' ∷ b'w' ∷ b'n' ∷ b' ' ∷ b'e' ∷ b'r' ∷ b'r' ∷ b'o' ∷ b'r' ∷ []

unfoldable pub error_text : ℕ → Text
error_text e =
    if e == can_ok
    then text_ok
    else if e == can_err_param
    then text_param
    else if e == can_err_nomsg
    then text_nomsg
    else if e == can_err_notfound
    then text_notfound
    else text_unknown

-- `n` bytes of the text, then its terminator; the size is a c_uint.
unfoldable pub can_get_error_text : ℕ → Buffer → ℕ → Filled
unfolding error_text
can_get_error_text e none bufsiz = safe (none, can_ok)
can_get_error_text e (some buf) bufsiz =
    let n = min (bufsiz - 1) (length (error_text e)) in
    if ltb 0 bufsiz
    then filled (write_bytes buf (take n (error_text e) ++ 0 ∷ []))
    else safe (some buf, can_ok)
