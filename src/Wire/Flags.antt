-- ===== src/Wire/Flags.antt =====
-- The constants of src/wire.rs, `fd_round_len`, and the translation of the CAN FD flags.
use kvasilloni.Prelude.{ℕ, Bool, not, List, [], ◌∷◌, bit_and, bit_or, leb, ◌==◌, if◌then◌else◌}

abbrev pub frame_version : ℕ
frame_version = 2

abbrev pub op_data : ℕ
op_data = 0

abbrev pub data_packet_base_size : ℕ
data_packet_base_size = 5

abbrev pub frame_base_size : ℕ
frame_base_size = 5

abbrev pub canfd_frame : ℕ
canfd_frame = 0x80

-- "CANNELLONIv1"
abbrev pub connect_v1 : List ℕ
connect_v1 = b'C' ∷ b'A' ∷ b'N' ∷ b'N' ∷ b'E' ∷ b'L' ∷ b'L' ∷ b'O' ∷ b'N' ∷ b'I' ∷ b'v' ∷ b'1' ∷ []

abbrev pub max_frame_len : ℕ
max_frame_len = 64

abbrev pub classic_frame_max_len : ℕ
classic_frame_max_len = 8

abbrev pub can_eff_flag : ℕ
can_eff_flag = 0x8000_0000

abbrev pub can_rtr_flag : ℕ
can_rtr_flag = 0x4000_0000

abbrev pub can_eff_mask : ℕ
can_eff_mask = 0x1fff_ffff

abbrev pub can_sff_mask : ℕ
can_sff_mask = 0x0000_07ff

abbrev pub can_msg_rtr : ℕ
can_msg_rtr = 0x0001

abbrev pub can_msg_std : ℕ
can_msg_std = 0x0002

abbrev pub can_msg_ext : ℕ
can_msg_ext = 0x0004

abbrev pub can_msg_fdf : ℕ
can_msg_fdf = 0x0001_0000

abbrev pub can_msg_brs : ℕ
can_msg_brs = 0x0002_0000

abbrev pub can_msg_esi : ℕ
can_msg_esi = 0x0004_0000

abbrev pub canfd_brs : ℕ
canfd_brs = 0x01

abbrev pub canfd_esi : ℕ
canfd_esi = 0x02

-- `x & flag != 0`
abbrev pub has : ℕ → ℕ → Bool
has x flag = not (bit_and x flag == 0)

unfoldable pub fd_round_len : ℕ → ℕ
fd_round_len n =
    if leb n 8
    then n
    else if leb n 12
    then 12
    else if leb n 16
    then 16
    else if leb n 20
    then 20
    else if leb n 24
    then 24
    else if leb n 32
    then 32
    else if leb n 48
    then 48
    else 64

unfoldable pub kvaser_to_fd_flags : ℕ → ℕ
kvaser_to_fd_flags kvaser_flag =
    let f = if has kvaser_flag can_msg_brs then bit_or 0 canfd_brs else 0 in
    if has kvaser_flag can_msg_esi then bit_or f canfd_esi else f

unfoldable pub fd_flags_to_kvaser : ℕ → ℕ
fd_flags_to_kvaser fd_flags =
    let f = if has fd_flags canfd_brs then bit_or 0 can_msg_brs else 0 in
    if has fd_flags canfd_esi then bit_or f can_msg_esi else f
