-- ===== src/Transport/Filter.antt =====
-- `Accept` of src/transport.rs: the acceptance filter that `canAccept` sets.
use kvasilloni.Prelude.{ℕ, Bool, bit_and, ◌==◌, if◌then◌else◌}
use kvasilloni.Wire.Flags.{can_eff_flag, can_eff_mask, can_sff_mask, has}
use kvasilloni.Wire.Frame.{Frame}

pub record Accept : Type 0 where
  pub code_std : ℕ
  pub mask_std : ℕ
  pub code_ext : ℕ
  pub mask_ext : ℕ

abbrev pub default_accept : Accept
default_accept = record { code_std = 0; mask_std = 0; code_ext = 0; mask_ext = 0 }

unfoldable pub accepts : Accept → Frame → Bool
accepts a f =
    let ext = has f.can_id can_eff_flag in
    let id = if ext then bit_and f.can_id can_eff_mask else bit_and f.can_id can_sff_mask in
    let code = if ext then a.code_ext else a.code_std in
    let mask = if ext then a.mask_ext else a.mask_std in bit_and id mask == bit_and code mask

-- One `canAccept` directive: canFILTER_SET_CODE_STD and the three after it.
unfoldable pub set_filter : Accept → ℕ → ℕ → Accept
set_filter a flag envelope =
    if flag == 3
    then record a { code_std = envelope }
    else if flag == 4
    then record a { mask_std = envelope }
    else if flag == 5
    then record a { code_ext = envelope }
    else if flag == 6
    then record a { mask_ext = envelope }
    else a
