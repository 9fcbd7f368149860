-- ===== src/Driver/Load.antt =====
-- ntfwkm/driver.cpp: `ConfigureFirewallEngine`, which reads the configuration file and applies it.
use ntfw.Common.{ℕ, Bool, true, false, not, ◌≤◌, ◌≡◌, ◌⊎◌, arith, List, ltb, if◌then◌else◌}
use ntfw.State.{Gs}
use ntfw.Config.{ntfe_validate_configuration, ntfe_configure}

-- The statuses that the function returns; `failed` is a status other than success, by its code.
pub data NtStatus : Type 0 where
  status_success : NtStatus
  failed : ℕ → NtStatus
  status_file_too_large : NtStatus
  status_io_device_invalid_data : NtStatus
  status_internal_error : NtStatus

abbrev pub is_success : NtStatus → Bool
is_success status_success = true
is_success _ = false

-- What the system answers: the statuses of the four calls, the size of the file, whether the
-- buffer is allocated, and the bytes read.
pub record FileEnv : Type 0 where
  pub ndis_read_configuration : NtStatus
  pub zw_open_file : NtStatus
  pub zw_query_information_file : NtStatus
  pub end_of_file : ℕ
  pub ex_allocate_pool : Bool
  pub zw_read_file : NtStatus
  pub file_data : List ℕ

abbrev pub max_ntfe_cfg_sz : ℕ
max_ntfe_cfg_sz = 0x4000

-- From the check of the size on; the status is that of the last call until it is assigned.
unfoldable pub apply_file : ℕ → FileEnv → Gs → NtStatus × Gs
apply_file p env gs =
    let applied = ntfe_configure p env.file_data env.end_of_file gs in
    if ltb max_ntfe_cfg_sz env.end_of_file
    then (status_file_too_large, gs)
    else if not env.ex_allocate_pool
    then (env.zw_query_information_file, gs)
    else if not (is_success env.zw_read_file)
    then (env.zw_read_file, gs)
    else if not (ntfe_validate_configuration env.file_data env.end_of_file gs)
    then (status_io_device_invalid_data, gs)
    else if not applied.0
    then (status_internal_error, applied.1)
    else (env.zw_read_file, applied.1)

unfoldable pub configure_firewall_engine : ℕ → FileEnv → Gs → NtStatus × Gs
configure_firewall_engine p env gs =
    if not (is_success env.ndis_read_configuration)
    then (env.ndis_read_configuration, gs)
    else if not (is_success env.zw_open_file)
    then (env.zw_open_file, gs)
    else if not (is_success env.zw_query_information_file)
    then (env.zw_query_information_file, gs)
    else apply_file p env gs

-- Success is reported in two cases: the file is not too large, and its configuration succeeded
-- and left the state that is returned; or the buffer could not be allocated, and nothing changed.
pub configure_firewall_engine-success :
    (p : ℕ) (env : FileEnv) (gs : Gs)
    → is_success (configure_firewall_engine p env gs).0 ≡ true
    → (env.end_of_file ≤ max_ntfe_cfg_sz)
      × (((env.ex_allocate_pool ≡ false) × ((configure_firewall_engine p env gs).1 ≡ gs))
          ⊎ (((ntfe_configure p env.file_data env.end_of_file gs).0 ≡ true)
              × ((configure_firewall_engine p env gs).1
                  ≡ (ntfe_configure p env.file_data env.end_of_file gs).1)))
unfolding configure_firewall_engine apply_file
configure_firewall_engine-success p env gs h = ground arith
