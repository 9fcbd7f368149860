-- ===== src/Tests/Filter.antt =====
-- Tests of the filter modules of the driver, and the theorems on them at concrete states.
use ntfw.Common.{true, false, [], ◌∷◌, ◌≡◌, ◌≤◌, ◌⊎◌, refl, some}
use ntfw.Config.{ntfe_configure}
use ntfw.Driver.{Driver, driver_entry, filter_attach, attach_locked, set_lock, success}
use ntfw.Driver.Invariant.{IsDriver}
use ntfw.Driver.Steps.{Reached, entry, after, attach, Reached-IsDriver}
use ntfw.Driver.Load.{
  FileEnv, status_success, status_internal_error, configure_firewall_engine, apply_file, is_success,
  max_ntfe_cfg_sz, configure_firewall_engine-success,
}
use ntfw.Tests.{state, empty_bucket}

-- One module, attached.
abbrev one_module : Driver
one_module = (attach_locked 7 true driver_entry.free_list (set_lock true driver_entry)).1

attached_once : filter_attach true 7 true driver_entry ≡ some (success, one_module)
unfolding filter_attach driver_entry attach_locked
attached_once = refl

one_module-Reached : Reached one_module
unfolding driver_entry
one_module-Reached =
    after driver_entry one_module entry
      (attach 7 true 0 (1 ∷ 2 ∷ 3 ∷ 4 ∷ 5 ∷ 6 ∷ 7 ∷ []) success refl attached_once)

Reached-IsDriver_example : IsDriver one_module
Reached-IsDriver_example = Reached-IsDriver one_module one_module-Reached

-- the file is found, but there is no memory for it
abbrev no_memory : FileEnv
no_memory = record {
  ndis_read_configuration = status_success;
  zw_open_file = status_success;
  zw_query_information_file = status_success;
  end_of_file = 100;
  ex_allocate_pool = false;
  zw_read_file = status_internal_error;
  file_data = [];
}

no_memory_success : is_success (configure_firewall_engine 0 no_memory (state empty_bucket)).0 ≡ true
unfolding configure_firewall_engine apply_file
no_memory_success = refl

configure_firewall_engine-success_example :
    (100 ≤ max_ntfe_cfg_sz)
    × (((false ≡ false)
          × ((configure_firewall_engine 0 no_memory (state empty_bucket)).1 ≡ state empty_bucket))
        ⊎ (((ntfe_configure 0 [] 100 (state empty_bucket)).0 ≡ true)
            × ((configure_firewall_engine 0 no_memory (state empty_bucket)).1
                ≡ (ntfe_configure 0 [] 100 (state empty_bucket)).1)))
configure_firewall_engine-success_example =
    configure_firewall_engine-success 0 no_memory (state empty_bucket) no_memory_success
