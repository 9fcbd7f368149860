-- ===== src/Entry.antt =====
-- ntfwkm/driver.cpp: `DriverEntry` and `DriverUnload`. What the system gives out is counted beside
-- the handles that the driver keeps of it: a handle can be set for what is gone, and unset for
-- what is held.
pub mod Balance
use ntfw.Common.{Option, ℕ, Bool, true, false, not, if◌then◌else◌}
use ntfw.State.{Gs}
use ntfw.Config.{ntfe_init, ntfe_cleanup}
use ntfw.Driver.{Driver, driver_entry}
use ntfw.Driver.Load.{NtStatus, status_success, status_internal_error, is_success}

-- The handles of the driver, as set or not, and what the system holds for it.
pub record Registration : Type 0 where
  pub flt_driver_handle : Bool
  pub ndis_cfg_handle : Bool
  pub flt_device_handle : Bool
  pub filter_registered : Bool
  pub configuration_open : Bool
  pub device_registered : Bool

-- What the system answers to the calls of `DriverEntry`: the frequency of the clock, whether the
-- pool is allocated, and three statuses.
pub record EntryEnv : Type 0 where
  pub hpc_hz : ℕ
  pub region_allocate : Bool
  pub ndis_f_register_filter_driver : NtStatus
  pub ndis_open_configuration_ex : NtStatus
  pub ndis_register_device_ex : NtStatus

-- The globals of the driver, of the engine and of the system.
pub record System : Type 0 where
  pub driver : Driver
  pub engine : Gs
  pub registration : Registration
  pub unload_installed : Bool

-- The creation of the device; when it fails the filter is deregistered.
unfoldable pub register_device : EntryEnv → System → NtStatus × System
register_device env s =
    if not (is_success env.ndis_register_device_ex)
    then (
      status_internal_error,
      record s { registration = record s.registration { filter_registered = false } },
    )
    else (
      status_success,
      record s {
        registration = record s.registration { flt_device_handle = true; device_registered = true };
      },
    )

-- From the registration of the filter on.
unfoldable pub register_driver : EntryEnv → System → NtStatus × System
register_driver env s =
    let filter = record s {
      registration = record s.registration { flt_driver_handle = true; filter_registered = true };
    } in
    let config = record filter {
      registration = record filter.registration {
        ndis_cfg_handle = true;
        configuration_open = true;
      };
    } in
    if not (is_success env.ndis_f_register_filter_driver)
    then (status_internal_error, s)
    else if not (is_success env.ndis_open_configuration_ex)
    then (status_internal_error, filter)
    else register_device env config

-- `DriverEntry`
unfoldable pub start_driver : EntryEnv → System → NtStatus × System
start_driver env s =
    let (ok, engine) = ntfe_init env.hpc_hz env.region_allocate s.engine in
    let s1 = record s { driver = driver_entry; engine = engine } in
    if not ok
    then (status_internal_error, s1)
    else register_driver env (record s1 { unload_installed = true })

-- `DriverUnload`: each handle that is set is closed. Before the state it gives what `ntfe_cleanup`
-- asks of `RegionFree`.
unfoldable pub driver_unload : System → Option ℕ × System
driver_unload s =
    let r = s.registration in
    let (region_free, engine) = ntfe_cleanup s.engine in
    (
      region_free,
      record s {
        engine = engine;
        registration = record r {
          flt_driver_handle = false;
          flt_device_handle = false;
          filter_registered = if r.flt_driver_handle then false else r.filter_registered;
          configuration_open = if r.ndis_cfg_handle then false else r.configuration_open;
          device_registered = if r.flt_device_handle then false else r.device_registered;
        };
      },
    )
