-- ===== src/Entry/Balance.antt =====
-- What is held after a `DriverEntry` that fails.
use ntfw.Common.{Bool, false, not, ◌&&◌, ◌≡◌, arith}
use ntfw.Host.{host_pool_grow}
use ntfw.Config.{ntfe_init}
use ntfw.Driver.Load.{is_success}
use ntfw.Entry.{Registration, EntryEnv, System, register_device, register_driver, start_driver}

-- No handle is set and nothing is held.
abbrev pub unregistered : Registration
unregistered = record {
  flt_driver_handle = false;
  ndis_cfg_handle = false;
  flt_device_handle = false;
  filter_registered = false;
  configuration_open = false;
  device_registered = false;
}

-- What the system holds for the driver, the region of the pool included.
pub record Held (s : System) (pool filter config device : Bool) : Type 0 where
  pub pool_held : s.engine.hpool ≡ pool
  pub filter_held : s.registration.filter_registered ≡ filter
  pub config_held : s.registration.configuration_open ≡ config
  pub device_held : s.registration.device_registered ≡ device

-- When the driver does not start, what was taken before the failing call stays held: the system
-- calls no unload routine then. The region of the pool, if it was allocated, is let go in no case;
-- the filter is left registered when the configuration cannot be opened, and the configuration
-- open when the device cannot be registered.
pub start_driver_leaks :
    (env : EntryEnv) (s : System)
    → s.registration ≡ unregistered
    → is_success (start_driver env s).0 ≡ false
    → let filter = env.region_allocate && is_success env.ndis_f_register_filter_driver in
      let config = is_success env.ndis_open_configuration_ex in
      Held
        (start_driver env s).1
        env.region_allocate
        (filter && not config)
        (filter && config)
        false
unfolding start_driver register_driver register_device ntfe_init host_pool_grow
start_driver_leaks env s clear failed = ground arith
