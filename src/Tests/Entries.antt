-- ===== src/Tests/Entries.antt =====
-- The start and the end of the driver on concrete answers of the system, and a batch of frames.
use ntfw.Common.{true, false, ◌≡◌, arith, refl, [], ◌∷◌, some, none, List, bswap16}
use ntfw.Host.{host_pool_grow}
use ntfw.State.{hpool_grow}
use ntfw.Config.{ntfe_init, ntfe_cleanup}
use ntfw.Driver.{driver_entry}
use ntfw.Driver.Load.{status_success, failed, is_success}
use ntfw.Engine.{ntfe_rx_prepare}
use ntfw.Entry.{EntryEnv, System, start_driver, register_driver, register_device, driver_unload}
use ntfw.Entry.Balance.{unregistered, Held, start_driver_leaks}
use ntfw.Run.{zero_gs, started, rx_prepare, tx_prepare, run}
use ntfw.Batch.{NetBufferList, ReceiveFlags, receive_batch, send_batch}
use ntfw.Batch.Calls.{received, all_inspected, receive_batch-run}
use ntfw.Batch.Split.{Delivered, receive_batch_splits}
use ntfw.Tests.Frames.{segment, quiet}

abbrev loading : System
loading = record {
  driver = driver_entry;
  engine = zero_gs;
  registration = unregistered;
  unload_installed = false;
}

abbrev all_well : EntryEnv
all_well = record {
  hpc_hz = 1000;
  region_allocate = true;
  ndis_f_register_filter_driver = status_success;
  ndis_open_configuration_ex = status_success;
  ndis_register_device_ex = status_success;
}

abbrev no_device : EntryEnv
no_device = record all_well { ndis_register_device_ex = failed 5 }

starts : is_success (start_driver all_well loading).0 ≡ true
unfolding start_driver register_driver register_device ntfe_init host_pool_grow
starts = refl

starts_not : is_success (start_driver no_device loading).0 ≡ false
unfolding start_driver register_driver register_device ntfe_init host_pool_grow
starts_not = refl

-- The pool has grown once.
unloads : (driver_unload (start_driver all_well loading).1).0 ≡ some hpool_grow
unfolding driver_unload start_driver register_driver register_device ntfe_init ntfe_cleanup
    host_pool_grow
unloads = refl

start_driver_leaks_example : Held (start_driver no_device loading).1 true false true false
start_driver_leaks_example = start_driver_leaks no_device loading refl starts_not

-- A frame, and a buffer list without a pointer to its header.
abbrev two_lists : List NetBufferList
two_lists =
    record {
      first = record { length = 54; header = some (segment 99 11 (bswap16 22)) };
      others = [];
    }
    ∷ record { first = record { length = 10; header = none }; others = [] }
    ∷ []

abbrev no_flags : ReceiveFlags
no_flags = record { resources = false; dispatch_level = false; perfect_filtered = true }

receive_batch_splits_example :
    Delivered quiet 0 two_lists no_flags
      (ntfe_rx_prepare 0 7 (started 1000))
      (receive_batch quiet 0 7 true two_lists 2 no_flags (started 1000))
receive_batch_splits_example =
    receive_batch_splits quiet 0 7 two_lists 2 no_flags (started 1000) refl (omega arith)

receive_batch-run_example :
    ((receive_batch quiet 0 7 true two_lists 2 no_flags (started 1000)).1
      ≡ run (rx_prepare 0 7 ∷ received quiet 0 two_lists) (started 1000))
    × ((send_batch 0 7 true two_lists false (started 1000)).1
        ≡ run (tx_prepare 0 7 ∷ all_inspected 0 two_lists) (started 1000))
receive_batch-run_example =
    receive_batch-run quiet 0 7 two_lists 2 no_flags false (started 1000) refl
