-- ===== src/Lib.antt =====
-- Verification library of ntfw, a network firewall: a filter driver for Windows (ntfwkm/), the
-- engine that it runs (ntfe/), and a tool that writes its configuration (ntfw/).
--
-- The engine keeps one global state, `gs`: a table of rules indexed by a hash in which no two
-- rules meet, a table of hosts in buckets of eight, a pool of host states with token buckets, and
-- per-processor clocks and counters. The driver calls `ntfe_rx` for a received frame, which
-- answers whether it passes, and `ntfe_tx` for a sent one, which may authorize its destination.
--
-- Files and the code they model:
--   Common          shared names: Boolean tests, arrays as lists or functions, machine words,
--                   and the laws of the bit operations (Common/Bits)
--   Saturate        ntfe/helper.cpp: `satsub32`, `satadd32`, `satmul32`
--   Flow            ntfe/ntfeusr.h, ntfe/ntfeusr.cpp: flow signatures and `rule_hashfn`
--   Meter           ntfe/ntfe.cpp: `token_bucket_charge`
--   Rules           ntfe/ntfe.cpp: `rule_lookup`, `rule_insert`, and the loops over the rules of
--                   a configuration
--   State           ntfe/ntfe.h: the records of the state
--   Net             ntfe/net.h: the frame, by the fields that are read
--   Host            ntfe/host.cpp: the host table, one function for each of the source
--   Engine          ntfe/ntfe.cpp: `ntfe_rx`, `ntfe_tx`, `ntfp_rx_process`,
--                   `host_charge_packet`
--   Config          ntfe/ntfeusr.h, ntfe/ntfe.cpp: the configuration image,
--                   `ntfe_validate_configuration`, `ntfe_configure`, `ntfe_init`
--   Run             ntfe/ntfeusr.h: sequences of the calls that the engine offers, from the
--                   zeroed `gs` on
--   Driver          ntfwkm/driver.cpp: the filter modules (`FilterAttach` and the other
--                   handlers, `Suspend`, `Resume`), `ConfigureFirewallEngine`, and
--                   `RequestDispatch`; what NDIS runs is kept beside the states that the driver
--                   gives its modules (Driver/View)
--   Batch           ntfwkm/driver.cpp: `FilterReceive`, `FilterSend`
--   Entry           ntfwkm/driver.cpp: `DriverEntry`, `DriverUnload`
--   Search          ntfw/phash.cpp: the generator, `GetProcessorCount`, the worker threads and
--                   `FindRuleMagic`
--   Locks           ntfe/helper.cpp: `spin_acquire`, `spin_acquire_dbg`, `spin_release`,
--                   `spin_acquire2` (Locks/Whole)
--   Address         ntfe/helper.cpp: `ipxs`, `ips`
--   Editor          ntfw/dlgrules.cpp: the names of protocols, the loops of `RulesUpload` and
--                   `RulesDownload`
--   Pages           ntfw/dlgrules.cpp: `Synchronize`, `Scroll`, the messages of the dialog
--                   (`OnRulesDlgMsg`), `RulesUpload` and `RulesDownload` with the rows on
--                   the screen
--   Tool            ntfw/ntfw.cpp: `SaveNtfeConfiguration`, `LoadNtfeConfiguration`
--   Window          ntfw/ntfw.cpp: `DlgProc` with its tabs, and the loop of `WinMain`
--   Tests           tests, and the theorems at concrete inputs
-- The definitions of a part stand in the file named for it, and its theorems in the files below.
--
-- Numbers are natural numbers; a word keeps its wrap-around written out. A pointer to a bucket or
-- to a host state is its index. The fields of a structure in network order hold what a
-- little-endian machine reads. An `s8` index is an option, `none` for a negative one. A handler
-- takes the state and returns it; `p` is the processor it runs on. Loops over arrays are
-- recursions on the list or on the number of rounds left, so that no fuel can run out.
--
-- The worker threads of the search and the processors at a spin lock are places between two
-- accesses to shared memory; an interleaving is a list of events or a sequence of steps, and each
-- access is one step. The tool builds its image as the bytes that it writes.
--
-- Parameters: the system clock and `ed25519_verify`, by the record `Engine.Env`; the answers of
-- the file system, by `Driver.Load.FileEnv`; those of the system at the start of the driver, by
-- `Entry.EntryEnv`; what the handlers of the driver do while a request waits, by the function
-- `ndis`, of which `Driver.Request.IsNdis` is assumed; the answers of the user and of the file
-- written, by `Tool.SaveEnv`; the identifiers of the threads and their interleaving, and the
-- messages of the window system, by arguments.
-- Not modelled: what stands behind an array, where the source goes past it: behind the rule table
-- with the table size 31 (the theorems that depend on it exclude that size), and behind the token
-- buckets with the bucket numbers 4 to 7; the pages of the pool (ntfwkm/eal.cpp); the
-- interleavings of calls into the engine (a call is modelled as it runs once it holds its lock);
-- the failure to create a thread of the search; prefetches, logging, calls of the system;
-- ntfe/ed25519 (a third-party library); and of the configuration tool the tooltips and the pages
-- other than that of the rules (ntfw/dlgbasic.cpp, ntfw/dlgusers.cpp).
pub mod Common
pub mod Saturate
pub mod Flow
pub mod Meter
pub mod Rules
pub mod State
pub mod Net
pub mod Host
pub mod Engine
pub mod Config
pub mod Run
pub mod Driver
pub mod Batch
pub mod Entry
pub mod Search
pub mod Locks
pub mod Address
pub mod Editor
pub mod Pages
pub mod Tool
pub mod Window
pub mod Tests
