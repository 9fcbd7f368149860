-- ===== src/Driver.antt =====
-- ntfwkm/driver.cpp: the filter modules of the driver, and how they are suspended for a restart
-- of the engine. A module is its index in `FltModules`. A handler that spins on a lock which its
-- own processor will not see released has no result: `none`.
pub mod Modules
pub mod Invariant
pub mod Steps
pub mod Quiet
pub mod Waits
pub mod View
pub mod Before
pub mod Request
pub mod Again
pub mod Load
use ntfw.Common.{ℕ, zero, suc, Bool, true, false, not, ◌+◌, ◌==◌, u32, sub32, if◌then◌else◌}
use ntfw.Common.{List, [], ◌∷◌, ◌++◌, Option, none, some, update}

pub data FilterState : Type 0 where
  undefined : FilterState
  attached : FilterState
  pausing : FilterState
  paused : FilterState
  restarting : FilterState
  suspended : FilterState
  running : FilterState
  detaching : FilterState
  detached : FilterState

abbrev pub is_running : FilterState → Bool
is_running running = true
is_running _ = false

abbrev pub is_suspended : FilterState → Bool
is_suspended suspended = true
is_suspended _ = false

-- `FLT_MODULE`; the links are the lists of the driver.
pub record FltModule : Type 0 where
  pub handle : ℕ
  pub state : FilterState

-- The global variables of the driver.
pub record Driver : Type 0 where
  pub flt_modules : ℕ → FltModule
  pub module_list : List ℕ
  pub free_list : List ℕ
  pub running_module_count : ℕ
  pub suspend_signal : Bool
  pub suspend_complete_event : Bool
  pub driver_lock : Bool

abbrev pub max_filter_modules : ℕ
max_filter_modules = 8

pub data NdisStatus : Type 0 where
  success : NdisStatus
  failure : NdisStatus
  pending : NdisStatus

abbrev pub state_of : Driver → ℕ → FilterState
state_of d m = (d.flt_modules m).state

unfoldable pub set_module_state : ℕ → FilterState → Driver → Driver
set_module_state m s d = record d {
  flt_modules = update d.flt_modules m (record (d.flt_modules m) { state = s });
}

-- `RemoveEntryList`
abbrev pub remove : ℕ → List ℕ → List ℕ
remove m [] = []
remove m (x ∷ xs) = if m == x then xs else x ∷ remove m xs

abbrev pub set_lock : Bool → Driver → Driver
set_lock held d = record d { driver_lock = held }

-- A handler's body between the acquisition of the lock and its release.
unfoldable pub locked : (Driver → Driver) → Driver → Option Driver
locked body d = if d.driver_lock then none else some (set_lock false (body (set_lock true d)))

-- `FilterAttach` once it holds the lock. When the free list is empty the lock is not released.
-- `attributes` is whether `NdisFSetAttributes` succeeds.
unfoldable pub attach_locked : ℕ → Bool → List ℕ → Driver → NdisStatus × Driver
attach_locked handle attributes [] d = (failure, d)
attach_locked handle attributes (m ∷ rest) d =
    let d1 = record d { free_list = rest; module_list = d.module_list ++ m ∷ [] } in
    let d2 = record d1 {
      flt_modules = update d1.flt_modules m (record (d1.flt_modules m) { handle = handle });
    } in
    (if attributes then success else failure, set_lock false (set_module_state m attached d2))

-- `supported` is whether the medium is one of those that the driver names.
unfoldable pub filter_attach : Bool → ℕ → Bool → Driver → Option (NdisStatus × Driver)
filter_attach supported handle attributes d =
    if not supported
    then some (failure, d)
    else if d.driver_lock
    then none
    else some (attach_locked handle attributes d.free_list (set_lock true d))

unfoldable pub detach_body : ℕ → Driver → Driver
detach_body m d =
    let d' = set_module_state m detached d in
    record d' { module_list = remove m d'.module_list; free_list = m ∷ d'.free_list }

unfoldable pub filter_detach : ℕ → Driver → Option Driver
filter_detach m d = locked (detach_body m) d

-- The count is a word; the event is set when it comes down to zero.
unfoldable pub uncount : Driver → Driver
uncount d =
    let left = sub32 d.running_module_count 1 in
    record d {
      running_module_count = left;
      suspend_complete_event = if left == 0 then true else d.suspend_complete_event;
    }

unfoldable pub pause_body : ℕ → Driver → Driver
pause_body m d = set_module_state m paused (if is_running (state_of d m) then uncount d else d)

-- It always reports success.
unfoldable pub filter_pause : ℕ → Driver → Option Driver
filter_pause m d = locked (pause_body m) d

-- The restart stays pending while the signal is up.
unfoldable pub restart_body : ℕ → Driver → Driver
restart_body m d =
    let d1 = set_module_state m restarting d in
    if d1.suspend_signal
    then set_module_state m suspended d1
    else set_module_state m running
        (record d1 { running_module_count = u32 (d1.running_module_count + 1) })

unfoldable pub restart_status : Driver → NdisStatus
restart_status d = if d.suspend_signal then pending else success

unfoldable pub filter_restart : ℕ → Driver → Option Driver
filter_restart m d = locked (restart_body m) d

-- The handles of the modules in a state, in the order of the list.
unfoldable pub handles : (FilterState → Bool) → (ℕ → FltModule) → List ℕ → List ℕ
handles test modules [] = []
handles test modules (m ∷ ms) =
    let rest = handles test modules ms in
    if test (modules m).state then (modules m).handle ∷ rest else rest

unfoldable pub suspend_body : Driver → Driver
suspend_body d = record d {
  suspend_signal = true;
  suspend_complete_event = if d.running_module_count == 0 then d.suspend_complete_event else false;
}

-- `Suspend` up to its wait: the modules that it asks NDIS to restart, and the state. The wait
-- ends when `suspend_complete_event` is set.
unfoldable pub suspend : Driver → Option (List ℕ × Driver)
suspend d = elim (locked suspend_body d) [
  | none ↦ none
  | some d' ↦ some (
    if d.running_module_count == 0 then [] else handles is_running d.flt_modules d.module_list,
    d',
  )
]

unfoldable pub resume_body : Driver → Driver
resume_body d = record d { suspend_signal = false }

-- `Resume`: the modules whose restart it completes, and the state. `NdisFRestartComplete` makes NDIS
-- run a module, and the driver leaves its state as it is; what NDIS runs is kept apart, by
-- `Driver.View.view_after`.
unfoldable pub resume : Driver → Option (List ℕ × Driver)
resume d = elim (locked resume_body d) [
  | none ↦ none
  | some d' ↦ some (handles is_suspended d.flt_modules d.module_list, d')
]

-- The indexes from 0 on, `n` of them.
abbrev pub indexes : ℕ → ℕ → List ℕ
indexes zero i = []
indexes (suc n) i = i ∷ indexes n (i + 1)

-- The state that `DriverEntry` sets up; the modules are zero-initialized.
unfoldable pub driver_entry : Driver
driver_entry = record {
  flt_modules = λ _. record { handle = 0; state = undefined };
  module_list = [];
  free_list = indexes max_filter_modules 0;
  running_module_count = 0;
  suspend_signal = false;
  suspend_complete_event = false;
  driver_lock = false;
}
