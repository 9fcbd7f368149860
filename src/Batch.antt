-- ===== src/Batch.antt =====
-- ntfwkm/driver.cpp: `FilterReceive` and `FilterSend`. Each hands its batch on and returns; the
-- code behind the return, which takes a batch through the engine, is modelled apart. A handler
-- gives the calls of the system that it makes, in order.
pub mod Split
pub mod Calls
use ntfw.Common.{ℕ, Bool, true, false, ◌+◌, u16, u32, if◌then◌else◌, List, [], ◌∷◌, ◌++◌}
use ntfw.Common.{Option, none, some}
use ntfw.State.{Gs}
use ntfw.Net.{NetFrame}
use ntfw.Engine.{Env, ntfe_rx, ntfe_tx, ntfe_rx_prepare, ntfe_tx_prepare}

-- `NET_BUFFER`: `DataLength`, and the frame to which `NdisGetDataBuffer` gives a pointer, if any.
pub record NetBuffer : Type 0 where
  pub length : ℕ
  pub header : Option NetFrame

-- `NET_BUFFER_LIST`: its first buffer, and the others.
pub record NetBufferList : Type 0 where
  pub first : NetBuffer
  pub others : List NetBuffer

-- `ReceiveFlags`, by the flags that the code reads or writes.
pub record ReceiveFlags : Type 0 where
  pub resources : Bool
  pub dispatch_level : Bool
  pub perfect_filtered : Bool

-- The calls of the system, with their arguments.
pub data SysCall : Type 0 where
  raise_irql : SysCall
  lower_irql : SysCall
  save_state : SysCall
  restore_state : SysCall
  indicate : List NetBufferList → ℕ → ReceiveFlags → SysCall
  give_back : List NetBufferList → ReceiveFlags → SysCall
  send : List NetBufferList → SysCall

-- `FilterReceive`, up to its return
unfoldable pub filter_receive : List NetBufferList → ℕ → ReceiveFlags → List SysCall
filter_receive nbls count flags = indicate nbls count flags ∷ []

-- `FilterSend`, up to its return
unfoldable pub filter_send : List NetBufferList → List SysCall
filter_send nbls = send nbls ∷ []

-- A call that is made only under a condition.
abbrev pub when_not : Bool → SysCall → List SysCall
when_not true c = []
when_not false c = c ∷ []

-- A list that is handed over, unless it is empty.
abbrev pub unless_empty : List NetBufferList → SysCall → List SysCall
unless_empty [] c = []
unless_empty (nbl ∷ nbls) c = c ∷ []

-- The two lists of the loop, by their tails, the count of the accepted, and the engine.
pub record Segregation : Type 0 where
  pub accept : List NetBufferList
  pub drop : List NetBufferList
  pub accept_count : ℕ
  pub engine : Gs

-- The end of the receive path, once the lists are made.
abbrev pub hand_over : ReceiveFlags → Segregation → List SysCall
hand_over flags s =
    let flags' = record flags { perfect_filtered = false } in
    unless_empty s.drop (give_back s.drop flags')
    ++ unless_empty s.accept (indicate s.accept s.accept_count flags')

abbrev pub empty_lists : Gs → Segregation
empty_lists gs = record { accept = []; drop = []; accept_count = 0; engine = gs }

module _ (env : Env) (p : ℕ) where
  -- `!HeaderPtr || ntfe_rx(HeaderPtr, (u16) FrameLength)`
  unfoldable pub passes : NetBuffer → Gs → Bool × Gs
  passes nb gs = elim nb.header [
    | none ↦ (true, gs)
    | some frame ↦ ntfe_rx env p frame (u16 nb.length) gs
  ]

  -- The loop over the batch.
  unfoldable pub segregate : List NetBufferList → Segregation → Segregation
  segregate [] s = s
  segregate (nbl ∷ rest) s =
      let (ok, gs) = passes nbl.first s.engine in
      segregate rest (
        if ok
        then record s {
          accept = s.accept ++ (nbl ∷ []);
          accept_count = u32 (s.accept_count + 1);
          engine = gs;
        }
        else record s { drop = s.drop ++ (nbl ∷ []); engine = gs })

  -- `FilterReceive` behind its return: `hpc` is the sample of the clock, and `saved` whether the
  -- state of the vector registers could be saved.
  unfoldable pub receive_batch :
      ℕ → Bool → List NetBufferList → ℕ → ReceiveFlags → Gs → List SysCall × Gs
  receive_batch hpc saved nbls count flags gs =
      let gs1 = ntfe_rx_prepare p hpc gs in
      let up = when_not flags.dispatch_level raise_irql in
      let down = when_not flags.dispatch_level lower_irql in
      let s = segregate nbls (empty_lists gs1) in
      if flags.resources
      then ([], gs)
      else if saved
      then (up ++ (save_state ∷ restore_state ∷ []) ++ down ++ hand_over flags s, s.engine)
      else (up ++ (save_state ∷ indicate nbls count flags ∷ []) ++ down, gs1)

-- The loop over the buffers of one list, and over the lists.
module _ (p : ℕ) where
  unfoldable pub inspect : List NetBuffer → Gs → Gs
  inspect [] gs = gs
  inspect (nb ∷ rest) gs =
      inspect rest (elim nb.header [ none ↦ gs | some frame ↦ ntfe_tx p frame gs ])

  unfoldable pub inspect_all : List NetBufferList → Gs → Gs
  inspect_all [] gs = gs
  inspect_all (nbl ∷ rest) gs = inspect_all rest (inspect (nbl.first ∷ nbl.others) gs)

  -- `FilterSend` behind its return; `dispatch_level` is the one flag that it reads.
  unfoldable pub send_batch : ℕ → Bool → List NetBufferList → Bool → Gs → List SysCall × Gs
  send_batch hpc saved nbls dispatch_level gs =
      let gs1 = ntfe_tx_prepare p hpc gs in
      let up = when_not dispatch_level raise_irql in
      let down = when_not dispatch_level lower_irql in
      if saved
      then (
        up ++ (save_state ∷ restore_state ∷ []) ++ down ++ (send nbls ∷ []),
        inspect_all nbls gs1,
      )
      else (up ++ (save_state ∷ []) ++ down ++ (send nbls ∷ []), gs1)
