-- ===== src/Batch/Calls.antt =====
-- To the engine a batch is a sequence of calls: what holds of every sequence holds of batches.
use ntfw.Common.{ℕ, Bool, true, false, ◌≡◌, refl, ◌∙◌, List, [], ◌∷◌, ◌++◌, ap, none, some, u16}
use ntfw.Common.{inl, inr, sym, Option-cases, if◌then◌else◌}
use ntfw.State.{Gs}
use ntfw.Engine.{Env, ntfe_tx, ntfe_rx_prepare, ntfe_tx_prepare}
use ntfw.Run.{Call, rx, tx, rx_prepare, tx_prepare, call, run}
use ntfw.Batch.{NetBuffer, NetBufferList, ReceiveFlags, Segregation, passes, segregate, empty_lists}
use ntfw.Batch.{receive_batch, inspect, inspect_all, send_batch}

if-engine :
    (b : Bool) (s t : Segregation) (gs : Gs)
    → s.engine ≡ gs
    → t.engine ≡ gs
    → (if b then s else t).engine ≡ gs
if-engine true s t gs e d = e
if-engine false s t gs e d = d

module _ (env : Env) (p : ℕ) where
  -- The calls for the first buffer of each list that has a header.
  abbrev pub received : List NetBufferList → List Call
  received [] = []
  received (nbl ∷ rest) = elim nbl.first.header [
    | none ↦ received rest
    | some frame ↦ rx env p frame (u16 nbl.first.length) ∷ received rest
  ]

  -- A verdict is what the call leaves.
  run-passes :
      (nbl : NetBufferList) (rest : List NetBufferList) (gs : Gs)
      → run (received (nbl ∷ rest)) gs ≡ run (received rest) (passes env p nbl.first gs).1
  unfolding run call passes
  run-passes nbl rest gs = elim (Option-cases nbl.first.header) [
    | inl e ↦ rw e refl
    | inr (frame, e) ↦ rw e refl
  ]

  segregate-run :
      (nbls : List NetBufferList) (s : Segregation)
      → (segregate env p nbls s).engine ≡ run (received nbls) s.engine
  unfolding segregate run
  segregate-run [] s = refl
  segregate-run (nbl ∷ rest) s =
      segregate-run rest _
      ∙ ap (run (received rest)) (if-engine (passes env p nbl.first s.engine).0 _ _ _ refl refl)
      ∙ sym (run-passes nbl rest s.engine)

run-append : (xs ys : List Call) (gs : Gs) → run (xs ++ ys) gs ≡ run ys (run xs gs)
unfolding run
run-append [] ys gs = refl
run-append (c ∷ xs) ys gs = run-append xs ys (call c gs)

module _ (p : ℕ) where
  -- The calls for the buffers of one list, and of all.
  abbrev pub inspected : List NetBuffer → List Call
  inspected [] = []
  inspected (nb ∷ rest) = elim nb.header [
    | none ↦ inspected rest
    | some frame ↦ tx p frame ∷ inspected rest
  ]

  abbrev pub all_inspected : List NetBufferList → List Call
  all_inspected [] = []
  all_inspected (nbl ∷ rest) = inspected (nbl.first ∷ nbl.others) ++ all_inspected rest

  inspect-run : (nbs : List NetBuffer) (gs : Gs) → inspect p nbs gs ≡ run (inspected nbs) gs
  unfolding inspect run call
  inspect-run [] gs = refl
  inspect-run (nb ∷ rest) gs = elim (Option-cases nb.header) [
    | inl e ↦ rw e (inspect-run rest gs)
    | inr (frame, e) ↦ rw e (inspect-run rest (ntfe_tx p frame gs))
  ]

  inspect_all-run :
      (nbls : List NetBufferList) (gs : Gs) → inspect_all p nbls gs ≡ run (all_inspected nbls) gs
  unfolding inspect_all run
  inspect_all-run [] gs = refl
  inspect_all-run (nbl ∷ rest) gs =
      inspect_all-run rest (inspect p (nbl.first ∷ nbl.others) gs)
      ∙ ap (run (all_inspected rest)) (inspect-run (nbl.first ∷ nbl.others) gs)
      ∙ sym (run-append (inspected (nbl.first ∷ nbl.others)) (all_inspected rest) gs)

-- Behind their returns, the two handlers use the engine only by calls that it offers: one call
-- that begins the batch, then one for each frame, in the order of the batch. The flag of low
-- resources is clear, and the vector state can be saved.
pub receive_batch-run :
    (env : Env) (p hpc : ℕ) (nbls : List NetBufferList) (count : ℕ) (flags : ReceiveFlags)
    (dispatch_level : Bool) (gs : Gs)
    → flags.resources ≡ false
    → ((receive_batch env p hpc true nbls count flags gs).1
        ≡ run (rx_prepare p hpc ∷ received env p nbls) gs)
      × ((send_batch p hpc true nbls dispatch_level gs).1
          ≡ run (tx_prepare p hpc ∷ all_inspected p nbls) gs)
unfolding receive_batch send_batch run call
receive_batch-run env p hpc nbls count flags dispatch_level gs low = (
  rw low (segregate-run env p nbls (empty_lists (ntfe_rx_prepare p hpc gs))),
  inspect_all-run p nbls (ntfe_tx_prepare p hpc gs),
)
