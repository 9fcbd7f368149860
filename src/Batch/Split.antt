-- ===== src/Batch/Split.antt =====
-- A batch is split in two by the verdicts of the engine, and nothing of it is lost.
use ntfw.Common.{ℕ, true, false, ◌+◌, ◌^◌, ◌≡◌, ◌<◌, arith, refl, sym, ap, ◌∙◌, u32}
use ntfw.Common.{List, [], ◌∷◌, ◌++◌, length}
use ntfw.Common.{inl, inr, Bool-cases}
use mathlib.Core.List.{append_assoc, append-nil}
use ntfw.State.{Gs}
use ntfw.Engine.{Env, ntfe_rx_prepare}
use ntfw.Batch.{NetBufferList, ReceiveFlags, SysCall, Segregation, passes, segregate}
use ntfw.Batch.{receive_batch, empty_lists, indicate, give_back}
use ntfw.Batch.{raise_irql, lower_irql, save_state, restore_state, when_not, unless_empty}

module _ (env : Env) (p : ℕ) where
  -- The frames of a batch, one after the other: each is accepted or dropped by the engine in the
  -- state that those before it left, and both lists keep the order of the batch.
  pub data Split
      : List NetBufferList → Gs → List NetBufferList → List NetBufferList → Gs → Type 0 where
    done : {gs : Gs} → Split [] gs [] [] gs
    accepted :
        {nbl : NetBufferList} {rest accept drop : List NetBufferList} {gs gs1 gs2 : Gs}
        → passes env p nbl.first gs ≡ (true, gs1)
        → Split rest gs1 accept drop gs2
        → Split (nbl ∷ rest) gs (nbl ∷ accept) drop gs2
    dropped :
        {nbl : NetBufferList} {rest accept drop : List NetBufferList} {gs gs1 gs2 : Gs}
        → passes env p nbl.first gs ≡ (false, gs1)
        → Split rest gs1 accept drop gs2
        → Split (nbl ∷ rest) gs accept (nbl ∷ drop) gs2

  -- What the loop adds to its lists.
  record Adds (nbls : List NetBufferList) (s s' : Segregation) : Type 0 where
    pub accept : List NetBufferList
    pub drop : List NetBufferList
    pub split : Split nbls s.engine accept drop s'.engine
    pub accepts : s'.accept ≡ s.accept ++ accept
    pub drops : s'.drop ≡ s.drop ++ drop
    pub counts : s'.accept_count ≡ u32 (s.accept_count + length accept)

  segregate-Adds :
      (nbls : List NetBufferList) (s : Segregation)
      → s.accept_count < 2 ^ 32
      → Adds nbls s (segregate env p nbls s)
  unfolding segregate
  segregate-Adds [] s small = record {
    accept = [];
    drop = [];
    split = done;
    accepts = sym (append-nil s.accept);
    drops = sym (append-nil s.drop);
    counts = omega arith;
  }
  segregate-Adds (nbl ∷ rest) s small =
      let r = passes env p nbl.first s.engine in
      elim (Bool-cases r.0) [
        | inl ok ↦
            let one = record s {
              accept = s.accept ++ (nbl ∷ []);
              accept_count = u32 (s.accept_count + 1);
              engine = r.1;
            } in
            let more = segregate-Adds rest one (omega arith) in
            rw ok (record {
              accept = nbl ∷ more.accept;
              drop = more.drop;
              split = accepted (ap (λ b. (b, r.1)) ok) more.split;
              accepts = more.accepts ∙ append_assoc s.accept (nbl ∷ []) more.accept;
              drops = more.drops;
              counts = more.counts ∙ omega arith;
            })
        | inr bad ↦
            let one = record s { drop = s.drop ++ (nbl ∷ []); engine = r.1 } in
            let more = segregate-Adds rest one small in
            rw bad (record {
              accept = more.accept;
              drop = nbl ∷ more.drop;
              split = dropped (ap (λ b. (b, r.1)) bad) more.split;
              accepts = more.accepts;
              drops = more.drops ∙ append_assoc s.drop (nbl ∷ []) more.drop;
              counts = more.counts;
            })
      ]

  -- Every buffer list of the batch is in one of the two lists.
  pub Split-length :
      {nbls accept drop : List NetBufferList} {gs gs' : Gs}
      → Split nbls gs accept drop gs'
      → length nbls ≡ length accept + length drop
  Split-length done = refl
  Split-length (accepted e s) = omega (arith, Split-length s)
  Split-length (dropped e s) = omega (arith, Split-length s)

  -- How a batch ends that is not under the flag of low resources, with the vector state saved.
  pub record Delivered (nbls : List NetBufferList) (flags : ReceiveFlags) (gs : Gs)
      (r : List SysCall × Gs) : Type 0 where
    pub accept : List NetBufferList
    pub drop : List NetBufferList
    pub split : Split nbls gs accept drop r.1
    pub whole : length nbls ≡ length accept + length drop
    pub calls :
        r.0
        ≡ when_not flags.dispatch_level raise_irql
          ++ (save_state ∷ restore_state ∷ [])
          ++ when_not flags.dispatch_level lower_irql
          ++ (unless_empty drop (give_back drop (record flags { perfect_filtered = false }))
              ++ unless_empty accept
                  (indicate accept (length accept) (record flags { perfect_filtered = false })))

  -- Behind its return, `FilterReceive` gives the dropped part of a batch of fewer than 2^32 lists
  -- back and hands the accepted part up, each list to one of the two and in the order of arrival,
  -- by the verdicts of the engine; the count it hands up is that of the accepted; and the
  -- interrupt level is raised and lowered, and the vector state saved and restored, around it.
  -- The flag of low resources is clear, and the vector state can be saved.
  pub receive_batch_splits :
      (hpc : ℕ) (nbls : List NetBufferList) (count : ℕ) (flags : ReceiveFlags) (gs : Gs)
      → flags.resources ≡ false
      → length nbls < 2 ^ 32
      → Delivered nbls flags
          (ntfe_rx_prepare p hpc gs)
          (receive_batch env p hpc true nbls count flags gs)
  unfolding receive_batch
  receive_batch_splits hpc nbls count flags gs low few =
      let a = segregate-Adds nbls (empty_lists (ntfe_rx_prepare p hpc gs)) (omega arith) in
      let all = Split-length a.split in
      let counted : u32 (0 + length a.accept) ≡ length a.accept = omega arith in
      rw low (record {
        accept = a.accept;
        drop = a.drop;
        split = a.split;
        whole = all;
        calls = rw (a.accepts, a.drops, a.counts, counted) refl;
      })
