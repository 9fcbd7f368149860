-- ===== src/Locks/Exclusive.antt =====
-- At most one processor has the lock.
use ntfw.Common.{ℕ, Bool, true, false, ◌<◌, ◌≡◌, ◌≢◌, ◌↔◌, inl, inr, refl, subst}
use ntfw.Common.{if◌then◌else◌, Bool-cases, update, update_self, update_ne}
use native.Mathlib.Decide.{ℕ_discrete}
use ntfw.Locks.{Cpu, Move, Locked, Reached, away, taking, pausing, holding, releasing}
use ntfw.Locks.{spin_acquire, spin_acquire_dbg, take, pause, write, spin_release, clear, moves}
use ntfw.Locks.{start, later, test_bit, bit_test_and_set, clear_bit}
use ntfw.Locks.Digits.{bit_test_and_set-set, bit_test_and_set-same, test_bit-clear_bit}

-- A processor that has taken the lock and has not yet written it back.
abbrev pub Holds : Cpu → Type 0
Holds holding = Unit
Holds (releasing read) = Unit
Holds _ = ⊥

-- What a processor has read is what stands in the word.
abbrev IsFresh : ℕ → Cpu → Type 0
IsFresh word (releasing read) = read ≡ word
IsFresh word _ = Unit

module _ (bit : ℕ) (few : bit < 32) where
  -- The lock is free and nobody holds it, or it is taken and one processor holds it.
  data IsLocked (s : Locked) : Type 0 where
    free : test_bit bit s.word ≡ false → ((i : ℕ) → ¬ Holds (s.cpus i)) → IsLocked s
    held :
        (i : ℕ)
        → test_bit bit s.word ≡ true
        → Holds (s.cpus i)
        → IsFresh s.word (s.cpus i)
        → ((j : ℕ) → i ≢ j → ¬ Holds (s.cpus j))
        → IsLocked s

  -- The processor that moves, seen from the others.
  module _ (s : Locked) (i : ℕ) (word' : ℕ) (c' : Cpu) where
    abbrev after : Locked
    after = record { word = word'; cpus = update s.cpus i c' }

    all_idle :
        ((j : ℕ) → i ≢ j → ¬ Holds (s.cpus j)) → ¬ Holds c' → (j : ℕ) → ¬ Holds (after.cpus j)
    all_idle others own j = elim (ℕ_discrete i j) [
      | yes e ↦ rw (← e, update_self s.cpus i c') own
      | no ne ↦ rw (update_ne s.cpus i j c' ne) (others j ne)
    ]

    becomes_free :
        ((j : ℕ) → i ≢ j → ¬ Holds (s.cpus j))
        → ¬ Holds c'
        → test_bit bit word' ≡ false
        → IsLocked after
    becomes_free others own e = free e (all_idle others own)

    becomes_held :
        ((j : ℕ) → i ≢ j → ¬ Holds (s.cpus j))
        → Holds c'
        → IsFresh word' c'
        → test_bit bit word' ≡ true
        → IsLocked after
    becomes_held others own fresh e =
        held i e (rw (update_self s.cpus i c') own) (rw (update_self s.cpus i c') fresh)
          λ j ne. rw (update_ne s.cpus i j c' ne) (others j ne)

    -- A processor without the lock moves and does not take it, and the word is as it was.
    stays : ¬ Holds (s.cpus i) → ¬ Holds c' → word' ≡ s.word → IsLocked s → IsLocked after
    stays own own' same (free e idle) = becomes_free (λ j ne. idle j) own' (rw same e)
    stays own own' same (held k e h fresh others) = elim (ℕ_discrete i k) [
      | yes here ↦ absurd (own (rw here h))
      | no ne ↦
          held k (rw same e) (rw (update_ne s.cpus i k c' ne) h)
            (rw (update_ne s.cpus i k c' ne, same) fresh)
            λ j apart. elim (ℕ_discrete i j) [
              | yes e' ↦ rw (← e', update_self s.cpus i c') own'
              | no ne' ↦ rw (update_ne s.cpus i j c' ne') (others j apart)
            ]
    ]

    -- Who holds the lock holds it alone, and knows the word.
    sole :
        Holds (s.cpus i)
        → IsLocked s
        → (test_bit bit s.word ≡ true)
          × IsFresh s.word (s.cpus i)
          × ((j : ℕ) → i ≢ j → ¬ Holds (s.cpus j))
    sole own (free e idle) = absurd (idle i own)
    sole own (held k e h fresh others) = elim (ℕ_discrete k i) [
      | yes here ↦ (
        e,
        subst (λ x. IsFresh s.word (s.cpus x)) here fresh,
        subst (λ x. (j : ℕ) → x ≢ j → ¬ Holds (s.cpus j)) here others,
      )
      | no ne ↦ absurd (others i ne own)
    ]

    -- When the lock is free nobody holds it.
    nobody : test_bit bit s.word ≡ false → IsLocked s → (j : ℕ) → ¬ Holds (s.cpus j)
    nobody e (free e' idle) = idle
    nobody e (held k e' h fresh others) = cc

  module _ (cpus : ℕ → Cpu) (i : ℕ) where
    abbrev at : ℕ → Locked
    at word = record { word = word; cpus = cpus }

    not_holding : (c : Cpu) → cpus i ≡ c → ¬ Holds c → ¬ Holds (cpus i)
    not_holding c e n = rw e n

    takes :
        (word : ℕ)
        → cpus i ≡ taking
        → IsLocked (at word)
        → IsLocked (
            after
              (at word)
              i
              (bit_test_and_set bit word).1
              (if (bit_test_and_set bit word).0 then pausing else holding))
    takes word e v = elim (Bool-cases (test_bit bit word)) [
      | inl set ↦
          rw (old word, set)
            (stays (at word) i _ pausing (not_holding taking e λ h. h) (λ h. h)
              (bit_test_and_set-same bit word set) v)
      | inr unset ↦
          rw (old word, unset)
            (becomes_held (at word) i _ holding (λ j ne. nobody (at word) i 0 away unset v j) tt tt
              (bit_test_and_set-set bit word))
    ]
      where
        old : (w : ℕ) → (bit_test_and_set bit w).0 ≡ test_bit bit w
        old w = unfold bit_test_and_set in refl

    move-IsLocked :
        (word word' : ℕ) (c c' : Cpu)
        → cpus i ≡ c
        → Move bit word c word' c'
        → IsLocked (at word)
        → IsLocked (after (at word) i word' c')
    move-IsLocked word word' c c' e (spin_acquire _) v =
        stays (at word) i word taking (not_holding away e λ h. h) (λ h. h) refl v
    move-IsLocked word word' c c' e (spin_acquire_dbg _) v =
        stays (at word) i word pausing (not_holding away e λ h. h) (λ h. h) refl v
    move-IsLocked word word' c c' e (take _) v = takes word e v
    move-IsLocked word word' c c' e (pause _) v =
        stays (at word) i word _ (not_holding pausing e λ h. h) (idle (test_bit bit word)) refl v
      where
        idle : (t : Bool) → ¬ Holds (if t then pausing else taking)
        idle true h = h
        idle false h = h
    move-IsLocked word word' c c' e (write _ _ small set) v =
        let alone = sole (at word) i 0 away (rw e tt) v in
        becomes_held (at word) i word' holding alone.2 tt tt set
    move-IsLocked word word' c c' e (spin_release _) v =
        let alone = sole (at word) i 0 away (rw e tt) v in
        becomes_held (at word) i word (releasing word) alone.2 tt refl alone.0
    move-IsLocked word word' c c' e (clear _ read) v =
        let alone = sole (at word) i 0 away (rw e tt) v in
        becomes_free (at word) i (clear_bit bit read) away alone.2 (λ h. h)
          (test_bit-clear_bit bit read few)

  Reached-IsLocked : (s : Locked) → Reached bit s → IsLocked s
  Reached-IsLocked s (start word small e) = free e λ i h. h
  Reached-IsLocked s (later s0 s1 r (moves i word' c' m)) =
      move-IsLocked s0.cpus i s0.word word' (s0.cpus i) c' refl m (Reached-IsLocked s0 r)

-- However the calls of `spin_acquire`, `spin_acquire_dbg` and `spin_release` of any number of
-- processors interleave, from a word in which the lock is free: two processors that hold it are
-- the same, the digit of the lock is set exactly when a processor holds it, and the word that a
-- processor has read in `spin_release` still stands there when it writes it back, so that no
-- write is lost. Who holds the lock writes the rest of the word but not this digit.
pub Reached-exclusive :
    (bit : ℕ) (s : Locked)
    → bit < 32
    → Reached bit s
    → ((i j : ℕ) → Holds (s.cpus i) → Holds (s.cpus j) → i ≡ j)
      × ((test_bit bit s.word ≡ true) ↔ ((i : ℕ) × Holds (s.cpus i)))
      × ((i read : ℕ) → s.cpus i ≡ releasing read → read ≡ s.word)
Reached-exclusive bit s few r =
    let v = Reached-IsLocked bit few s r in
    (
      λ i j h h'. elim (ℕ_discrete i j) [
        | yes e ↦ e
        | no ne ↦ absurd ((sole bit few s i 0 away h v).2 j ne h')
      ],
      (holder v, λ h. (sole bit few s h.0 0 away h.1 v).0),
      λ i read e. subst (IsFresh s.word) e (sole bit few s i 0 away (rw e tt) v).1,
    )
  where
    holder : IsLocked bit few s → test_bit bit s.word ≡ true → (i : ℕ) × Holds (s.cpus i)
    holder (free e idle) e' = cc
    holder (held i e h fresh others) e' = (i, h)
