-- ===== src/Host/Outcome.antt =====
-- How an insertion into a bucket ends; the lock, held on the way, does not show in it.
use ntfw.Common.{ℕ, ◌≡◌, ◌<◌, arith, refl, sym, ◌∙◌, ◌⊎◌}
use ntfw.Common.{Option, none, some, length, length-set, inl, inr}
use ntfw.State.{Htbucket, ctrl_at, with_reserved}
use ntfw.Host.Evict.{IsVictim, elapsed}
use ntfw.Host.Bucket.{IsHtbucket, host_entry, host_entry-with_reserved, IsHtbucket-lock}
use ntfw.Host.Bucket.{same_after_set}
use ntfw.Host.Allocate.{Placed, WasVictim, WasFree}

-- The lock bit does not show: what holds of the locked bucket holds of the free one.
pub IsVictim-unlocked :
    (htb : Htbucket) (v tsec k : ℕ)
    → IsVictim (with_reserved htb 0 v).ctrl tsec k
    → IsVictim htb.ctrl tsec k
IsVictim-unlocked htb v tsec k w =
    let len : length (with_reserved htb 0 v).ctrl ≡ length htb.ctrl = length-set htb.ctrl 0 _ in
    let locked = record (ctrl_at htb 0) { reserved = v } in
    let pri = λ (j : ℕ). same_after_set (λ c. c.pri) htb.ctrl 0 j locked refl in
    let age = λ (j : ℕ). same_after_set (elapsed tsec) htb.ctrl 0 j locked refl in
    record {
      inside = omega (arith, w.inside, len);
      lowest = λ j h. omega (arith, w.lowest j (omega (arith, len)), pri j, pri k);
      oldest = λ j h e.
          omega
            (arith, w.oldest j (omega (arith, len)) (omega (arith, pri j, pri k)), age j, age k);
    }

module _ (htb htb' : Htbucket) (a age pri ptr i : ℕ) where
  taken_unlocked :
      WasFree (with_reserved htb 0 1) i ⊎ WasVictim (with_reserved htb 0 1) age i
      → WasFree htb i ⊎ WasVictim htb age i
  taken_unlocked (inl free) = inl free
  taken_unlocked (inr old) = inr (record {
    victim = IsVictim-unlocked htb 1 age i old.victim;
    unauthorized =
        sym
          (same_after_set (λ c. c.pri) htb.ctrl 0 i (record (ctrl_at htb 0) { reserved = 1 }) refl)
        ∙ old.unauthorized;
  })

  pub Placed-unlocked :
      Placed (with_reserved htb 0 1) htb' a age pri ptr i
      → Placed htb (with_reserved htb' 0 0) a age pri ptr i
  Placed-unlocked w = record {
    sound = IsHtbucket-lock 0 w.sound;
    here = host_entry-with_reserved htb' 0 0 a ∙ w.here;
    others = λ c ne old.
        host_entry-with_reserved htb' 0 0 c
        ∙ w.others c ne old
        ∙ host_entry-with_reserved htb 0 1 c;
    taken = taken_unlocked w.taken;
  }

-- How an insertion of the host `a` into a bucket ends: with the host placed, or with nothing
-- changed when every entry has a priority.
pub data Outcome (htb : Htbucket) (a age pri ptr : ℕ) (idx : Option ℕ) (htb' : Htbucket)
    : Type 0 where
  placed :
      (i : ℕ) → idx ≡ some i → Placed htb htb' a age pri ptr i → Outcome htb a age pri ptr idx htb'
  refused :
      idx ≡ none
      → ((j : ℕ) → j < 8 → 0 < (ctrl_at htb j).pri)
      → IsHtbucket htb'
      → ((c : ℕ) → host_entry htb' c ≡ host_entry htb c)
      → Outcome htb a age pri ptr idx htb'

module _ (htb htb' : Htbucket) (a age pri ptr : ℕ) where
  pub Outcome-unlocked :
      (idx : Option ℕ)
      → Outcome (with_reserved htb 0 1) a age pri ptr idx htb'
      → Outcome htb a age pri ptr idx (with_reserved htb' 0 0)
  Outcome-unlocked idx (placed i e w) = placed i e (Placed-unlocked htb htb' a age pri ptr i w)
  Outcome-unlocked idx (refused e full w same) =
      refused e
        (λ j h. omega (
          arith,
          full j h,
          same_after_set (λ c. c.pri) htb.ctrl 0 j (record (ctrl_at htb 0) { reserved = 1 }) refl,
        ))
        (IsHtbucket-lock 0 w)
        (λ c. host_entry-with_reserved htb' 0 0 c ∙ same c ∙ host_entry-with_reserved htb 0 1 c)
