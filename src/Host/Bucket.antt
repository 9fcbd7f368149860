-- ===== src/Host/Bucket.antt =====
-- A bucket of the host table: its invariant, its view as a map from addresses to entries, and
-- what the writes of one entry do to both.
use ntfw.Common.{ℕ, zero, suc, ◌%◌, ◌^◌, ◌≡◌, ◌≢◌, ◌<◌, arith, refl, ap, ◌==◌, ◌∙◌}
use ntfw.Common.{List, [], ◌∷◌, Option, none, some, length, get_or, if◌then◌else◌, set, length-set}
use ntfw.Common.{All, get_or-set_self, get_or-set_ne, Option-cases, inl, inr}
use ntfw.State.{HostCtrl, Htbucket, zero_ctrl, ctrl_at, exhausted, with_reserved}
use ntfw.Host.{write_entry}
use ntfw.Host.Probe.{index_of}
use ntfw.Host.Evict.{IsCtrl}
use ntfw.Host.Keys.{IsPacked, IsPacked-replace, index_of-some}
use ntfw.Host.Keys.{index_of-set_self, index_of-set_ne}

-- Eight keys and eight control blocks; the keys in use are the first ones, and `exhausted` is set
-- exactly when all are in use.
pub record IsHtbucket (htb : Htbucket) : Type 0 where
  pub used : ℕ
  pub keys : length htb.saddr ≡ 8
  pub blocks : length htb.ctrl ≡ 8
  pub fields : All IsCtrl htb.ctrl
  pub packed : IsPacked htb.saddr used
  pub full : exhausted htb ≡ (if used == 8 then 1 else 0)

-- What an entry says of its host: age, priority and pool index.
abbrev pub Entry : Type 0
Entry = ℕ × ℕ × ℕ

abbrev pub entry_of : HostCtrl → Entry
entry_of c = (c.age, c.pri, c.ptr)

abbrev pub entry_at : Htbucket → Option ℕ → Option Entry
entry_at htb none = none
entry_at htb (some i) = some (entry_of (ctrl_at htb i))

-- The bucket as a map.
abbrev pub host_entry : Htbucket → ℕ → Option Entry
host_entry htb a = entry_at htb (index_of htb.saddr a)

pub All-set :
    (cs : List HostCtrl) (i : ℕ) (c : HostCtrl) → All IsCtrl cs → IsCtrl c → All IsCtrl (set cs i c)
All-set [] i c v w = tt
All-set (x ∷ cs) zero c v w = (w, v.1)
All-set (x ∷ cs) (suc i) c v w = (v.0, All-set cs i c v.1 w)

pub IsCtrl-get_or : (cs : List HostCtrl) (j : ℕ) → All IsCtrl cs → IsCtrl (get_or cs j zero_ctrl)
IsCtrl-get_or [] j v = omega arith
IsCtrl-get_or (c ∷ cs) zero v = v.0
IsCtrl-get_or (c ∷ cs) (suc j) v = IsCtrl-get_or cs j v.1

-- A write that keeps a quantity of the block that it replaces keeps it everywhere.
pub same_after_set {κ} :
    {B : Type κ} (f : HostCtrl → B) (cs : List HostCtrl) (i j : ℕ) (c : HostCtrl)
    → f c ≡ f (get_or cs i zero_ctrl)
    → f (get_or (set cs i c) j zero_ctrl) ≡ f (get_or cs j zero_ctrl)
same_after_set f [] i j c h = refl
same_after_set f (x ∷ cs) zero zero c h = h
same_after_set f (x ∷ cs) zero (suc j) c h = refl
same_after_set f (x ∷ cs) (suc i) zero c h = refl
same_after_set f (x ∷ cs) (suc i) (suc j) c h = same_after_set f cs i j c h

-- A bit of a control block does not show in the map.
pub host_entry-with_reserved :
    (htb : Htbucket) (i v a : ℕ) → host_entry (with_reserved htb i v) a ≡ host_entry htb a
host_entry-with_reserved htb i v a = elim (Option-cases (index_of htb.saddr a)) [
  | inl e ↦ rw e refl
  | inr (j, e) ↦ rw e (
      ap some (same_after_set entry_of htb.ctrl i j (record (ctrl_at htb i) { reserved = v }) refl))
]

-- The lock bit has no part in the invariant.
pub IsHtbucket-lock : {htb : Htbucket} (v : ℕ) → IsHtbucket htb → IsHtbucket (with_reserved htb 0 v)
IsHtbucket-lock {htb} v w = record {
  used = w.used;
  keys = w.keys;
  blocks = length-set htb.ctrl 0 _ ∙ w.blocks;
  fields =
      let c = IsCtrl-get_or htb.ctrl 0 w.fields in
      All-set htb.ctrl 0 _ w.fields
        (record { age_fits = c.age_fits; pri_fits = c.pri_fits; ptr_fits = c.ptr_fits });
  packed = w.packed;
  full = ap (λ c. c.reserved) (get_or-set_ne htb.ctrl 0 1 _ zero_ctrl (omega arith)) ∙ w.full;
}

module _ (htb : Htbucket) (i a age pri ptr : ℕ) where
  abbrev pub written : HostCtrl
  written = record (ctrl_at htb i) { age = age % 2 ^ 11; pri = pri % 2 ^ 2; ptr = ptr % 2 ^ 18 }

  pub written-IsCtrl : IsCtrl written
  written-IsCtrl = omega arith

  -- The host written has the entry written.
  pub host_entry-write_self :
      index_of htb.saddr a ≡ none
      → i < length htb.saddr
      → i < length htb.ctrl
      → host_entry (write_entry htb i a age pri ptr) a
        ≡ some (age % 2 ^ 11, pri % 2 ^ 2, ptr % 2 ^ 18)
  unfolding write_entry
  host_entry-write_self new hi hc =
      rw (index_of-set_self htb.saddr a i new hi, get_or-set_self htb.ctrl i written zero_ctrl hc)

  -- Every host keeps its entry, but the one written and the one whose key was there.
  pub host_entry-write_ne :
      (b : ℕ)
      → a ≢ b
      → get_or htb.saddr i 0 ≢ b
      → host_entry (write_entry htb i a age pri ptr) b ≡ host_entry htb b
  unfolding write_entry
  host_entry-write_ne b ne old =
      rw (index_of-set_ne htb.saddr a i b ne old) (elim (Option-cases (index_of htb.saddr b)) [
        | inl e ↦ rw e refl
        | inr (j, e) ↦ rw e (
            ap (λ c. some (entry_of c))
              (get_or-set_ne htb.ctrl i j written zero_ctrl
                (λ q. old (ap (λ k. get_or htb.saddr k 0) q ∙ (index_of-some htb.saddr b j e).1))))
      ])

  pub bits-write_entry :
      (j : ℕ) → (ctrl_at (write_entry htb i a age pri ptr) j).reserved ≡ (ctrl_at htb j).reserved
  unfolding write_entry
  bits-write_entry j = same_after_set (λ c. c.reserved) htb.ctrl i j written refl

  -- A write over a key in use keeps the invariant.
  pub write_entry-IsHtbucket :
      a ≢ 0 → (w : IsHtbucket htb) → i < w.used → IsHtbucket (write_entry htb i a age pri ptr)
  write_entry-IsHtbucket ne w h = record {
    used = w.used;
    keys = unfold write_entry in length-set htb.saddr i a ∙ w.keys;
    blocks = unfold write_entry in length-set htb.ctrl i written ∙ w.blocks;
    fields = unfold write_entry in All-set htb.ctrl i written w.fields written-IsCtrl;
    packed = unfold write_entry in IsPacked-replace htb.saddr w.used i a w.packed h ne;
    full = bits-write_entry 1 ∙ w.full;
  }
