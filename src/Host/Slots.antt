-- ===== src/Host/Slots.antt =====
-- The entries of the table one by one, each with its key and its priority: what the operations on
-- one bucket do to them. Nothing is assumed of a bucket here but that it has eight keys.
use ntfw.Common.{ℕ, zero, suc, ◌%◌, ◌^◌, ◌≡◌, ◌≢◌, ◌<◌, ◌≤◌, arith, refl, ap, sym, subst, ◌∙◌}
use ntfw.Common.{List, [], ◌∷◌, length, get_or, set, length-set, get_or-set_ne, ◌⊎◌, inl, inr}
use ntfw.Common.{update, update_self, update_ne, Bool-cases, ltb, ltb→lt}
use native.Mathlib.Decide.{ℕ_discrete}
use native.Mathlib.Nat.{mod-eq_of_lt}
use ntfw.State.{HostCtrl, Htbucket, Gs, zero_ctrl, ctrl_at, with_bucket, with_reserved}
use ntfw.Host.{write_entry, raise_pri}
use ntfw.Host.Bucket.{same_after_set, written}

abbrev pub key_at : Htbucket → ℕ → ℕ
key_at htb j = get_or htb.saddr j 0

abbrev pub pri_at : Htbucket → ℕ → ℕ
pri_at htb j = (ctrl_at htb j).pri

-- From one bucket to another: an authorized host keeps its entry and its priority, and a host
-- that is authorized now was so before at the same priority, or is among those of `S`.
pub record GuardedBucket (S : ℕ → Type 0) (htb htb' : Htbucket) : Type 0 where
  pub wide : length htb'.saddr ≡ length htb.saddr
  pub kept :
      (j : ℕ)
      → key_at htb j ≢ 0
      → 1 ≤ pri_at htb j
      → (key_at htb' j ≡ key_at htb j) × (pri_at htb j ≤ pri_at htb' j)
  pub origin :
      (j : ℕ)
      → key_at htb' j ≢ 0
      → 1 ≤ pri_at htb' j
      → S (key_at htb' j) ⊎ ((key_at htb j ≡ key_at htb' j) × (pri_at htb j ≡ pri_at htb' j))

abbrev pub Guarded : (ℕ → Type 0) → Gs → Gs → Type 0
Guarded S gs gs' = (b : ℕ) → GuardedBucket S (gs.host_tbl b) (gs'.host_tbl b)

module _ (S : ℕ → Type 0) where
  -- The same keys and priorities.
  pub same_slots :
      (htb htb' : Htbucket)
      → htb'.saddr ≡ htb.saddr
      → ((j : ℕ) → pri_at htb' j ≡ pri_at htb j)
      → GuardedBucket S htb htb'
  same_slots htb htb' keys pris = record {
    wide = ap length keys;
    kept = λ j used high. (ap (λ l. get_or l j 0) keys, omega (arith, pris j));
    origin = λ j used high. inr (ap (λ l. get_or l j 0) (sym keys), sym (pris j));
  }

  pub GuardedBucket-refl : (htb : Htbucket) → GuardedBucket S htb htb
  GuardedBucket-refl htb = same_slots htb htb refl (λ j. refl)

  pub GuardedBucket-trans :
      (x y z : Htbucket) → GuardedBucket S x y → GuardedBucket S y z → GuardedBucket S x z
  GuardedBucket-trans x y z f g = record {
    wide = g.wide ∙ f.wide;
    kept = λ j used high.
        let (key, more) = f.kept j used high in
        let next = g.kept j (λ e. used (sym key ∙ e)) (omega (arith, more, high)) in
        (next.0 ∙ key, omega (arith, more, next.1));
    origin = λ j used high. elim (g.origin j used high) [
      | inl s ↦ inl s
      | inr (key, same) ↦ elim (f.origin j (λ e. used (sym key ∙ e)) (omega (arith, same, high))) [
        | inl s ↦ inl (subst S key s)
        | inr (key', same') ↦ inr (key' ∙ key, same' ∙ same)
      ]
    ];
  }

  pub with_reserved-slots : (htb : Htbucket) (i v : ℕ) → GuardedBucket S htb (with_reserved htb i v)
  with_reserved-slots htb i v =
      same_slots htb (with_reserved htb i v) refl (λ j.
        same_after_set (λ c. c.pri) htb.ctrl i j (record (ctrl_at htb i) { reserved = v }) refl)

-- A write at an index gives the value there, or nothing there is in range.
pub set_self {ℓ} :
    {A : Type ℓ} (xs : List A) (i : ℕ) (v d : A)
    → (get_or (set xs i v) i d ≡ v) ⊎ ((get_or (set xs i v) i d ≡ d) × (get_or xs i d ≡ d))
set_self [] i v d = inr (refl, refl)
set_self (x ∷ xs) zero v d = inl refl
set_self (x ∷ xs) (suc i) v d = set_self xs i v d

-- An entry that is free, or has no priority.
abbrev pub FreeSlot : Htbucket → ℕ → Type 0
FreeSlot htb i = (key_at htb i ≡ 0) ⊎ (pri_at htb i ≡ 0)

module _ (S : ℕ → Type 0) (htb : Htbucket) (i a : ℕ) where
  module _ (age pri ptr : ℕ) where
    abbrev after : Htbucket
    after = record {
      saddr = set htb.saddr i a;
      ctrl = set htb.ctrl i (written htb i a age pri ptr);
    }

    slot_ne : (j : ℕ) → i ≢ j → (key_at after j ≡ key_at htb j) × (pri_at after j ≡ pri_at htb j)
    slot_ne j ne = (
      get_or-set_ne htb.saddr i j a 0 ne,
      ap (λ c. c.pri) (get_or-set_ne htb.ctrl i j (written htb i a age pri ptr) zero_ctrl ne),
    )

    slot_here :
        key_at after i ≢ 0 → 1 ≤ pri_at after i → (1 ≤ pri % 2 ^ 2 → S a) → S (key_at after i)
    slot_here used high allowed = elim (set_self htb.saddr i a 0) [
      | inr out ↦ absurd (used out.0)
      | inl key ↦ elim (set_self htb.ctrl i (written htb i a age pri ptr) zero_ctrl) [
        | inr out ↦ absurd (omega (arith, high, ap (λ c. c.pri) out.0))
        | inl same ↦ subst S (sym key) (allowed (omega (arith, high, ap (λ c. c.pri) same)))
      ]
    ]

    not_free : FreeSlot htb i → key_at htb i ≢ 0 → 1 ≤ pri_at htb i → ⊥
    not_free (inl free) used high = used free
    not_free (inr low) used high = omega arith

    -- An entry that is not in use by an authorized host is written.
    pub write_entry-slots :
        FreeSlot htb i
        → (1 ≤ pri % 2 ^ 2 → S a)
        → GuardedBucket S htb (write_entry htb i a age pri ptr)
    unfolding write_entry
    write_entry-slots free allowed = record {
      wide = length-set htb.saddr i a;
      kept = λ j used high. elim (ℕ_discrete i j) [
        | yes e ↦ absurd (
            not_free free (λ q. used (ap (key_at htb) (sym e) ∙ q))
              (omega (arith, ap (pri_at htb) e, high)))
        | no ne ↦ ((slot_ne j ne).0, omega (arith, (slot_ne j ne).1))
      ];
      origin = λ j used high. elim (ℕ_discrete i j) [
        | yes e ↦ inl (
            subst (λ k. S (key_at after k)) e
              (slot_here (λ q. used (ap (key_at after) (sym e) ∙ q))
                (omega (arith, ap (pri_at after) e, high)) allowed))
        | no ne ↦ inr (sym (slot_ne j ne).0, sym (slot_ne j ne).1)
      ];
    }

  module _ (priority : ℕ) where
    abbrev raised : HostCtrl
    raised = record (ctrl_at htb i) { pri = priority % 2 ^ 2 }

    raised_ne : (j : ℕ) → i ≢ j → (get_or (set htb.ctrl i raised) j zero_ctrl).pri ≡ pri_at htb j
    raised_ne j ne = ap (λ c. c.pri) (get_or-set_ne htb.ctrl i j raised zero_ctrl ne)

    raised_up :
        (j : ℕ)
        → priority < 2 ^ 2
        → pri_at htb i < priority
        → pri_at htb j ≤ (get_or (set htb.ctrl i raised) j zero_ctrl).pri
    raised_up j fits up = elim (ℕ_discrete i j) [
      | no ne ↦ omega (arith, raised_ne j ne)
      | yes e ↦
          subst (λ k. pri_at htb k ≤ (get_or (set htb.ctrl i raised) k zero_ctrl).pri) e
            (elim (set_self htb.ctrl i raised zero_ctrl) [
              | inl same ↦ rw same (omega (arith, mod-eq_of_lt fits))
              | inr out ↦ omega (arith, ap (λ c. c.pri) out.0, ap (λ c. c.pri) out.1)
            ])
    ]

    -- The priority of a host of `S` is raised.
    pub raise_pri-slots :
        priority < 2 ^ 2 → key_at htb i ≡ a → S a → GuardedBucket S htb (raise_pri htb i priority)
    unfolding raise_pri
    raise_pri-slots fits here allowed = elim (Bool-cases (ltb (pri_at htb i) priority)) [
      | inr down ↦ rw down (GuardedBucket-refl S htb)
      | inl up ↦ rw up (record {
        wide = refl;
        kept = λ j used high. (refl, raised_up j fits (ltb→lt _ _ up));
        origin = λ j used high. elim (ℕ_discrete i j) [
          | yes e ↦ inl (subst S (sym here ∙ ap (key_at htb) e) allowed)
          | no ne ↦ inr (refl, sym (raised_ne j ne))
        ];
      })
    ]

-- One bucket is replaced.
pub with_bucket-Guarded :
    (S : ℕ → Type 0) (gs : Gs) (b : ℕ) (htb : Htbucket)
    → GuardedBucket S (gs.host_tbl b) htb
    → Guarded S gs (with_bucket gs b htb)
with_bucket-Guarded S gs b htb g c = elim (ℕ_discrete b c) [
  | yes e ↦
      subst (λ d. GuardedBucket S (gs.host_tbl d) (update gs.host_tbl b htb d)) e
        (rw (update_self gs.host_tbl b htb) g)
  | no ne ↦
      subst (GuardedBucket S (gs.host_tbl c)) (sym (update_ne gs.host_tbl b c htb ne))
        (GuardedBucket-refl S (gs.host_tbl c))
]
