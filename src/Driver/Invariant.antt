-- ===== src/Driver/Invariant.antt =====
-- The invariant of the driver, and that the bodies of its handlers keep it.
use ntfw.Common.{ℕ, Bool, true, false, ◌+◌, ◌==◌, ◌≡◌, ◌≤◌, inl, inr, arith, refl, sym, ap}
use ntfw.Common.{
  if◌then◌else◌, List, [], ◌∷◌, ◌++◌, some, update, InList, All, length, length-append, Bool-cases,
  u32, fun_ext, ap₂,
}
use ntfw.Common.{update_self}
use ntfw.Driver.{FltModule, FilterState, Driver, is_running, state_of, remove, set_lock, locked}
use ntfw.Driver.{set_module_state, attach_locked, detach_body, uncount, pause_body}
use ntfw.Driver.{restart_body}
use ntfw.Driver.{max_filter_modules, attached, paused, detached, running, suspended, restarting}
use ntfw.Driver.Modules.{
  NoDup, bit, count_running, count_running-le, count_running-update, count_running-other,
}
use ntfw.Driver.Modules.{
  count_running-snoc, count_running-remove, NoDup-snoc, NoDup-remove, InList-snoc, InList-remove,
}

-- The lock is free, a module is in one of the two lists and once, and the count is that of the
-- modules in the list that are running.
pub record IsDriver (d : Driver) : Type 0 where
  pub unlocked : d.driver_lock ≡ false
  pub distinct : NoDup d.module_list
  pub free_distinct : NoDup d.free_list
  pub apart : All (λ m. ¬ InList m d.module_list) d.free_list
  pub counted : d.running_module_count ≡ count_running d.flt_modules d.module_list
  pub total : length d.module_list + length d.free_list ≡ max_filter_modules

-- A handler takes the lock when it is free, and leaves it free.
abbrev pub whole : (Driver → Driver) → Driver → Driver
whole body d = set_lock false (body (set_lock true d))

pub locked_free :
    (body : Driver → Driver) (d : Driver) → IsDriver d → locked body d ≡ some (whole body d)
unfolding locked
locked_free body d w = rw w.unlocked refl

-- A change of state of a module of the list, with the count that belongs to it.
module _ (d : Driver) (w : IsDriver d) (m : ℕ) (i : InList m d.module_list) (s : FilterState) where
  abbrev x : FltModule
  x = record (d.flt_modules m) { state = s }

  moved :
      (count : ℕ) (signal event : Bool)
      → count + bit (is_running (state_of d m)) ≡ d.running_module_count + bit (is_running s)
      → IsDriver (record d {
        flt_modules = update d.flt_modules m x;
        running_module_count = count;
        suspend_signal = signal;
        suspend_complete_event = event;
        driver_lock = false;
      })
  moved count signal event e = record {
    unlocked = refl;
    distinct = w.distinct;
    free_distinct = w.free_distinct;
    apart = w.apart;
    counted =
        omega
          (arith, e, w.counted, count_running-update d.flt_modules m x d.module_list w.distinct i);
    total = w.total;
  }

-- Of two changes of state the second one stands.
state_twice :
    (m : ℕ) (s t : FilterState) (d : Driver)
    → set_module_state m s (set_module_state m t d) ≡ set_module_state m s d
unfolding set_module_state
state_twice m s t d = ap (λ f. record d { flt_modules = f }) (fun_ext λ j. at j)
  where
    old : FltModule
    old = record (d.flt_modules m) { state = t }

    at :
        (j : ℕ)
        → update
            (update d.flt_modules m old)
            m
            (record (update d.flt_modules m old m) { state = s })
            j
          ≡ update d.flt_modules m (record (d.flt_modules m) { state = s }) j
    at j = elim (Bool-cases (m == j)) [
      | inl e ↦ rw (e, update_self d.flt_modules m old) refl
      | inr e ↦ rw e refl
    ]

-- What a restart comes to, by the signal.
abbrev restarted : ℕ → Driver → Bool → Driver
restarted m d up =
    if up
    then set_module_state m suspended d
    else set_module_state m running
        (record d { running_module_count = u32 (d.running_module_count + 1) })

restart_open : (m : ℕ) (d : Driver) → restart_body m d ≡ restarted m d d.suspend_signal
unfolding restart_body set_module_state
restart_open m d =
    ap₂ (λ a b. if d.suspend_signal then a else b) (state_twice m suspended restarting d)
      (state_twice m running restarting
        (record d { running_module_count = u32 (d.running_module_count + 1) }))

module _ (d : Driver) (w : IsDriver d) (m : ℕ) (i : InList m d.module_list) where
  -- A running module counts, and all are few.
  pub counts :
      (bit (is_running (state_of d m)) ≤ d.running_module_count) × (d.running_module_count ≤ 8)
  counts = omega (
    arith,
    (count_running-remove d.flt_modules m d.module_list i).0,
    w.counted,
    w.total,
    count_running-le d.flt_modules d.module_list,
  )

  pub pause-IsDriver : IsDriver (whole (pause_body m) d)
  unfolding pause_body set_module_state uncount
  pause-IsDriver = elim (Bool-cases (is_running (state_of d m))) [
    | inl e ↦ rw e (moved d w m i paused _ d.suspend_signal _ (ground (arith, counts)))
    | inr e ↦ rw e (
        moved d w m i paused d.running_module_count d.suspend_signal d.suspend_complete_event
          (ground arith))
  ]

  pub restart-IsDriver : is_running (state_of d m) ≡ false → IsDriver (whole (restart_body m) d)
  restart-IsDriver idle = rw (restart_open m (set_lock true d)) (either d.suspend_signal)
    where
      either : (up : Bool) → IsDriver (set_lock false (restarted m (set_lock true d) up))
      either true =
          unfold set_module_state in
          moved d w m i suspended d.running_module_count d.suspend_signal d.suspend_complete_event
            (ground arith)
      either false =
          unfold set_module_state in
          moved d w m i running _ d.suspend_signal d.suspend_complete_event (ground (arith, counts))

apart_snoc :
    (m : ℕ) (ms ks : List ℕ)
    → All (λ k. ¬ InList k ms) ks
    → ¬ InList m ks
    → All (λ k. ¬ InList k (ms ++ m ∷ [])) ks
apart_snoc m ms [] out new = tt
apart_snoc m ms (k ∷ ks) out new = (
  λ i. elim (InList-snoc m k ms i) [ inl j ↦ out.0 j | inr e ↦ new (inl (sym e)) ],
  apart_snoc m ms ks out.1 (λ i. new (inr i)),
)

apart_remove :
    (m : ℕ) (ms ks : List ℕ) → All (λ k. ¬ InList k ms) ks → All (λ k. ¬ InList k (remove m ms)) ks
apart_remove m ms [] out = tt
apart_remove m ms (k ∷ ks) out = (λ i. out.0 (InList-remove m k ms i), apart_remove m ms ks out.1)

not_free : (m : ℕ) (ms ks : List ℕ) → All (λ k. ¬ InList k ms) ks → InList m ms → ¬ InList m ks
not_free m ms [] out i j = j
not_free m ms (k ∷ ks) out i (inl e) = out.0 (rw e at i)
not_free m ms (k ∷ ks) out i (inr j) = not_free m ms ks out.1 i j

pub attach-IsDriver :
    (handle : ℕ) (attributes : Bool) (m : ℕ) (rest : List ℕ) (d : Driver)
    → IsDriver d
    → d.free_list ≡ m ∷ rest
    → IsDriver (attach_locked handle attributes (m ∷ rest) (set_lock true d)).1
unfolding attach_locked set_module_state
attach-IsDriver handle attributes m rest d w e =
    let out : All (λ k. ¬ InList k d.module_list) (m ∷ rest) = rw e at w.apart in
    let free : NoDup (m ∷ rest) = rw e at w.free_distinct in
    let named = record (d.flt_modules m) { handle = handle } in
    let mods = update d.flt_modules m named in
    let new = record (mods m) { state = attached } in
    record {
      unlocked = refl;
      distinct = NoDup-snoc m d.module_list w.distinct out.0;
      free_distinct = free.1;
      apart = apart_snoc m d.module_list rest out.1 free.0;
      counted = omega (
        arith,
        w.counted,
        count_running-snoc (update mods m new) m d.module_list,
        count_running-other mods m new d.module_list out.0,
        count_running-other d.flt_modules m named d.module_list out.0,
        ap (λ y. bit (is_running y.state)) (update_self mods m new),
      );
      total = omega (arith, w.total, ap length e, length-append d.module_list (m ∷ []));
    }

pub detach-IsDriver :
    (m : ℕ) (d : Driver)
    → IsDriver d
    → InList m d.module_list
    → is_running (state_of d m) ≡ false
    → IsDriver (whole (detach_body m) d)
unfolding detach_body set_module_state
detach-IsDriver m d w i idle =
    let gone = NoDup-remove m d.module_list w.distinct in
    let less = count_running-remove d.flt_modules m d.module_list i in
    record {
      unlocked = refl;
      distinct = gone.0;
      free_distinct = (not_free m d.module_list d.free_list w.apart i, w.free_distinct);
      apart = (gone.1, apart_remove m d.module_list d.free_list w.apart);
      counted = omega (
        arith,
        w.counted,
        less.0,
        ap bit idle,
        count_running-other d.flt_modules m (record (d.flt_modules m) { state = detached })
            (remove m d.module_list) gone.1,
      );
      total = omega (arith, w.total, less.1);
    }

pub signalled :
    (d : Driver) (signal event : Bool)
    → IsDriver d
    → IsDriver
        (record d { suspend_signal = signal; suspend_complete_event = event; driver_lock = false })
signalled d signal event w = record {
  unlocked = refl;
  distinct = w.distinct;
  free_distinct = w.free_distinct;
  apart = w.apart;
  counted = w.counted;
  total = w.total;
}
