-- ===== src/Tests/Tables.antt =====
-- Tests of the host table, the rule table, the meters and the encodings.
use ntfw.Common.{ℕ, true, ◌+◌, ◌-◌, ◌*◌, ◌≡◌, ◌≢◌, ◌≤◌, arith, refl}
use ntfw.Common.{[], ◌∷◌, none, some, All, InList}
use ntfw.Flow.{Flowsig, sig_data}
use ntfw.Meter.{TbucketDesc, token_bucket_charge}
use ntfw.Meter.Bounds.{charge_all, charge_all_bound, charge_after_idle}
use ntfw.Rules.{NtfeRule, Rule, rule_lookup, compile_rule}
use ntfw.Rules.Lookup.{Finds, load_rules-rule_lookup}
use ntfw.Host.{
  host_insert, host_insert_authorized, time_age, probe_bucket, evict_scan, host_fetch_bucket,
}
use ntfw.Host.{inet_hashfn, movemask_eq, tzcnt, host_lookup}
use ntfw.Host.Bucket.{host_entry}
use ntfw.Host.Outcome.{Outcome}
use ntfw.Host.Insert.{host_insert_lem}
use ntfw.Host.Authorize.{host_insert_authorized_new, host_insert_authorized_known}
use ntfw.Host.{allocate}
use ntfw.Host.Stuck.{cleared, refilled, clear_entry-allocate}
use ntfw.Tests.{
  full_bucket, full_bucket-IsHtbucket, two_rules, loaded_table, state, two_rules-IsRule,
  two_rules_load,
}

host_insert_lem_example :
    let (idx, gs') = host_insert 0 5 99 (state full_bucket) in
    Outcome full_bucket 99 (time_age 0 (state full_bucket)) 0 21 idx (gs'.host_tbl 5)
host_insert_lem_example =
    host_insert_lem 0 5 99 (state full_bucket) (omega arith) full_bucket-IsHtbucket refl refl

host_insert_authorized_new_example :
    let (idx, gs') = host_insert_authorized 0 5 99 3 (state full_bucket) in
    Outcome full_bucket 99 (time_age 0 (state full_bucket)) 3 0 idx (gs'.host_tbl 5)
host_insert_authorized_new_example =
    host_insert_authorized_new 0 5 99 3 (state full_bucket) (omega arith) (omega arith)
      full_bucket-IsHtbucket refl

host_insert_authorized_known_example :
    let (idx, gs') = host_insert_authorized 0 5 14 2 (state full_bucket) in
    (idx ≡ some 3)
    × (host_entry (gs'.host_tbl 5) 14 ≡ some (5, 2, 9))
    × ((c : ℕ) → 14 ≢ c → host_entry (gs'.host_tbl 5) c ≡ host_entry full_bucket c)
host_insert_authorized_known_example =
    host_insert_authorized_known 0 5 14 2 3 (state full_bucket) (omega arith) full_bucket-IsHtbucket
      refl

-- the fourth host is evicted
full_bucket_victim : evict_scan full_bucket.ctrl 19 0 0xffff none ≡ some 3
unfolding evict_scan ntfw.Host.evict_dist
full_bucket_victim = refl

load_rules-rule_lookup_example :
    All (Finds loaded_table 1 7) two_rules
    × ((fs : Flowsig) (r : Rule)
        → sig_data fs ≢ 0
        → rule_lookup loaded_table 1 7 fs ≡ some r
        → (sig_data r.fsig ≡ sig_data fs)
          × ((rl : NtfeRule) × InList rl two_rules × (r ≡ compile_rule rl)))
load_rules-rule_lookup_example =
    load_rules-rule_lookup two_rules 1 7 (omega arith) two_rules-IsRule two_rules_load

abbrev bucket_desc : TbucketDesc
bucket_desc = record { rate = 2; capacity = 100; level = 10 }

charge_all_bound_example :
    let (end, passed) =
      charge_all bucket_desc
        (record { tokens = 50; last = 0 })
        ((1, 30) ∷ (1, 30) ∷ (40, 60) ∷ []) in
    (0 ≤ end.last) × (passed + end.tokens ≤ 50 + (end.last - 0) * 2)
charge_all_bound_example =
    charge_all_bound bucket_desc ((1, 30) ∷ (1, 30) ∷ (40, 60) ∷ [])
      (record { tokens = 50; last = 0 })
      (record { tokens_fit = omega arith; last_fits = omega arith })
      (record { rate_fits = omega arith; capacity_fits = omega arith }) (omega arith)

charge_after_idle_example :
    token_bucket_charge (record { tokens = 0; last = 5 }) bucket_desc 60 30
    ≡ (record { tokens = 70; last = 60 }, true)
charge_after_idle_example =
    charge_after_idle (record { tokens = 0; last = 5 }) bucket_desc 60 30
      (record { tokens_fit = omega arith; last_fits = omega arith })
      (record { rate_fits = omega arith; capacity_fits = omega arith }) (omega arith) (omega arith)
      (omega arith) (omega arith)

clear_entry-allocate_example :
    let gs1 = cleared 5 0 99 20 3 0 (state full_bucket) full_bucket-IsHtbucket in
    let gs2 = refilled 5 0 99 20 3 0 (state full_bucket) full_bucket-IsHtbucket in
    (allocate 5 19 0 gs1 ≡ (some 0, gs1))
    × ((tsec' priority' : ℕ) → allocate 5 tsec' priority' gs2 ≡ (none, gs2))
clear_entry-allocate_example =
    clear_entry-allocate 5 0 99 20 3 0 (state full_bucket) full_bucket-IsHtbucket refl refl
      (omega arith) (omega arith) 19 0
