-- ===== src/Tests/Workers.antt =====
-- Tests of the search for a seed, and its theorems applied to concrete runs.
use ntfw.Common.{ℕ, true, false, ◌≤◌, ◌≡◌, arith, refl, List, [], ◌∷◌, ◌++◌, some, replicate}
use ntfw.Flow.{sig_data, rule_hashfn, ntfe_rule_hashfn, ether_le16_to_fs}
use ntfw.Rules.{NtfeRule, load_rules, zero_table, rule_insert, compile_rule, rule_sig}
use ntfw.Rules.Perfect.{NoClash}
use ntfw.Search.{Event, works, stop, finished, find_rule_magic, search_run, new_search, splitmix64}
use ntfw.Search.{xoro_seed, xoro_rand, keeps_apart, target_bits, search_step, worker_step}
use ntfw.Search.{new_workers, find_result, bsr_below}
use ntfw.Search.Alone.{find_rule_magic-load_rules}
use ntfw.Search.Bound.{find_rule_magic-NoClash}
use ntfw.Search.Stops.{search_run_stops}
use ntfw.Search.Together.{meeting, find_rule_magic_none}
use ntfw.Tests.{http_rule, two_rules, two_rules-IsRule}

-- the first numbers of splitmix64 from zero
splitmix : (splitmix64 0).0 ≡ 0xE220A8397B1DCDAF
unfolding splitmix64
splitmix = refl

abbrev turns_of : ℕ → ℕ → List Event
turns_of i n = replicate n (works i)

-- one round, and the rest after the signal
abbrev alone : List Event
alone = turns_of 0 5 ++ stop ∷ turns_of 0 5

alone_finds : find_rule_magic two_rules (5 ∷ []) alone ≡ some (924908114, 7)
unfolding find_rule_magic search_run search_step worker_step keeps_apart find_result new_search
    new_workers bsr_below ntfe_rule_hashfn rule_hashfn sig_data ether_le16_to_fs xoro_seed xoro_rand
    splitmix64
alone_finds = refl

alone_done : (search_run two_rules alone (new_search (5 ∷ []))).workers 0 ≡ finished
unfolding search_run search_step worker_step keeps_apart new_search new_workers bsr_below
    ntfe_rule_hashfn rule_hashfn sig_data ether_le16_to_fs xoro_seed xoro_rand splitmix64
alone_done = refl

find_rule_magic-load_rules_example :
    ((load_rules zero_table two_rules 924908114 7).0 ≡ true) × (target_bits two_rules ≤ 7) × (7 ≤ 7)
find_rule_magic-load_rules_example =
    find_rule_magic-load_rules two_rules 5 alone 924908114 7 two_rules-IsRule alone_done alone_finds

find_rule_magic-NoClash_example : (1 ≤ 7) × (7 ≤ 7) × ((apart : ℕ) × NoClash apart 7 two_rules)
find_rule_magic-NoClash_example =
    find_rule_magic-NoClash two_rules (5 ∷ []) alone 924908114 7 (omega arith) alone_finds

-- Two workers record one after the other, and write their seeds in the other order.
abbrev crossing : List Event
crossing = turns_of 0 4 ++ turns_of 1 5 ++ works 0 ∷ stop ∷ works 0 ∷ works 1 ∷ []

abbrev port_rule : ℕ → NtfeRule
port_rule port = record http_rule { dport = port }

abbrev four_rules : List NtfeRule
four_rules = port_rule 80 ∷ port_rule 81 ∷ port_rule 82 ∷ port_rule 83 ∷ []

-- the seed of the first with the bits of the second
crossing_finds : find_rule_magic four_rules (15 ∷ 1 ∷ []) crossing ≡ some (1738370901, 6)
unfolding find_rule_magic search_run search_step worker_step keeps_apart find_result new_search
    new_workers bsr_below ntfe_rule_hashfn rule_hashfn sig_data ether_le16_to_fs xoro_seed xoro_rand
    splitmix64
crossing_finds = refl

-- with which the rules do not load
crossing_clashes : (load_rules zero_table four_rules 1738370901 6).0 ≡ false
unfolding load_rules rule_insert ntfe_rule_hashfn rule_hashfn sig_data ether_le16_to_fs compile_rule
    rule_sig
crossing_clashes = refl

search_run_stops_example :
    (search_run two_rules
        (turns_of 0 2 ++ turns_of 1 4 ++ turns_of 0 3)
        (search_run two_rules (works 0 ∷ works 0 ∷ stop ∷ []) (new_search (5 ∷ 6 ∷ [])))).workers
      0
    ≡ finished
unfolding search_run search_step
search_run_stops_example =
    search_run_stops two_rules
      (search_run two_rules (works 0 ∷ works 0 ∷ stop ∷ []) (new_search (5 ∷ 6 ∷ []))) 0
      (turns_of 0 2 ++ turns_of 1 4 ++ turns_of 0 3) refl (omega arith)

find_rule_magic_none_example :
    ((search_run (http_rule ∷ []) meeting (new_search (5 ∷ 6 ∷ []))).workers 0 ≡ finished)
    × ((search_run (http_rule ∷ []) meeting (new_search (5 ∷ 6 ∷ []))).workers 1 ≡ finished)
    × ((seed : ℕ) × (find_rule_magic (http_rule ∷ []) (5 ∷ 6 ∷ []) meeting ≡ some (seed, 0)))
find_rule_magic_none_example = find_rule_magic_none http_rule 5 6
