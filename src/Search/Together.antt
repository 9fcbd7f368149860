-- ===== src/Search/Together.antt =====
-- The search by several workers: the write of the seed is apart from the exchange of the bits,
-- and the bits are read again after the test of the loop.
use ntfw.Common.{ℕ, ◌≡◌, refl, List, [], ◌∷◌, ◌++◌, some}
use ntfw.Rules.{NtfeRule}
use ntfw.Search.{Event, works, find_rule_magic, search_run, search_step, worker_step, finished}
use ntfw.Search.{keeps_apart, find_result, new_search, new_workers, bsr_below}

-- One round of a worker that records a seed.
abbrev round : ℕ → List Event
round i = works i ∷ works i ∷ works i ∷ works i ∷ works i ∷ []

-- A worker goes down to two bits; then two workers pass the test of the loop together.
abbrev pub meeting : List Event
meeting =
    round 0
    ++ round 0
    ++ round 0
    ++ round 0
    ++ round 0
    ++ round 0
    ++ works 0 ∷ works 0 ∷ works 1 ∷ works 1 ∷ works 0 ∷ works 0 ∷ works 0 ∷ []
    ++ works 1 ∷ works 1 ∷ works 1 ∷ []
    ++ works 0 ∷ works 0 ∷ works 1 ∷ works 1 ∷ []

-- One rule and two workers, whatever the rule and the identifiers of the threads: there is an
-- interleaving in which both finish and a table of no bits is returned.
pub find_rule_magic_none :
    (rl : NtfeRule) (a b : ℕ)
    → ((search_run (rl ∷ []) meeting (new_search (a ∷ b ∷ []))).workers 0 ≡ finished)
      × ((search_run (rl ∷ []) meeting (new_search (a ∷ b ∷ []))).workers 1 ≡ finished)
      × ((seed : ℕ) × (find_rule_magic (rl ∷ []) (a ∷ b ∷ []) meeting ≡ some (seed, 0)))
unfolding find_rule_magic search_run search_step worker_step keeps_apart find_result new_search
    new_workers bsr_below
find_rule_magic_none rl a b = (refl, refl, (_, refl))
