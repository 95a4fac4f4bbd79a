-- ===== src/Metrics/Tests.antt =====
-- metrics.go on three claims.
use lottery_search_system.Prelude.{ℕ, ◌≤◌, ◌<◌, ◌≡◌, refl, List, [], ◌∷◌, some, arith}
use lottery_search_system.Metrics.{new_metrics, Claimed, observe, insert, sort, percentiles}
use lottery_search_system.Metrics.Ranks.{at_most, below, percentiles-ranked}
use lottery_search_system.Metrics.Counters.{observe_all}

abbrev claimed : ℕ → ℕ → Claimed
claimed latency issued = record {
  latency = latency;
  requested = 3;
  issued = issued;
  candidates = 5;
  contended = 0;
  round_trips = 1;
}

abbrev three : List Claimed
three = claimed 9000 0 ∷ claimed 4000 2 ∷ claimed 7000 3 ∷ []

percentiles_three : percentiles (9 ∷ 4 ∷ 7 ∷ []) ≡ some (7, 9)
unfolding percentiles sort insert
percentiles_three = refl

partial_three : (observe_all new_metrics three).partial ≡ 1
unfolding observe
partial_three = refl

percentiles-ranked_example :
    (half : ℕ) × (most : ℕ) × (percentiles (9 ∷ 4 ∷ 7 ∷ []) ≡ some (half, most))
    × (below half (9 ∷ 4 ∷ 7 ∷ []) ≤ 1)
    × (1 < at_most half (9 ∷ 4 ∷ 7 ∷ []))
    × (below most (9 ∷ 4 ∷ 7 ∷ []) ≤ 2)
    × (2 < at_most most (9 ∷ 4 ∷ 7 ∷ []))
percentiles-ranked_example = percentiles-ranked (9 ∷ 4 ∷ 7 ∷ []) (omega arith)
