-- ===== src/Candidates/Tests.antt =====
-- candidates.go on a pattern with one wildcard.
use mathlib.Core.List.{Mem, Nodup}
use lottery_search_system.Prelude.{
  ℕ, zero, suc, ◌+◌, ◌≡◌, ◌↔◌, refl, some, true, List, [], ◌∷◌, arith,
}
use lottery_search_system.Prelude.Text.{codes}
use lottery_search_system.Pattern.{Pattern, parsed, parse_pattern, match_count, number_at, matches}
use lottery_search_system.Walker.{Draws, gcd, new_walker, coprime_to, next}
use lottery_search_system.Candidates.{Candidates, candidates, next_batch, drain}
use lottery_search_system.Candidates.Complete.{drain-candidates, IsReady, candidates-total}

abbrev ends_23 : Pattern
ends_23 = record { base = 120023; wildcards = 2 ∷ [] }

parse_pattern-ends_23 : parse_pattern (codes "12*023") ≡ parsed ends_23
unfolding parse_pattern
parse_pattern-ends_23 = refl

abbrev draws : Draws
draws zero = 2
draws (suc k) = 7

abbrev generator : Candidates
generator = record { pattern = ends_23; walker = record { n = 10; a = 3; b = 7; i = 0 } }

candidates-ends_23 : candidates 1 ends_23 draws ≡ some generator
unfolding candidates new_walker coprime_to match_count gcd
candidates-ends_23 = refl

next_batch-generator : (next_batch generator 3).0 ≡ 127023 ∷ 120023 ∷ 123023 ∷ []
unfolding next_batch number_at next
next_batch-generator = refl

drain-candidates_example :
    (numbers : List ℕ) × (drain (match_count ends_23 + 1) generator 3 ≡ some numbers)
    × Nodup numbers
    × ((n : ℕ) → Mem n numbers ↔ (matches ends_23 n ≡ true))
drain-candidates_example =
    drain-candidates (codes "12*023") ends_23 1 3 draws generator parse_pattern-ends_23
      candidates-ends_23 (omega arith)

candidates-total_example :
    (c : Candidates) × (candidates 1 ends_23 draws ≡ some c) × IsReady ends_23 c
unfolding match_count gcd
candidates-total_example = candidates-total ends_23 0 1 draws (omega arith) refl
