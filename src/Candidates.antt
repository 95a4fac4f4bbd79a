-- ===== src/Candidates.antt =====
-- candidates.go: the numbers that match a pattern, scrambled, in batches.
pub mod Batches
pub mod Complete
pub mod Tests
use lottery_search_system.Prelude.{ℕ, zero, suc, Option, none, some, List, [], ◌∷◌, ◌++◌, ◌>>=◌}
use mathlib.Core.Option
use lottery_search_system.Pattern.{Pattern, match_count, number_at}
use lottery_search_system.Walker.{Draws, Walker, new_walker, next}

pub record Candidates : Type 0 where
  pub pattern : Pattern
  pub walker : Walker

-- Pattern.Candidates. The stream of draws stands for the seed, and the fuel bounds the draws of
-- coprimeTo.
unfoldable pub candidates : ℕ → Pattern → Draws → Option Candidates
candidates fuel p r = do
  w ← new_walker fuel (match_count p) r
  some (record { pattern = p; walker = w })

-- The loop of NextBatch, by the room that is left in the batch: max - len(out).
pub fill : ℕ → Candidates → List ℕ × Candidates
fill zero c = ([], c)
fill (suc room) c =
    let (j, w) = next c.walker in
    let c' = record c { walker = w } in
    elim j [
      | none ↦ ([], c')
      | some j ↦ let rest = fill room c' in (number_at c.pattern j ∷ rest.0, rest.1)
    ]

unfoldable pub next_batch : Candidates → ℕ → List ℕ × Candidates
unfolding fill
next_batch c max = fill max c

-- A client's loop: takes batches until one is empty. `none`: the fuel ran out.
unfoldable pub drain : ℕ → Candidates → ℕ → Option (List ℕ)
unfolding next_batch
drain zero c max = none
drain (suc fuel) c max =
    let (batch, c') = next_batch c max in
    let rest = drain fuel c' max in
    elim batch [ [] ↦ some [] | n ∷ ns ↦ Option.map (λ later. (n ∷ ns) ++ later) rest ]
