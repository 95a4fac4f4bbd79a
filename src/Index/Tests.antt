-- ===== src/Index/Tests.antt =====
-- index.go on a small number space, and the theorem at it.
use lottery_search_system.Prelude.{ℕ, ◌<◌, ◌≡◌, refl, none, some, List, [], ◌∷◌, arith, ◌>>=◌}
use lottery_search_system.Index.{Ticket, Index, build_index, tickets_for, index_len}
use lottery_search_system.Index.Counts.{ids_of}
use lottery_search_system.Index.Laws.{build_index-tickets_for}

abbrev ticket : ℕ → ℕ → Ticket
ticket id number = record { id = id; number = number }

abbrev stock : List Ticket
stock = ticket 0 2 ∷ ticket 1 0 ∷ ticket 2 2 ∷ ticket 3 4 ∷ []

tickets_for_two : (do ix ← build_index 5 stock; tickets_for ix 2) ≡ some (0 ∷ 2 ∷ [])
unfolding build_index tickets_for
tickets_for_two = refl

tickets_for_none : (do ix ← build_index 5 stock; tickets_for ix 3) ≡ some []
unfolding build_index tickets_for
tickets_for_none = refl

number_out_of_space : build_index 4 stock ≡ none
unfolding build_index
number_out_of_space = refl

build_index-tickets_for_example :
    (ix : Index) × (build_index 5 stock ≡ some ix)
    × ((n : ℕ) → n < 5 → tickets_for ix n ≡ some (ids_of n stock))
    × (index_len ix ≡ 4)
build_index-tickets_for_example = build_index-tickets_for 5 stock (omega arith) (omega arith)
