-- ===== src/Hybrid/MoveTests.antt =====
-- Alice buys her ticket on a store that knows its number, step by step.
use lottery_search_system.Prelude.{
  ℕ, ◌≡◌, ◌==◌, ◌∙◌, refl, ap, not, false, some, none, [], ◌∷◌, if◌then◌else◌, arith, subst,
  Bool-cases, inl, inr, some_inj, none-ne-some,
}
use lottery_search_system.Prelude.Int.{pos}
use lottery_search_system.Pattern.{number_space}
use lottery_search_system.Availability.{Availability, maybe_available}
use lottery_search_system.Availability.Load.{last_count}
use lottery_search_system.Availability.Valid.{mark_sold-count, maybe_available-some}
use lottery_search_system.Postgres.{confirm_sql, update_where}
use lottery_search_system.Postgres.Tests.{row, table, table-IsTable, row_found}
use lottery_search_system.Postgres.Unsold.{unsold}
use lottery_search_system.Postgres.Numbers.{HasNumber}
use lottery_search_system.Prelude.{◌>>=◌, true}
use lottery_search_system.TicketStore.{done}
use lottery_search_system.Postgres.{answered}
use lottery_search_system.Postgres.Schedule.{start}
use lottery_search_system.Hybrid.Sync.{IsSynced, forget_number_first}
use lottery_search_system.Hybrid.Steps.{Step, Steps, hint_never_denies}
use lottery_search_system.Hybrid.{Hybrid, confirm_hybrid, Names, forget_number}
use lottery_search_system.Hybrid.Tests.{
  exact_hint, exact_hint-IsHint, exact_hint_counts, groups_exact, sold_elsewhere,
}
use lottery_search_system.Hybrid.Interleaved.{
  Live, IsLive, Moves, Move, owed, interleaved_never_denies,
}

abbrev names : Names
names = λ id. if id == 0 then some 127024 else none

abbrev live : Live
live = record { table = table; hint = exact_hint; number_of = names; waiting = []; fetched = [] }

alice_number : HasNumber table 0 127024
alice_number = (row, row_found, refl)

known_true : (id n : ℕ) → names id ≡ some n → HasNumber table id n
known_true id n e = elim (Bool-cases (id == 0)) [
  | inl own ↦
      let place : 0 ≡ id = ground arith in
      let same : 127024 ≡ n = some_inj (rw own at e) in
      subst (λ i. HasNumber table i n) place (subst (HasNumber table 0) same alice_number)
  | inr other ↦ absurd (none-ne-some (rw other at e))
]

live-IsLive : IsLive number_space live
unfolding owed
live-IsLive = record {
  keyed = table-IsTable;
  above =
      (exact_hint-IsHint, λ n inside. omega (arith, exact_hint_counts n inside, groups_exact n));
  known = known_true;
  true_sales = tt;
  fresh = tt;
}

wrote : (confirm_sql 0 "alice" 120 table).1 ≡ 1
unfolding confirm_sql update_where
wrote = refl

-- The hint after the mark.
abbrev lowered_hint : Availability
lowered_hint = (mark_sold-count exact_hint-IsHint 127024 (omega arith)).0

abbrev waits : Live
waits = record live { table = sold_elsewhere; waiting = (0, 127024) ∷ [] }

abbrev sale_marked : Live
sale_marked = record waits {
  hint = lowered_hint;
  number_of = (forget_number 0 names).1;
  waiting = [];
}

sale : Moves number_space live sale_marked
unfolding forget_number
sale = Moves.moved (Moves.moved Moves.still (Move.sells 0 127024 "alice" 120 alice_number wrote)) (
    Move.marks 0 127024 [] [] lowered_hint refl
      (mark_sold-count exact_hint-IsHint 127024 (omega arith)).1)

denied : maybe_available number_space lowered_hint (pos 127024) ≡ some false
unfolding last_count
denied =
    let (a, run, valid, counts) = mark_sold-count exact_hint-IsHint 127024 (omega arith) in
    let gone : not (lowered_hint.counts.at 127024 == 0) ≡ false =
      ground (arith, counts 127024, exact_hint_counts 127024 (omega arith)) in
    maybe_available-some valid 127024 (omega arith) ∙ ap some gone

interleaved_never_denies_example : unsold sold_elsewhere 127024 ≡ 0
interleaved_never_denies_example =
    interleaved_never_denies number_space live sale_marked 127024 live-IsLive sale (omega arith)
      denied

-- The same sale as one call of Confirm.
abbrev knows : Hybrid
knows = record { table = table; hint = exact_hint; number_of = names }

knows-IsSynced : IsSynced number_space knows
knows-IsSynced = record {
  keyed = table-IsTable;
  valid = exact_hint-IsHint;
  over = λ n inside. omega (arith, exact_hint_counts n inside, groups_exact n);
  known = known_true;
}

abbrev sold_here : Hybrid
sold_here = record {
  table = sold_elsewhere;
  hint = lowered_hint;
  number_of = (forget_number 0 names).1;
}

one_row_written : ((confirm_sql 0 "alice" 120 table).1 == 1) ≡ true
one_row_written = rw wrote refl

sells_here :
    confirm_hybrid number_space answered answered (λ t. t) 126 (λ a. a) 0 "alice" 120 knows
    ≡ some (sold_here, done)
unfolding confirm_hybrid
sells_here =
    rw
      (
        confirm_hybrid,
        one_row_written,
        forget_number_first 0 names,
        (mark_sold-count exact_hint-IsHint 127024 (omega arith)).1,
        ◌>>=◌,
      )
      refl

hint_never_denies_example : unsold sold_elsewhere 127024 ≡ 0
hint_never_denies_example =
    hint_never_denies number_space knows sold_here 127024 knows-IsSynced
      (Steps.later Steps.start (
        Step.confirmed answered answered (λ t. t) 126 (λ a. a) 0 "alice" 120 done sold_here
          (record { valid = λ a v. v; higher = λ a n v inside. omega arith }) (λ t u. start)
          sells_here))
      (omega arith) denied
