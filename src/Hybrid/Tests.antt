-- ===== src/Hybrid/Tests.antt =====
-- hybrid.go on the two rows of Postgres/Tests.
use lottery_search_system.Prelude.{
  ℕ, ◌<◌, ◌≡◌, refl, false, List, none, some, [], ◌∷◌, All, ◌==◌, if◌then◌else◌, arith,
}
use lottery_search_system.Prelude.Int.{pos}
use lottery_search_system.Prelude.Text.{codes}
use lottery_search_system.Pattern.{number_space}
use lottery_search_system.TicketStore.{done}
use lottery_search_system.Store.Tests.{ends_023, ends_023-parsed, outside, outside-IsEnough}
use lottery_search_system.Availability.{Availability, Row, new_availability, maybe_available}
use lottery_search_system.Availability.Valid.{IsHint, new_availability-IsHint}
use lottery_search_system.Availability.Load.{IsGroup, last_count, load_hint-last_count}
use lottery_search_system.Postgres.{Table, answered, confirm_sql, update_where}
use lottery_search_system.Postgres.Tests.{row, free, table, table-IsTable}
use lottery_search_system.Postgres.ClaimTests.{undisturbed-IsTimely}
use lottery_search_system.Postgres.Claims.{Collected}
use lottery_search_system.Postgres.Complete.{undisturbed}
use lottery_search_system.Postgres.Loop.{NoPanic, IsFine}
use lottery_search_system.Postgres.Unsold.{unsold}
use lottery_search_system.Hybrid.{Hybrid, HybridTurn, claim_hybrid, confirm_hybrid}
use lottery_search_system.Hybrid.Serves.{HybridServes, claim_hybrid-HybridServes}
use lottery_search_system.Hybrid.Sync.{IsSynced}
use lottery_search_system.Prelude.Int.{negsuc}
use lottery_search_system.Hybrid.Background.{
  no_connection, no_listen, listening, acquiring, issuing, alone, run_listener, Listens,
  run_listener-IsLowered,
}
use lottery_search_system.Prelude.{Option}
use lottery_search_system.Prelude.Int.{ℤ}
use lottery_search_system.Prelude.{◌^◌, true}
use lottery_search_system.Availability.{load_hint, ended}
use lottery_search_system.Hybrid.Loads.{load_sql, group_rows, add_group, load_hint-unsold}
use lottery_search_system.Hybrid.Race.{load_before_mark, told_twice}

abbrev turn : HybridTurn
turn = record { db = undisturbed 100; before = λ a. a; during = λ a. a; names = λ f. f }

-- A hint that counts nothing at all.
abbrev blank : Hybrid
blank = record { table = table; hint = new_availability number_space; number_of = λ id. none }

claim_hybrid-HybridServes_example :
    (x : Collected Hybrid) × (claim_hybrid number_space outside outside
        (λ i. turn)
        (λ i. turn)
        ends_023
        3
        "alice"
        30
        blank
      ≡ some x)
    × HybridServes number_space ends_023 3 "alice" 110 table x.at x.out
    × IsFine NoPanic x.error
claim_hybrid-HybridServes_example =
    claim_hybrid-HybridServes number_space ends_023 3 "alice" 30 110 blank (codes "12*023") outside
      outside (λ i. turn) (λ i. turn) ends_023-parsed outside-IsEnough outside-IsEnough
      table-IsTable (new_availability-IsHint number_space)
      (λ i. record { timely = undisturbed-IsTimely i; before = λ a v. v; during = λ a v. v })
      (λ i. record { timely = undisturbed-IsTimely i; before = λ a v. v; during = λ a v. v })

-- What the query answers for the table: one ticket of each number.
abbrev pub groups : List Row
groups =
    record { num = pos 127023; count = pos 1 } ∷ record { num = pos 127024; count = pos 1 } ∷ []

pub groups-IsGroup : All IsGroup groups
groups-IsGroup = ((1, refl, omega arith, omega arith), ((1, refl, omega arith, omega arith), tt))

abbrev pub exact_hint : Availability
exact_hint =
    (load_hint-last_count number_space groups 5 (new_availability number_space) groups-IsGroup).0

pub exact_hint-IsHint : IsHint number_space exact_hint
exact_hint-IsHint =
    (load_hint-last_count number_space groups 5 (new_availability number_space) groups-IsGroup).2

pub exact_hint_counts : (n : ℕ) → n < number_space → exact_hint.counts.at n ≡ last_count 0 n groups
exact_hint_counts =
    (load_hint-last_count number_space groups 5 (new_availability number_space) groups-IsGroup).4

abbrev synced : Hybrid
synced = record { table = table; hint = exact_hint; number_of = λ id. none }

pub groups_exact : (n : ℕ) → last_count 0 n groups ≡ unsold table n
unfolding last_count unsold
groups_exact n = ground arith

synced-IsSynced : IsSynced number_space synced
synced-IsSynced = record {
  keyed = table-IsTable;
  valid = exact_hint-IsHint;
  over = λ n inside. omega (arith, exact_hint_counts n inside, groups_exact n);
  known = λ id n e. cc;
}

-- Alice buys her ticket from another replica.
abbrev pub sold_elsewhere : Table
sold_elsewhere = (confirm_sql 0 "alice" 120 table).0

-- Two tickets of number 7, one of them held by alice.
abbrev sevens : Table
sevens = record free { id = 1; num = 7 } ∷ record row { num = 7 } ∷ []

abbrev one_seven : List Row
one_seven = record { num = pos 7; count = pos 1 } ∷ []

one_seven-IsGroup : All IsGroup one_seven
one_seven-IsGroup = ((1, refl, omega arith, omega arith), tt)

-- The hint that is loaded once alice has bought hers.
abbrev fresh : Availability
fresh = (load_hint-last_count 100 one_seven 121 (new_availability 100) one_seven-IsGroup).0

fresh-IsHint : IsHint 100 fresh
fresh-IsHint = (load_hint-last_count 100 one_seven 121 (new_availability 100) one_seven-IsGroup).2

fresh_counts : (n : ℕ) → n < 100 → fresh.counts.at n ≡ last_count 0 n one_seven
fresh_counts = (load_hint-last_count 100 one_seven 121 (new_availability 100) one_seven-IsGroup).4

abbrev racing : Hybrid
racing = record {
  table = sevens;
  hint = new_availability 100;
  number_of = λ id. if id == 0 then some 7 else none;
}

sale : (confirm_sql 0 "alice" 120 sevens).1 ≡ 1
unfolding confirm_sql update_where
sale = refl

one_left : unsold (confirm_sql 0 "alice" 120 sevens).0 7 ≡ 1
unfolding confirm_sql update_where unsold
one_left = refl

load_before_mark_example :
    (s' : Hybrid) × (confirm_hybrid 100 answered answered
        (λ t. t)
        126
        (λ a. fresh)
        0
        "alice"
        120
        racing
      ≡ some (s', done))
    × (maybe_available 100 s'.hint (pos 7) ≡ some false)
    × (unsold s'.table 7 ≡ 1)
unfolding last_count
load_before_mark_example =
    load_before_mark 100 answered (λ t. t) 126 fresh 0 "alice" 120 racing 7 (omega arith) refl sale
      one_left fresh-IsHint (omega (arith, fresh_counts 7 (omega arith), one_left))

-- A notification of a number, one that cannot be read, and one that is below zero.
abbrev heard : List (Option ℤ)
heard = some (pos 127023) ∷ none ∷ some (negsuc 4) ∷ []

run_listener-IsLowered_example :
    (run_listener number_space no_connection synced ≡ some (synced, some acquiring))
    × (run_listener number_space no_listen synced ≡ some (synced, some issuing))
    × Listens number_space synced heard false
run_listener-IsLowered_example =
    run_listener-IsLowered number_space heard false synced exact_hint-IsHint

-- Two tickets of number 7 that the hint counts.
abbrev two_sevens : List Row
two_sevens = record { num = pos 7; count = pos 2 } ∷ []

two_sevens-IsGroup : All IsGroup two_sevens
two_sevens-IsGroup = ((2, refl, omega arith, omega arith), tt)

abbrev both : Availability
both = (load_hint-last_count 100 two_sevens 121 (new_availability 100) two_sevens-IsGroup).0

both-IsHint : IsHint 100 both
both-IsHint = (load_hint-last_count 100 two_sevens 121 (new_availability 100) two_sevens-IsGroup).2

both_counts : (n : ℕ) → n < 100 → both.counts.at n ≡ last_count 0 n two_sevens
both_counts = (load_hint-last_count 100 two_sevens 121 (new_availability 100) two_sevens-IsGroup).4

-- Alice buys one of them, and the notification arrives.
told_twice_example :
    (s' : Hybrid) × (s'' : Hybrid) × (confirm_hybrid 100 answered answered
        (λ t. t)
        126
        (λ a. a)
        0
        "alice"
        120
        (record racing { hint = both })
      ≡ some (s', done))
    × (run_listener 100 (listening (alone (some (pos 7)) ∷ []) true) s' ≡ some (s'', none))
    × (maybe_available 100 s''.hint (pos 7) ≡ some false)
    × (unsold s''.table 7 ≡ 1)
unfolding last_count
told_twice_example =
    told_twice 100 answered (λ t. t) 126 0 "alice" 120 (record racing { hint = both }) 7
      (omega arith) refl sale one_left both-IsHint (omega (arith, both_counts 7 (omega arith)))

-- The query at the two rows. The later row's number comes first.
load_sql-table :
    load_sql table
    ≡ record { num = pos 127024; count = pos 1 } ∷ record { num = pos 127023; count = pos 1 } ∷ []
unfolding load_sql group_rows add_group
load_sql-table = refl

unsold-table_few : (n : ℕ) → unsold table n < 2 ^ 31
unfolding unsold
unsold-table_few n = ground arith

load_hint-unsold_example :
    (a' : Availability) × (load_hint number_space (ended (load_sql table)) 5 blank.hint
      ≡ some (a', true))
    × IsHint number_space a'
    × (a'.loaded ≡ 5)
    × ((n : ℕ) → n < number_space → a'.counts.at n ≡ unsold table n)
load_hint-unsold_example = load_hint-unsold number_space table 5 blank.hint unsold-table_few
