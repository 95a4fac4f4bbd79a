-- ===== src/Postgres/ClaimTests.antt =====
-- Claims of the Postgres store on the two rows of Postgres/Tests: ticket 1, of number 127023, is free,
-- and ticket 0, of number 127024, is held by alice until 130.
use lottery_search_system.Prelude.{ℕ, ◌≤◌, ◌≡◌, ◌⊎◌, refl, true, false, none, some, [], ◌∷◌, arith}
use lottery_search_system.Prelude.Text.{codes}
use lottery_search_system.Pattern.{match_count, matches}
use lottery_search_system.Walker.{gcd, new_walker, next, coprime_to}
use lottery_search_system.Pattern.{number_at}
use lottery_search_system.Candidates.{candidates, next_batch}
use lottery_search_system.TicketStore.{done}
use lottery_search_system.Store.Tests.{ends_023, ends_023-parsed, outside, outside-IsEnough}
use lottery_search_system.Postgres.{
  TicketRow, Table, find_row, answered, sold_row, release_sql, confirm_ticket,
}
use lottery_search_system.Postgres.Tests.{row, free, table, table-IsTable, row_found}
use lottery_search_system.Postgres.Statements.{
  claimable_row, distinct_claim_sql, claim_sql, reap_expired, select_ids, pick_each, take_rows,
  contains, taken_row,
}
use lottery_search_system.Postgres.Claims.{
  Collected, claim_tickets, terms, claim_loop, run_pass, claim_rows,
}
use lottery_search_system.Postgres.Loop.{NoPanic, IsFine}
use lottery_search_system.Postgres.Schedule.{start, later, reaped, released}
use lottery_search_system.Postgres.Safety.{sold_row_forever, lease_honoured}
use lottery_search_system.Postgres.Serves.{IsTimely, claim_tickets-Serves}
use lottery_search_system.Postgres.Promise.{Serves}
use lottery_search_system.Postgres.Spread.{DistinctNumbers, distinct_claim_sql-DistinctNumbers}
use lottery_search_system.Postgres.Reaper.{IsExpired, IsFreed, rewrites, reap_expired_lem}
use lottery_search_system.Postgres.{update_where}
use lottery_search_system.Postgres.Complete.{undisturbed, claim_tickets_complete}

pub undisturbed-IsTimely : (i : ℕ) → IsTimely "alice" 30 110 (undisturbed 100)
undisturbed-IsTimely i = record { before = omega arith; enough = omega arith; fair = λ t u. start }

claim_tickets-Serves_example :
    (x : Collected Table) × (claim_tickets outside outside
        (λ i. undisturbed 100)
        (λ i. undisturbed 100)
        ends_023
        3
        "alice"
        30
        table
      ≡ some x)
    × Serves ends_023 3 "alice" 110 table x.at x.out
    × IsFine NoPanic x.error
claim_tickets-Serves_example =
    claim_tickets-Serves ends_023 3 "alice" 30 110 table (codes "12*023") outside outside
      (λ i. undisturbed 100) (λ i. undisturbed 100) ends_023-parsed outside-IsEnough
      outside-IsEnough table-IsTable undisturbed-IsTimely undisturbed-IsTimely

-- The claim, run: the first pass takes ticket 1, and no other row matches.
abbrev pub ran : Collected Table
ran = record {
  at = taken_row (terms "alice" 30 100) free ∷ row ∷ [];
  out = record { ticket_id = 1; number = 127023; lease_until = 130 } ∷ [];
  error = none;
}

claim_runs :
    claim_tickets outside outside
      (λ i. undisturbed 100)
      (λ i. undisturbed 100)
      ends_023
      3
      "alice"
      30
      table
    ≡ some ran
unfolding claim_tickets run_pass claim_loop claim_rows claim_sql distinct_claim_sql pick_each
    select_ids take_rows contains candidates new_walker coprime_to gcd next next_batch number_at
    match_count
claim_runs = refl

pub matches_free : matches ends_023 127023 ≡ true
unfolding matches
matches_free = refl

pub ten_matches : match_count ends_023 ≤ 4096
unfolding match_count
ten_matches = omega arith

claim_tickets_complete_example : claimable_row 100 (taken_row (terms "alice" 30 100) free) ≡ false
unfolding find_row
claim_tickets_complete_example =
    claim_tickets_complete (codes "12*023") ends_023 outside outside (λ i. undisturbed 100) 3
      "alice" 30 100 table ran 1 (taken_row (terms "alice" 30 100) free) ends_023-parsed (λ i. refl)
      ten_matches claim_runs refl (omega arith) refl matches_free

-- The table after a sweep of the reaper at 120.
abbrev swept : Table
swept = (reap_expired (λ id. false) 120 10 table).0

lease_honoured_example :
    ((confirm_ticket answered answered (λ t. t) 126 0 "alice" 125 swept).1 ≡ done)
    × (find_row 0 (confirm_ticket answered answered (λ t. t) 126 0 "alice" 125 swept).0
        ≡ some (sold_row row))
lease_honoured_example =
    lease_honoured (λ t. t) 126 table swept 0 row "alice" 130 125 table-IsTable row_found
      (record { status = refl; owner = refl; lease = refl })
      (later start (reaped (λ id. false) 120 10 (omega arith) refl)) (omega arith)

abbrev sold_table : Table
sold_table = sold_row row ∷ []

sold_row_forever_example : find_row 0 (release_sql 0 "alice" sold_table).0 ≡ some (sold_row row)
unfolding find_row
sold_row_forever_example =
    sold_row_forever sold_table (release_sql 0 "alice" sold_table).0 0 (sold_row row) (refl, tt)
      refl refl (later start (released 0 "alice" tt refl))

distinct_claim_sql-DistinctNumbers_example :
    DistinctNumbers
      (distinct_claim_sql (λ id. false) (127023 ∷ 127024 ∷ []) (terms "bob" 30 200) 5 table).1
distinct_claim_sql-DistinctNumbers_example =
    distinct_claim_sql-DistinctNumbers (λ id. false) (127023 ∷ 127024 ∷ []) (terms "bob" 30 200) 5
      table table-IsTable

reap_expired_lem_example :
    ((reap_expired (λ id. false) 140 10 table).1 ≤ 10)
    × (rewrites table (reap_expired (λ id. false) 140 10 table).0
        ≡ (reap_expired (λ id. false) 140 10 table).1)
    × ((id : ℕ) (r : TicketRow)
        → find_row id table ≡ some r
        → (r' : TicketRow) × (find_row id (reap_expired (λ id. false) 140 10 table).0 ≡ some r')
          × (claimable_row 140 r' ≡ claimable_row 140 r)
          × ((r' ≡ r) ⊎ (IsExpired 140 r × IsFreed r r')))
reap_expired_lem_example = reap_expired_lem (λ id. false) 140 10 table table-IsTable

-- The sweep frees alice's ticket.
reap_expired_frees : (reap_expired (λ id. false) 140 10 table).1 ≡ 1
unfolding reap_expired select_ids contains update_where
reap_expired_frees = refl
