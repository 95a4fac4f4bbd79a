-- ===== src/Postgres/Tests.antt =====
-- store.go of the Postgres store, on a table of two rows.
use lottery_search_system.Prelude.{◌≡◌, refl, [], ◌∷◌, none, some, arith}
use lottery_search_system.Prelude.Int.{pos}
use lottery_search_system.TicketStore.{
  available, reserved, Answer, done, failed, not_held, ticket_not_found,
}
use lottery_search_system.Store.{MemoryStore, confirm}
use lottery_search_system.Store.Tests.{two_tickets, held, held-IsStore}
use lottery_search_system.Pattern.{number_space}
use lottery_search_system.Postgres.{
  TicketRow, Table, find_row, answered, update_where, sold_row, confirm_sql, confirm_ticket,
  explain_failure, release_ticket, release_sql, freed_row,
}
use lottery_search_system.Postgres.Rows.{IsTable}
use lottery_search_system.Postgres.{broken}
use lottery_search_system.TicketStore.{troubled}
use lottery_search_system.Postgres.Confirm.{IsMirror}
use lottery_search_system.Postgres.Ends.{Ends, confirm_ticket-Ends}
use lottery_search_system.Postgres.Freed.{Returns, release_ticket-Returns}
use lottery_search_system.Postgres.Agree.{confirm_alone, confirm_ticket-confirm}

abbrev pub row : TicketRow
row = record {
  id = 0;
  num = 127024;
  status = reserved;
  holder = some "alice";
  lease_until = some 130;
  version = 1;
}

abbrev pub free : TicketRow
free = record {
  id = 1;
  num = 127023;
  status = available;
  holder = none;
  lease_until = none;
  version = 0;
}

abbrev pub table : Table
table = free ∷ row ∷ []

pub table-IsTable : IsTable table
unfolding find_row
table-IsTable = (refl, (refl, tt))

pub row_found : find_row 0 table ≡ some row
unfolding find_row
row_found = refl

confirm_free :
    (confirm_ticket answered answered (λ t. t) 120 1 "alice" 120 table).1 ≡ failed not_held
unfolding confirm_ticket confirm_sql update_where explain_failure find_row
confirm_free = refl

confirm_missing :
    (confirm_ticket answered answered (λ t. t) 120 5 "alice" 120 table).1 ≡ failed ticket_not_found
unfolding confirm_ticket confirm_sql update_where explain_failure find_row
confirm_missing = refl

-- Alice buys her ticket; the database forgets it afterwards.
confirm_ticket-Ends_example :
    Ends answered broken
      (λ t. [])
      121
      0
      "alice"
      120
      table
      (confirm_ticket answered broken (λ t. []) 121 0 "alice" 120 table)
confirm_ticket-Ends_example =
    confirm_ticket-Ends answered broken (λ t. []) 121 0 "alice" 120 table table-IsTable

-- A sale whose answer is lost.
confirm_lost :
    confirm_ticket broken answered (λ t. t) 120 0 "alice" 120 table
    ≡ (free ∷ sold_row row ∷ [], troubled)
unfolding confirm_ticket confirm_sql update_where
confirm_lost = refl

-- Alice gives her ticket back.
release_own :
    release_ticket answered answered (λ t. t) 120 0 "alice" table
    ≡ (free ∷ freed_row row ∷ [], done)
unfolding release_ticket release_sql update_where
release_own = refl

release_ticket-Returns_example :
    Returns answered answered
      (λ t. t)
      121
      0
      "alice"
      table
      (release_ticket answered answered (λ t. t) 121 0 "alice" table)
release_ticket-Returns_example =
    release_ticket-Returns answered answered (λ t. t) 121 0 "alice" table table-IsTable

row-IsMirror : IsMirror held 0 row
row-IsMirror = record { status = refl; holder = λ e. refl; lease = λ e. refl }

confirm_ticket-confirm_example :
    (a : Answer) × (s' : MemoryStore) × (r' : TicketRow) × (confirm held (pos 0) "alice" 120
      ≡ some (s', a))
    × ((confirm_alone 0 "alice" 120 table).1 ≡ a)
    × (find_row 0 (confirm_alone 0 "alice" 120 table).0 ≡ some r')
    × IsMirror s' 0 r'
confirm_ticket-confirm_example =
    confirm_ticket-confirm number_space two_tickets held table row 0 "alice" 120 held-IsStore
      (omega arith) table-IsTable row_found row-IsMirror
