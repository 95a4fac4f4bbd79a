-- ===== src/Postgres.antt =====
-- postgres/store.go: Confirm, Release, explainFailure, Stats, on the table that their statements read
-- and write. A statement is atomic, and how it ends for the program is an argument. The ids are not
-- negative, as the server passes them, and the versions stay below the limit of an INTEGER.
pub mod Statements
pub mod Picks
pub mod Answers
pub mod Takes
pub mod Claims
pub mod Loop
pub mod Schedule
pub mod Safety
pub mod Promise
pub mod Serves
pub mod Spread
pub mod Reaper
pub mod Background
pub mod Unsold
pub mod Numbers
pub mod Whole
pub mod Complete
pub mod Rows
pub mod Confirm
pub mod Agree
pub mod Refusals
pub mod Ends
pub mod Freed
pub mod Tests
pub mod ClaimTests
use Prim.Native.String.{String}
use text.Mathlib.Text.{◌==◌ as str_eq}
use lottery_search_system.Prelude.{
  ℕ, zero, suc, ◌+◌, Bool, true, false, not, ◌&&◌, ◌||◌, List, [], ◌∷◌, Option, none, some, ltb,
  leb, ◌==◌, if◌then◌else◌,
}
use lottery_search_system.TicketStore.{
  Status, available, reserved, sold, not_held, lease_expired, ticket_not_found, StoreError, Answer,
  done, failed, troubled, is_reserved,
}

-- How a statement ends for the program: it answers, it fails without an effect, or it has run and its
-- answer is lost.
pub data Fate : Type 0 where
  answered rejected broken : Fate

-- A row of the table tickets. A column that is NULL is `none`.
pub record TicketRow : Type 0 where
  pub id : ℕ
  pub num : ℕ
  pub status : Status
  pub holder : Option String
  pub lease_until : Option ℕ
  pub version : ℕ

abbrev pub Table : Type 0
Table = List TicketRow

-- UPDATE ... SET ... WHERE ..., with the number of rows it writes.
unfoldable pub update_where : (TicketRow → Bool) → (TicketRow → TicketRow) → Table → Table × ℕ
update_where test change [] = ([], 0)
update_where test change (r ∷ rs) =
    let rest = update_where test change rs in
    if test r then (change r ∷ rest.0, 1 + rest.1) else (r ∷ rest.0, rest.1)

-- SELECT ... WHERE id = ..., of the primary key.
unfoldable pub find_row : ℕ → Table → Option TicketRow
find_row id [] = none
find_row id (r ∷ rs) = if r.id == id then some r else find_row id rs

-- A comparison with NULL is not true.
abbrev pub holder_is : Option String → String → Bool
holder_is none holder = false
holder_is (some owner) holder = str_eq owner holder

abbrev pub lease_live : Option ℕ → ℕ → Bool
lease_live none now = false
lease_live (some until) now = leb now until

abbrev pub lease_over : Option ℕ → ℕ → Bool
lease_over none now = false
lease_over (some until) now = ltb until now

abbrev pub row_held : TicketRow → String → Bool
row_held r holder = is_reserved r.status && holder_is r.holder holder

-- confirmSQL
abbrev pub confirm_test : String → ℕ → TicketRow → Bool
confirm_test holder now r = row_held r holder && lease_live r.lease_until now

abbrev pub sold_row : TicketRow → TicketRow
sold_row r = record r { status = sold; version = r.version + 1 }

unfoldable pub confirm_sql : ℕ → String → ℕ → Table → Table × ℕ
confirm_sql id holder now = update_where (λ r. (r.id == id) && confirm_test holder now r) sold_row

-- releaseSQL
abbrev pub freed_row : TicketRow → TicketRow
freed_row r = record r {
  status = available;
  holder = none;
  lease_until = none;
  version = r.version + 1;
}

unfoldable pub release_sql : ℕ → String → Table → Table × ℕ
release_sql id holder = update_where (λ r. (r.id == id) && row_held r holder) freed_row

-- What explainFailure says of the row it reads.
abbrev pub explain_row : Option TicketRow → String → ℕ → StoreError
explain_row none holder now = ticket_not_found
explain_row (some r) holder now =
    if not (row_held r holder)
    then not_held
    else (if lease_over r.lease_until now then lease_expired else not_held)

-- explainFailure, by how its query ends.
unfoldable pub explain_failure : Fate → Table → ℕ → String → ℕ → Answer
explain_failure read t id holder now = elim read [
  | answered ↦ failed (explain_row (find_row id t) holder now)
  | rejected ↦ troubled
  | broken ↦ troubled
]

-- Confirm. `exec` and `read` are how its statements end, `between` is what other transactions do between the two statements, and `later` the time
-- of the second.
unfoldable pub confirm_ticket :
    Fate → Fate → (Table → Table) → ℕ → ℕ → String → ℕ → Table → Table × Answer
confirm_ticket exec read between later id holder now t =
    let (t', count) = confirm_sql id holder now t in
    elim exec [
      | answered ↦
          if count == 1
          then (t', done)
          else (between t', explain_failure read (between t') id holder later)
      | rejected ↦ (t, troubled)
      | broken ↦ (t', troubled)
    ]

-- Release.
unfoldable pub release_ticket :
    Fate → Fate → (Table → Table) → ℕ → ℕ → String → Table → Table × Answer
release_ticket exec read between later id holder t =
    let (t', count) = release_sql id holder t in
    elim exec [
      | answered ↦
          if count == 1
          then (t', done)
          else (between t', explain_failure read (between t') id holder later)
      | rejected ↦ (t, troubled)
      | broken ↦ (t', troubled)
    ]

-- Stats: the rows that are available, reserved and sold.
unfoldable pub count_where : (Status → Bool) → Table → ℕ
count_where test [] = 0
count_where test (r ∷ rs) = (if test r.status then 1 else 0) + count_where test rs
