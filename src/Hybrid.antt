-- ===== src/Hybrid.antt =====
-- postgres/hybrid.go: the store that asks its hint which numbers are worth a query. Its fields are a
-- state beside the table. Neither mutex is held across a query, so other goroutines change the hint
-- and the map while one runs.
pub mod Filter
pub mod Serves
pub mod Sync
pub mod Ops
pub mod Asked
pub mod Claims
pub mod Steps
pub mod Race
pub mod Background
pub mod Loads
pub mod Interleaved
pub mod MoveTests
pub mod Tests
use Prim.Native.String.{String}
use lottery_search_system.Prelude.{
  ℕ, zero, suc, Bool, true, false, List, [], ◌∷◌, Option, none, some, ◌==◌, if◌then◌else◌, ◌>>=◌,
}
use lottery_search_system.Prelude.Array.{update}
use lottery_search_system.Prelude.Int.{ℤ, pos}
use lottery_search_system.TicketStore.{Reservation, Answer, done, troubled}
use lottery_search_system.Pattern.{Pattern}
use lottery_search_system.Store.{Outside}
use lottery_search_system.Availability.{
  Availability, Query, new_availability, load_hint, maybe_available, mark_sold, mark_available,
  stats,
}
use lottery_search_system.Postgres.{
  Table, Fate, answered, rejected, broken, confirm_sql, release_sql, explain_failure,
}
use lottery_search_system.Postgres.Statements.{ClaimSql, claim_sql, distinct_claim_sql}
use lottery_search_system.Postgres.Claims.{
  Turn, Rows, rows, error, panicked, Ask, Collected, claim_rows, run_pass, top_up, spread_size,
  whole_size, none_yet,
}

-- A ticket's number, by its id, for the reservations that this replica handed out.
abbrev pub Names : Type 0
Names = ℕ → Option ℕ

-- The database, and what the store keeps beside it.
pub record Hybrid : Type 0 where
  pub table : Table
  pub hint : Availability
  pub number_of : Names

-- NewHybrid: an error of the load is returned, with no store.
unfoldable pub new_hybrid : ℕ → Query → ℕ → Table → Option (Option Hybrid)
new_hybrid space query now t = do
  (hint, fine) ← load_hint space query now (new_availability space)
  some (if fine then some (record { table = t; hint = hint; number_of = λ id. none }) else none)

-- filterByHint
unfoldable pub filter_by_hint : ℕ → Availability → List ℕ → Option (List ℕ)
filter_by_hint space a [] = some []
filter_by_hint space a (n ∷ ns) = do
  stocked ← maybe_available space a (pos n)
  rest ← filter_by_hint space a ns
  some (if stocked then n ∷ rest else rest)

-- The loops of reconcileAfterClaim.
unfoldable pub mark_claimed : ℕ → List Reservation → Availability → Option Availability
mark_claimed space [] a = some a
mark_claimed space (r ∷ rs) a = do
  a' ← mark_available space a (pos r.number)
  mark_claimed space rs a'

unfoldable pub remember : List Reservation → Names → Names
remember [] names = names
remember (r ∷ rs) names = remember rs (update names r.ticket_id (some r.number))

unfoldable pub reconcile_after_claim : ℕ → List Reservation → Hybrid → Option Hybrid
reconcile_after_claim space batch s = do
  hint ← mark_claimed space batch s.hint
  some (record s { hint = hint; number_of = remember batch s.number_of })

-- A round, with what other goroutines do to the hint before the filter reads it, and to the hint and
-- the map while the query runs.
pub record HybridTurn : Type 0 where
  pub db : Turn
  pub before : Availability → Availability
  pub during : Availability → Availability
  pub names : Names → Names

-- The end of a round, by what claimRows returned.
abbrev pub reconciled : ℕ → Hybrid → Rows → Hybrid × Rows
reconciled space s (error e) = (s, error e)
reconciled space s (rows batch) = elim (reconcile_after_claim space batch s) [
  | none ↦ (s, error panicked)
  | some s' ↦ (s', rows batch)
]

-- The query on the numbers that the filter left.
abbrev pub asked :
    ℕ → ClaimSql → String → ℕ → HybridTurn → ℕ → Hybrid → Option (List ℕ) → Hybrid × Rows
asked space sql holder lease turn want s none = (s, error panicked)
asked space sql holder lease turn want s (some []) = (s, rows [])
asked space sql holder lease turn want s (some (n ∷ ns)) =
    let (t, answer) = claim_rows sql holder lease turn.db (n ∷ ns) want s.table in
    reconciled space
      (record { table = t; hint = turn.during s.hint; number_of = turn.names s.number_of }) answer

-- A round of Claim, after its candidates are generated.
unfoldable pub ask_hybrid :
    ℕ → ClaimSql → String → ℕ → HybridTurn → List ℕ → ℕ → Hybrid → Hybrid × Rows
ask_hybrid space sql holder lease turn raw want s =
    let hint = turn.before s.hint in
    asked space sql holder lease turn want (record s { hint = hint })
      (filter_by_hint space hint raw)

-- Claim, for a lease that is not negative.
unfoldable pub claim_hybrid :
    ℕ
    → Outside
    → Outside
    → (ℕ → HybridTurn)
    → (ℕ → HybridTurn)
    → Pattern
    → ℕ
    → String
    → ℕ
    → Hybrid
    → Option (Collected Hybrid)
claim_hybrid space first second turns turns' p k holder lease s = elim k [
  | zero ↦ some (none_yet s)
  | suc k' ↦ (do
    x ←
        run_pass first spread_size (λ i. ask_hybrid space distinct_claim_sql holder lease (turns i))
          p (suc k') (none_yet s)
    top_up (suc k')
        (run_pass second whole_size (λ i. ask_hybrid space claim_sql holder lease (turns' i)) p
          (suc k'))
        x)
]

-- forgetNumber, with the map after it.
unfoldable pub forget_number : ℕ → Names → Option ℕ × Names
forget_number id names = elim (names id) [
  | none ↦ (none, names)
  | some n ↦ (some n, update names id none)
]

-- The mark of a sale or a release, if the number is known.
abbrev pub mark_known :
    ℕ → (ℕ → Availability → ℤ → Option Availability) → Option ℕ → Availability → Option Availability
mark_known space mark none a = some a
mark_known space mark (some n) a = mark space a (pos n)

-- The end of Confirm and Release, where the statement wrote a row. `during` is what other goroutines
-- do to the hint before the mark.
abbrev pub marked :
    ℕ
    → (ℕ → Availability → ℤ → Option Availability)
    → (Availability → Availability)
    → ℕ
    → Table
    → Hybrid
    → Option (Hybrid × Answer)
marked space mark during id t s =
    let (known, names) = forget_number id s.number_of in
    (do
      hint ← mark_known space mark known (during s.hint)
      some (record { table = t; hint = hint; number_of = names }, done))

-- Confirm
unfoldable pub confirm_hybrid :
    ℕ
    → Fate
    → Fate
    → (Table → Table)
    → ℕ
    → (Availability → Availability)
    → ℕ
    → String
    → ℕ
    → Hybrid
    → Option (Hybrid × Answer)
confirm_hybrid space exec read between later during id holder now s =
    let (t, count) = confirm_sql id holder now s.table in
    elim exec [
      | answered ↦
          if count == 1
          then marked space mark_sold during id t s
          else some
              (record s { table = between t }, explain_failure read (between t) id holder later)
      | rejected ↦ some (s, troubled)
      | broken ↦ some (record s { table = t }, troubled)
    ]

-- Release
unfoldable pub release_hybrid :
    ℕ
    → Fate
    → Fate
    → (Table → Table)
    → ℕ
    → (Availability → Availability)
    → ℕ
    → String
    → Hybrid
    → Option (Hybrid × Answer)
release_hybrid space exec read between later during id holder s =
    let (t, count) = release_sql id holder s.table in
    elim exec [
      | answered ↦
          if count == 1
          then marked space mark_available during id t s
          else some
              (record s { table = between t }, explain_failure read (between t) id holder later)
      | rejected ↦ some (s, troubled)
      | broken ↦ some (record s { table = t }, troubled)
    ]

-- Refresh, with whether it returns no error.
unfoldable pub refresh : ℕ → Query → ℕ → Hybrid → Option (Hybrid × Bool)
refresh space query now s = do
  (fresh, fine) ← load_hint space query now (new_availability space)
  some (if fine then record s { hint = fresh } else s, fine)

-- RunListener's step, on the number that Sscanf reads from a notification. `none`: it reads none.
unfoldable pub notified : ℕ → Option ℤ → Hybrid → Option Hybrid
notified space none s = some s
notified space (some n) s = do hint ← mark_sold space s.hint n; some (record s { hint = hint })

-- HintStats
unfoldable pub hint_stats : Hybrid → ℕ × ℕ
hint_stats s = stats s.hint
