-- ===== src/Hybrid/Asked.antt =====
-- What a query of Claim leaves in the table, and what its rows leave in the hint and the map.
use Prim.Native.String.{String}
use lottery_search_system.Prelude.{
  ℕ, ◌≤◌, ◌≡◌, refl, subst, Bool, List, [], ◌∷◌, some, All, All-imp, ◌==◌, arith, Bool-cases, inl,
  inr, ◌>>=◌, some_inj,
}
use lottery_search_system.Prelude.Array.{update}
use lottery_search_system.TicketStore.{Reservation}
use lottery_search_system.Availability.{Availability}
use lottery_search_system.Availability.Valid.{IsHint}
use lottery_search_system.Postgres.{Table, answered, rejected, broken}
use lottery_search_system.Postgres.Rows.{IsTable}
use lottery_search_system.Postgres.Statements.{Terms, ClaimSql, claim_sql, distinct_claim_sql}
use lottery_search_system.Postgres.Takes.{Takes, claim_sql-Takes, distinct_claim_sql-Takes}
use lottery_search_system.Postgres.Claims.{Turn, Rows, rows, error, terms, claim_rows}
use lottery_search_system.Postgres.Loop.{NoPanic}
use lottery_search_system.Postgres.Schedule.{
  claimed, spread, start, later, Schedule-IsTable, Schedule-trans,
}
use lottery_search_system.Postgres.Numbers.{HasNumber}
use lottery_search_system.Hybrid.{Names, mark_claimed, remember}
use lottery_search_system.Hybrid.Sync.{Freely, mark_available-over}

pub mark_claimed-over :
    {space : ℕ} (batch : List Reservation) (a : Availability)
    → IsHint space a
    → (a' : Availability) × (mark_claimed space batch a ≡ some a')
      × IsHint space a'
      × ((m : ℕ) → a.counts.at m ≤ a'.counts.at m)
unfolding mark_claimed
mark_claimed-over [] a v = (a, refl, v, λ m. omega arith)
mark_claimed-over (r ∷ rs) a v =
    let (a', run, valid, higher) = mark_available-over r.number v in
    let (a'', rest, valid', higher') = mark_claimed-over rs a' valid in
    (a'', rw (mark_claimed, run, ◌>>=◌, rest) refl, valid', λ m. omega (arith, higher m, higher' m))

-- What is true of the entries before and of the batch is true of the entries after.
pub remember-known :
    (P : ℕ → ℕ → Type 0) (batch : List Reservation) (names : Names)
    → All (λ (r : Reservation). P r.ticket_id r.number) batch
    → ((id n : ℕ) → names id ≡ some n → P id n)
    → (id n : ℕ) → remember batch names id ≡ some n
    → P id n
unfolding remember
remember-known P [] names h k id n e = k id n e
remember-known P (r ∷ rs) names h k id n e =
    remember-known P rs (update names r.ticket_id (some r.number)) h.1
      (λ i m found. elim (Bool-cases (r.ticket_id == i)) [
        | inl own ↦
            let same : r.number ≡ m = some_inj (rw own at found) in
            let place : r.ticket_id ≡ i = ground arith in
            subst (λ j. P j m) place (subst (P r.ticket_id) same h.0)
        | inr other ↦ k i m (rw other at found)
      ])
      id n e

-- A statement that claims takes rows, and is one of a schedule.
abbrev pub IsFree : ClaimSql → Type 0
IsFree sql =
    (skipped : ℕ → Bool) (nums : List ℕ) (q : Terms) (limit : ℕ) (u : Table)
    → IsTable u
    → Takes nums q limit u (sql skipped nums q limit u).0 (sql skipped nums q limit u).1
      × Freely u (sql skipped nums q limit u).0

pub claim_sql-IsFree : IsFree claim_sql
claim_sql-IsFree skipped nums q limit u keyed = (
  claim_sql-Takes skipped nums q limit u keyed,
  later start (claimed skipped nums q limit tt refl),
)

pub distinct_claim_sql-IsFree : IsFree distinct_claim_sql
distinct_claim_sql-IsFree skipped nums q limit u keyed = (
  distinct_claim_sql-Takes skipped nums q limit u keyed,
  later start (spread skipped nums q limit tt refl),
)

-- What claimRows leaves, and what is true of the rows that it returns.
abbrev pub IsAsked : Table → Table × Rows → Type 0
IsAsked t (t', rows batch) =
    Freely t t' × All (λ (r : Reservation). HasNumber t' r.ticket_id r.number) batch
IsAsked t (t', error e) = Freely t t' × NoPanic e

pub claim_rows-IsAsked :
    (sql : ClaimSql) (holder : String) (lease : ℕ) (turn : Turn) (nums : List ℕ) (want : ℕ)
    (t : Table)
    → IsFree sql
    → ((t : Table) → IsTable t → Freely t (turn.others t))
    → IsTable t
    → IsAsked t (claim_rows sql holder lease turn nums want t)
unfolding claim_rows
claim_rows-IsAsked sql holder lease turn nums want t free fair u =
    let t' = turn.others t in
    let run : Freely t t' = fair t u in
    let q = terms holder lease turn.now in
    let (takes, ran) = free turn.skipped nums q want t' (Schedule-IsTable u run) in
    let all : Freely t (sql turn.skipped nums q want t').0 = Schedule-trans run ran in
    elim turn.fate
      as (λ fate.
        IsAsked t (claim_rows sql holder lease (record turn { fate = fate }) nums want t)) [
          | answered ↦ (all, All-imp (λ r e. (_, e.taken, e.number)) _ takes.each)
          | rejected ↦ (run, tt)
          | broken ↦ (all, tt)
        ]
