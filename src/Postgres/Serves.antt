-- ===== src/Postgres/Serves.antt =====
-- What a claim of the Postgres store promises, whatever other transactions do in between.
use Prim.Native.String.{String}
use lottery_search_system.Prelude.{
  ℕ, zero, suc, ◌+◌, ◌-◌, ◌≤◌, ◌<◌, ◌≡◌, refl, Bool, List, [], some, length, All, arith,
}
use lottery_search_system.TicketStore.{Reservation}
use lottery_search_system.Pattern.{Pattern, parsed, parse_pattern}
use lottery_search_system.Candidates.Complete.{Matching}
use lottery_search_system.Store.{Outside}
use lottery_search_system.Store.Claim.{IsEnough}
use lottery_search_system.Postgres.{Table, answered, rejected, broken}
use lottery_search_system.Postgres.Rows.{IsTable}
use lottery_search_system.Postgres.Statements.{Terms, ClaimSql, claim_sql, distinct_claim_sql}
use lottery_search_system.Postgres.Takes.{Takes, claim_sql-Takes, distinct_claim_sql-Takes}
use lottery_search_system.Postgres.Claims.{
  Turn, Collected, terms, claim_rows, run_pass, claim_tickets, none_yet, spread_size, whole_size,
}
use lottery_search_system.Postgres.Loop.{Kept, NoPanic, IsFine, run_pass-keeps, top_up-keeps}
use lottery_search_system.Postgres.Schedule.{Ran, claimed, spread, Schedule, start, later}
use lottery_search_system.Postgres.Safety.{Others}
use lottery_search_system.Postgres.Promise.{Serves, Serves-Schedule, Serves-Takes}

-- What is asked of the rounds: the statement's time is not after `latest` and its lease ends no
-- earlier, and the other transactions are statements up to then, of which only others confirm and
-- release.
pub record IsTimely (holder : String) (lease latest : ℕ) (turn : Turn) : Type 0 where
  pub before : turn.now ≤ latest
  pub enough : latest ≤ turn.now + lease
  pub fair :
      (t : Table) → IsTable t → Schedule (Others holder) (λ now. now ≤ latest) t (turn.others t)

module _ (p : Pattern) (k : ℕ) (holder : String) (lease latest : ℕ) (t : Table) where
  -- A statement that claims takes rows, and is one of a schedule.
  abbrev pub IsClaim : ClaimSql → Type 0
  IsClaim sql =
      (skipped : ℕ → Bool) (nums : List ℕ) (q : Terms) (limit : ℕ) (u : Table)
      → IsTable u
      → q.now ≤ latest
      → Takes nums q limit u (sql skipped nums q limit u).0 (sql skipped nums q limit u).1
        × Ran (Others holder) (λ now. now ≤ latest) u (sql skipped nums q limit u).0

  pub claim_sql-IsClaim : IsClaim claim_sql
  claim_sql-IsClaim skipped nums q limit u keyed before =
      (claim_sql-Takes skipped nums q limit u keyed, claimed skipped nums q limit before refl)

  pub distinct_claim_sql-IsClaim : IsClaim distinct_claim_sql
  distinct_claim_sql-IsClaim skipped nums q limit u keyed before = (
    distinct_claim_sql-Takes skipped nums q limit u keyed,
    spread skipped nums q limit before refl,
  )

  pub claim_rows-Serves :
      (sql : ClaimSql) (turn : Turn) (nums : List ℕ) (u : Table) (out : List Reservation)
      → IsClaim sql
      → IsTimely holder lease latest turn
      → All (Matching p) nums
      → length out < k
      → Serves p k holder latest t u out
      → Kept
          (Serves p k holder latest t)
          NoPanic
          out
          (claim_rows sql holder lease turn nums (k - length out) u)
  unfolding claim_rows
  claim_rows-Serves sql turn nums u out is_claim timely good room h =
      let u' = turn.others u in
      let h' : Serves p k holder latest t u' out = Serves-Schedule h (timely.fair u h.keyed) in
      let (takes, runs) =
        is_claim turn.skipped nums (terms holder lease turn.now) (k - length out) u' h'.keyed
          timely.before in
      elim turn.fate
        as (λ fate.
          Kept (Serves p k holder latest t) NoPanic out
            (claim_rows sql holder lease (record turn { fate = fate }) nums (k - length out) u)) [
              | answered ↦ Serves-Takes lease good room timely.before timely.enough h' runs takes
              | rejected ↦ (h', tt)
              | broken ↦ (Serves-Schedule h' (later start runs), tt)
            ]

  pub run_pass-Serves :
      (text : List ℕ) (o : Outside) (size : ℕ → ℕ) (sql : ClaimSql) (turns : ℕ → Turn)
      (x : Collected Table)
      → parse_pattern text ≡ parsed p
      → IsEnough p o
      → IsClaim sql
      → ((i : ℕ) → IsTimely holder lease latest (turns i))
      → Serves p k holder latest t x.at x.out
      → IsFine NoPanic x.error
      → (y : Collected Table) × (run_pass o size (λ i. claim_rows sql holder lease (turns i)) p k x
          ≡ some y)
        × Serves p k holder latest t y.at y.out
        × IsFine NoPanic y.error
  run_pass-Serves text o size sql turns x ok e is_claim timely h f =
      run_pass-keeps k size (λ i. claim_rows sql holder lease (turns i))
        (Serves p k holder latest t) NoPanic text p o x
        (λ i nums u out good room h.
          claim_rows-Serves sql (turns i) nums u out is_claim (timely i) good room h)
        tt ok e h f

  pub begun : IsTable t → Serves p k holder latest t t []
  begun keyed = record { keyed = keyed; few = omega arith; distinct = tt; each = tt; run = start }

-- For an accepted pattern and usable draws, whatever other transactions do between the statements of
-- the call and however the statements end: if the times of all of these are up to `latest`, when no
-- lease of the call has ended, and only others confirm and release, Claim returns. It has run
-- statements alone, kept the ids as keys, and collected at most `k` reservations, of different
-- tickets whose numbers match. The row of each is held by the holder until the time that the
-- reservation tells. The code does not panic.
pub claim_tickets-Serves :
    (p : Pattern) (k : ℕ) (holder : String) (lease latest : ℕ) (t : Table) (text : List ℕ)
    (first second : Outside) (turns turns' : ℕ → Turn)
    → parse_pattern text ≡ parsed p
    → IsEnough p first
    → IsEnough p second
    → IsTable t
    → ((i : ℕ) → IsTimely holder lease latest (turns i))
    → ((i : ℕ) → IsTimely holder lease latest (turns' i))
    → (x : Collected Table) × (claim_tickets first second turns turns' p k holder lease t ≡ some x)
      × Serves p k holder latest t x.at x.out
      × IsFine NoPanic x.error
unfolding claim_tickets
claim_tickets-Serves p zero holder lease latest t text first second turns turns' ok e e' keyed
      timely timely' =
    (none_yet t, refl, begun p zero holder lease latest t keyed, tt)
claim_tickets-Serves p (suc k) holder lease latest t text first second turns turns' ok e e' keyed
      timely timely' =
    let (x, run, h, f) =
      run_pass-Serves p (suc k) holder lease latest t text first spread_size distinct_claim_sql
        turns (none_yet t) ok e (distinct_claim_sql-IsClaim p (suc k) holder lease latest t) timely
        (begun p (suc k) holder lease latest t keyed) tt in
    let (y, run', h', f') =
      top_up-keeps (Serves p (suc k) holder latest t) NoPanic (suc k) _
        (λ x h f.
          run_pass-Serves p (suc k) holder lease latest t text second whole_size claim_sql turns' x
            ok e' (claim_sql-IsClaim p (suc k) holder lease latest t) timely' h f)
        x h f in
    (y, rw run run', h', f')
