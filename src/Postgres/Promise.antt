-- ===== src/Postgres/Promise.antt =====
-- What a claim of the Postgres store promises of a table, and that statements keep the promise.
use Prim.Native.String.{String}
use lottery_search_system.Prelude.{
  ℕ, ◌+◌, ◌-◌, ◌≤◌, ◌<◌, ◌≡◌, ◌≢◌, refl, ap, sym, ◌∙◌, subst, true, List, [], ◌∷◌, ◌++◌, some,
  length, length-append, ◌==◌, All, All-imp, All-append, arith, Bool-cases, inl, inr, some_inj,
}
use lottery_search_system.TicketStore.{Reservation}
use lottery_search_system.Pattern.{Pattern, matches}
use lottery_search_system.Candidates.Complete.{Matching}
use lottery_search_system.Store.Claimed.{Distinct}
use lottery_search_system.Postgres.{TicketRow, Table, find_row}
use lottery_search_system.Postgres.Rows.{IsTable}
use lottery_search_system.Postgres.Statements.{contains, taken_row, claimable_row}
use lottery_search_system.Postgres.Takes.{IsTakenRow, Takes}
use lottery_search_system.Postgres.Claims.{terms}
use lottery_search_system.Postgres.Schedule.{
  Ran, Schedule, start, later, Schedule-IsTable, Schedule-kept, Schedule-trans,
}
use lottery_search_system.Postgres.Safety.{IsHeldRow, Others, held-IsSafe}

Distinct-both :
    (xs ys : List Reservation)
    → Distinct xs
    → Distinct ys
    → All (λ (x : Reservation). All (λ (y : Reservation). y.ticket_id ≢ x.ticket_id) ys) xs
    → Distinct (xs ++ ys)
Distinct-both [] ys d e apart = e
Distinct-both (x ∷ xs) ys d e apart =
    (All-append _ xs ys d.0 apart.0, Distinct-both xs ys d.1 e apart.1)

-- A reservation of a matching ticket whose row is held, until the time told, which is no earlier
-- than `latest`.
pub record IsKeptFor (p : Pattern) (holder : String) (latest : ℕ) (t : Table) (x : Reservation)
    : Type 0 where
  pub row : TicketRow
  pub found : find_row x.ticket_id t ≡ some row
  pub number : row.num ≡ x.number
  pub matching : matches p x.number ≡ true
  pub held : IsHeldRow holder x.lease_until row
  pub long : latest ≤ x.lease_until

-- At a table, after a claim that started at `t`.
pub record Serves (p : Pattern) (k : ℕ) (holder : String) (latest : ℕ) (t t' : Table)
    (out : List Reservation) : Type 0 where
  pub keyed : IsTable t'
  pub few : length out ≤ k
  pub distinct : Distinct out
  pub each : All (IsKeptFor p holder latest t') out
  pub run : Schedule (Others holder) (λ now. now ≤ latest) t t'

contains-Matching :
    (p : Pattern) (nums : List ℕ) (n : ℕ)
    → All (Matching p) nums
    → contains nums n ≡ true
    → matches p n ≡ true
unfolding contains
contains-Matching p [] n h k = cc
contains-Matching p (m ∷ ms) n h k = elim (Bool-cases (m == n)) [
  | inl same ↦ subst (Matching p) (ground arith) h.0
  | inr other ↦ contains-Matching p ms n h.1 (ground arith)
]

module _ {p : Pattern} {k : ℕ} {holder : String} {latest : ℕ} {t : Table} where
  -- The rows of one more schedule.
  pub Serves-Schedule :
      {u v : Table} {out : List Reservation}
      → Serves p k holder latest t u out
      → Schedule (Others holder) (λ now. now ≤ latest) u v
      → Serves p k holder latest t v out
  Serves-Schedule h s = record {
    keyed = Schedule-IsTable h.keyed s;
    few = h.few;
    distinct = h.distinct;
    each =
        All-imp
          (λ x e. record {
            row = e.row;
            found =
                Schedule-kept x.ticket_id e.row h.keyed e.found
                  (held-IsSafe holder x.lease_until latest e.row e.held e.long) s;
            number = e.number;
            matching = e.matching;
            held = e.held;
            long = e.long;
          })
          _ h.each;
    run = Schedule-trans h.run s;
  }

  pub Serves-Takes :
      {nums : List ℕ} {now : ℕ} {u v : Table} {out batch : List Reservation} (lease : ℕ)
      → All (Matching p) nums
      → length out < k
      → now ≤ latest
      → latest ≤ now + lease
      → Serves p k holder latest t u out
      → Ran (Others holder) (λ time. time ≤ latest) u v
      → Takes nums (terms holder lease now) (k - length out) u v batch
      → Serves p k holder latest t v (out ++ batch)
  Serves-Takes {nums = nums} {now = now} {u = u} {v = v} {out = out} {batch = batch} lease good room
        before enough h r c =
      let still = Serves-Schedule h (later start r) in
      let q = terms holder lease now in
      let new : (y : Reservation) → IsTakenRow nums q u v y → IsKeptFor p holder latest v y = λ y e.
        record {
          row = taken_row q e.row;
          found = e.taken;
          number = e.number;
          matching = contains-Matching p nums y.number good e.asked;
          held = record { status = refl; owner = refl; lease = ap some (sym e.told) };
          long = omega (arith, e.told);
        } in
      let apart : (x y : Reservation)
          → IsKeptFor p holder latest u x
          → IsTakenRow nums q u v y
          → y.ticket_id ≢ x.ticket_id =
        λ x y d e same.
          let row : e.row ≡ d.row =
            some_inj (sym e.found ∙ ap (λ i. find_row i u) same ∙ d.found) in
          let safe = held-IsSafe holder x.lease_until latest d.row d.held d.long in
          cc (e.claimable, ap (claimable_row now) row, safe.unclaimable now before) in
      record {
        keyed = c.keyed;
        few = omega (arith, length-append out batch, c.few);
        distinct =
            Distinct-both out batch h.distinct c.distinct
              (All-imp (λ x d. All-imp (λ y e. apart x y d e) batch c.each) out h.each);
        each = All-append _ out batch still.each (All-imp new batch c.each);
        run = still.run;
      }
