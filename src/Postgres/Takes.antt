-- ===== src/Postgres/Takes.antt =====
-- What a statement that claims does to a table.
use lottery_search_system.Prelude.{
  ℕ, ◌≤◌, ◌≡◌, ◌≢◌, refl, ap, sym, ◌∙◌, subst, Bool, true, false, ◌&&◌, List, some, take, length,
  All, All-imp, ◌==◌, if◌then◌else◌, arith, Bool-cases, Option-cases, inl, inr, some_inj,
  none-ne-some,
}
use mathlib.Core.Option
use lottery_search_system.TicketStore.{Reservation}
use lottery_search_system.Store.Claimed.{Distinct}
use lottery_search_system.Postgres.{TicketRow, Table, find_row}
use lottery_search_system.Postgres.Rows.{IsTable}
use lottery_search_system.Postgres.Statements.{
  contains, select_ids, Terms, taken_row, take_rows, pick_each, claimable_row, claim_sql,
  distinct_claim_sql, sharded_claim_sql,
}
use lottery_search_system.Postgres.Answers.{
  length-take_rows, rows_in-le-length, find_row-take_rows, take_rows-IsEntry, take_rows_all,
  take_rows-Distinct,
}
use lottery_search_system.Postgres.Picks.{
  update_where-IsTable, take_rows-update_where, find_row_id, Picked, select_ids-Picked,
  length-select_ids, contains-take, length-take-le, number_test, pick_each-Picked, rewritten,
}

-- One entry of the answer: the row of a ticket that is asked for, claimable before, and taken after.
pub record IsTakenRow (nums : List ℕ) (q : Terms) (t t' : Table) (x : Reservation) : Type 0 where
  pub row : TicketRow
  pub found : find_row x.ticket_id t ≡ some row
  pub number : row.num ≡ x.number
  pub asked : contains nums x.number ≡ true
  pub claimable : claimable_row q.now row ≡ true
  pub taken : find_row x.ticket_id t' ≡ some (taken_row q row)
  pub told : x.lease_until ≡ q.until

-- The statement answers with the rows that it took, each once and at most `limit`, and every other row
-- is as it was.
pub record Takes (nums : List ℕ) (q : Terms) (limit : ℕ) (t t' : Table) (out : List Reservation)
    : Type 0 where
  pub keyed : IsTable t'
  pub few : length out ≤ limit
  pub each : All (IsTakenRow nums q t t') out
  pub distinct : Distinct out
  pub others :
      (j : ℕ) → All (λ (x : Reservation). x.ticket_id ≢ j) out → find_row j t' ≡ find_row j t

module _ (ids : List ℕ) (q : Terms) where
  abbrev change : TicketRow → TicketRow
  change = rewritten (λ r. contains ids r.id) (taken_row q)

  -- The statement, if its ids are picked by a test that only lets claimable rows of these numbers
  -- pass.
  take_rows-Takes :
      (nums : List ℕ) (limit : ℕ) (t : Table)
      → IsTable t
      → length ids ≤ limit
      → ((j : ℕ)
          → contains ids j ≡ true
          → Picked (λ r. contains nums r.num && claimable_row q.now r) t j)
      → Takes nums q limit t (take_rows ids q t).0 (take_rows ids q t).1
  take_rows-Takes nums limit t u few picked = record {
    keyed =
        subst IsTable (sym (take_rows-update_where ids q t))
          (update_where-IsTable (λ r. contains ids r.id) (taken_row q) (λ r. refl) t u);
    few = omega (arith, length-take_rows ids q t, rows_in-le-length ids t u);
    each =
        All-imp
          (λ x e.
            let (r, found, passes) = picked x.ticket_id e.listed in
            let same : e.row ≡ r = some_inj (sym e.found ∙ found) in
            let own : e.row.id ≡ x.ticket_id = find_row_id x.ticket_id t e.row e.found in
            let hit : contains ids e.row.id ≡ true = ap (contains ids) own ∙ e.listed in
            let passes' : contains nums e.row.num && claimable_row q.now e.row ≡ true =
              ap (λ r. contains nums r.num && claimable_row q.now r) same ∙ passes in
            record {
              row = e.row;
              found = e.found;
              number = e.number;
              asked = ap (contains nums) (sym e.number) ∙ ground arith;
              claimable = ground arith;
              taken =
                  find_row-take_rows ids q x.ticket_id t
                  ∙ ap (Option.map change) e.found
                  ∙ ap (λ b. some (if b then taken_row q e.row else e.row)) hit;
              told = e.told;
            })
          (take_rows ids q t).1 (take_rows-IsEntry ids q t u);
    distinct = take_rows-Distinct ids q t u;
    others = λ j absent. elim (Option-cases (find_row j t)) [
      | inl absent' ↦ find_row-take_rows ids q j t ∙ ap (Option.map change) absent' ∙ sym absent'
      | inr (r, found) ↦ elim (Bool-cases (contains ids j)) [
        | inl hit ↦ absurd (none-ne-some (sym (take_rows_all ids q j t absent hit) ∙ found))
        | inr miss ↦
            let skip : contains ids r.id ≡ false =
              ap (contains ids) (find_row_id j t r found) ∙ miss in
            find_row-take_rows ids q j t
            ∙ ap (Option.map change) found
            ∙ ap (λ b. some (if b then taken_row q r else r)) skip
            ∙ sym found
      ]
    ];
  }

-- A statement that claims is an UPDATE of ids that it has picked, at most `limit`.
pub record IsPick (nums : List ℕ) (q : Terms) (limit : ℕ) (t : Table)
    (result : Table × List Reservation) : Type 0 where
  pub ids : List ℕ
  pub is_update : result ≡ take_rows ids q t
  pub few : length ids ≤ limit
  pub picked :
      (j : ℕ)
      → contains ids j ≡ true
      → Picked (λ r. contains nums r.num && claimable_row q.now r) t j

IsPick-Takes :
    {nums : List ℕ} {q : Terms} {limit : ℕ} {t : Table} {result : Table × List Reservation}
    → IsTable t
    → IsPick nums q limit t result
    → Takes nums q limit t result.0 result.1
IsPick-Takes {nums = nums} {q = q} {limit = limit} {t = t} u p =
    subst (λ x. Takes nums q limit t x.0 x.1) (sym p.is_update)
      (take_rows-Takes p.ids q nums limit t u p.few p.picked)

number_test_passes :
    (nums : List ℕ) (now n : ℕ) (r : TicketRow)
    → contains nums n ≡ true
    → number_test now n r ≡ true
    → contains nums r.num && claimable_row now r ≡ true
number_test_passes nums now n r listed h =
    let e : r.num ≡ n = ground arith in rw (e, listed) (ground arith)

shard_test_passes :
    (shard_of : ℕ → ℕ) (shard : ℕ) (nums : List ℕ) (now : ℕ) (r : TicketRow)
    → (shard_of r.id == shard) && (contains nums r.num && claimable_row now r) ≡ true
    → contains nums r.num && claimable_row now r ≡ true
shard_test_passes shard_of shard nums now r h = ground arith

module _ (skipped : ℕ → Bool) (nums : List ℕ) (q : Terms) (limit : ℕ) (t : Table)
    (u : IsTable t) where
  pub claim_sql-IsPick : IsPick nums q limit t (claim_sql skipped nums q limit t)
  unfolding claim_sql
  claim_sql-IsPick =
      let test : TicketRow → Bool = λ r. contains nums r.num && claimable_row q.now r in
      record {
        ids = select_ids skipped test limit t;
        is_update = refl;
        few = length-select_ids skipped test limit t;
        picked = λ j h. select_ids-Picked skipped test limit t j u h;
      }

  pub distinct_claim_sql-IsPick : IsPick nums q limit t (distinct_claim_sql skipped nums q limit t)
  unfolding distinct_claim_sql
  distinct_claim_sql-IsPick =
      let ids = pick_each skipped q.now nums t in
      record {
        ids = take limit ids;
        is_update = refl;
        few = length-take-le limit ids;
        picked = λ j h.
            let (n, listed, _, (r, found, passes)) =
              pick_each-Picked skipped q.now nums t j u (contains-take limit ids j h) in
            (r, found, number_test_passes nums q.now n r listed passes);
      }

  pub sharded_claim_sql-IsPick :
      (shard_of : ℕ → ℕ) (shard : ℕ)
      → IsPick nums q limit t (sharded_claim_sql shard_of shard skipped nums q limit t)
  unfolding sharded_claim_sql
  sharded_claim_sql-IsPick shard_of shard =
      let test : TicketRow → Bool =
        λ r. (shard_of r.id == shard) && (contains nums r.num && claimable_row q.now r) in
      record {
        ids = select_ids skipped test limit t;
        is_update = refl;
        few = length-select_ids skipped test limit t;
        picked = λ j h.
            let (r, found, passes) = select_ids-Picked skipped test limit t j u h in
            (r, found, shard_test_passes shard_of shard nums q.now r passes);
      }

  -- On a table with the ids as keys, claimSQL answers with the rows that it took, each once and at most
  -- `limit`: rows of the numbers, which could be claimed. Every other row is as it was, whatever
  -- rows the database passes over.
  pub claim_sql-Takes :
      Takes nums q limit t (claim_sql skipped nums q limit t).0 (claim_sql skipped nums q limit t).1
  claim_sql-Takes = IsPick-Takes u claim_sql-IsPick

  pub distinct_claim_sql-Takes :
      Takes nums q limit t
        (distinct_claim_sql skipped nums q limit t).0
        (distinct_claim_sql skipped nums q limit t).1
  distinct_claim_sql-Takes = IsPick-Takes u distinct_claim_sql-IsPick

  pub sharded_claim_sql-Takes :
      (shard_of : ℕ → ℕ) (shard : ℕ)
      → Takes nums q limit t
          (sharded_claim_sql shard_of shard skipped nums q limit t).0
          (sharded_claim_sql shard_of shard skipped nums q limit t).1
  sharded_claim_sql-Takes shard_of shard = IsPick-Takes u (sharded_claim_sql-IsPick shard_of shard)
