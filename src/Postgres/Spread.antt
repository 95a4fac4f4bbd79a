-- ===== src/Postgres/Spread.antt =====
-- distinctClaimSQL takes one ticket of a number at most.
use lottery_search_system.Prelude.{
  ℕ, Bool, ◌≡◌, ◌≢◌, ap, sym, ◌∙◌, List, [], ◌∷◌, take, All, some_inj, arith,
}
use lottery_search_system.TicketStore.{Reservation}
use lottery_search_system.Store.Claimed.{Distinct}
use lottery_search_system.Postgres.{Table}
use lottery_search_system.Postgres.Rows.{IsTable}
use lottery_search_system.Postgres.Statements.{
  contains, Terms, pick_each, select_ids, take_rows, distinct_claim_sql,
}
use lottery_search_system.Postgres.Picks.{
  contains-take, length-select_ids, number_test, pick_each-Picked, at_most_one,
}
use lottery_search_system.Postgres.Answers.{IsEntry, take_rows-IsEntry}
use lottery_search_system.Postgres.Takes.{distinct_claim_sql-Takes}

-- The reservations are of different numbers.
abbrev pub DistinctNumbers : List Reservation → Type 0
DistinctNumbers [] = Unit
DistinctNumbers (x ∷ xs) = All (λ (y : Reservation). y.number ≢ x.number) xs × DistinctNumbers xs

-- Different tickets of which two of one number are the same ticket have different numbers.
DistinctNumbers-of :
    (P : Reservation → Type 0)
    → ((x y : Reservation) → P x → P y → y.number ≡ x.number → y.ticket_id ≡ x.ticket_id)
    → (xs : List Reservation) → All P xs
    → Distinct xs
    → DistinctNumbers xs
DistinctNumbers-of P one [] h d = tt
DistinctNumbers-of P one (x ∷ xs) h d = (both xs h.1 d.0, DistinctNumbers-of P one xs h.1 d.1)
  where
    both :
        (ys : List Reservation)
        → All P ys
        → All (λ (y : Reservation). y.ticket_id ≢ x.ticket_id) ys
        → All (λ (y : Reservation). y.number ≢ x.number) ys
    both [] k e = tt
    both (y ∷ ys) k e = ((λ same. e.0 (one x y h.0 k.0 same)), both ys k.1 e.1)

-- On a table with the ids as keys, distinctClaimSQL answers with tickets of different numbers, whatever
-- rows the database passes over.
pub distinct_claim_sql-DistinctNumbers :
    (skipped : ℕ → Bool) (nums : List ℕ) (q : Terms) (limit : ℕ) (t : Table)
    → IsTable t
    → DistinctNumbers (distinct_claim_sql skipped nums q limit t).1
unfolding distinct_claim_sql
distinct_claim_sql-DistinctNumbers skipped nums q limit t u =
    let all = pick_each skipped q.now nums t in
    let ids = take limit all in
    DistinctNumbers-of (IsEntry ids q t)
      (λ x y e d same.
        let (n, _, chosen, (r, found, passes)) =
          pick_each-Picked skipped q.now nums t x.ticket_id u
            (contains-take limit all x.ticket_id e.listed) in
        let (m, _, chosen', (r', found', passes')) =
          pick_each-Picked skipped q.now nums t y.ticket_id u
            (contains-take limit all y.ticket_id d.listed) in
        let row : e.row ≡ r = some_inj (sym e.found ∙ found) in
        let row' : d.row ≡ r' = some_inj (sym d.found ∙ found') in
        let number : r.num ≡ n = ground arith in
        let number' : r'.num ≡ m = ground arith in
        let numbers : m ≡ n =
          sym number'
          ∙ ap (λ r. r.num) (sym row')
          ∙ d.number
          ∙ same
          ∙ sym e.number
          ∙ ap (λ r. r.num) row
          ∙ number in
        at_most_one (select_ids skipped (number_test q.now n) 1 t) y.ticket_id x.ticket_id
          (length-select_ids skipped (number_test q.now n) 1 t)
          (ap (λ k. contains (select_ids skipped (number_test q.now k) 1 t) y.ticket_id)
              (sym numbers)
            ∙ chosen')
          chosen)
      (take_rows ids q t).1 (take_rows-IsEntry ids q t u)
      (distinct_claim_sql-Takes skipped nums q limit t u).distinct
