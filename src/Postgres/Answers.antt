-- ===== src/Postgres/Answers.antt =====
-- What RETURNING gives back.
use lottery_search_system.Prelude.{
  ℕ, ◌+◌, ◌≤◌, ◌≡◌, ◌≢◌, refl, ap, sym, ◌∙◌, subst, true, false, List, [], ◌∷◌, none, some, length,
  All, All-imp, ◌==◌, ==_self, if◌then◌else◌, arith, Bool-cases, inl, inr, none-ne-some,
}
use mathlib.Core.Option
use lottery_search_system.TicketStore.{Reservation}
use lottery_search_system.Store.Claimed.{Distinct}
use lottery_search_system.Postgres.{TicketRow, Table, find_row}
use lottery_search_system.Postgres.Rows.{IsTable, find_row_own, find_row_later}
use lottery_search_system.Postgres.Statements.{contains, Terms, taken_row, returned, take_rows}
use lottery_search_system.Postgres.Picks.{
  find_row-update_where, take_rows-update_where, find_row_tail, rewritten,
}

-- How many rows have a listed id.
unfoldable pub rows_in : List ℕ → Table → ℕ
rows_in ids [] = 0
rows_in ids (r ∷ rs) = (if contains ids r.id then 1 else 0) + rows_in ids rs

rows_in-none : (i : ℕ) (t : Table) → find_row i t ≡ none → rows_in (i ∷ []) t ≡ 0
unfolding rows_in contains find_row
rows_in-none i [] h = refl
rows_in-none i (r ∷ rs) h = ground (arith, rows_in-none i rs)

rows_in_one : (i : ℕ) (t : Table) → IsTable t → rows_in (i ∷ []) t ≤ 1
unfolding rows_in contains
rows_in_one i [] u = omega arith
rows_in_one i (r ∷ rs) u = elim (Bool-cases (i == r.id)) [
  | inl own ↦
      let e : r.id ≡ i = ground arith in
      ground (arith, rows_in-none i rs (ap (λ k. find_row k rs) (sym e) ∙ u.0))
  | inr other ↦ ground (arith, rows_in_one i rs u.1)
]

rows_in-cons :
    (i : ℕ) (ids : List ℕ) (t : Table) → rows_in (i ∷ ids) t ≤ rows_in (i ∷ []) t + rows_in ids t
unfolding rows_in contains
rows_in-cons i ids [] = omega arith
rows_in-cons i ids (r ∷ rs) = ground (arith, rows_in-cons i ids rs)

rows_in_nil : (t : Table) → rows_in [] t ≡ 0
unfolding rows_in contains
rows_in_nil [] = refl
rows_in_nil (r ∷ rs) = omega (arith, rows_in_nil rs)

pub rows_in-le-length : (ids : List ℕ) (t : Table) → IsTable t → rows_in ids t ≤ length ids
rows_in-le-length [] t u = omega (arith, rows_in_nil t)
rows_in-le-length (i ∷ ids) t u =
    omega (arith, rows_in-cons i ids t, rows_in_one i t u, rows_in-le-length ids t u)

module _ (ids : List ℕ) (q : Terms) where
  pub length-take_rows : (t : Table) → length (take_rows ids q t).1 ≡ rows_in ids t
  unfolding take_rows rows_in
  length-take_rows [] = refl
  length-take_rows (r ∷ rs) = ground (arith, length-take_rows rs)

  answer_hit :
      (r : TicketRow) (rs : Table)
      → contains ids r.id ≡ true
      → (take_rows ids q (r ∷ rs)).1 ≡ returned q r ∷ (take_rows ids q rs).1
  unfolding take_rows
  answer_hit r rs hit = rw hit refl

  answer_miss :
      (r : TicketRow) (rs : Table)
      → contains ids r.id ≡ false
      → (take_rows ids q (r ∷ rs)).1 ≡ (take_rows ids q rs).1
  unfolding take_rows
  answer_miss r rs miss = rw miss refl

  pub find_row-take_rows :
      (j : ℕ) (t : Table)
      → find_row j (take_rows ids q t).0
        ≡ Option.map (rewritten (λ r. contains ids r.id) (taken_row q)) (find_row j t)
  find_row-take_rows j t =
      ap (find_row j) (take_rows-update_where ids q t)
      ∙ find_row-update_where (λ r. contains ids r.id) (taken_row q) (λ r. refl) j t

  -- An entry stands for a row of the table with a listed id.
  pub record IsEntry (t : Table) (x : Reservation) : Type 0 where
    pub row : TicketRow
    pub found : find_row x.ticket_id t ≡ some row
    pub number : row.num ≡ x.number
    pub listed : contains ids x.ticket_id ≡ true
    pub told : x.lease_until ≡ q.until

  pub take_rows-IsEntry : (t : Table) → IsTable t → All (IsEntry t) (take_rows ids q t).1
  unfolding take_rows
  take_rows-IsEntry [] u = tt
  take_rows-IsEntry (r ∷ rs) u =
      let later : All (IsEntry (r ∷ rs)) (take_rows ids q rs).1 =
        All-imp
          (λ x e. record {
            row = e.row;
            found = find_row_tail x.ticket_id r rs e.row u e.found;
            number = e.number;
            listed = e.listed;
            told = e.told;
          })
          (take_rows ids q rs).1 (take_rows-IsEntry rs u.1) in
      elim (Bool-cases (contains ids r.id)) [
        | inl hit ↦ subst (All (IsEntry (r ∷ rs))) (sym (answer_hit r rs hit)) (
          record {
            row = r;
            found = find_row_own r.id r rs (==_self r.id);
            number = refl;
            listed = hit;
            told = refl;
          },
          later,
        )
        | inr miss ↦ subst (All (IsEntry (r ∷ rs))) (sym (answer_miss r rs miss)) later
      ]

  -- A row with a listed id is in the answer.
  pub take_rows_all :
      (j : ℕ) (t : Table)
      → All (λ (x : Reservation). x.ticket_id ≢ j) (take_rows ids q t).1
      → contains ids j ≡ true
      → find_row j t ≡ none
  unfolding take_rows find_row
  take_rows_all j [] h k = refl
  take_rows_all j (r ∷ rs) h k =
      let Absent : List Reservation → Type 0 = All (λ (x : Reservation). x.ticket_id ≢ j) in
      elim (Bool-cases (contains ids r.id)) [
        | inl hit ↦
            let (first, rest) = subst Absent (answer_hit r rs hit) h in
            find_row_later j r rs (ground arith) ∙ take_rows_all j rs rest k
        | inr miss ↦
            let other : r.id == j ≡ false = ground (arith) in
            find_row_later j r rs other
            ∙ take_rows_all j rs (subst Absent (answer_miss r rs miss) h) k
      ]

  pub take_rows-Distinct : (t : Table) → IsTable t → Distinct (take_rows ids q t).1
  unfolding take_rows
  take_rows-Distinct [] u = tt
  take_rows-Distinct (r ∷ rs) u = elim (Bool-cases (contains ids r.id)) [
    | inl hit ↦ subst Distinct (sym (answer_hit r rs hit)) (
      All-imp (λ x e same. none-ne-some (sym u.0 ∙ ap (λ i. find_row i rs) (sym same) ∙ e.found))
          (take_rows ids q rs).1 (take_rows-IsEntry rs u.1),
      take_rows-Distinct rs u.1,
    )
    | inr miss ↦ subst Distinct (sym (answer_miss r rs miss)) (take_rows-Distinct rs u.1)
  ]
