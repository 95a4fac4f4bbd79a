-- ===== src/Postgres/Picks.antt =====
-- Which rows the statements pick, and what they write.
use lottery_search_system.Prelude.{
  ℕ, zero, suc, ◌≤◌, ◌≡◌, refl, ap, sym, ◌∙◌, Bool, true, not, ◌&&◌, ◌||◌, List, [], ◌∷◌, ◌++◌,
  some, take, length, ◌==◌, if◌then◌else◌, arith, Bool-cases, inl, inr, some_inj, none-ne-some,
  subst,
}
use mathlib.Core.Option
use lottery_search_system.Postgres.{TicketRow, Table, update_where, find_row}
use lottery_search_system.Postgres.Rows.{IsTable, find_row_own, find_row_later}
use lottery_search_system.Postgres.Statements.{
  contains, select_ids, Terms, taken_row, take_rows, pick_each, claimable_row,
}

-- The row of an UPDATE's table, by the row before.
abbrev pub rewritten : (TicketRow → Bool) → (TicketRow → TicketRow) → TicketRow → TicketRow
rewritten test change r = if test r then change r else r

module _ (test : TicketRow → Bool) (change : TicketRow → TicketRow)
    (keeps : (r : TicketRow) → (change r).id ≡ r.id) where
  rewritten_id : (r : TicketRow) → (rewritten test change r).id ≡ r.id
  rewritten_id r = elim (Bool-cases (test r)) [
    | inl hit ↦ rw hit (keeps r)
    | inr miss ↦ rw miss refl
  ]

  pub update_where-cons :
      (r : TicketRow) (rs : Table)
      → (update_where test change (r ∷ rs)).0
        ≡ rewritten test change r ∷ (update_where test change rs).0
  unfolding update_where
  update_where-cons r rs = elim (Bool-cases (test r)) [
    | inl hit ↦ rw hit refl
    | inr miss ↦ rw miss refl
  ]

  pub find_row-update_where :
      (j : ℕ) (t : Table)
      → find_row j (update_where test change t).0
        ≡ Option.map (rewritten test change) (find_row j t)
  unfolding find_row update_where
  find_row-update_where j [] = refl
  find_row-update_where j (r ∷ rs) =
      let r' = rewritten test change r in
      let rs' = (update_where test change rs).0 in
      ap (find_row j) (update_where-cons r rs) ∙ elim (Bool-cases (r.id == j)) [
        | inl own ↦
            find_row_own j r' rs' (ap (λ i. i == j) (rewritten_id r) ∙ own)
            ∙ ap (Option.map (rewritten test change)) (sym (find_row_own j r rs own))
        | inr other ↦
            find_row_later j r' rs' (ap (λ i. i == j) (rewritten_id r) ∙ other)
            ∙ find_row-update_where j rs
            ∙ ap (Option.map (rewritten test change)) (sym (find_row_later j r rs other))
      ]

  pub update_where-IsTable : (t : Table) → IsTable t → IsTable (update_where test change t).0
  unfolding update_where
  update_where-IsTable [] u = tt
  update_where-IsTable (r ∷ rs) u = subst IsTable (sym (update_where-cons r rs)) (
    ap (λ i. find_row i (update_where test change rs).0) (rewritten_id r)
        ∙ find_row-update_where r.id rs
        ∙ ap (Option.map (rewritten test change)) u.0,
    update_where-IsTable rs u.1,
  )

pub take_rows-update_where :
    (ids : List ℕ) (q : Terms) (t : Table)
    → (take_rows ids q t).0 ≡ (update_where (λ r. contains ids r.id) (taken_row q) t).0
unfolding take_rows update_where
take_rows-update_where ids q [] = refl
take_rows-update_where ids q (r ∷ rs) = elim (Bool-cases (contains ids r.id)) [
  | inl hit ↦ rw (hit, take_rows-update_where ids q rs) refl
  | inr miss ↦ rw (miss, take_rows-update_where ids q rs) refl
]

-- Of a table with keys, a row is found under its own id alone.
pub find_row_id : (j : ℕ) (t : Table) (r : TicketRow) → find_row j t ≡ some r → r.id ≡ j
unfolding find_row
find_row_id j [] r h = absurd (none-ne-some h)
find_row_id j (r' ∷ rs) r h = elim (Bool-cases (r'.id == j)) [
  | inl own ↦ let same : r' ≡ r = some_inj (sym (find_row_own j r' rs own) ∙ h) in ground arith
  | inr other ↦ find_row_id j rs r (sym (find_row_later j r' rs other) ∙ h)
]

pub find_row_tail :
    (j : ℕ) (r' : TicketRow) (rs : Table) (r : TicketRow)
    → IsTable (r' ∷ rs)
    → find_row j rs ≡ some r
    → find_row j (r' ∷ rs) ≡ some r
find_row_tail j r' rs r u h = elim (Bool-cases (r'.id == j)) [
  | inl own ↦
      let e : r'.id ≡ j = ground arith in
      absurd (none-ne-some (sym u.0 ∙ ap (λ i. find_row i rs) e ∙ h))
  | inr other ↦ find_row_later j r' rs other ∙ h
]

-- A row with this id is picked by the test.
abbrev pub Picked : (TicketRow → Bool) → Table → ℕ → Type 0
Picked test t j = (r : TicketRow) × (find_row j t ≡ some r) × (test r ≡ true)

module _ (skipped : ℕ → Bool) (test : TicketRow → Bool) where
  pub select_ids-Picked :
      (room : ℕ) (t : Table) (j : ℕ)
      → IsTable t
      → contains (select_ids skipped test room t) j ≡ true
      → Picked test t j
  unfolding select_ids contains
  select_ids-Picked room [] j u h = cc
  select_ids-Picked zero (r ∷ rs) j u h = cc
  select_ids-Picked (suc room) (r ∷ rs) j u h = elim (Bool-cases (test r && not (skipped r.id))) [
    | inl hit ↦ elim (Bool-cases (r.id == j)) [
      | inl own ↦ (r, find_row_own j r rs own, ground arith)
      | inr other ↦
          let (x, found, passes) = select_ids-Picked room rs j u.1 (ground arith) in
          (x, find_row_tail j r rs x u found, passes)
    ]
    | inr miss ↦
        let (x, found, passes) = select_ids-Picked (suc room) rs j u.1 (ground arith) in
        (x, find_row_tail j r rs x u found, passes)
  ]

  pub length-select_ids : (room : ℕ) (t : Table) → length (select_ids skipped test room t) ≤ room
  unfolding select_ids
  length-select_ids room [] = omega arith
  length-select_ids zero (r ∷ rs) = omega arith
  length-select_ids (suc room) (r ∷ rs) =
      ground (arith, length-select_ids room rs, length-select_ids (suc room) rs)

pub contains-append :
    (xs ys : List ℕ) (j : ℕ) → contains (xs ++ ys) j ≡ (contains xs j || contains ys j)
unfolding contains
contains-append [] ys j = refl
contains-append (x ∷ xs) ys j = ground (arith, contains-append xs ys j)

pub contains-take :
    (n : ℕ) (xs : List ℕ) (j : ℕ) → contains (take n xs) j ≡ true → contains xs j ≡ true
unfolding contains
contains-take zero xs j h = cc
contains-take (suc n) [] j h = cc
contains-take (suc n) (x ∷ xs) j h = ground (arith, contains-take n xs j)

pub length-take-le : (n : ℕ) (xs : List ℕ) → length (take n xs) ≤ n
length-take-le zero xs = omega arith
length-take-le (suc n) [] = omega arith
length-take-le (suc n) (x ∷ xs) = omega (arith, length-take-le n xs)

-- The LATERAL's test for one candidate number.
abbrev pub number_test : ℕ → ℕ → TicketRow → Bool
number_test now n r = (r.num == n) && claimable_row now r

-- An id that distinctClaimSQL picks is the one that it picks for its row's number.
pub pick_each-Picked :
    (skipped : ℕ → Bool) (now : ℕ) (nums : List ℕ) (t : Table) (j : ℕ)
    → IsTable t
    → contains (pick_each skipped now nums t) j ≡ true
    → (n : ℕ) × (contains nums n ≡ true)
      × (contains (select_ids skipped (number_test now n) 1 t) j ≡ true)
      × Picked (number_test now n) t j
unfolding pick_each contains
pick_each-Picked skipped now [] t j u h = cc
pick_each-Picked skipped now (n ∷ ns) t j u h =
    let one = select_ids skipped (number_test now n) 1 t in
    elim (Bool-cases (contains one j)) [
      | inl here ↦
          (n, ground arith, here, select_ids-Picked skipped (number_test now n) 1 t j u here)
      | inr later ↦
          let rest : contains (pick_each skipped now ns t) j ≡ true =
            ground (arith, contains-append one (pick_each skipped now ns t) j) in
          let (m, listed, chosen, picked) = pick_each-Picked skipped now ns t j u rest in
          (m, ground arith, chosen, picked)
    ]

-- LIMIT 1 picks one id.
pub at_most_one :
    (xs : List ℕ) (i j : ℕ) → length xs ≤ 1 → contains xs i ≡ true → contains xs j ≡ true → i ≡ j
unfolding contains
at_most_one [] i j few h k = cc
at_most_one (x ∷ []) i j few h k = ground arith
at_most_one (x ∷ y ∷ ys) i j few h k = absurd (omega arith)
