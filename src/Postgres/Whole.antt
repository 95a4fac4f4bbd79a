-- ===== src/Postgres/Whole.antt =====
-- claimSQL takes every row that it could, if it takes fewer than its limit and passes none over.
use lottery_search_system.Prelude.{
  ℕ, zero, suc, ◌+◌, ◌≤◌, ◌<◌, ◌≡◌, refl, ap, sym, ◌∙◌, subst, Bool, true, false, not, ◌&&◌, List,
  [], ◌∷◌, some, length, ◌==◌, ==_self, none-ne-some, if◌then◌else◌, arith, Bool-cases, inl, inr,
  some_inj, Option-cases, ltb, ◌⊎◌,
}
use mathlib.Core.Option
use lottery_search_system.Postgres.{TicketRow, Table, find_row}
use lottery_search_system.Postgres.Rows.{find_row_own, find_row_later}
use lottery_search_system.Postgres.Statements.{
  contains, select_ids, Terms, ClaimSql, taken_row, claimable_row, take_rows,
}
use lottery_search_system.Postgres.Picks.{rewritten}
use lottery_search_system.Postgres.Answers.{rows_in, length-take_rows, find_row-take_rows}

rows_in-more : (i : ℕ) (ids : List ℕ) (t : Table) → rows_in ids t ≤ rows_in (i ∷ ids) t
unfolding rows_in contains
rows_in-more i ids [] = omega arith
rows_in-more i ids (r ∷ rs) = ground (arith, rows_in-more i ids rs)

contains_self : (i : ℕ) (ids : List ℕ) → contains (i ∷ ids) i ≡ true
unfolding contains
contains_self i ids = rw (==_self i) refl

contains_later : (i j : ℕ) (ids : List ℕ) → contains ids j ≡ true → contains (i ∷ ids) j ≡ true
unfolding contains
contains_later i j ids h = ground arith

rows_in-hit :
    (ids : List ℕ) (r : TicketRow) (rs : Table)
    → contains ids r.id ≡ true
    → rows_in ids (r ∷ rs) ≡ 1 + rows_in ids rs
unfolding rows_in
rows_in-hit ids r rs h = rw h refl

rows_in-cons_row :
    (ids : List ℕ) (r : TicketRow) (rs : Table) → rows_in ids rs ≤ rows_in ids (r ∷ rs)
unfolding rows_in
rows_in-cons_row ids r rs = ground arith

module _ (skipped : ℕ → Bool) (test : TicketRow → Bool) where
  select_hit :
      (room : ℕ) (r : TicketRow) (rs : Table)
      → test r && not (skipped r.id) ≡ true
      → select_ids skipped test (suc room) (r ∷ rs) ≡ r.id ∷ select_ids skipped test room rs
  unfolding select_ids
  select_hit room r rs hit = rw hit refl

  select_miss :
      (room : ℕ) (r : TicketRow) (rs : Table)
      → test r && not (skipped r.id) ≡ false
      → select_ids skipped test (suc room) (r ∷ rs) ≡ select_ids skipped test (suc room) rs
  unfolding select_ids
  select_miss room r rs miss = rw miss refl

  length-select_ids-le :
      (room : ℕ) (t : Table)
      → length (select_ids skipped test room t) ≤ rows_in (select_ids skipped test room t) t
  unfolding select_ids
  length-select_ids-le room [] = omega arith
  length-select_ids-le zero (r ∷ rs) = omega arith
  length-select_ids-le (suc room) (r ∷ rs) =
      let Fits : List ℕ → Type 0 = λ ids. length ids ≤ rows_in ids (r ∷ rs) in
      elim (Bool-cases (test r && not (skipped r.id))) [
        | inl hit ↦
            let ids = select_ids skipped test room rs in
            subst Fits (sym (select_hit room r rs hit)) (
              omega (
                arith,
                rows_in-hit (r.id ∷ ids) r rs (contains_self r.id ids),
                rows_in-more r.id ids rs,
                length-select_ids-le room rs,
              ))
        | inr miss ↦
            let ids = select_ids skipped test (suc room) rs in
            subst Fits (sym (select_miss room r rs miss))
              (omega (arith, rows_in-cons_row ids r rs, length-select_ids-le (suc room) rs))
      ]

  select_ids_all :
      (room : ℕ) (t : Table) (j : ℕ) (r : TicketRow)
      → length (select_ids skipped test room t) < room
      → find_row j t ≡ some r
      → test r && not (skipped r.id) ≡ true
      → contains (select_ids skipped test room t) r.id ≡ true
  unfolding find_row
  select_ids_all zero t j r short found passes = absurd (omega arith)
  select_ids_all (suc room) [] j r short found passes = absurd (none-ne-some found)
  select_ids_all (suc room) (r' ∷ rs) j r short found passes =
      let Lists : List ℕ → Type 0 = λ ids. contains ids r.id ≡ true in
      elim (Bool-cases (test r' && not (skipped r'.id))) [
        | inl hit ↦
            let ids = select_ids skipped test room rs in
            let shorter = subst (λ ids. length ids < suc room) (select_hit room r' rs hit) short in
            subst Lists (sym (select_hit room r' rs hit)) (elim (Bool-cases (r'.id == j)) [
              | inl own ↦
                  let same : r' ≡ r = some_inj (sym (find_row_own j r' rs own) ∙ found) in
                  ap (λ x. contains (r'.id ∷ ids) x.id) (sym same) ∙ contains_self r'.id ids
              | inr other ↦ contains_later r'.id r.id ids (
                  select_ids_all room rs j r (omega arith)
                    (sym (find_row_later j r' rs other) ∙ found) passes)
            ])
        | inr miss ↦
            let shorter =
              subst (λ ids. length ids < suc room) (select_miss room r' rs miss) short in
            subst Lists (sym (select_miss room r' rs miss)) (elim (Bool-cases (r'.id == j)) [
              | inl own ↦
                  let same : r' ≡ r = some_inj (sym (find_row_own j r' rs own) ∙ found) in
                  absurd (cc (miss, passes, ap (λ x. test x && not (skipped x.id)) same))
              | inr other ↦
                  select_ids_all (suc room) rs j r shorter
                    (sym (find_row_later j r' rs other) ∙ found) passes
            ])
      ]

-- Of the rows with a property, none can be claimed at a time.
abbrev pub GoneWhere : ℕ → Table → (TicketRow → Type 0) → Type 0
GoneWhere now t Q =
    (j : ℕ) (r : TicketRow) → find_row j t ≡ some r → Q r → claimable_row now r ≡ false

-- Those of a number, and of the ids in a scope, as a shard is one.
abbrev pub IsGone : (ℕ → Bool) → ℕ → Table → ℕ → Type 0
IsGone scope now t n = GoneWhere now t (λ r. (scope r.id ≡ true) × (r.num ≡ n))

-- claimSQL within a scope.
abbrev pub scoped_claim : (ℕ → Bool) → ClaimSql
scoped_claim scope skipped nums q limit t =
    take_rows
      (select_ids skipped (λ r. scope r.id && (contains nums r.num && claimable_row q.now r)) limit
        t)
      q t

taken_gone :
    (q : Terms) (r : TicketRow) → q.now ≤ q.until → claimable_row q.now (taken_row q r) ≡ false
taken_gone q r ahead = let live : ltb q.until q.now ≡ false = ground arith in rw live refl

-- A row after the UPDATE is one that was taken, or one from before that was not picked.
take_rows-cases :
    (ids : List ℕ) (q : Terms) (t : Table) (j : ℕ) (r : TicketRow)
    → find_row j (take_rows ids q t).0 ≡ some r
    → (r0 : TicketRow) × (find_row j t ≡ some r0)
      × ((r ≡ taken_row q r0) ⊎ ((r ≡ r0) × (contains ids r0.id ≡ false)))
take_rows-cases ids q t j r found =
    let change = rewritten (λ r. contains ids r.id) (taken_row q) in
    let moved = sym (find_row-take_rows ids q j t) ∙ found in
    elim (Option-cases (find_row j t)) [
      | inl absent ↦ absurd (none-ne-some (ap (Option.map change) (sym absent) ∙ moved))
      | inr (r0, before) ↦
          let e : change r0 ≡ r = some_inj (ap (Option.map change) (sym before) ∙ moved) in
          (
            r0,
            before,
            elim (Bool-cases (contains ids r0.id)) [
              | inl hit ↦ inl (sym e ∙ ap (λ b. if b then taken_row q r0 else r0) hit)
              | inr miss ↦ inr (sym e ∙ ap (λ b. if b then taken_row q r0 else r0) miss, miss)
            ],
          )
    ]

-- Rows that can no longer be claimed stay so through a later claim at the same time.
pub take_rows-GoneWhere :
    (ids : List ℕ) (q : Terms) (t : Table) (Q : TicketRow → Type 0)
    → q.now ≤ q.until
    → GoneWhere q.now t Q
    → GoneWhere q.now (take_rows ids q t).0 Q
take_rows-GoneWhere ids q t Q ahead gone j r found at =
    let (r0, before, how) = take_rows-cases ids q t j r found in
    elim how [
      | inl taken ↦ ap (claimable_row q.now) taken ∙ taken_gone q r0 ahead
      | inr (same, _) ↦ ap (claimable_row q.now) same ∙ gone j r0 before (subst Q same at)
    ]

-- If the statement passes no row over and answers with fewer than its limit, no row of its numbers and
-- its scope can be claimed after it at its time.
pub scoped_claim-IsGone :
    (scope : ℕ → Bool) (nums : List ℕ) (q : Terms) (limit : ℕ) (t : Table) (n : ℕ)
    → q.now ≤ q.until
    → length (scoped_claim scope (λ id. false) nums q limit t).1 < limit
    → contains nums n ≡ true
    → IsGone scope q.now (scoped_claim scope (λ id. false) nums q limit t).0 n
scoped_claim-IsGone scope nums q limit t n ahead short listed j r found (within, number) =
    let test : TicketRow → Bool =
      λ r. scope r.id && (contains nums r.num && claimable_row q.now r) in
    let ids = select_ids (λ id. false) test limit t in
    let few : length ids < limit =
      omega (arith, length-select_ids-le (λ id. false) test limit t, length-take_rows ids q t) in
    let (r0, before, how) = take_rows-cases ids q t j r found in
    elim how [
      | inl taken ↦ ap (claimable_row q.now) taken ∙ taken_gone q r0 ahead
      | inr (same, miss) ↦ elim (Bool-cases (claimable_row q.now r)) [
        | inr gone ↦ gone
        | inl free ↦
            let asked : contains nums r.num ≡ true = ap (contains nums) number ∙ listed in
            let passes : test r && not false ≡ true = rw (within, asked, free) refl in
            let picked =
              select_ids_all (λ id. false) test limit t j r0 few before
                (ap (λ x. test x && not false) (sym same) ∙ passes) in
            cc (miss, picked)
      ]
    ]
