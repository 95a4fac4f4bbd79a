-- ===== src/Postgres/Rows.antt =====
-- Updates of the one row with a given id.
use lottery_search_system.Prelude.{
  ℕ, ◌+◌, ◌≡◌, ◌≢◌, refl, ap, sym, ◌∙◌, Bool, true, false, ◌&&◌, [], ◌∷◌, none, some, ◌==◌,
  if◌then◌else◌, arith, Bool-cases, inl, inr, some_inj, none-ne-some,
}
use lottery_search_system.Postgres.{TicketRow, Table, update_where, find_row}

-- The id is the primary key.
abbrev pub IsTable : Table → Type 0
IsTable [] = Unit
IsTable (r ∷ rs) = (find_row r.id rs ≡ none) × IsTable rs

pub find_row_own :
    (id : ℕ) (r : TicketRow) (rs : Table) → r.id == id ≡ true → find_row id (r ∷ rs) ≡ some r
unfolding find_row
find_row_own id r rs own = rw own refl

pub find_row_later :
    (id : ℕ) (r : TicketRow) (rs : Table)
    → r.id == id ≡ false
    → find_row id (r ∷ rs) ≡ find_row id rs
unfolding find_row
find_row_later id r rs other = rw other refl

abbrev pub passed_over : Table → Table × ℕ
passed_over t = (t, 0)

abbrev written : TicketRow → (TicketRow → TicketRow) → Table × ℕ → Table × ℕ
written r change rest = (change r ∷ rest.0, 1 + rest.1)

abbrev passed : TicketRow → Table × ℕ → Table × ℕ
passed r rest = (r ∷ rest.0, rest.1)

module _ (id : ℕ) (test : TicketRow → Bool) (change : TicketRow → TicketRow) where
  abbrev one_row : TicketRow → Bool
  one_row r = (r.id == id) && test r

  update_where-written :
      (r : TicketRow) (rs : Table)
      → r.id == id ≡ true
      → test r ≡ true
      → update_where one_row change (r ∷ rs) ≡ written r change (update_where one_row change rs)
  unfolding update_where
  update_where-written r rs own passes = rw (own, passes) refl

  update_where-passed :
      (r : TicketRow) (rs : Table)
      → (r.id == id) && test r ≡ false
      → update_where one_row change (r ∷ rs) ≡ passed r (update_where one_row change rs)
  unfolding update_where
  update_where-passed r rs fails = rw fails refl

  -- Nothing is written if there is no such row.
  pub update_where-none :
      (t : Table) → find_row id t ≡ none → update_where one_row change t ≡ passed_over t
  unfolding update_where
  update_where-none [] h = refl
  update_where-none (r ∷ rs) h = elim (Bool-cases (r.id == id)) [
    | inl own ↦ absurd (none-ne-some (sym h ∙ find_row_own id r rs own))
    | inr other ↦
        update_where-passed r rs (rw other refl)
        ∙ ap (passed r) (update_where-none rs (sym (find_row_later id r rs other) ∙ h))
  ]

  -- Nothing is written if the row fails the test.
  pub update_where-failed :
      (t : Table) (r : TicketRow)
      → IsTable t
      → find_row id t ≡ some r
      → test r ≡ false
      → update_where one_row change t ≡ passed_over t
  unfolding find_row
  update_where-failed [] r u h fails = absurd (none-ne-some h)
  update_where-failed (r' ∷ rs) r u h fails = elim (Bool-cases (r'.id == id)) [
    | inl own ↦
        let same : r' ≡ r = some_inj (sym (find_row_own id r' rs own) ∙ h) in
        let e : r'.id ≡ id = ground arith in
        update_where-passed r' rs (rw own (ap test same ∙ fails))
        ∙ ap (passed r') (update_where-none rs (ap (λ i. find_row i rs) (sym e) ∙ u.0))
    | inr other ↦
        update_where-passed r' rs (rw other refl)
        ∙ ap (passed r')
            (update_where-failed rs r u.1 (sym (find_row_later id r' rs other) ∙ h) fails)
  ]

  -- If the row passes the test, it alone is written.
  pub update_where_one :
      ((r : TicketRow) → (change r).id ≡ r.id)
      → (t : Table) (r : TicketRow) → IsTable t
      → find_row id t ≡ some r
      → test r ≡ true
      → ((update_where one_row change t).1 ≡ 1)
        × (find_row id (update_where one_row change t).0 ≡ some (change r))
        × ((j : ℕ) → id ≢ j → find_row j (update_where one_row change t).0 ≡ find_row j t)
  unfolding find_row
  update_where_one keeps [] r u h passes = absurd (none-ne-some h)
  update_where_one keeps (r' ∷ rs) r u h passes = elim (Bool-cases (r'.id == id)) [
    | inl own ↦
        let same : r' ≡ r = some_inj (sym (find_row_own id r' rs own) ∙ h) in
        let e : r'.id ≡ id = ground arith in
        let rest = update_where-none rs (ap (λ i. find_row i rs) (sym e) ∙ u.0) in
        let all : update_where one_row change (r' ∷ rs) ≡ (change r' ∷ rs, 1) =
          update_where-written r' rs own (ap test same ∙ passes) ∙ ap (written r' change) rest in
        rw all (
          refl,
          find_row_own id (change r') rs (ap (λ i. i == id) (keeps r') ∙ own)
              ∙ ap (λ x. some (change x)) same,
          λ j apart.
              find_row_later j (change r') rs (ground (arith, keeps r'))
              ∙ sym (find_row_later j r' rs (ground arith)),
        )
    | inr other ↦
        let (count, found, others) =
          update_where_one keeps rs r u.1 (sym (find_row_later id r' rs other) ∙ h) passes in
        rw (update_where-passed r' rs (rw other refl)) (
          count,
          find_row_later id r' _ other ∙ found,
          λ j apart. ap (λ o. if r'.id == j then some r' else o) (others j apart),
        )
  ]
