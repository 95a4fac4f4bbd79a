-- ===== src/Postgres/Reaper.antt =====
-- ReapExpired.
use lottery_search_system.Prelude.{
  ℕ, ◌≤◌, ◌≡◌, refl, ap, sym, ◌∙◌, Bool, true, List, [], ◌∷◌, some, if◌then◌else◌, arith,
  Bool-cases, inl, inr, ◌⊎◌, some_inj,
}
use mathlib.Core.Option
use lottery_search_system.Prelude.{◌+◌, ◌<◌, ◌==◌, none}
use lottery_search_system.TicketStore.{available, reserved, is_reserved}
use lottery_search_system.Postgres.Refusals.{and_both, over_until, reserved_only}
use lottery_search_system.Postgres.{TicketRow, Table, find_row, freed_row, update_where, lease_over}
use lottery_search_system.Postgres.Rows.{IsTable}
use lottery_search_system.Postgres.Statements.{
  contains, select_ids, expired_row, claimable_row, reap_expired,
}
use lottery_search_system.Postgres.Picks.{
  rewritten, find_row-update_where, find_row_id, select_ids-Picked, length-select_ids,
}
use lottery_search_system.Postgres.Answers.{rows_in, rows_in-le-length}

update_where-rows_in :
    (ids : List ℕ) (change : TicketRow → TicketRow) (t : Table)
    → (update_where (λ r. contains ids r.id) change t).1 ≡ rows_in ids t
unfolding update_where rows_in
update_where-rows_in ids change [] = refl
update_where-rows_in ids change (r ∷ rs) = ground (arith, update_where-rows_in ids change rs)

-- An expired reservation, in the columns.
pub record IsExpired (now : ℕ) (r : TicketRow) : Type 0 where
  pub status : r.status ≡ reserved
  pub until : ℕ
  pub lease : r.lease_until ≡ some until
  pub over : until < now

-- A row that is put back.
pub record IsFreed (r r' : TicketRow) : Type 0 where
  pub status : r'.status ≡ available
  pub holder : r'.holder ≡ none
  pub lease : r'.lease_until ≡ none
  pub number : r'.num ≡ r.num
  pub version : r'.version ≡ r.version + 1

-- How many rows two tables of the same length do not share, by their version counters.
unfoldable pub rewrites : Table → Table → ℕ
rewrites [] us = 0
rewrites (r ∷ rs) [] = 0
rewrites (r ∷ rs) (u ∷ us) = (if r.version == u.version then 0 else 1) + rewrites rs us

rewrites-freed :
    (ids : List ℕ) (t : Table)
    → rewrites t (update_where (λ r. contains ids r.id) freed_row t).0
      ≡ (update_where (λ r. contains ids r.id) freed_row t).1
unfolding rewrites update_where
rewrites-freed ids [] = refl
rewrites-freed ids (r ∷ rs) = ground (arith, rewrites-freed ids rs)

expired_row-IsExpired : (now : ℕ) (r : TicketRow) → expired_row now r ≡ true → IsExpired now r
expired_row-IsExpired now r h =
    let (s, o) = and_both (is_reserved r.status) (lease_over r.lease_until now) h in
    let (until, lease, late) = over_until r.lease_until now o in
    record { status = reserved_only r.status s; until = until; lease = lease; over = late }

-- On a table with the ids as keys, ReapExpired reports the number of rows that it writes, which is at
-- most `limit`. Each row stays as it is, or was a reservation whose lease had ended and is available
-- again with its number, without a holder and a lease, its version one higher. The answer whether it can be claimed at the
-- time is the same as before.
pub reap_expired_lem :
    (skipped : ℕ → Bool) (now limit : ℕ) (t : Table)
    → IsTable t
    → ((reap_expired skipped now limit t).1 ≤ limit)
      × (rewrites t (reap_expired skipped now limit t).0 ≡ (reap_expired skipped now limit t).1)
      × ((id : ℕ) (r : TicketRow)
          → find_row id t ≡ some r
          → (r' : TicketRow) × (find_row id (reap_expired skipped now limit t).0 ≡ some r')
            × (claimable_row now r' ≡ claimable_row now r)
            × ((r' ≡ r) ⊎ (IsExpired now r × IsFreed r r')))
unfolding reap_expired
reap_expired_lem skipped now limit t u =
    let ids = select_ids skipped (expired_row now) limit t in
    (
      omega (
        arith,
        update_where-rows_in ids freed_row t,
        rows_in-le-length ids t u,
        length-select_ids skipped (expired_row now) limit t,
      ),
      rewrites-freed ids t,
      λ id r found.
          let own = find_row_id id t r found in
          let moved : find_row id (reap_expired skipped now limit t).0
              ≡ some (if contains ids r.id then freed_row r else r) =
            find_row-update_where (λ r. contains ids r.id) freed_row (λ r. refl) id t
            ∙ ap (Option.map (rewritten (λ r. contains ids r.id) freed_row)) found in
          elim (Bool-cases (contains ids r.id)) [
            | inl hit ↦
                let (r', found', passes) =
                  select_ids-Picked skipped (expired_row now) limit t r.id u hit in
                let same : r ≡ r' =
                  some_inj (sym found ∙ ap (λ i. find_row i t) (sym own) ∙ found') in
                let expired : expired_row now r ≡ true = ap (expired_row now) same ∙ passes in
                let before : claimable_row now r ≡ true = ground arith in
                (
                  freed_row r,
                  moved ∙ ap (λ b. some (if b then freed_row r else r)) hit,
                  sym before,
                  inr (
                    expired_row-IsExpired now r expired,
                    record {
                      status = refl;
                      holder = refl;
                      lease = refl;
                      number = refl;
                      version = refl;
                    },
                  ),
                )
            | inr miss ↦
                (r, moved ∙ ap (λ b. some (if b then freed_row r else r)) miss, refl, inl refl)
          ],
    )
