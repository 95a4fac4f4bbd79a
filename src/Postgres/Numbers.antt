-- ===== src/Postgres/Numbers.antt =====
-- A ticket keeps its number, whatever statements run.
use Prim.Native.String.{String}
use lottery_search_system.Prelude.{
  ℕ, ◌≡◌, refl, ap, sym, ◌∙◌, subst, Bool, List, some, Bool-cases, inl, inr,
}
use mathlib.Core.Option
use lottery_search_system.TicketStore.{Reservation}
use lottery_search_system.Postgres.{
  TicketRow, Table, find_row, sold_row, freed_row, confirm_sql, release_sql, update_where,
}
use lottery_search_system.Postgres.Rows.{IsTable}
use lottery_search_system.Postgres.Statements.{contains, Terms, taken_row, reap_expired}
use lottery_search_system.Postgres.Picks.{rewritten, find_row-update_where, take_rows-update_where}
use lottery_search_system.Postgres.Takes.{
  IsPick, claim_sql-IsPick, distinct_claim_sql-IsPick, sharded_claim_sql-IsPick,
}
use lottery_search_system.Postgres.Schedule.{
  Ran, claimed, spread, sharded, confirmed, released, reaped, Schedule, start, later,
  Schedule-IsTable,
}

-- There is a row with this id and number.
abbrev pub HasNumber : Table → ℕ → ℕ → Type 0
HasNumber t id n = (r : TicketRow) × (find_row id t ≡ some r) × (r.num ≡ n)

pub update_where-HasNumber :
    (test : TicketRow → Bool) (change : TicketRow → TicketRow)
    → ((r : TicketRow) → (change r).id ≡ r.id)
    → ((r : TicketRow) → (change r).num ≡ r.num)
    → (t : Table) (id n : ℕ) → HasNumber t id n
    → HasNumber (update_where test change t).0 id n
update_where-HasNumber test change keeps same t id n (r, found, number) = (
  rewritten test change r,
  find_row-update_where test change keeps id t ∙ ap (Option.map (rewritten test change)) found,
  elim (Bool-cases (test r)) [ inl hit ↦ rw hit (same r ∙ number) | inr miss ↦ rw miss number ],
)

pub IsPick-HasNumber :
    {nums : List ℕ} {q : Terms} {limit : ℕ} {t : Table} {result : Table × List Reservation}
    (id n : ℕ)
    → IsPick nums q limit t result
    → HasNumber t id n
    → HasNumber result.0 id n
IsPick-HasNumber {q = q} {t = t} id n p h =
    subst (λ x. HasNumber x id n)
      (sym (take_rows-update_where p.ids q t) ∙ ap (λ x. x.0) (sym p.is_update))
      (update_where-HasNumber (λ r. contains p.ids r.id) (taken_row q) (λ r. refl) (λ r. refl) t id
        n h)

pub confirm_sql-HasNumber :
    (i : ℕ) (holder : String) (now : ℕ) (t : Table) (id n : ℕ)
    → HasNumber t id n
    → HasNumber (confirm_sql i holder now t).0 id n
unfolding confirm_sql
confirm_sql-HasNumber i holder now t id n h =
    update_where-HasNumber _ sold_row (λ r. refl) (λ r. refl) t id n h

pub release_sql-HasNumber :
    (i : ℕ) (holder : String) (t : Table) (id n : ℕ)
    → HasNumber t id n
    → HasNumber (release_sql i holder t).0 id n
unfolding release_sql
release_sql-HasNumber i holder t id n h =
    update_where-HasNumber _ freed_row (λ r. refl) (λ r. refl) t id n h

module _ {Who : String → Type 0} {When : ℕ → Type 0} (id n : ℕ) where
  Ran-HasNumber :
      {t t' : Table} → IsTable t → Ran Who When t t' → HasNumber t id n → HasNumber t' id n
  unfolding reap_expired
  Ran-HasNumber {t = t} u (claimed skipped nums q limit w e) h =
      rw e (IsPick-HasNumber id n (claim_sql-IsPick skipped nums q limit t u) h)
  Ran-HasNumber {t = t} u (spread skipped nums q limit w e) h =
      rw e (IsPick-HasNumber id n (distinct_claim_sql-IsPick skipped nums q limit t u) h)
  Ran-HasNumber {t = t} u (sharded shard_of shard skipped nums q limit w e) h =
      rw e
        (IsPick-HasNumber id n (sharded_claim_sql-IsPick skipped nums q limit t u shard_of shard) h)
  Ran-HasNumber {t = t} u (confirmed i holder now ok w e) h =
      rw e (confirm_sql-HasNumber i holder now t id n h)
  Ran-HasNumber {t = t} u (released i holder ok e) h =
      rw e (release_sql-HasNumber i holder t id n h)
  Ran-HasNumber {t = t} u (reaped skipped now limit w e) h =
      rw e (update_where-HasNumber _ freed_row (λ r. refl) (λ r. refl) t id n h)

  pub Schedule-HasNumber :
      {t t' : Table} → IsTable t → Schedule Who When t t' → HasNumber t id n → HasNumber t' id n
  Schedule-HasNumber u start h = h
  Schedule-HasNumber u (later s x) h =
      Ran-HasNumber (Schedule-IsTable u s) x (Schedule-HasNumber u s h)
