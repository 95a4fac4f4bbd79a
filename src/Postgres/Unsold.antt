-- ===== src/Postgres/Unsold.antt =====
-- How many tickets of a number are not sold, and how the statements change that.
use Prim.Native.String.{String}
use lottery_search_system.Prelude.{
  ℕ, ◌+◌, ◌≤◌, ◌≡◌, refl, ap, sym, ◌∙◌, subst, Bool, true, false, not, ◌&&◌, ◌||◌, List, [], ◌∷◌,
  some, All, All-imp, ◌==◌, ==_self, if◌then◌else◌, arith, Bool-cases, inl, inr, some_inj,
}
use lottery_search_system.TicketStore.{
  is_sold, is_reserved, Status, Reservation, available, reserved, sold,
}
use lottery_search_system.Postgres.{
  TicketRow, Table, find_row, lease_over, row_held, holder_is, confirm_test, sold_row, freed_row,
  confirm_sql, release_sql, update_where,
}
use lottery_search_system.Postgres.Rows.{IsTable, find_row_own, find_row_later}
use lottery_search_system.Postgres.Statements.{
  contains, select_ids, expired_row, claimable_row, is_available, Terms, taken_row, reap_expired,
}
use lottery_search_system.Postgres.Picks.{
  rewritten, find_row_id, find_row_tail, Picked, select_ids-Picked, take_rows-update_where,
  update_where-cons,
}
use lottery_search_system.Postgres.Takes.{
  IsPick, claim_sql-IsPick, distinct_claim_sql-IsPick, sharded_claim_sql-IsPick,
}
use lottery_search_system.Postgres.Schedule.{
  Ran, claimed, spread, sharded, confirmed, released, reaped, Schedule, start, later,
  Schedule-IsTable,
}

abbrev pub counts_for : ℕ → TicketRow → ℕ
counts_for n r = if (r.num == n) && not (is_sold r.status) then 1 else 0

unfoldable pub unsold : Table → ℕ → ℕ
unsold [] n = 0
unsold (r ∷ rs) n = counts_for n r + unsold rs n

-- Every row of a table with keys is the one found under its id.
rows_found : (t : Table) → IsTable t → All (λ (r : TicketRow). find_row r.id t ≡ some r) t
rows_found [] u = tt
rows_found (r ∷ rs) u = (
  find_row_own r.id r rs (==_self r.id),
  All-imp (λ x found. find_row_tail x.id r rs x u found) rs (rows_found rs u.1),
)

module _ (test : TicketRow → Bool) (change : TicketRow → TicketRow) (n : ℕ) where
  -- The rows that are written count no more than before.
  NoMore : TicketRow → Type 0
  NoMore r = test r ≡ true → counts_for n (change r) ≤ counts_for n r

  rewritten-le :
      (r : TicketRow) → NoMore r → counts_for n (rewritten test change r) ≤ counts_for n r
  unfolding NoMore
  rewritten-le r h = elim (Bool-cases (test r)) [
    | inl hit ↦ rw hit (h hit)
    | inr miss ↦ rw miss (omega arith)
  ]

  unsold-update_where :
      (keeps : (r : TicketRow) → (change r).id ≡ r.id)
      → (t : Table) → All NoMore t
      → unsold (update_where test change t).0 n ≤ unsold t n
  unfolding unsold update_where
  unsold-update_where keeps [] h = omega arith
  unsold-update_where keeps (r ∷ rs) h =
      rw (update_where-cons test change keeps r rs)
        (omega (arith, rewritten-le r h.0, unsold-update_where keeps rs h.1))

  -- If the row of an id is written so that it no longer counts, the number falls.
  unsold-update_where_lt :
      (keeps : (r : TicketRow) → (change r).id ≡ r.id)
      → (t : Table) → All NoMore t
      → (id : ℕ) (r : TicketRow) → find_row id t ≡ some r
      → test r ≡ true
      → counts_for n (change r) + 1 ≤ counts_for n r
      → unsold (update_where test change t).0 n + 1 ≤ unsold t n
  unfolding unsold update_where find_row
  unsold-update_where_lt keeps [] h id r found hit less = cc
  unsold-update_where_lt keeps (r' ∷ rs) h id r found hit less = elim (Bool-cases (r'.id == id)) [
    | inl own ↦
        let same : r' ≡ r = some_inj (sym (find_row_own id r' rs own) ∙ found) in
        let hit' : test r' ≡ true = ap test same ∙ hit in
        let less' : counts_for n (change r') + 1 ≤ counts_for n r' =
          subst (λ x. counts_for n (change x) + 1 ≤ counts_for n x) (sym same) less in
        rw (update_where-cons test change keeps r' rs, hit')
          (omega (arith, less', unsold-update_where keeps rs h.1))
    | inr other ↦ rw (update_where-cons test change keeps r' rs) (
        omega (
          arith,
          rewritten-le r' h.0,
          unsold-update_where_lt keeps rs h.1 id r (sym (find_row_later id r' rs other) ∙ found) hit
              less,
        ))
  ]

claimable_unsold :
    (status : Status) (b : Bool)
    → (is_available status || is_reserved status && b) ≡ true
    → is_sold status ≡ false
claimable_unsold available b h = refl
claimable_unsold reserved b h = refl
claimable_unsold sold b h = cc

reserved_unsold :
    (status : Status) (b : Bool) → is_reserved status && b ≡ true → is_sold status ≡ false
reserved_unsold available b h = refl
reserved_unsold reserved b h = refl
reserved_unsold sold b h = cc

held_unsold :
    (r : TicketRow) (holder : String) → row_held r holder ≡ true → is_sold r.status ≡ false
held_unsold r holder h = reserved_unsold r.status (holder_is r.holder holder) h

counts_unsold :
    (n : ℕ) (r r' : TicketRow)
    → r'.num ≡ r.num
    → is_sold r.status ≡ false
    → counts_for n r' ≤ counts_for n r
counts_unsold n r r' same fresh = rw (same, fresh) (ground arith)

-- The rows whose ids were picked by a test are not sold, if the test says so.
Picked-unsold :
    (ids : List ℕ) (test : TicketRow → Bool) (change : TicketRow → TicketRow) (n : ℕ)
    → ((r : TicketRow) → (change r).num ≡ r.num)
    → ((r : TicketRow) → test r ≡ true → is_sold r.status ≡ false)
    → (t : Table) → IsTable t
    → ((j : ℕ) → contains ids j ≡ true → Picked test t j)
    → All (NoMore (λ r. contains ids r.id) change n) t
unfolding NoMore
Picked-unsold ids test change n keeps fresh t u picked =
    All-imp
      (λ r found hit.
        let (r', found', passes) = picked r.id hit in
        let same : r' ≡ r = some_inj (sym found' ∙ found) in
        counts_unsold n r (change r) (keeps r) (fresh r (ap test (sym same) ∙ passes)))
      t (rows_found t u)

pub take_rows-unsold :
    {nums : List ℕ} {q : Terms} {limit : ℕ} {t : Table} {result : Table × List Reservation} (n : ℕ)
    → IsTable t
    → IsPick nums q limit t result
    → unsold result.0 n ≤ unsold t n
take_rows-unsold {nums = nums} {q = q} {t = t} n u p =
    let test : TicketRow → Bool = λ r. contains nums r.num && claimable_row q.now r in
    subst (λ x. unsold x.0 n ≤ unsold t n) (sym p.is_update)
      (subst (λ x. unsold x n ≤ unsold t n) (sym (take_rows-update_where p.ids q t))
        (unsold-update_where (λ r. contains p.ids r.id) (taken_row q) n (λ r. refl) t
          (Picked-unsold p.ids test (taken_row q) n (λ r. refl)
            (λ r h. claimable_unsold r.status (lease_over r.lease_until q.now) (ground arith)) t u
            p.picked)))

All-of : {P : TicketRow → Type 0} → ((r : TicketRow) → P r) → (t : Table) → All P t
All-of f [] = tt
All-of f (r ∷ rs) = (f r, All-of f rs)

pub confirm_sql-unsold :
    (id : ℕ) (holder : String) (now : ℕ) (t : Table) (n : ℕ)
    → unsold (confirm_sql id holder now t).0 n ≤ unsold t n
unfolding confirm_sql NoMore
confirm_sql-unsold id holder now t n =
    unsold-update_where _ sold_row n (λ r. refl) t (All-of (λ r hit. ground arith) t)

pub release_sql-unsold :
    (id : ℕ) (holder : String) (t : Table) (n : ℕ)
    → unsold (release_sql id holder t).0 n ≤ unsold t n
unfolding release_sql NoMore
release_sql-unsold id holder t n =
    unsold-update_where _ freed_row n (λ r. refl) t
      (All-of (λ r hit. counts_unsold n r (freed_row r) refl (held_unsold r holder (ground arith)))
        t)

-- A sale takes one ticket of its number away.
pub confirm_sql-unsold_lt :
    (id : ℕ) (holder : String) (now : ℕ) (t : Table) (r : TicketRow)
    → find_row id t ≡ some r
    → confirm_test holder now r ≡ true
    → unsold (confirm_sql id holder now t).0 r.num + 1 ≤ unsold t r.num
unfolding confirm_sql NoMore
confirm_sql-unsold_lt id holder now t r found passes =
    let own = find_row_id id t r found in
    let fresh : is_sold r.status ≡ false = held_unsold r holder (ground arith) in
    unsold-update_where_lt _ sold_row r.num (λ r. refl) t (All-of (λ r hit. ground arith) t) id r
      found (ground arith) (rw (fresh, ==_self r.num) (ground arith))

module _ {Who : String → Type 0} {When : ℕ → Type 0} where
  -- No statement raises the number of tickets that are not sold.
  Ran-unsold : {t t' : Table} (n : ℕ) → IsTable t → Ran Who When t t' → unsold t' n ≤ unsold t n
  unfolding reap_expired
  Ran-unsold {t = t} n u (claimed skipped nums q limit w e) =
      rw e (take_rows-unsold n u (claim_sql-IsPick skipped nums q limit t u))
  Ran-unsold {t = t} n u (spread skipped nums q limit w e) =
      rw e (take_rows-unsold n u (distinct_claim_sql-IsPick skipped nums q limit t u))
  Ran-unsold {t = t} n u (sharded shard_of shard skipped nums q limit w e) =
      rw e (take_rows-unsold n u (sharded_claim_sql-IsPick skipped nums q limit t u shard_of shard))
  Ran-unsold {t = t} n u (confirmed id holder now ok w e) =
      rw e (confirm_sql-unsold id holder now t n)
  Ran-unsold {t = t} n u (released id holder ok e) = rw e (release_sql-unsold id holder t n)
  Ran-unsold {t = t} n u (reaped skipped now limit w e) = rw e (
      unsold-update_where _ freed_row n (λ r. refl) t
        (Picked-unsold (select_ids skipped (expired_row now) limit t) (expired_row now) freed_row n
          (λ r. refl) (λ r h. reserved_unsold r.status (lease_over r.lease_until now) h) t u
          (λ j h. select_ids-Picked skipped (expired_row now) limit t j u h)))

  pub Schedule-unsold :
      {t t' : Table} (n : ℕ) → IsTable t → Schedule Who When t t' → unsold t' n ≤ unsold t n
  Schedule-unsold n u start = omega arith
  Schedule-unsold n u (later h x) =
      omega (arith, Schedule-unsold n u h, Ran-unsold n (Schedule-IsTable u h) x)
