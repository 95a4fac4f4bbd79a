-- ===== src/Postgres/Schedule.antt =====
-- Sequences of statements on one table, by any number of callers and stores: a statement is atomic,
-- and other transactions come between any two.
use Prim.Native.String.{String}
use lottery_search_system.Prelude.{
  ℕ, ◌≡◌, ◌≢◌, refl, ap, sym, ◌∙◌, subst, Bool, true, false, List, some, All-imp, arith, Bool-cases,
  inl, inr, some_inj, if◌then◌else◌,
}
use mathlib.Core.Option
use lottery_search_system.TicketStore.{Reservation}
use lottery_search_system.Postgres.{
  TicketRow, Table, find_row, row_held, sold_row, freed_row, confirm_sql, release_sql, update_where,
}
use lottery_search_system.Postgres.Rows.{IsTable}
use lottery_search_system.Postgres.Statements.{
  contains, select_ids, expired_row, claimable_row, Terms, claim_sql, distinct_claim_sql,
  sharded_claim_sql, reap_expired,
}
use lottery_search_system.Postgres.Picks.{
  rewritten, find_row-update_where, update_where-IsTable, find_row_id, select_ids-Picked,
}
use lottery_search_system.Postgres.Takes.{
  IsTakenRow, Takes, claim_sql-Takes, distinct_claim_sql-Takes, sharded_claim_sql-Takes,
}

-- One statement, if `Who` may confirm and release, and now() is a time of `When`.
pub data Ran (Who : String → Type 0) (When : ℕ → Type 0) (t t' : Table) : Type 0 where
  claimed :
      (skipped : ℕ → Bool) (nums : List ℕ) (q : Terms) (limit : ℕ)
      → When q.now
      → t' ≡ (claim_sql skipped nums q limit t).0
      → Ran Who When t t'
  spread :
      (skipped : ℕ → Bool) (nums : List ℕ) (q : Terms) (limit : ℕ)
      → When q.now
      → t' ≡ (distinct_claim_sql skipped nums q limit t).0
      → Ran Who When t t'
  sharded :
      (shard_of : ℕ → ℕ) (shard : ℕ) (skipped : ℕ → Bool) (nums : List ℕ) (q : Terms) (limit : ℕ)
      → When q.now
      → t' ≡ (sharded_claim_sql shard_of shard skipped nums q limit t).0
      → Ran Who When t t'
  confirmed :
      (id : ℕ) (holder : String) (now : ℕ)
      → Who holder
      → When now
      → t' ≡ (confirm_sql id holder now t).0
      → Ran Who When t t'
  released :
      (id : ℕ) (holder : String) → Who holder → t' ≡ (release_sql id holder t).0 → Ran Who When t t'
  reaped :
      (skipped : ℕ → Bool) (now limit : ℕ)
      → When now
      → t' ≡ (reap_expired skipped now limit t).0
      → Ran Who When t t'

pub data Schedule (Who : String → Type 0) (When : ℕ → Type 0) (t : Table) : Table → Type 0 where
  start : Schedule Who When t t
  later : {u v : Table} → Schedule Who When t u → Ran Who When u v → Schedule Who When t v

-- No statement of these callers at these times may write the row.
pub record IsSafe (Who : String → Type 0) (When : ℕ → Type 0) (r : TicketRow) : Type 0 where
  pub unclaimable : (now : ℕ) → When now → claimable_row now r ≡ false
  pub unheld : (holder : String) → Who holder → row_held r holder ≡ false

Takes-kept :
    {nums : List ℕ} {q : Terms} {limit : ℕ} {t t' : Table} {out : List Reservation} (j : ℕ)
    (r : TicketRow)
    → Takes nums q limit t t' out
    → find_row j t ≡ some r
    → claimable_row q.now r ≡ false
    → find_row j t' ≡ some r
Takes-kept {nums = nums} {q = q} {t = t} {t' = t'} {out = out} j r k found safe =
    let other : (x : Reservation) → IsTakenRow nums q t t' x → x.ticket_id ≢ j = λ x e same.
      let row : e.row ≡ r = some_inj (sym e.found ∙ ap (λ i. find_row i t) same ∙ found) in
      cc (e.claimable, ap (claimable_row q.now) row) in
    k.others j (All-imp other out k.each) ∙ found

-- An UPDATE leaves a row that fails its test.
update_where-kept :
    (test : TicketRow → Bool) (change : TicketRow → TicketRow)
    → ((r : TicketRow) → (change r).id ≡ r.id)
    → (t : Table) (j : ℕ) (r : TicketRow) → find_row j t ≡ some r
    → test r ≡ false
    → find_row j (update_where test change t).0 ≡ some r
update_where-kept test change keeps t j r found fails =
    find_row-update_where test change keeps j t
    ∙ ap (Option.map (rewritten test change)) found
    ∙ ap (λ b. some (if b then change r else r)) fails

expired_fails :
    (skipped : ℕ → Bool) (now limit : ℕ) (t : Table) (j : ℕ) (r : TicketRow)
    → IsTable t
    → find_row j t ≡ some r
    → claimable_row now r ≡ false
    → contains (select_ids skipped (expired_row now) limit t) r.id ≡ false
expired_fails skipped now limit t j r u found safe =
    let own = find_row_id j t r found in
    elim (Bool-cases (contains (select_ids skipped (expired_row now) limit t) r.id)) [
      | inr miss ↦ miss
      | inl hit ↦
          let (r', found', passes) =
            select_ids-Picked skipped (expired_row now) limit t r.id u hit in
          let same : r ≡ r' = some_inj (sym found ∙ ap (λ i. find_row i t) (sym own) ∙ found') in
          let expired : expired_row now r ≡ true = ap (expired_row now) same ∙ passes in
          absurd (ground arith)
    ]

module _ {Who : String → Type 0} {When : ℕ → Type 0} where
  pub Ran-IsTable : {t t' : Table} → IsTable t → Ran Who When t t' → IsTable t'
  unfolding confirm_sql release_sql reap_expired
  Ran-IsTable {t = t} u (claimed skipped nums q limit w e) =
      subst IsTable (sym e) (claim_sql-Takes skipped nums q limit t u).keyed
  Ran-IsTable {t = t} u (spread skipped nums q limit w e) =
      subst IsTable (sym e) (distinct_claim_sql-Takes skipped nums q limit t u).keyed
  Ran-IsTable {t = t} u (sharded shard_of shard skipped nums q limit w e) =
      subst IsTable (sym e) (sharded_claim_sql-Takes skipped nums q limit t u shard_of shard).keyed
  Ran-IsTable {t = t} u (confirmed id holder now ok w e) =
      subst IsTable (sym e) (update_where-IsTable _ sold_row (λ r. refl) t u)
  Ran-IsTable {t = t} u (released id holder ok e) =
      subst IsTable (sym e) (update_where-IsTable _ freed_row (λ r. refl) t u)
  Ran-IsTable {t = t} u (reaped skipped now limit w e) =
      subst IsTable (sym e) (update_where-IsTable _ freed_row (λ r. refl) t u)

  pub Ran-kept :
      {t t' : Table} (j : ℕ) (r : TicketRow)
      → IsTable t
      → find_row j t ≡ some r
      → IsSafe Who When r
      → Ran Who When t t'
      → find_row j t' ≡ some r
  unfolding confirm_sql release_sql reap_expired
  Ran-kept {t = t} j r u found safe (claimed skipped nums q limit w e) =
      ap (find_row j) e
      ∙ Takes-kept j r (claim_sql-Takes skipped nums q limit t u) found (safe.unclaimable q.now w)
  Ran-kept {t = t} j r u found safe (spread skipped nums q limit w e) =
      ap (find_row j) e
      ∙ Takes-kept j r (distinct_claim_sql-Takes skipped nums q limit t u) found
          (safe.unclaimable q.now w)
  Ran-kept {t = t} j r u found safe (sharded shard_of shard skipped nums q limit w e) =
      ap (find_row j) e
      ∙ Takes-kept j r (sharded_claim_sql-Takes skipped nums q limit t u shard_of shard) found
          (safe.unclaimable q.now w)
  Ran-kept {t = t} j r u found safe (confirmed id holder now ok w e) =
      ap (find_row j) e
      ∙ update_where-kept _ sold_row (λ r. refl) t j r found
          (let other = safe.unheld holder ok in ground arith)
  Ran-kept {t = t} j r u found safe (released id holder ok e) =
      ap (find_row j) e
      ∙ update_where-kept _ freed_row (λ r. refl) t j r found
          (let other = safe.unheld holder ok in ground arith)
  Ran-kept {t = t} j r u found safe (reaped skipped now limit w e) =
      ap (find_row j) e
      ∙ update_where-kept _ freed_row (λ r. refl) t j r found
          (expired_fails skipped now limit t j r u found (safe.unclaimable now w))

  pub Schedule-IsTable : {t t' : Table} → IsTable t → Schedule Who When t t' → IsTable t'
  Schedule-IsTable u start = u
  Schedule-IsTable u (later h x) = Ran-IsTable (Schedule-IsTable u h) x

  pub Schedule-kept :
      {t t' : Table} (j : ℕ) (r : TicketRow)
      → IsTable t
      → find_row j t ≡ some r
      → IsSafe Who When r
      → Schedule Who When t t'
      → find_row j t' ≡ some r
  Schedule-kept j r u found safe start = found
  Schedule-kept j r u found safe (later h x) =
      Ran-kept j r (Schedule-IsTable u h) (Schedule-kept j r u found safe h) safe x

  pub Schedule-trans :
      {t u v : Table} → Schedule Who When t u → Schedule Who When u v → Schedule Who When t v
  Schedule-trans h start = h
  Schedule-trans h (later k x) = later (Schedule-trans h k) x
