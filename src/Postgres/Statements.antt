-- ===== src/Postgres/Statements.antt =====
-- postgres/store.go: claimSQL, distinctClaimSQL and reapSQL, and shardedClaimSQL of
-- postgres/sharded.go. Which rows SKIP LOCKED passes over, and
-- which of more than LIMIT rows a scan without ORDER BY comes to, is the database's choice: `skipped`
-- stands for both. The rows that RETURNING gives back stand in the table's order, on which nothing
-- depends.
use Prim.Native.String.{String}
use lottery_search_system.Prelude.{
  ℕ, zero, suc, ◌+◌, Bool, true, false, not, ◌&&◌, ◌||◌, List, [], ◌∷◌, ◌++◌, some, take, ◌==◌,
  if◌then◌else◌,
}
use lottery_search_system.TicketStore.{Status, available, reserved, sold, Reservation, is_reserved}
use lottery_search_system.Postgres.{TicketRow, Table, lease_over, freed_row, update_where}

-- n = ANY(...), and id IN (...).
unfoldable pub contains : List ℕ → ℕ → Bool
contains [] n = false
contains (m ∷ ms) n = (m == n) || contains ms n

abbrev pub is_available : Status → Bool
is_available available = true
is_available reserved = false
is_available sold = false

abbrev pub expired_row : ℕ → TicketRow → Bool
expired_row now r = is_reserved r.status && lease_over r.lease_until now

abbrev pub claimable_row : ℕ → TicketRow → Bool
claimable_row now r = is_available r.status || expired_row now r

-- SELECT id ... WHERE ... LIMIT ... FOR UPDATE SKIP LOCKED.
unfoldable pub select_ids : (ℕ → Bool) → (TicketRow → Bool) → ℕ → Table → List ℕ
select_ids skipped test limit [] = []
select_ids skipped test zero (r ∷ rs) = []
select_ids skipped test (suc room) (r ∷ rs) =
    let hit = r.id ∷ select_ids skipped test room rs in
    let miss = select_ids skipped test (suc room) rs in
    if test r && not (skipped r.id) then hit else miss

-- The parameters of a claim: the holder, now(), and now() with the interval of the lease.
pub record Terms : Type 0 where
  pub holder : String
  pub now : ℕ
  pub until : ℕ

-- SET status = 1, holder, lease_until, version + 1.
abbrev pub taken_row : Terms → TicketRow → TicketRow
taken_row q r = record r {
  status = reserved;
  holder = some q.holder;
  lease_until = some q.until;
  version = r.version + 1;
}

-- RETURNING id, num, lease_until.
abbrev pub returned : Terms → TicketRow → Reservation
returned q r = record { ticket_id = r.id; number = r.num; lease_until = q.until }

-- UPDATE ... WHERE id IN (...) RETURNING ..., of the rows that the statement has locked.
unfoldable pub take_rows : List ℕ → Terms → Table → Table × List Reservation
take_rows ids q [] = ([], [])
take_rows ids q (r ∷ rs) =
    let rest = take_rows ids q rs in
    if contains ids r.id
    then (taken_row q r ∷ rest.0, returned q r ∷ rest.1)
    else (r ∷ rest.0, rest.1)

-- A statement that claims, by the numbers, the terms and the limit.
abbrev pub ClaimSql : Type 0
ClaimSql = (ℕ → Bool) → List ℕ → Terms → ℕ → Table → Table × List Reservation

-- claimSQL
unfoldable pub claim_sql : ClaimSql
claim_sql skipped nums q limit t =
    take_rows (select_ids skipped (λ r. contains nums r.num && claimable_row q.now r) limit t) q t

-- shardedClaimSQL, of sharded.go. `shard_of` is the column `shard`, by the id. No statement writes it.
unfoldable pub sharded_claim_sql : (ℕ → ℕ) → ℕ → ClaimSql
sharded_claim_sql shard_of shard skipped nums q limit t =
    take_rows
      (select_ids skipped
        (λ r. (shard_of r.id == shard) && (contains nums r.num && claimable_row q.now r)) limit t)
      q t

-- The LATERAL of distinctClaimSQL: for each candidate number, in their order, one row at most.
unfoldable pub pick_each : (ℕ → Bool) → ℕ → List ℕ → Table → List ℕ
pick_each skipped now [] t = []
pick_each skipped now (n ∷ ns) t =
    select_ids skipped (λ r. (r.num == n) && claimable_row now r) 1 t ++ pick_each skipped now ns t

-- distinctClaimSQL
unfoldable pub distinct_claim_sql : ClaimSql
distinct_claim_sql skipped nums q limit t =
    take_rows (take limit (pick_each skipped q.now nums t)) q t

-- reapSQL, with the number of rows it writes, which ReapExpired reports.
unfoldable pub reap_expired : (ℕ → Bool) → ℕ → ℕ → Table → Table × ℕ
reap_expired skipped now limit t =
    let expired = select_ids skipped (expired_row now) limit t in
    update_where (λ r. contains expired r.id) freed_row t
