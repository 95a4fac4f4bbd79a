-- ===== src/Sharded/Serves.antt =====
-- What Claim promises over the shards.
use Prim.Native.String.{String}
use lottery_search_system.Prelude.{
  ℕ, zero, suc, ◌≡◌, refl, List, some, Option-cases, length, ltb, Bool-cases, inl, inr, ◌>>=◌,
}
use lottery_search_system.Pattern.{Pattern, parsed, parse_pattern}
use lottery_search_system.Store.Claim.{IsEnough}
use lottery_search_system.Postgres.{Table}
use lottery_search_system.Postgres.Rows.{IsTable}
use lottery_search_system.Postgres.Statements.{sharded_claim_sql}
use lottery_search_system.Postgres.Takes.{sharded_claim_sql-Takes}
use lottery_search_system.Postgres.Claims.{Collected, whole_size, none_yet}
use lottery_search_system.Postgres.Loop.{NoPanic, IsFine}
use lottery_search_system.Postgres.Schedule.{sharded}
use lottery_search_system.Postgres.Serves.{IsClaim, IsTimely, run_pass-Serves, begun}
use lottery_search_system.Postgres.Promise.{Serves}
use lottery_search_system.Sharded.{ShardRun, shard_at, claim_shards, claim_sharded}

-- The rounds of one shard can use a draw, and are timely.
pub record IsFair (p : Pattern) (holder : String) (lease latest : ℕ) (run : ShardRun) : Type 0 where
  pub usable : IsEnough p run.outside
  pub timely : (i : ℕ) → IsTimely holder lease latest (run.turns i)

module _ (shard_of : ℕ → ℕ) (shards : ℕ) (runs : ℕ → ShardRun) (text : List ℕ) (p : Pattern) (k : ℕ)
    (holder : String) (lease latest : ℕ) (t : Table) (accepted : parse_pattern text ≡ parsed p)
    (fair : (offset : ℕ) → IsFair p holder lease latest (runs offset)) where
  sharded_claim_sql-IsClaim :
      (shard : ℕ) → IsClaim p k holder lease latest t (sharded_claim_sql shard_of shard)
  sharded_claim_sql-IsClaim shard skipped nums q limit u keyed before = (
    sharded_claim_sql-Takes skipped nums q limit u keyed shard_of shard,
    sharded shard_of shard skipped nums q limit before refl,
  )

  claim_shards-Serves :
      (left offset : ℕ) (x : Collected Table)
      → Serves p k holder latest t x.at x.out
      → IsFine NoPanic x.error
      → (y : Collected Table) × (claim_shards shard_of shards runs p k holder lease left offset x
          ≡ some y)
        × Serves p k holder latest t y.at y.out
        × IsFine NoPanic y.error
  unfolding claim_shards
  claim_shards-Serves zero offset x h f = (x, refl, h, f)
  claim_shards-Serves (suc left) offset x h f =
      let (y, run, served, ended) =
        run_pass-Serves p k holder lease latest t text (runs offset).outside whole_size
          (sharded_claim_sql shard_of (shard_at shards holder offset)) (runs offset).turns x
          accepted (fair offset).usable (sharded_claim_sql-IsClaim (shard_at shards holder offset))
          (fair offset).timely h f in
      elim (Bool-cases (ltb (length x.out) k)) [
        | inr full ↦ (x, rw (claim_shards, full) refl, h, f)
        | inl short ↦ elim (Option-cases y.error) [
          | inr (e, failed) ↦ (y, rw (claim_shards, short, run, ◌>>=◌, failed) refl, served, ended)
          | inl fine ↦
              let (z, rest, served', ended') =
                claim_shards-Serves left (suc offset) y served ended in
              (z, rw (claim_shards, short, run, ◌>>=◌, fine) rest, served', ended')
        ]
      ]

-- Over any number of shards, and under what claim_tickets-Serves asks of the rounds of every shard, Claim
-- returns and promises what the Postgres store does: it has run statements alone, kept the ids as
-- keys, and collected at most `k` reservations, of different tickets whose numbers match. The row
-- of each is held by the holder until the time that the reservation tells. The code does not panic.
pub claim_sharded-Serves :
    (shard_of : ℕ → ℕ) (shards : ℕ) (runs : ℕ → ShardRun) (text : List ℕ) (p : Pattern) (k : ℕ)
    (holder : String) (lease latest : ℕ) (t : Table)
    → parse_pattern text ≡ parsed p
    → ((offset : ℕ) → IsFair p holder lease latest (runs offset))
    → IsTable t
    → (x : Collected Table) × (claim_sharded shard_of shards runs p k holder lease t ≡ some x)
      × Serves p k holder latest t x.at x.out
      × IsFine NoPanic x.error
unfolding claim_sharded
claim_sharded-Serves shard_of shards runs text p zero holder lease latest t ok fair keyed =
    (none_yet t, refl, begun p zero holder lease latest t keyed, tt)
claim_sharded-Serves shard_of shards runs text p (suc k) holder lease latest t ok fair keyed =
    claim_shards-Serves shard_of shards runs text p (suc k) holder lease latest t ok fair shards 0
      (none_yet t) (begun p (suc k) holder lease latest t keyed) tt
