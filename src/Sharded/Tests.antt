-- ===== src/Sharded/Tests.antt =====
-- sharded.go on the two rows of Postgres/Tests, over four shards.
use lottery_search_system.Prelude.{◌%◌, ◌≡◌, refl, some, [], ◌∷◌}
use lottery_search_system.Prelude.Text.{codes}
use lottery_search_system.Store.Tests.{ends_023, ends_023-parsed, outside, outside-IsEnough}
use lottery_search_system.Postgres.{Table}
use lottery_search_system.Postgres.Tests.{table, table-IsTable}
use lottery_search_system.Postgres.ClaimTests.{undisturbed-IsTimely}
use lottery_search_system.Postgres.Claims.{Collected}
use lottery_search_system.Postgres.Complete.{undisturbed}
use lottery_search_system.Postgres.Loop.{NoPanic, IsFine}
use lottery_search_system.Postgres.Promise.{Serves}
use lottery_search_system.Sharded.{ShardRun, hash_string, shard_at, claim_sharded, bytes_of, utf8}
use lottery_search_system.Prelude.{false, arith}
use lottery_search_system.Pattern.{match_count, number_at}
use lottery_search_system.Walker.{gcd, new_walker, next, coprime_to}
use lottery_search_system.Candidates.{candidates, next_batch}
use lottery_search_system.Postgres.{find_row}
use lottery_search_system.Postgres.Tests.{free}
use lottery_search_system.Postgres.Statements.{
  claimable_row, taken_row, sharded_claim_sql, select_ids, take_rows, contains,
}
use lottery_search_system.Postgres.Claims.{terms, run_pass, claim_loop, claim_rows}
use lottery_search_system.Postgres.ClaimTests.{ran, ten_matches, matches_free}
use lottery_search_system.Sharded.{claim_shards, hash_bytes}
use lottery_search_system.Sharded.Complete.{calm_run, claim_sharded_complete}
use lottery_search_system.Sharded.Serves.{claim_sharded-Serves}

-- FNV-1a of "a", and of the empty text.
hash_a : hash_string "a" ≡ 0xe40c292c
unfolding hash_string
hash_a = refl

hash_nothing : hash_string "" ≡ 2166136261
unfolding hash_string
hash_nothing = refl

-- The bytes of an e with an acute accent.
bytes_of_accent : bytes_of (codes "é") ≡ 0xc3 ∷ 0xa9 ∷ []
unfolding bytes_of utf8
bytes_of_accent = refl

abbrev run : ShardRun
run = record { outside = outside; turns = λ i. undisturbed 100 }

claim_sharded-Serves_example :
    (x : Collected Table) × (claim_sharded
        (λ id. id % 16)
        4
        (λ offset. run)
        ends_023
        3
        "alice"
        30
        table
      ≡ some x)
    × Serves ends_023 3 "alice" 110 table x.at x.out
    × IsFine NoPanic x.error
claim_sharded-Serves_example =
    claim_sharded-Serves (λ id. id % 16) 4 (λ offset. run) (codes "12*023") ends_023 3 "alice" 30
      110 table ends_023-parsed
      (λ offset. record { usable = outside-IsEnough; timely = undisturbed-IsTimely }) table-IsTable

-- The claim over four shards, run: shard 1 gives ticket 1, and no other row matches.
claim_sharded_runs :
    claim_sharded (λ id. id % 4) 4 (λ o. calm_run outside 100) ends_023 3 "alice" 30 table
    ≡ some ran
unfolding claim_sharded claim_shards shard_at hash_string bytes_of utf8 hash_bytes run_pass
    claim_loop claim_rows sharded_claim_sql select_ids take_rows contains candidates new_walker
    coprime_to gcd next next_batch number_at match_count
claim_sharded_runs = refl

claim_sharded_complete_example : claimable_row 100 (taken_row (terms "alice" 30 100) free) ≡ false
unfolding find_row
claim_sharded_complete_example =
    claim_sharded_complete (λ id. id % 4) 4 (λ o. outside) (codes "12*023") ends_023 3 "alice" 30
      100 table ran 1 (taken_row (terms "alice" 30 100) free) ends_023-parsed
      (λ o. outside-IsEnough) (λ o i. refl) ten_matches claim_sharded_runs refl (omega arith) refl
      (omega arith) matches_free
