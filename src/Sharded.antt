-- ===== src/Sharded.antt =====
-- postgres/sharded.go: claims that go from shard to shard. Confirm and Release are the Postgres
-- store's. A text enters the hash as its bytes in UTF-8.
pub mod Order
pub mod Serves
pub mod Complete
pub mod Tests
use Prim.Native.Nat.{bit_xor}
use Prim.Native.String.{String}
use lottery_search_system.Prelude.{
  ℕ, zero, suc, ◌+◌, ◌*◌, ◌/◌, ◌%◌, ◌^◌, List, [], ◌∷◌, ◌++◌, Option, none, some, length, ltb, true,
  false, if◌then◌else◌, ◌>>=◌,
}
use lottery_search_system.Prelude.Int.{ℤ, pos, negsuc}
use lottery_search_system.Prelude.Text.{codes}
use lottery_search_system.TicketStore.{Answer}
use lottery_search_system.Pattern.{Pattern}
use lottery_search_system.Store.{Outside}
use lottery_search_system.Postgres.{Table, Fate, confirm_ticket, release_ticket}
use lottery_search_system.Postgres.Statements.{sharded_claim_sql}
use lottery_search_system.Postgres.Claims.{
  Collected, Turn, claim_rows, run_pass, whole_size, none_yet,
}

-- NewSharded
unfoldable pub new_sharded : ℤ → ℕ
new_sharded (pos n) = if ltb n 1 then 1 else n
new_sharded (negsuc n) = 1

-- The bytes of a code point.
pub utf8 : ℕ → List ℕ
utf8 c =
    if ltb c 0x80
    then c ∷ []
    else if ltb c 0x800
    then (0xc0 + c / 64) ∷ (0x80 + c % 64) ∷ []
    else if ltb c 0x10000
    then (0xe0 + c / 4096) ∷ (0x80 + c / 64 % 64) ∷ (0x80 + c % 64) ∷ []
    else (0xf0 + c / 262144) ∷ (0x80 + c / 4096 % 64) ∷ (0x80 + c / 64 % 64) ∷ (0x80 + c % 64) ∷ []

pub bytes_of : List ℕ → List ℕ
bytes_of [] = []
bytes_of (c ∷ cs) = utf8 c ++ bytes_of cs

-- The loop of hashString.
pub hash_bytes : ℕ → List ℕ → ℕ
hash_bytes h [] = h
hash_bytes h (b ∷ bs) = hash_bytes (bit_xor h b * 16777619 % 2 ^ 32) bs

unfoldable pub hash_string : String → ℕ
unfolding hash_bytes bytes_of utf8
hash_string s = hash_bytes 2166136261 (bytes_of (codes s))

-- The shard of the outer loop's round.
unfoldable pub shard_at : ℕ → String → ℕ → ℕ
shard_at shards holder offset = (hash_string holder % shards + offset) % shards

-- What the rounds of one shard take from outside.
pub record ShardRun : Type 0 where
  pub outside : Outside
  pub turns : ℕ → Turn

-- The outer loop of Claim, by the shards that are left. `shard_of` is the column `shard`, by the id.
unfoldable pub claim_shards :
    (ℕ → ℕ)
    → ℕ
    → (ℕ → ShardRun)
    → Pattern
    → ℕ
    → String
    → ℕ
    → ℕ
    → ℕ
    → Collected Table
    → Option (Collected Table)
claim_shards shard_of shards runs p k holder lease zero offset x = some x
claim_shards shard_of shards runs p k holder lease (suc left) offset x =
    elim (ltb (length x.out) k) [
      | false ↦ some x
      | true ↦ (do
        y ←
            run_pass (runs offset).outside whole_size
              (λ i.
                claim_rows (sharded_claim_sql shard_of (shard_at shards holder offset)) holder lease
                  ((runs offset).turns i))
              p k x
        elim y.error [
          | some e ↦ some y
          | none ↦ claim_shards shard_of shards runs p k holder lease left (suc offset) y
        ])
    ]

-- Claim, for a lease that is not negative.
unfoldable pub claim_sharded :
    (ℕ → ℕ) → ℕ → (ℕ → ShardRun) → Pattern → ℕ → String → ℕ → Table → Option (Collected Table)
claim_sharded shard_of shards runs p k holder lease t = elim k [
  | zero ↦ some (none_yet t)
  | suc k' ↦ claim_shards shard_of shards runs p (suc k') holder lease shards 0 (none_yet t)
]

unfoldable pub confirm_sharded :
    Fate → Fate → (Table → Table) → ℕ → ℕ → String → ℕ → Table → Table × Answer
confirm_sharded = confirm_ticket

unfoldable pub release_sharded :
    Fate → Fate → (Table → Table) → ℕ → ℕ → String → Table → Table × Answer
release_sharded = release_ticket
