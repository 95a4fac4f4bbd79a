-- ===== src/Sharded/Order.antt =====
-- The order of the shards.
use mathlib.Core.List.{Perm}
use lottery_search_system.Prelude.{ℕ, ◌*◌, ◌%◌, ◌^◌, ◌<◌, ◌≡◌, ap, List, [], ◌∷◌, map, arith}
use Prim.Native.Nat.{bit_xor}
use Prim.Native.String.{String}
use mathlib.Core.Path.{fun_ext}
use native.Mathlib.Nat.{mod-lt}
use lottery_search_system.Prelude.Int.{ℤ, pos, negsuc}
use lottery_search_system.Prelude.Text.{codes}
use lottery_search_system.Prelude.Perms.{run_from}
use lottery_search_system.Walker.Gcd.{gcd_one}
use lottery_search_system.Walker.Cycle.{visit, visits-perm}
use lottery_search_system.Sharded.{new_sharded, hash_bytes, hash_string, shard_at, bytes_of}

new_sharded_pos : (shards : ℤ) → 0 < new_sharded shards
unfolding new_sharded
new_sharded_pos (pos n) = ground arith
new_sharded_pos (negsuc n) = omega arith

hash_bytes_bound : (bs : List ℕ) (h : ℕ) → h < 2 ^ 32 → hash_bytes h bs < 2 ^ 32
unfolding hash_bytes
hash_bytes_bound [] h small = small
hash_bytes_bound (b ∷ bs) h small =
    hash_bytes_bound bs (bit_xor h b * 16777619 % 2 ^ 32) (omega arith)

-- The hash of every holder fits 32 bits, and the shard of each round is one of those that NewSharded
-- settles on, of which there is at least one.
pub shard_at_bounds :
    (shards : ℤ) (holder : String) (offset : ℕ)
    → (hash_string holder < 2 ^ 32)
      × (0 < new_sharded shards)
      × (shard_at (new_sharded shards) holder offset < new_sharded shards)
unfolding hash_string shard_at
shard_at_bounds shards holder offset = (
  hash_bytes_bound (bytes_of (codes holder)) 2166136261 (omega arith),
  new_sharded_pos shards,
  mod-lt _ {m = new_sharded shards} (new_sharded_pos shards),
)

shard_at-visit :
    (shards : ℕ) (holder : String) (offset : ℕ)
    → shard_at shards holder offset ≡ visit shards 1 (hash_string holder % shards) offset
unfolding shard_at
shard_at-visit shards holder offset = ap (λ i. i % shards) (omega arith)

-- The rounds of the outer loop come to every shard exactly once, whoever the holder is.
pub shards-perm :
    (shards : ℕ) (holder : String)
    → Perm (map (shard_at shards holder) (run_from shards 0)) (run_from shards 0)
shards-perm shards holder =
    rw (fun_ext (shard_at-visit shards holder))
      (visits-perm shards 1 (hash_string holder % shards) (gcd_one shards))
