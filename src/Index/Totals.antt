-- ===== src/Index/Totals.antt =====
-- The second pass: after it, entry n is how many tickets have a number below n.
use lottery_search_system.Prelude.{
  ℕ, zero, suc, ◌+◌, ◌^◌, ◌≤◌, ◌<◌, ◌≡◌, refl, true, List, some, length, ltb, arith,
}
use lottery_search_system.Prelude.Array.{Array, update}
use lottery_search_system.Index.{Ticket, add32, total_pass}
use lottery_search_system.Index.Counts.{ids_of, below, below-suc, below-le-length}

pub total_pass-totals :
    (space : ℕ) (ts : List Ticket) (rounds n : ℕ) (a : Array ℕ)
    → n + rounds ≡ space
    → a.len ≡ space + 1
    → length ts < 2 ^ 32
    → ((i : ℕ) → i ≤ n → a.at i ≡ below i ts)
    → ((i : ℕ) → n ≤ i → a.at (suc i) ≡ length (ids_of i ts))
    → (b : Array ℕ) × (total_pass rounds n a ≡ some b)
      × (b.len ≡ space + 1)
      × ((i : ℕ) → i ≤ space → b.at i ≡ below i ts)
unfolding total_pass
total_pass-totals space ts zero n a e size room low high =
    (a, refl, size, λ i h. low i (omega arith))
total_pass-totals space ts (suc rounds) n a e size room low high =
    let next = add32 (a.at (n + 1)) (a.at n) in
    let a' : Array ℕ = record a { at = update a.at (n + 1) next } in
    let here : ltb n a.len ≡ true = ground arith in
    let inside : ltb (n + 1) a.len ≡ true = ground arith in
    let one : n + 1 ≡ suc n = omega arith in
    let total : next ≡ below (suc n) ts =
      ground (arith, low n, high n, one, below-suc n ts, below-le-length (suc n) ts) in
    let (b, run, len, totals) =
      total_pass-totals space ts rounds (n + 1) a' (omega arith) size room
        (λ i h. ground (arith, low i, total)) (λ i h. ground (arith, high i)) in
    (b, rw (here, inside) run, len, totals)
