-- ===== src/Index/Counts.antt =====
-- What an index holds, as functions of the list of tickets, and the first pass.
use lottery_search_system.Prelude.{
  ℕ, suc, ◌+◌, ◌^◌, ◌≤◌, ◌<◌, ◌≡◌, refl, true, List, [], ◌∷◌, ◌++◌, some, length, ltb, ◌==◌,
  if◌then◌else◌, arith,
}
use lottery_search_system.Prelude.Array.{Array, update}
use lottery_search_system.Index.{Ticket, add32, count_pass}

-- The ids of the tickets of a number, in the order of the list.
unfoldable pub ids_of : ℕ → List Ticket → List ℕ
ids_of n [] = []
ids_of n (t ∷ ts) = if t.number == n then t.id ∷ ids_of n ts else ids_of n ts

-- How many tickets have a number below `n`.
unfoldable pub below : ℕ → List Ticket → ℕ
below n [] = 0
below n (t ∷ ts) = (if ltb t.number n then 1 else 0) + below n ts

-- The numbers lie in the number space.
abbrev pub InSpace : ℕ → List Ticket → Type 0
InSpace space [] = Unit {0}
InSpace space (t ∷ ts) = (t.number < space) × InSpace space ts

pub below-suc : (n : ℕ) (ts : List Ticket) → below (suc n) ts ≡ below n ts + length (ids_of n ts)
unfolding below ids_of
below-suc n [] = omega arith
below-suc n (t ∷ ts) = ground (arith, below-suc n ts)

pub below-zero : (ts : List Ticket) → below 0 ts ≡ 0
unfolding below
below-zero [] = refl
below-zero (t ∷ ts) = ground (arith, below-zero ts)

pub below_mono : (m n : ℕ) (ts : List Ticket) → m ≤ n → below m ts ≤ below n ts
unfolding below
below_mono m n [] h = omega arith
below_mono m n (t ∷ ts) h = ground (arith, below_mono m n ts h)

pub below-le-length : (n : ℕ) (ts : List Ticket) → below n ts ≤ length ts
unfolding below
below-le-length n [] = omega arith
below-le-length n (t ∷ ts) = ground (arith, below-le-length n ts)

pub length-ids_of-le : (n : ℕ) (ts : List Ticket) → length (ids_of n ts) ≤ length ts
unfolding ids_of
length-ids_of-le n [] = omega arith
length-ids_of-le n (t ∷ ts) = ground (arith, length-ids_of-le n ts)

pub ids_of-append : (n : ℕ) (xs ys : List Ticket) → ids_of n (xs ++ ys) ≡ ids_of n xs ++ ids_of n ys
unfolding ids_of
ids_of-append n [] ys = refl
ids_of-append n (x ∷ xs) ys = ground (arith, ids_of-append n xs ys)

-- Entry n + 1 grows by the number of tickets of number n.
pub count_pass-counts :
    (space : ℕ) (a : Array ℕ) (ts : List Ticket)
    → a.len ≡ space + 1
    → InSpace space ts
    → ((i : ℕ) → a.at i + length ts < 2 ^ 32)
    → (b : Array ℕ) × (count_pass a ts ≡ some b)
      × (b.len ≡ space + 1)
      × (b.at 0 ≡ a.at 0)
      × ((i : ℕ) → b.at (suc i) ≡ a.at (suc i) + length (ids_of i ts))
unfolding count_pass ids_of
count_pass-counts space a [] size h room = (a, refl, size, refl, λ i. omega arith)
count_pass-counts space a (t ∷ ts) size h room =
    let a' : Array ℕ = record a {
      at = update a.at (t.number + 1) (add32 (a.at (t.number + 1)) 1);
    } in
    let inside : ltb (t.number + 1) a.len ≡ true = ground arith in
    let (b, run, len, zeroth, counts) =
      count_pass-counts space a' ts size h.1 (λ i. ground (arith, room i)) in
    (
      b,
      rw inside run,
      len,
      ground (arith, zeroth),
      λ i. ground (arith, counts i, room (t.number + 1)),
    )
