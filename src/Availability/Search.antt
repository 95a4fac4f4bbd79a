-- ===== src/Availability/Search.antt =====
-- NextAvailableFrom, by the counts of the hint.
use lottery_search_system.Prelude.{ℕ, ◌≤◌, ◌<◌, ◌≡◌, some, arith}
use lottery_search_system.Prelude.Int.{ℤ, pos, negsuc}
use lottery_search_system.Bitmap.Search.{IsNext, start_of, next_set-IsNext}
use lottery_search_system.Availability.{Availability, next_available_from}
use lottery_search_system.Availability.Valid.{IsHint}

-- The first number from `start` on whose count is above zero, or -1 if there is none in the space.
abbrev pub IsFirst : ℕ → (ℕ → ℕ) → ℕ → ℤ → Type 0
IsFirst space counts start (pos m) =
    (start ≤ m) × (m < space) × (0 < counts m) × ((k : ℕ) → start ≤ k → k < m → counts k ≡ 0)
IsFirst space counts start (negsuc n) = (n ≡ 0) × ((k : ℕ) → start ≤ k → k < space → counts k ≡ 0)

IsNext-IsFirst :
    (space : ℕ) (a : Availability) (start : ℕ) (r : ℤ)
    → IsHint space a
    → IsNext a.non_zero start r
    → IsFirst space a.counts.at start r
IsNext-IsFirst space a start (pos m) v (from, inside, hit, before) = (
  from,
  omega (arith, v.size),
  ground (arith, v.listed m (omega (arith, v.size))),
  λ k p q. ground (arith, before k p q, v.listed k (omega (arith, v.size))),
)
IsNext-IsFirst space a start (negsuc n) v (one, rest) =
    (one, λ k p q. ground (arith, rest k p (omega (arith, v.size)), v.listed k q))

-- On a valid hint NextAvailableFrom returns normally, and its answer is the first number of the space,
-- at the position or later, of which the hint counts a ticket, or -1 if there is none. A negative
-- position counts as 0.
pub next_available_from-IsFirst :
    (space : ℕ) (a : Availability) (from : ℤ)
    → IsHint space a
    → (r : ℤ) × (next_available_from a from ≡ some r) × IsFirst space a.counts.at (start_of from) r
unfolding next_available_from
next_available_from-IsFirst space a from v =
    let (r, run, next) = next_set-IsNext a.non_zero from v.bitmap in
    (r, run, IsNext-IsFirst space a (start_of from) r v next)
