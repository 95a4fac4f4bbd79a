-- ===== src/Availability.antt =====
-- postgres/load.go: the hint that a replica keeps of how many tickets of each number are not sold.
-- The number space is an argument, which the program fixes to `number_space`. The database is
-- outside: what its query answers is an argument.
pub mod Valid
pub mod Load
pub mod Safety
pub mod Search
pub mod Tests
use lottery_search_system.Prelude.{
  ℕ, zero, suc, ◌+◌, ◌-◌, ◌%◌, ◌^◌, Bool, true, false, List, [], ◌∷◌, Option, some, ltb, leb, ◌==◌,
  none, if◌then◌else◌, ◌>>=◌,
}
use lottery_search_system.Prelude.Array.{Array, make, load, store}
use lottery_search_system.Prelude.Int.{ℤ, pos, negsuc}
use lottery_search_system.Bitmap.{Bitmap, new_bitmap, set_bit, clear_bit, test_bit, next_set}

pub record Availability : Type 0 where
  pub counts : Array ℕ
  pub non_zero : Bitmap
  pub loaded : ℕ

unfoldable pub new_availability : ℕ → Availability
new_availability space = record { counts = make space 0; non_zero = new_bitmap space; loaded = 0 }

-- A row of loadSQL.
pub record Row : Type 0 where
  pub num : ℤ
  pub count : ℤ

-- The conversion of an int32 to a uint32.
abbrev pub uint32 : ℤ → ℕ
uint32 (pos n) = n % 2 ^ 32
uint32 (negsuc n) = 2 ^ 32 - 1 - n % 2 ^ 32

abbrev pub positive : ℤ → Bool
positive (pos n) = ltb 0 n
positive (negsuc n) = false

-- The number itself, if it lies in the space.
abbrev pub inside : ℕ → ℤ → Option ℕ
inside space (pos n) = if leb space n then none else some n
inside space (negsuc n) = none

-- The body of Load's loop.
abbrev pub enter_row : ℕ → Row → Array ℕ × Bitmap → Option (Array ℕ × Bitmap)
enter_row space r (counts, bm) = elim (inside space r.num) [
  | none ↦ some (counts, bm)
  | some n ↦ (do
    counts' ← store counts n (uint32 r.count)
    bm' ← if positive r.count then set_bit bm n else some bm
    some (counts', bm'))
]

pub enter_rows : ℕ → List Row → Array ℕ × Bitmap → Option (Array ℕ × Bitmap)
enter_rows space [] scratch = some scratch
enter_rows space (r ∷ rs) scratch = do
  scratch' ← enter_row space r scratch
  enter_rows space rs scratch'

-- What the query answers: an error, or rows, after which the reading ends or breaks off.
pub data Query : Type 0 where
  refused : Query
  ended : List Row → Query
  broken : List Row → Query

-- Load at a time `now`, with whether it returns no error.
unfoldable pub load_hint : ℕ → Query → ℕ → Availability → Option (Availability × Bool)
unfolding enter_rows
load_hint space refused now a = some (a, false)
load_hint space (broken rows) now a = do
  scratch ← enter_rows space rows (make space 0, new_bitmap space)
  some (a, false)
load_hint space (ended rows) now a = do
  scratch ← enter_rows space rows (make space 0, new_bitmap space)
  some (record { counts = scratch.0; non_zero = scratch.1; loaded = now }, true)

unfoldable pub maybe_available : ℕ → Availability → ℤ → Option Bool
maybe_available space a n = elim (inside space n) [
  | none ↦ some false
  | some n ↦ test_bit a.non_zero n
]

-- counts[n]-- where it is above zero.
abbrev pub lowered : Array ℕ → ℕ → Option (Array ℕ)
lowered counts n = do
  count ← load counts n
  if ltb 0 count then store counts n (count - 1) else some counts

unfoldable pub mark_sold : ℕ → Availability → ℤ → Option Availability
mark_sold space a n = elim (inside space n) [
  | none ↦ some a
  | some n ↦ (do
    counts ← lowered a.counts n
    count ← load counts n
    bits ← if count == 0 then clear_bit a.non_zero n else some a.non_zero
    some (record a { counts = counts; non_zero = bits }))
]

unfoldable pub mark_available : ℕ → Availability → ℤ → Option Availability
mark_available space a n = elim (inside space n) [
  | none ↦ some a
  | some n ↦ (do
    count ← load a.counts n
    counts ← if count == 0 then store a.counts n 1 else some a.counts
    bits ← set_bit a.non_zero n
    some (record a { counts = counts; non_zero = bits }))
]

-- The answer -1 of NextSet is passed on, and any other fits an int32.
unfoldable pub next_available_from : Availability → ℤ → Option ℤ
next_available_from a from = next_set a.non_zero from

-- The loop of Stats: how many numbers have stock, and how many tickets are not sold.
pub stats_from : Array ℕ → ℕ → ℕ → ℕ × ℕ
stats_from counts zero n = (0, 0)
stats_from counts (suc rounds) n =
    let rest = stats_from counts rounds (suc n) in
    if ltb 0 (counts.at n) then (1 + rest.0, counts.at n + rest.1) else rest

unfoldable pub stats : Availability → ℕ × ℕ
unfolding stats_from
stats a = stats_from a.counts a.counts.len 0
