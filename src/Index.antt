-- ===== src/Index.antt =====
-- index.go: the ids of the tickets of each number, in two flat arrays built by a counting sort. The
-- number space is an argument, which the program fixes to `number_space`.
pub mod Counts
pub mod Totals
pub mod Place
pub mod Laws
pub mod Tests
use lottery_search_system.Prelude.{
  ℕ, zero, suc, ◌+◌, ◌-◌, ◌%◌, ◌^◌, List, [], ◌∷◌, Option, none, some, length, leb, ◌&&◌,
  if◌then◌else◌, ◌>>=◌,
}
use lottery_search_system.Prelude.Array.{Array, make, load, store}

pub record Ticket : Type 0 where
  pub id : ℕ
  pub number : ℕ

pub record Index : Type 0 where
  pub offsets : Array ℕ
  pub ticket_ids : Array ℕ

-- An int32 is its bit pattern: what is 2 ^ 31 or more stands for a negative number, and as an index
-- it is out of range like one.
abbrev pub add32 : ℕ → ℕ → ℕ
add32 a b = (a + b) % 2 ^ 32

-- Pass 1: count.
pub count_pass : Array ℕ → List Ticket → Option (Array ℕ)
count_pass offsets [] = some offsets
count_pass offsets (t ∷ ts) = do
  seen ← load offsets (t.number + 1)
  offsets' ← store offsets (t.number + 1) (add32 seen 1)
  count_pass offsets' ts

-- Pass 2: running total, by the rounds that are left and the position.
pub total_pass : ℕ → ℕ → Array ℕ → Option (Array ℕ)
total_pass zero n offsets = some offsets
total_pass (suc rounds) n offsets = do
  before ← load offsets n
  here ← load offsets (n + 1)
  offsets' ← store offsets (n + 1) (add32 here before)
  total_pass rounds (n + 1) offsets'

-- Pass 3: place, through the cursor.
pub place_pass : Array ℕ → Array ℕ → List Ticket → Option (Array ℕ)
place_pass cursor ids [] = some ids
place_pass cursor ids (t ∷ ts) = do
  spot ← load cursor t.number
  ids' ← store ids spot t.id
  cursor' ← store cursor t.number (add32 spot 1)
  place_pass cursor' ids' ts

unfoldable pub build_index : ℕ → List Ticket → Option Index
unfolding count_pass total_pass place_pass
build_index space tickets = do
  counts ← count_pass (make (space + 1) 0) tickets
  offsets ← total_pass space 0 counts
  ids ← place_pass offsets (make (length tickets) 0) tickets
  some (record { offsets = offsets; ticket_ids = ids })

-- `count` entries from `lo` on.
unfoldable pub block : (ℕ → ℕ) → ℕ → ℕ → List ℕ
block at lo zero = []
block at lo (suc count) = at lo ∷ block at (suc lo) count

-- a[lo:hi]
abbrev pub slice : Array ℕ → ℕ → ℕ → Option (List ℕ)
slice a lo hi = if leb lo hi && leb hi a.len then some (block a.at lo (hi - lo)) else none

unfoldable pub tickets_for : Index → ℕ → Option (List ℕ)
unfolding block
tickets_for ix number = do
  lo ← load ix.offsets number
  hi ← load ix.offsets (number + 1)
  slice ix.ticket_ids lo hi

unfoldable pub index_len : Index → ℕ
index_len ix = ix.ticket_ids.len
