-- ===== src/Index/Laws.antt =====
-- What index.go promises: the index answers with each number's tickets.
use lottery_search_system.Prelude.{
  ℕ, suc, ◌+◌, ◌-◌, ◌^◌, ◌≤◌, ◌<◌, ◌≡◌, refl, ap, true, List, [], some, length, ltb, leb, arith,
}
use lottery_search_system.Prelude.Array.{make}
use lottery_search_system.Index.{Ticket, Index, build_index, block, tickets_for, index_len}
use lottery_search_system.Index.Counts.{
  ids_of, below, InSpace, below-suc, below-zero, below-le-length, count_pass-counts,
}
use lottery_search_system.Index.Totals.{total_pass-totals}
use lottery_search_system.Index.Place.{place_pass-places, start-Placed}

-- The index groups the tickets `ts`.
pub record Groups (space : ℕ) (ts : List Ticket) (ix : Index) : Type 0 where
  pub size : ix.offsets.len ≡ space + 1
  pub total : ix.ticket_ids.len ≡ length ts
  pub starts : (n : ℕ) → n ≤ space → ix.offsets.at n ≡ below n ts
  pub blocks :
      (n : ℕ) → n < space → block ix.ticket_ids.at (below n ts) (length (ids_of n ts)) ≡ ids_of n ts

pub build_index-Groups :
    (space : ℕ) (ts : List Ticket)
    → InSpace space ts
    → length ts < 2 ^ 31
    → (ix : Index) × (build_index space ts ≡ some ix) × Groups space ts ix
unfolding build_index
build_index-Groups space ts h short =
    let (counts, counted, len, zeroth, each) =
      count_pass-counts space (make (space + 1) 0) ts refl h (λ i. omega arith) in
    let (offsets, totalled, size, starts) =
      total_pass-totals space ts space 0 counts (omega arith) len (omega arith)
        (λ i k. ground (arith, zeroth, below-zero ts)) (λ i k. omega (arith, each i)) in
    let (ids, placed, room, blocks) =
      place_pass-places space ts [] ts offsets (make (length ts) 0) refl h (omega arith)
        (start-Placed space ts offsets (make (length ts) 0) size refl starts) in
    (
      record { offsets = offsets; ticket_ids = ids },
      rw (counted, totalled, placed),
      record { size = size; total = room; starts = starts; blocks = blocks },
    )

pub Groups-tickets_for :
    (space : ℕ) (ts : List Ticket) (ix : Index) (n : ℕ)
    → Groups space ts ix
    → n < space
    → tickets_for ix n ≡ some (ids_of n ts)
unfolding tickets_for
Groups-tickets_for space ts ix n g h =
    let inside : ltb n ix.offsets.len ≡ true = ground (arith, g.size) in
    let next_inside : ltb (n + 1) ix.offsets.len ≡ true = ground (arith, g.size) in
    let one : n + 1 ≡ suc n = omega arith in
    let lo : ix.offsets.at n ≡ below n ts = g.starts n (omega arith) in
    let hi : ix.offsets.at (suc n) ≡ below (suc n) ts = g.starts (suc n) h in
    let ordered : leb (below n ts) (below (suc n) ts) ≡ true = ground (arith, below-suc n ts) in
    let bounded : leb (below (suc n) ts) ix.ticket_ids.len ≡ true =
      ground (arith, below-le-length (suc n) ts, g.total) in
    let count : below (suc n) ts - below n ts ≡ length (ids_of n ts) =
      omega (arith, below-suc n ts) in
    rw (inside, next_inside, one, lo, hi, ordered, bounded, count) (ap some (g.blocks n h))

-- BuildIndex does not panic on fewer than 2 ^ 31 tickets with numbers in the number space. Of the
-- index that it builds, TicketsFor answers every number of the space with the ids of exactly the
-- tickets that carry it, in the order of the input, and Len is the number of tickets.
pub build_index-tickets_for :
    (space : ℕ) (ts : List Ticket)
    → InSpace space ts
    → length ts < 2 ^ 31
    → (ix : Index) × (build_index space ts ≡ some ix)
      × ((n : ℕ) → n < space → tickets_for ix n ≡ some (ids_of n ts))
      × (index_len ix ≡ length ts)
unfolding index_len
build_index-tickets_for space ts h short =
    let (ix, built, g) = build_index-Groups space ts h short in
    (ix, built, λ n k. Groups-tickets_for space ts ix n g k, g.total)
