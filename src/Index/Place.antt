-- ===== src/Index/Place.antt =====
-- The third pass: it writes each number's ids into that number's block, in the order of the list.
use mathlib.Core.List.{append-nil, append_assoc}
use lottery_search_system.Prelude.{
  ℕ, zero, suc, ◌+◌, ◌^◌, ◌≤◌, ◌<◌, ◌≡◌, ◌⊎◌, refl, ap, sym, ◌∙◌, true, false, List, [], ◌∷◌, ◌++◌,
  some, length, length-append, ltb, ◌==◌, ==_self, ==_iff, subst, if◌then◌else◌, arith, Bool-cases,
  inl, inr,
}
use lottery_search_system.Prelude.Array.{Array, update}
use lottery_search_system.Index.{Ticket, add32, place_pass, block}
use lottery_search_system.Index.Counts.{
  ids_of, below, InSpace, below-suc, below_mono, below-le-length, ids_of-append,
}

-- A write outside a block leaves it alone, and one at its end appends.
block-outside :
    (f : ℕ → ℕ) (spot v lo count : ℕ)
    → (spot < lo) ⊎ (lo + count ≤ spot)
    → block (update f spot v) lo count ≡ block f lo count
unfolding block
block-outside f spot v lo zero h = refl
block-outside f spot v lo (suc count) h =
    ground (arith, block-outside f spot v (suc lo) count (omega arith))

block-snoc :
    (f : ℕ → ℕ) (lo count : ℕ) → block f lo (suc count) ≡ block f lo count ++ f (lo + count) ∷ []
unfolding block
block-snoc f lo zero = ground arith
block-snoc f lo (suc count) =
    let shifted : suc lo + count ≡ lo + suc count = omega arith in
    ap (◌∷◌ (f lo)) (rw (← shifted) (block-snoc f (suc lo) count))

-- What holds when the tickets `done` are placed: each number's cursor stands behind its block's
-- part that is written, and that part holds the number's ids.
pub record Placed (space : ℕ) (all done : List Ticket) (cursor ids : Array ℕ) : Type 0 where
  cursors : cursor.len ≡ space + 1
  room : ids.len ≡ length all
  spots : (n : ℕ) → n < space → cursor.at n ≡ below n all + length (ids_of n done)
  written :
      (n : ℕ) → n < space → block ids.at (below n all) (length (ids_of n done)) ≡ ids_of n done

-- The ids of a number, with one more ticket.
ids_of-snoc :
    (n : ℕ) (done : List Ticket) (t : Ticket)
    → ids_of n (done ++ t ∷ [])
      ≡ (if t.number == n then ids_of n done ++ t.id ∷ [] else ids_of n done)
unfolding ids_of
ids_of-snoc n done t = ids_of-append n done (t ∷ []) ∙ ground (arith, append-nil (ids_of n done))

module _ (space : ℕ) (all done : List Ticket) (t : Ticket) (later : List Ticket)
    (cursor ids : Array ℕ) (split : all ≡ done ++ t ∷ later) (inside : t.number < space)
    (short : length all < 2 ^ 32) (p : Placed space all done cursor ids) where
  abbrev spot : ℕ
  spot = cursor.at t.number

  abbrev ids' : Array ℕ
  ids' = record ids { at = update ids.at spot t.id }

  abbrev cursor' : Array ℕ
  cursor' = record cursor { at = update cursor.at t.number (add32 spot 1) }

  -- What is placed of a number, and the ticket at hand, are among all.
  done-le : (n : ℕ) → length (ids_of n done) + length (ids_of n (t ∷ later)) ≡ length (ids_of n all)
  done-le n = omega (
    arith,
    ap (λ l. length (ids_of n l)) split,
    ap length (ids_of-append n done (t ∷ later)),
    length-append (ids_of n done) (ids_of n (t ∷ later)),
  )

  here : ids_of t.number (t ∷ later) ≡ t.id ∷ ids_of t.number later
  unfolding ids_of
  here = rw (==_self t.number)

  -- The spot lies in the ticket's own block.
  spot-in_block : spot < below (suc t.number) all
  spot-in_block =
      omega
        (arith, p.spots t.number inside, below-suc t.number all, done-le t.number, ap length here)

  spot-lt : spot < length all
  spot-lt = omega (arith, spot-in_block, below-le-length (suc t.number) all)

  written_own :
      block ids'.at (below t.number all) (length (ids_of t.number (done ++ t ∷ [])))
      ≡ ids_of t.number (done ++ t ∷ [])
  written_own =
      let old = ids_of t.number done in
      let lo = below t.number all in
      let grown : ids_of t.number (done ++ t ∷ []) ≡ old ++ t.id ∷ [] =
        ids_of-snoc t.number done t ∙ rw (==_self t.number) in
      let size : length (old ++ t.id ∷ []) ≡ suc (length old) =
        omega (arith, length-append old (t.id ∷ [])) in
      let top : ids'.at (lo + length old) ≡ t.id = ground (arith, p.spots t.number inside) in
      let kept =
        block-outside ids.at spot t.id lo (length old) (omega (arith, p.spots t.number inside)) in
      rw (grown, size, block-snoc ids'.at lo (length old), top, kept, p.written t.number inside)

  -- The spot lies outside the written part of any other block.
  apart :
      (n : ℕ)
      → (t.number == n) ≡ false
      → n < space
      → (spot < below n all) ⊎ (below n all + length (ids_of n done) ≤ spot)
  apart n other h = elim (Bool-cases (ltb n t.number)) [
    | inl less ↦ inr (
        omega (
          arith,
          p.spots t.number inside,
          below-suc n all,
          done-le n,
          below_mono (suc n) t.number all (ground arith),
        ))
    | inr more ↦ inl (omega (arith, spot-in_block, below_mono (suc t.number) n all (ground arith)))
  ]

  written' :
      (n : ℕ)
      → n < space
      → block ids'.at (below n all) (length (ids_of n (done ++ t ∷ []))) ≡ ids_of n (done ++ t ∷ [])
  written' n h = elim (Bool-cases (t.number == n)) [
    | inl own ↦
        subst
          (λ m.
            block ids'.at (below m all) (length (ids_of m (done ++ t ∷ [])))
            ≡ ids_of m (done ++ t ∷ []))
          ((==_iff _ _).0 own) written_own
    | inr other ↦
        let same : ids_of n (done ++ t ∷ []) ≡ ids_of n done = ids_of-snoc n done t ∙ rw other in
        rw same (
          block-outside ids.at spot t.id (below n all) (length (ids_of n done)) (apart n other h)
          ∙ p.written n h)
  ]

  step-Placed : Placed space all (done ++ t ∷ []) cursor' ids'
  step-Placed = record {
    cursors = p.cursors;
    room = p.room;
    spots = λ n h. ground (
      arith,
      ap length (ids_of-snoc n done t),
      length-append (ids_of n done) (t.id ∷ []),
      p.spots n,
      spot-lt,
    );
    written = written';
  }

-- The pass writes every ticket.
pub place_pass-places :
    (space : ℕ) (all done todo : List Ticket) (cursor ids : Array ℕ)
    → all ≡ done ++ todo
    → InSpace space todo
    → length all < 2 ^ 32
    → Placed space all done cursor ids
    → (b : Array ℕ) × (place_pass cursor ids todo ≡ some b)
      × (b.len ≡ length all)
      × ((n : ℕ) → n < space → block b.at (below n all) (length (ids_of n all)) ≡ ids_of n all)
unfolding place_pass
place_pass-places space all done [] cursor ids split h short p =
    let same : all ≡ done = split ∙ append-nil done in
    (
      ids,
      refl,
      p.room,
      λ n k.
          subst (λ l. block ids.at (below n all) (length (ids_of n l)) ≡ ids_of n l) (sym same)
            (p.written n k),
    )
place_pass-places space all done (t ∷ ts) cursor ids split h short p =
    let next = step-Placed space all done t ts cursor ids split h.0 short p in
    let spot_inside : ltb (cursor.at t.number) ids.len ≡ true =
      ground (arith, spot-lt space all done t ts cursor ids split h.0 short p, p.room) in
    let number_inside : ltb t.number cursor.len ≡ true = ground (arith, p.cursors) in
    let (b, run, len, blocks) =
      place_pass-places space all (done ++ t ∷ []) ts _ _
        (split ∙ sym (append_assoc done (t ∷ []) ts)) h.1 short next in
    (b, rw (number_inside, spot_inside) run, len, blocks)

-- The state in which the pass begins.
pub start-Placed :
    (space : ℕ) (all : List Ticket) (offsets ids : Array ℕ)
    → offsets.len ≡ space + 1
    → ids.len ≡ length all
    → ((i : ℕ) → i ≤ space → offsets.at i ≡ below i all)
    → Placed space all [] offsets ids
unfolding ids_of block
start-Placed space all offsets ids size room totals = record {
  cursors = size;
  room = room;
  spots = λ n h. omega (arith, totals n (omega arith));
  written = λ n h. refl;
}
