-- ===== src/Candidates/Batches.antt =====
-- A generator stands for the list of the numbers that it has still to yield, and a batch is the
-- front of that list.
use lottery_search_system.Prelude.{
  ℕ, zero, suc, ◌+◌, ◌-◌, ◌≤◌, ◌<◌, ◌≡◌, refl, ap, none, some, List, [], ◌∷◌, map, take, drop,
  arith, Bool-cases, leb, inl, inr,
}
use lottery_search_system.Prelude.Perms.{run_from}
use lottery_search_system.Pattern.{number_at}
use lottery_search_system.Walker.{next}
use lottery_search_system.Walker.Cycle.{visit, next-some, next-none}
use lottery_search_system.Candidates.{Candidates, fill, next_batch}

-- The number that the i-th step yields.
abbrev pub yielded : Candidates → ℕ → ℕ
yielded c i = number_at c.pattern (visit c.walker.n c.walker.a c.walker.b i)

unfoldable pub remaining : Candidates → List ℕ
remaining c = map (yielded c) (run_from (c.walker.n - c.walker.i) c.walker.i)

-- The generator after one more step.
abbrev advance : Candidates → Candidates
advance c = record c { walker = record c.walker { i = c.walker.i + 1 } }

remaining-cons :
    (c : Candidates)
    → c.walker.i < c.walker.n
    → remaining c ≡ yielded c c.walker.i ∷ remaining (advance c)
unfolding remaining
remaining-cons c h =
    let more : c.walker.n - c.walker.i ≡ suc (c.walker.n - (c.walker.i + 1)) = omega arith in
    let after : suc c.walker.i ≡ c.walker.i + 1 = omega arith in rw (more, after)

remaining-nil : (c : Candidates) → c.walker.n ≤ c.walker.i → remaining c ≡ []
unfolding remaining
remaining-nil c h = let none_left : c.walker.n - c.walker.i ≡ 0 = omega arith in rw none_left

-- A step of the loop, at a generator with numbers left and at an exhausted one.
fill-cons :
    (room : ℕ) (c : Candidates)
    → c.walker.i < c.walker.n
    → fill (suc room) c
      ≡ (yielded c c.walker.i ∷ (fill room (advance c)).0, (fill room (advance c)).1)
unfolding fill
fill-cons room c h =
    let stepped = next-some c.walker h in
    let value : (next c.walker).0 ≡ some (visit c.walker.n c.walker.a c.walker.b c.walker.i) =
      ap (λ t. t.0) stepped in
    let walker : (next c.walker).1 ≡ (advance c).walker = ap (λ t. t.1) stepped in
    rw (value, walker, fill)

fill-nil : (room : ℕ) (c : Candidates) → c.walker.n ≤ c.walker.i → fill (suc room) c ≡ ([], c)
unfolding fill
fill-nil room c h =
    let value : (next c.walker).0 ≡ none = ap (λ t. t.0) (next-none c.walker h) in
    let walker : (next c.walker).1 ≡ c.walker = ap (λ t. t.1) (next-none c.walker h) in
    rw (value, walker, fill)

fill-take :
    (room : ℕ) (c : Candidates)
    → ((fill room c).0 ≡ take room (remaining c))
      × (remaining (fill room c).1 ≡ drop room (remaining c))
      × ((fill room c).1.pattern ≡ c.pattern)
unfolding fill
fill-take zero c = (refl, refl, refl)
fill-take (suc room) c = elim (Bool-cases (leb c.walker.n c.walker.i)) [
  | inl done ↦
      let over : c.walker.n ≤ c.walker.i = ground arith in
      rw (fill-nil room c over, remaining-nil c over) (refl, refl, refl)
  | inr more ↦
      let left : c.walker.i < c.walker.n = ground arith in
      let (front, back, same) = fill-take room (advance c) in
      rw (fill-cons room c left, remaining-cons c left)
        (ap (◌∷◌ (yielded c c.walker.i)) front, back, same)
]

-- NextBatch takes the first numbers of those remaining, as many as are asked for, and leaves the
-- others.
pub next_batch-take :
    (c : Candidates) (max : ℕ)
    → ((next_batch c max).0 ≡ take max (remaining c))
      × (remaining (next_batch c max).1 ≡ drop max (remaining c))
      × ((next_batch c max).1.pattern ≡ c.pattern)
unfolding next_batch
next_batch-take c max = fill-take max c
