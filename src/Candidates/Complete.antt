-- ===== src/Candidates/Complete.antt =====
-- The batches of a fresh generator hold the numbers that match the pattern, each once.
use mathlib.Core.List.{
  Mem, mem-cons_self, mem-cons_of_mem, Nodup, Perm, map-map, exists_of_mem-map, mem-map_of_mem,
}
use mathlib.Core.List.Perm
use mathlib.Core.Bool.{Bool-set}
use mathlib.Core.Logic.{∥∥₁_elim}
use native.Mathlib.Nat.{sub-zero}
use lottery_search_system.Prelude.{
  ℕ, zero, suc, ◌+◌, ◌%◌, ◌<◌, ◌≡◌, ◌↔◌, refl, ap, ◌∙◌, subst, some, List, [], ◌∷◌, map, take, drop,
  length, true, All, take-append-drop, length-map, length-drop, arith, some_inj, >>=-eq-some,
}
use lottery_search_system.Prelude.Perms.{
  run_from, length-run_from, mem-run_from, Nodup-map-run_from, length-perm,
}
use lottery_search_system.Pattern.{Pattern, parsed, parse_pattern, match_count, number_at, matches}
use lottery_search_system.Pattern.Parsing.{IsParsed, parsed-IsParsed}
use lottery_search_system.Pattern.Laws.{
  IsParsed-match_count_pos, IsParsed-number_at_inj, IsParsed-number_at_onto,
  IsParsed-matches-number_at,
}
use lottery_search_system.Walker.{Draws, Walker, new_walker, gcd}
use lottery_search_system.Walker.Cycle.{
  IsWalk, visit, visits-perm, new_walker-IsWalk, new_walker-total,
}
use lottery_search_system.Candidates.{Candidates, candidates, next_batch, drain}
use lottery_search_system.Candidates.Batches.{remaining, next_batch-take}

-- One round of a drain whose later rounds yield what then remains.
drain-step :
    (fuel : ℕ) (c : Candidates) (max : ℕ) (l : List ℕ)
    → remaining c ≡ l
    → length l < suc fuel
    → (length (remaining (next_batch c (suc max)).1) < fuel
        → drain fuel (next_batch c (suc max)).1 (suc max)
          ≡ some (remaining (next_batch c (suc max)).1))
    → drain (suc fuel) c (suc max) ≡ some l
unfolding drain
drain-step fuel c max [] e h rest =
    let empty : (next_batch c (suc max)).0 ≡ [] =
      (next_batch-take c (suc max)).0 ∙ ap (take (suc max)) e in
    rw (empty, drain)
drain-step fuel c max (n ∷ ns) e h rest =
    let (front, back, _) = next_batch-take c (suc max) in
    let batch : (next_batch c (suc max)).0 ≡ n ∷ take max ns = front ∙ ap (take (suc max)) e in
    let left : remaining (next_batch c (suc max)).1 ≡ drop max ns = back ∙ ap (drop (suc max)) e in
    let shorter = rest (omega (arith, ap length left, length-drop max ns)) in
    rw (batch, shorter, drain) (ap some (rw left (ap (◌∷◌ n) (take-append-drop max ns))))

-- Draining a generator yields what remains.
pub drain-remaining :
    (fuel : ℕ) (c : Candidates) (max : ℕ)
    → 0 < max
    → length (remaining c) < fuel
    → drain fuel c max ≡ some (remaining c)
drain-remaining zero c max pos h = absurd (omega arith)
drain-remaining (suc fuel) c zero pos h = absurd (omega arith)
drain-remaining (suc fuel) c (suc max) pos h =
    drain-step fuel c max (remaining c) refl h
      (drain-remaining fuel (next_batch c (suc max)).1 (suc max) pos)

All-of_mem : (P : ℕ → Type 0) (xs : List ℕ) → ((x : ℕ) → Mem x xs → P x) → All P xs
All-of_mem P [] h = tt
All-of_mem P (x ∷ xs) h = (h x mem-cons_self, All-of_mem P xs λ y m. h y (mem-cons_of_mem x m))

abbrev pub Matching : Pattern → ℕ → Type 0
Matching p n = matches p n ≡ true

walk-perm :
    (p : Pattern) (w : Walker)
    → IsWalk (match_count p) w
    → 0 < match_count p
    → Perm
        (remaining (record { pattern = p; walker = w }))
        (map (number_at p) (run_from (match_count p) 0))
unfolding remaining
walk-perm p w shape pos =
    let coprime = shape.coprime pos in
    rw
      (
        shape.size,
        shape.start,
        sub-zero,
        ← map-map (number_at p) (visit (match_count p) w.a w.b) (run_from (match_count p) 0),
      )
      (Perm.map (number_at p) (visits-perm (match_count p) w.a w.b coprime))

module _ {s : List ℕ} {p : Pattern} (h : IsParsed s p) (fuel : ℕ) (r : Draws) (c : Candidates)
    (made : candidates fuel p r ≡ some c) where
  fresh-perm : Perm (remaining c) (map (number_at p) (run_from (match_count p) 0))
  unfolding candidates
  fresh-perm =
      let (w, walk, built) = >>=-eq-some (new_walker fuel (match_count p) r) _ made in
      let shape = new_walker-IsWalk fuel (match_count p) r w walk in
      subst (λ t. Perm (remaining t) (map (number_at p) (run_from (match_count p) 0)))
        (some_inj built) (walk-perm p w shape (IsParsed-match_count_pos h))

  pub remaining-Nodup : Nodup (remaining c)
  remaining-Nodup = Perm.nodup (Perm.symm fresh-perm) (
      Nodup-map-run_from (number_at p) (match_count p) 0 λ x y p q r e.
        absurd (omega (arith, IsParsed-number_at_inj h x y (omega arith) (omega arith) e)))

  pub mem-remaining : (n : ℕ) → Mem n (remaining c) ↔ (matches p n ≡ true)
  mem-remaining n = (
    (λ m.
        ∥∥₁_elim (exists_of_mem-map ((Perm.mem_iff fresh-perm).0 m)) (Bool-set _ _)
          λ (j, inside, e). subst (λ t. matches p t ≡ true) e (IsParsed-matches-number_at h j)),
    (λ m.
        let (j, lt, e) = IsParsed-number_at_onto h n m in
        (Perm.mem_iff fresh-perm).1 (
          subst (λ t. Mem t (map (number_at p) (run_from (match_count p) 0))) e
            (mem-map_of_mem (number_at p)
              (mem-run_from (match_count p) 0 j (omega arith) (omega arith))))),
  )

  pub remaining-All : All (Matching p) (remaining c)
  remaining-All = All-of_mem (Matching p) (remaining c) λ n. (mem-remaining n).0

  pub length-remaining : length (remaining c) ≡ match_count p
  length-remaining =
      length-perm fresh-perm
      ∙ length-map (run_from (match_count p) 0) (number_at p)
      ∙ length-run_from (match_count p) 0

-- Taken in batches until one is empty, a fresh generator of an accepted text yields each number
-- that matches exactly once and no other number, whatever the batch size above zero and the draws.
pub drain-candidates :
    (s : List ℕ) (p : Pattern) (fuel max : ℕ) (r : Draws) (c : Candidates)
    → parse_pattern s ≡ parsed p
    → candidates fuel p r ≡ some c
    → 0 < max
    → (numbers : List ℕ) × (drain (match_count p + 1) c max ≡ some numbers)
      × Nodup numbers
      × ((n : ℕ) → Mem n numbers ↔ (matches p n ≡ true))
drain-candidates s p fuel max r c e made pos =
    let h = parsed-IsParsed s p e in
    (
      remaining c,
      drain-remaining (match_count p + 1) c max pos
          (omega (arith, length-remaining h fuel r c made)),
      remaining-Nodup h fuel r c made,
      mem-remaining h fuel r c made,
    )

-- A generator that is ready to walk: of this pattern, at the start, over as many indices as there are
-- matches, with a multiplier that shares no factor with their number.
pub record IsReady (p : Pattern) (c : Candidates) : Type 0 where
  pub pattern : c.pattern ≡ p
  pub size : c.walker.n ≡ match_count p
  pub start : c.walker.i ≡ 0
  pub coprime : 0 < match_count p → gcd c.walker.a (match_count p) ≡ 1

-- The draw loop ends as soon as some draw within the fuel gives a multiplier that shares no factor with
-- the number of matches. The generator that is then built is of the pattern, at its start, over as
-- many indices as there are matches, and its multiplier shares no factor with their number.
pub candidates-total :
    (p : Pattern) (k fuel : ℕ) (r : Draws)
    → k < fuel
    → gcd (1 + r k % match_count p) (match_count p) ≡ 1
    → (c : Candidates) × (candidates fuel p r ≡ some c) × IsReady p c
unfolding candidates
candidates-total p k fuel r h hit =
    let (w, made) = new_walker-total k fuel (match_count p) r h hit in
    let walk = new_walker-IsWalk fuel (match_count p) r w made in
    (
      record { pattern = p; walker = w },
      rw made refl,
      record { pattern = refl; size = walk.size; start = walk.start; coprime = walk.coprime },
    )
