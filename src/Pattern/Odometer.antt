-- ===== src/Pattern/Odometer.antt =====
-- What MatchCount, NumberAt and Matches compute, in terms of the pattern read from its last
-- character.
use mathlib.Core.List.{reverse-cons}
use lottery_search_system.Prelude.{
  ℕ, zero, suc, ◌+◌, ◌-◌, ◌*◌, ◌/◌, ◌%◌, ◌<◌, ◌≤◌, ◌≡◌, refl, sym, ap, ◌∙◌, List, [], ◌∷◌, ◌++◌,
  reverse, length, length-reverse, ◌==◌, Bool-cases, inl, inr, arith,
}
use lottery_search_system.Pattern.{
  Pattern, pow10, star, match_count, spin, number_at, strip, matches,
}
use lottery_search_system.Pattern.Horner.{
  fixed_value, positions, choices, dialled, at_wildcards, elsewhere, at_wildcards-add-elsewhere,
}
use lottery_search_system.Pattern.Parsing.{pow10_step, next_digit, IsParsed}

spin-positions :
    (cs : List ℕ) (j n : ℕ)
    → length cs ≤ 6
    → spin (positions cs) j n ≡ n + dialled cs j * pow10 (6 - length cs)
unfolding spin positions dialled
spin-positions [] j n h = omega arith
spin-positions (c ∷ cs) j n h = elim (Bool-cases (c == star)) [
  | inl e ↦
      rw (e, spin-positions cs (j / 10) (n + j % 10 * pow10 (5 - length cs)) (omega arith))
        (omega (arith, next_digit (dialled cs (j / 10)) (j % 10) (length cs) h))
  | inr e ↦
      rw (e, spin-positions cs j n (omega arith))
        (omega (arith, next_digit (dialled cs j) 0 (length cs) h))
]

length-positions-le : (cs : List ℕ) → length (positions cs) ≤ length cs
unfolding positions
length-positions-le [] = omega arith
length-positions-le (c ∷ cs) = ground (arith, length-positions-le cs)

pow10-suc : (i : ℕ) → i < 6 → pow10 (suc i) ≡ 10 * pow10 i
pow10-suc i h =
    let e : 6 - (5 - i) ≡ suc i = omega arith in
    let d : 5 - (5 - i) ≡ i = omega arith in rw (e, d) at (pow10_step (5 - i) (omega arith))

choices-positions : (cs : List ℕ) → length cs ≤ 6 → pow10 (length (positions cs)) ≡ choices cs
unfolding positions choices
choices-positions [] h = refl
choices-positions (c ∷ cs) h = elim (Bool-cases (c == star)) [
  | inl e ↦ rw e (
      omega (
        arith,
        pow10-suc (length (positions cs)) (omega (arith, length-positions-le cs)),
        choices-positions cs (omega arith),
      ))
  | inr e ↦ rw e (choices-positions cs (omega arith))
]

-- What `strip` takes away.
taken : ℕ → List ℕ → ℕ
taken n [] = 0
taken n (w ∷ ws) = n / pow10 (5 - w) % 10 * pow10 (5 - w) + taken n ws

strip-taken : (n : ℕ) (ws : List ℕ) (rest : ℕ) → strip n ws rest ≡ rest - taken n ws
unfolding strip taken
strip-taken n [] rest = omega arith
strip-taken n (w ∷ ws) rest =
    omega (arith, strip-taken n ws (rest - n / pow10 (5 - w) % 10 * pow10 (5 - w)))

taken-append : (n : ℕ) (xs ys : List ℕ) → taken n (xs ++ ys) ≡ taken n xs + taken n ys
unfolding taken
taken-append n [] ys = omega arith
taken-append n (x ∷ xs) ys = omega (arith, taken-append n xs ys)

taken-reverse : (n : ℕ) (xs : List ℕ) → taken n (reverse xs) ≡ taken n xs
unfolding taken
taken-reverse n [] = refl
taken-reverse n (x ∷ xs) =
    ap (taken n) (reverse-cons x xs)
    ∙ omega (arith, taken-append n (reverse xs) (x ∷ []), taken-reverse n xs)

-- One division by ten passes from a place to the next.
div_place : (n i : ℕ) → i < 6 → n / pow10 (6 - i) ≡ n / pow10 (6 - suc i) / 10
div_place n zero h = omega arith
div_place n (suc zero) h = omega arith
div_place n (suc (suc zero)) h = omega arith
div_place n (suc (suc (suc zero))) h = omega arith
div_place n (suc (suc (suc (suc zero)))) h = omega arith
div_place n (suc (suc (suc (suc (suc zero))))) h = omega arith
div_place n (suc (suc (suc (suc (suc (suc i)))))) h = absurd (omega arith)

taken-positions :
    (n : ℕ) (cs : List ℕ)
    → length cs ≤ 6
    → taken n (positions cs) ≡ at_wildcards cs (n / pow10 (6 - length cs)) * pow10 (6 - length cs)
unfolding taken positions at_wildcards
taken-positions n [] h = omega arith
taken-positions n (c ∷ cs) h =
    let below : 6 - suc (length cs) ≡ 5 - length cs = omega arith in
    let rest = rw (div_place n (length cs) h, below) at (taken-positions n cs (omega arith)) in
    let wild = at_wildcards cs (n / pow10 (5 - length cs) / 10) in
    let digit = n / pow10 (5 - length cs) % 10 in
    elim (Bool-cases (c == star)) [
      | inl e ↦
          rw (e, below) (omega (arith, rest, rw below at (next_digit wild digit (length cs) h)))
      | inr e ↦ rw (e, below) (omega (arith, rest, rw below at (next_digit wild 0 (length cs) h)))
    ]

module _ {s : List ℕ} {p : Pattern} (h : IsParsed s p) where
  pub short : length (reverse s) ≡ 6
  short = length-reverse s ∙ h.size

  pub number_at-parsed : (j : ℕ) → number_at p j ≡ fixed_value (reverse s) + dialled (reverse s) j
  unfolding number_at
  number_at-parsed j =
      let run = spin-positions (reverse s) j (fixed_value (reverse s)) (omega (arith, short)) in
      rw (h.wild, h.value) (omega (arith, rw short at run))

  pub match_count-parsed : match_count p ≡ choices (reverse s)
  unfolding match_count
  match_count-parsed =
      ap pow10 (sym (length-reverse p.wildcards) ∙ ap length h.wild)
      ∙ choices-positions (reverse s) (omega (arith, short))

  pub matches-parsed : (n : ℕ) → matches p n ≡ (elsewhere (reverse s) n == fixed_value (reverse s))
  unfolding matches
  matches-parsed n =
      let undivided : n / 1 ≡ n = omega arith in
      let whole = rw (short, undivided) at (taken-positions n (reverse s) (omega (arith, short))) in
      let all = taken-reverse n p.wildcards in
      let split = at_wildcards-add-elsewhere (reverse s) n in
      let left : strip n p.wildcards n ≡ elsewhere (reverse s) n =
        omega (arith, strip-taken n p.wildcards n, whole, rw h.wild at all, split) in
      rw (left, h.value)
