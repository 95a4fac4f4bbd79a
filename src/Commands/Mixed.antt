-- ===== src/Commands/Mixed.antt =====
-- cmd/loadgen/main.go: the patterns that the load generator makes up.
use lottery_search_system.Prelude.{
  ℕ, zero, suc, ◌<◌, ◌≡◌, refl, ap, ◌∙◌, subst, false, ◌||◌, List, [], ◌∷◌, ◌++◌, some, length,
  get_elem?, ◌==◌, All, arith, Bool-cases, inl, inr,
}
use lottery_search_system.Pattern.{Pattern, Parsed, parsed, parse_pattern, star, is_digit}
use lottery_search_system.Pattern.Horner.{AllCharacters}
use lottery_search_system.Pattern.Parsing.{
  Verdict, accepted, wrong_length, wrong_character, parse_pattern-Verdict,
}
use lottery_search_system.Commands.Loadgen.{shapes, fill_shape, mixed_pattern}

length-fill_shape :
    (draws : ℕ → ℕ) (i : ℕ) (cs : List ℕ) → length (fill_shape draws i cs) ≡ length cs
unfolding fill_shape
length-fill_shape draws i [] = refl
length-fill_shape draws i (c ∷ cs) = elim (Bool-cases (c == star)) [
  | inl wild ↦ rw (wild, fill_shape) (ap suc (length-fill_shape draws i cs))
  | inr fixed ↦ rw (fixed, fill_shape) (ap suc (length-fill_shape draws (suc i) cs))
]

fill_shape-AllCharacters :
    (draws : ℕ → ℕ) (i : ℕ) (cs : List ℕ)
    → ((j : ℕ) → draws j < 10)
    → AllCharacters (fill_shape draws i cs)
unfolding fill_shape
fill_shape-AllCharacters draws i [] digit = tt
fill_shape-AllCharacters draws i (c ∷ cs) digit = elim (Bool-cases (c == star)) [
  | inl wild ↦ rw (wild, fill_shape) (ground arith, fill_shape-AllCharacters draws i cs digit)
  | inr fixed ↦
      let drawn = digit i in
      rw (fixed, fill_shape) (ground arith, fill_shape-AllCharacters draws (suc i) cs digit)
]

shape_six :
    (ss : List (List ℕ)) (i : ℕ)
    → All (λ s. length s ≡ 6) ss
    → i < length ss
    → (s : List ℕ) × (get_elem? ss i ≡ some s) × (length s ≡ 6)
shape_six [] i all h = absurd (omega arith)
shape_six (s ∷ ss) zero all h = (s, refl, all.0)
shape_six (s ∷ ss) (suc i) all h = shape_six ss i all.1 (omega arith)

bad_is_absent :
    (before : List ℕ) (c : ℕ) (after : List ℕ)
    → AllCharacters (before ++ c ∷ after)
    → ((c == star) || is_digit c) ≡ false
    → ⊥
bad_is_absent [] c after all bad = cc
bad_is_absent (b ∷ before) c after all bad = bad_is_absent before c after all.1 bad

six_characters-parsed :
    (s : List ℕ) → length s ≡ 6 → AllCharacters s → (p : Pattern) × (parse_pattern s ≡ parsed p)
six_characters-parsed s six all = go (parse_pattern s) (parse_pattern-Verdict s) refl
  where
    go :
        (r : Parsed)
        → Verdict s r
        → parse_pattern s ≡ r
        → (p : Pattern) × (parse_pattern s ≡ parsed p)
    go r (accepted p h) e = (p, e)
    go r (wrong_length h) e = absurd (h six)
    go r (wrong_character before c after h split fine bad) e =
        absurd (bad_is_absent before c after (subst AllCharacters split all) bad)

-- A pattern that the load generator makes up is one that ParsePattern accepts, whichever of the seven
-- shapes is drawn and whatever digits below 10 are drawn.
pub mixed_pattern-parsed :
    (shape : ℕ) (draws : ℕ → ℕ)
    → shape < 7
    → ((j : ℕ) → draws j < 10)
    → (s : List ℕ) × (p : Pattern) × (mixed_pattern shape draws ≡ some s)
      × (parse_pattern s ≡ parsed p)
unfolding mixed_pattern
mixed_pattern-parsed shape draws h digit =
    let (s, found, six) =
      shape_six shapes shape (refl, (refl, (refl, (refl, (refl, (refl, (refl, tt))))))) h in
    let text = fill_shape draws 0 s in
    let (p, e) =
      six_characters-parsed text (length-fill_shape draws 0 s ∙ six)
        (fill_shape-AllCharacters draws 0 s digit) in
    (text, p, rw (mixed_pattern, found) refl, e)
