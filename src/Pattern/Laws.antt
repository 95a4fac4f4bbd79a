-- ===== src/Pattern/Laws.antt =====
-- What pattern.go promises: the odometer lists the numbers that fit the pattern, each once.
use mathlib.Core.List.{reverse-reverse}
use lottery_search_system.Prelude.{ℕ, ◌<◌, ◌≡◌, refl, sym, ◌∙◌, true, List, reverse, ==_iff, arith}
use lottery_search_system.Decimal.{pad_number}
use lottery_search_system.Decimal.Laws.{low_digits, length-low_digits, pad_number-eq-low_digits}
use lottery_search_system.Pattern.{
  Pattern, parsed, digits, number_space, parse_pattern, match_count, number_at, matches,
}
use lottery_search_system.Pattern.Horner.{
  AllCharacters, setting, fits, fits-reverse, fits-low_digits, lt_of_elsewhere, elsewhere-dialled,
  dialled_inj, setting-lt-choices, dialled-setting, at_wildcards-add-elsewhere,
  AllCharacters-reverse,
}
use lottery_search_system.Pattern.Parsing.{IsParsed, parsed-IsParsed}
use lottery_search_system.Pattern.Odometer.{
  number_at-parsed, match_count-parsed, matches-parsed, short,
}

module _ {s : List ℕ} {p : Pattern} (h : IsParsed s p) where
  pub characters-reverse : AllCharacters (reverse s)
  characters-reverse = AllCharacters-reverse s h.characters

  pub IsParsed-lt : (n : ℕ) → matches p n ≡ true → n < number_space
  IsParsed-lt n m =
      let e = (==_iff _ _).0 (sym (matches-parsed h n) ∙ m) in
      rw (short h) at (lt_of_elsewhere (reverse s) n characters-reverse e)

  pub IsParsed-matches-number_at : (j : ℕ) → matches p (number_at p j) ≡ true
  IsParsed-matches-number_at j =
      matches-parsed h (number_at p j)
      ∙ rw (number_at-parsed h j, elsewhere-dialled (reverse s) j characters-reverse)
          ((==_iff _ _).1 refl)

  pub IsParsed-match_count_pos : 0 < match_count p
  IsParsed-match_count_pos =
      rw (match_count-parsed h) (omega (arith, setting-lt-choices (reverse s) 0))

  pub IsParsed-number_at_inj :
      (i j : ℕ) → i < match_count p → j < match_count p → number_at p i ≡ number_at p j → i ≡ j
  IsParsed-number_at_inj i j hi hj e =
      dialled_inj (reverse s) i j (rw (match_count-parsed h) at hi)
        (rw (match_count-parsed h) at hj)
        (omega (arith, sym (number_at-parsed h i) ∙ e ∙ number_at-parsed h j))

  pub IsParsed-number_at_onto :
      (n : ℕ) → matches p n ≡ true → (j : ℕ) × (j < match_count p) × (number_at p j ≡ n)
  IsParsed-number_at_onto n m =
      let e = (==_iff _ _).0 (sym (matches-parsed h n) ∙ m) in
      (
        setting (reverse s) n,
        rw (match_count-parsed h) (setting-lt-choices (reverse s) n),
        rw (number_at-parsed h (setting (reverse s) n), dialled-setting (reverse s) n)
            (omega (arith, e, at_wildcards-add-elsewhere (reverse s) n)),
      )

-- Of an accepted text, NumberAt takes the indices below MatchCount one to one to the numbers that
-- Matches accepts, all of which lie below the number space.
pub number_at-enumerates :
    (s : List ℕ) (p : Pattern)
    → parse_pattern s ≡ parsed p
    → ((j : ℕ) → (matches p (number_at p j) ≡ true) × (number_at p j < number_space))
      × ((i j : ℕ) → i < match_count p → j < match_count p → number_at p i ≡ number_at p j → i ≡ j)
      × ((n : ℕ) → matches p n ≡ true → (j : ℕ) × (j < match_count p) × (number_at p j ≡ n))
number_at-enumerates s p e =
    let h = parsed-IsParsed s p e in
    (
      (λ j. let m = IsParsed-matches-number_at h j in (m, IsParsed-lt h (number_at p j) m)),
      IsParsed-number_at_inj h,
      IsParsed-number_at_onto h,
    )

-- A number below the number space matches an accepted text exactly when its six characters, with
-- zeros in front, agree with the text at each position that is not a star.
pub matches-fits :
    (s : List ℕ) (p : Pattern) (n : ℕ)
    → parse_pattern s ≡ parsed p
    → n < number_space
    → matches p n ≡ fits s (pad_number digits n)
matches-fits s p n e lt =
    let h = parsed-IsParsed s p e in
    let chars = characters-reverse h in
    let six = fits-low_digits (reverse s) n chars (rw (short h) lt) in
    matches-parsed h n
    ∙ (rw (short h) at six)
    ∙ sym (fits-reverse (reverse s) (low_digits 6 n) (short h ∙ sym (length-low_digits 6 n)))
    ∙ rw (reverse-reverse s, pad_number-eq-low_digits 6 n lt)
