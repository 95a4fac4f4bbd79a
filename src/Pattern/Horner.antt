-- ===== src/Pattern/Horner.antt =====
-- A pattern read from its last character, where each step is one division by ten. The proofs about
-- pattern.go go by way of these functions.
use mathlib.Core.List.{reverse-cons}
use native.Mathlib.Nat.{pow-suc}
use lottery_search_system.Decimal.Laws.{low_digits}
use lottery_search_system.Prelude.{
  ℕ, ◌+◌, ◌-◌, ◌*◌, ◌/◌, ◌%◌, ◌<◌, ◌^◌, ◌≡◌, refl, ap, Bool, true, false, ◌&&◌, ◌||◌, List, [], ◌∷◌,
  ◌++◌, length, reverse, length-reverse, ◌==◌, if◌then◌else◌, Bool-cases, inl, inr, arith,
}
use lottery_search_system.Pattern.{star, is_digit}

-- A character that ParsePattern accepts.
abbrev pub is_pattern_character : ℕ → Bool
is_pattern_character c = (c == star) || is_digit c

abbrev pub AllCharacters : List ℕ → Type 0
AllCharacters [] = Unit {0}
AllCharacters (c ∷ cs) = (is_pattern_character c ≡ true) × AllCharacters cs

-- The value of the fixed digits.
unfoldable pub fixed_value : List ℕ → ℕ
fixed_value [] = 0
fixed_value (c ∷ cs) = (if c == star then 0 else c - b'0') + 10 * fixed_value cs

-- The positions of the wildcards, the last first.
unfoldable pub positions : List ℕ → List ℕ
positions [] = []
positions (c ∷ cs) = if c == star then length cs ∷ positions cs else positions cs

-- How many numbers match.
unfoldable pub choices : List ℕ → ℕ
choices [] = 1
choices (c ∷ cs) = if c == star then 10 * choices cs else choices cs

-- What the j-th setting of the dials adds to the fixed digits.
unfoldable pub dialled : List ℕ → ℕ → ℕ
dialled [] j = 0
dialled (c ∷ cs) j = if c == star then j % 10 + 10 * dialled cs (j / 10) else 10 * dialled cs j

-- The part of a number that stands at wildcards, and the rest of it.
unfoldable pub at_wildcards : List ℕ → ℕ → ℕ
at_wildcards [] n = 0
at_wildcards (c ∷ cs) n = (if c == star then n % 10 else 0) + 10 * at_wildcards cs (n / 10)

unfoldable pub elsewhere : List ℕ → ℕ → ℕ
elsewhere [] n = n
elsewhere (c ∷ cs) n = (if c == star then 0 else n % 10) + 10 * elsewhere cs (n / 10)

pub at_wildcards-add-elsewhere : (cs : List ℕ) (n : ℕ) → at_wildcards cs n + elsewhere cs n ≡ n
unfolding at_wildcards elsewhere
at_wildcards-add-elsewhere [] n = omega arith
at_wildcards-add-elsewhere (c ∷ cs) n = ground (arith, at_wildcards-add-elsewhere cs (n / 10))

-- The dials change the wildcards alone.
pub elsewhere-dialled :
    (cs : List ℕ) (j : ℕ)
    → AllCharacters cs
    → elsewhere cs (fixed_value cs + dialled cs j) ≡ fixed_value cs
unfolding elsewhere fixed_value dialled
elsewhere-dialled [] j h = omega arith
elsewhere-dialled (c ∷ cs) j h = elim (Bool-cases (c == star)) [
  | inl e ↦
      let quotient : (j % 10 + 10 * (fixed_value cs + dialled cs (j / 10))) / 10
          ≡ fixed_value cs + dialled cs (j / 10) =
        omega arith in
      rw e (ground (arith, elsewhere-dialled cs (j / 10) h.1, quotient))
  | inr e ↦ rw e (ground (arith, elsewhere-dialled cs j h.1))
]

-- And the setting can be read off the number.
pub dialled_inj :
    (cs : List ℕ) (i j : ℕ) → i < choices cs → j < choices cs → dialled cs i ≡ dialled cs j → i ≡ j
unfolding choices dialled
dialled_inj [] i j hi hj e = omega arith
dialled_inj (c ∷ cs) i j hi hj e = elim (Bool-cases (c == star)) [
  | inl star ↦ ground (arith, dialled_inj cs (i / 10) (j / 10))
  | inr digit ↦ ground (arith, dialled_inj cs i j)
]

-- The setting that shows a number.
unfoldable pub setting : List ℕ → ℕ → ℕ
setting [] n = 0
setting (c ∷ cs) n = if c == star then n % 10 + 10 * setting cs (n / 10) else setting cs (n / 10)

pub setting-lt-choices : (cs : List ℕ) (n : ℕ) → setting cs n < choices cs
unfolding setting choices
setting-lt-choices [] n = omega arith
setting-lt-choices (c ∷ cs) n = ground (arith, setting-lt-choices cs (n / 10))

pub dialled-setting : (cs : List ℕ) (n : ℕ) → dialled cs (setting cs n) ≡ at_wildcards cs n
unfolding setting dialled at_wildcards
dialled-setting [] n = refl
dialled-setting (c ∷ cs) n = elim (Bool-cases (c == star)) [
  | inl e ↦
      let quotient : (n % 10 + 10 * setting cs (n / 10)) / 10 ≡ setting cs (n / 10) = omega arith in
      rw (e, quotient) (omega (arith, dialled-setting cs (n / 10)))
  | inr e ↦ rw e (omega (arith, dialled-setting cs (n / 10)))
]

-- A pattern's character against one of a text.
abbrev pub fits_character : ℕ → ℕ → Bool
fits_character c d = (c == star) || (c == d)

-- The text has the pattern's fixed characters, at the same positions.
unfoldable pub fits : List ℕ → List ℕ → Bool
fits [] [] = true
fits [] (d ∷ ds) = false
fits (c ∷ cs) [] = false
fits (c ∷ cs) (d ∷ ds) = fits_character c d && fits cs ds

fits-snoc :
    (cs ds : List ℕ) (c d : ℕ)
    → length cs ≡ length ds
    → fits (cs ++ c ∷ []) (ds ++ d ∷ []) ≡ (fits_character c d && fits cs ds)
unfolding fits
fits-snoc [] [] c d h = ground arith
fits-snoc [] (y ∷ ds) c d h = absurd (omega arith)
fits-snoc (x ∷ cs) [] c d h = absurd (omega arith)
fits-snoc (x ∷ cs) (y ∷ ds) c d h = ground (arith, fits-snoc cs ds c d)

pub fits-reverse :
    (cs ds : List ℕ) → length cs ≡ length ds → fits (reverse cs) (reverse ds) ≡ fits cs ds
unfolding fits
fits-reverse [] [] h = refl
fits-reverse [] (d ∷ ds) h = absurd (omega arith)
fits-reverse (c ∷ cs) [] h = absurd (omega arith)
fits-reverse (c ∷ cs) (d ∷ ds) h =
    let sizes : length (reverse cs) ≡ length (reverse ds) =
      omega (arith, length-reverse {0} cs, length-reverse {0} ds) in
    rw (reverse-cons c cs, reverse-cons d ds, fits-snoc (reverse cs) (reverse ds) c d sizes)
      (ap (◌&&◌ (fits_character c d)) (fits-reverse cs ds (omega arith)))

-- The fixed digits of a number are the pattern's exactly when its digits fit.
pub fits-low_digits :
    (cs : List ℕ) (n : ℕ)
    → AllCharacters cs
    → n < 10 ^ length cs
    → (elsewhere cs n == fixed_value cs) ≡ fits cs (low_digits (length cs) n)
unfolding elsewhere fixed_value fits
fits-low_digits [] n h lt = ground arith
fits-low_digits (c ∷ cs) n h lt = elim (Bool-cases (c == star)) [
  | inl e ↦ rw e (ground (arith, pow-suc 10 (length cs), fits-low_digits cs (n / 10) h.1))
  | inr e ↦ rw e (ground (arith, pow-suc 10 (length cs), fits-low_digits cs (n / 10) h.1))
]

-- A number with those fixed digits and no more than the pattern's is below the number space.
pub lt_of_elsewhere :
    (cs : List ℕ) (n : ℕ) → AllCharacters cs → elsewhere cs n ≡ fixed_value cs → n < 10 ^ length cs
unfolding elsewhere fixed_value
lt_of_elsewhere [] n h e = omega arith
lt_of_elsewhere (c ∷ cs) n h e = elim (Bool-cases (c == star)) [
  | inl q ↦ ground (arith, pow-suc 10 (length cs), lt_of_elsewhere cs (n / 10) h.1)
  | inr q ↦ ground (arith, pow-suc 10 (length cs), lt_of_elsewhere cs (n / 10) h.1)
]

AllCharacters-snoc :
    (cs : List ℕ) (c : ℕ)
    → AllCharacters cs
    → is_pattern_character c ≡ true
    → AllCharacters (cs ++ c ∷ [])
AllCharacters-snoc [] c h e = (e, tt)
AllCharacters-snoc (x ∷ cs) c h e = (h.0, AllCharacters-snoc cs c h.1 e)

pub AllCharacters-reverse : (cs : List ℕ) → AllCharacters cs → AllCharacters (reverse cs)
AllCharacters-reverse [] h = tt
AllCharacters-reverse (c ∷ cs) h =
    rw (reverse-cons c cs) (AllCharacters-snoc (reverse cs) c (AllCharacters-reverse cs h.1) h.0)
