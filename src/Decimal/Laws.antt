-- ===== src/Decimal/Laws.antt =====
-- A number that fits the width has exactly that many digits.
use native.Mathlib.Nat.{pow-suc}
use lottery_search_system.Prelude.{
  ℕ, zero, suc, ◌+◌, ◌/◌, ◌%◌, ◌^◌, ◌≤◌, ◌<◌, ◌≡◌, refl, ap, List, [], ◌∷◌, reverse, length, arith,
}
use lottery_search_system.Decimal.{low_digits_loop, pad_number}

abbrev pub low_digits : ℕ → ℕ → List ℕ
low_digits zero n = []
low_digits (suc w) n = (b'0' + n % 10) ∷ low_digits w (n / 10)

pub length-low_digits : (w n : ℕ) → length (low_digits w n) ≡ w
length-low_digits zero n = refl
length-low_digits (suc w) n = ap suc (length-low_digits w (n / 10))

low_digits_loop_fits :
    (w fuel n : ℕ) → w ≤ fuel → n < 10 ^ w → low_digits_loop fuel w n ≡ low_digits w n
unfolding low_digits_loop
low_digits_loop_fits zero zero n h lt = refl
low_digits_loop_fits zero (suc fuel) n h lt = ground arith
low_digits_loop_fits (suc w) zero n h lt = absurd (omega arith)
low_digits_loop_fits (suc w) (suc fuel) n h lt =
    ground (arith, pow-suc 10 w, low_digits_loop_fits w fuel (n / 10))

pub pad_number-eq-low_digits : (w n : ℕ) → n < 10 ^ w → pad_number w n ≡ reverse (low_digits w n)
unfolding pad_number
pad_number-eq-low_digits w n h = ap reverse (low_digits_loop_fits w (w + n) n (omega arith) h)
