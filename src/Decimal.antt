-- ===== src/Decimal.antt =====
-- fmt.Sprintf("%0*d", width, n) of the standard library, for a number that is not negative: the
-- decimal digits, with zeros in front up to the width.
pub mod Laws
use lottery_search_system.Prelude.{
  ℕ, zero, suc, ◌+◌, ◌-◌, ◌/◌, ◌%◌, ◌&&◌, List, [], ◌∷◌, reverse, ◌==◌, if◌then◌else◌,
}

-- The digits from the lowest on. Each round takes one of the width or divides by ten.
low_digits_loop : ℕ → ℕ → ℕ → List ℕ
low_digits_loop zero width n = []
low_digits_loop (suc fuel) width n =
    let rest = low_digits_loop fuel (width - 1) (n / 10) in
    if width == 0 && n == 0 then [] else (b'0' + n % 10) ∷ rest

unfoldable pub pad_number : ℕ → ℕ → List ℕ
unfolding low_digits_loop
pad_number width n = reverse (low_digits_loop (width + n) width n)
