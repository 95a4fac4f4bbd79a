-- ===== src/Bitmap/Bits.antt =====
-- The bits of a number, and what the native operations do to them.
use Prim.Native.Nat.{
  min, max, digits, bit_and, bit_or, bit_xor, bit_and-bitwise, bit_or-bitwise, bit_xor-bitwise,
  differ,
}
use native.Mathlib.Nat.{le_refl, pow-suc, one-le-pow}
use lottery_search_system.Prelude.{
  ℕ, zero, suc, ◌+◌, ◌-◌, ◌*◌, ◌/◌, ◌%◌, ◌^◌, ◌≤◌, ◌<◌, ◌≡◌, ◌≢◌, refl, ap, sym, ◌∙◌, arith, ltb,
  ◌==◌, if◌then◌else◌, Bool-cases, inl, inr,
}
use lottery_search_system.Bitmap.{and_not, trailing_zeros}

unfoldable pub bit : ℕ → ℕ → ℕ
bit x zero = x % 2
bit x (suc j) = bit (x / 2) j

pub bit-lt : (x j : ℕ) → bit x j < 2
unfolding bit
bit-lt x zero = omega arith
bit-lt x (suc j) = bit-lt (x / 2) j

pub bit-zero : (j : ℕ) → bit 0 j ≡ 0
unfolding bit
bit-zero zero = refl
bit-zero (suc j) = bit-zero j

-- A recursion on binary digits acts on each bit by itself.
module _ (tail : ℕ → ℕ) (op : ℕ → ℕ → ℕ) (closed : (x y : ℕ) → x < 2 → y < 2 → op x y < 2)
    (ends : (y j : ℕ) → bit (tail y) j ≡ op 0 (bit y j)) where
  bit-digits :
      (fuel x y j : ℕ) → x ≤ fuel → bit (digits tail op fuel x y) j ≡ op (bit x j) (bit y j)
  unfolding bit
  bit-digits fuel zero y j h =
      ap (λ t. bit t j) (empty fuel) ∙ ends y j ∙ ap (λ t. op t (bit y j)) (sym (bit-zero j))
    where
      empty : (fuel : ℕ) → digits tail op fuel 0 y ≡ tail y
      empty zero = refl
      empty (suc fuel) = refl
  bit-digits zero (suc x) y j h = absurd (omega arith)
  bit-digits (suc fuel) (suc x) y j h =
      let low : op (suc x % 2) (y % 2) < 2 =
        closed (suc x % 2) (y % 2) (omega arith) (omega arith) in
      above j (digits tail op fuel (suc x / 2) (y / 2)) low
        (λ i. bit-digits fuel (suc x / 2) (y / 2) i (omega arith))
    where
      above :
          (j high : ℕ)
          → op (suc x % 2) (y % 2) < 2
          → ((i : ℕ) → bit high i ≡ op (bit (suc x / 2) i) (bit (y / 2) i))
          → bit (high * 2 + op (suc x % 2) (y % 2)) j ≡ op (bit (suc x) j) (bit y j)
      above zero high low each = omega arith
      above (suc j) high low each =
          let half : (high * 2 + op (suc x % 2) (y % 2)) / 2 ≡ high = omega arith in
          rw half (each j)

pub bit-bit_or : (a b j : ℕ) → bit (bit_or a b) j ≡ max (bit a j) (bit b j)
bit-bit_or a b j =
    simp bit_or-bitwise
      (bit-digits (λ y. y) max (λ x y h k. omega arith) (λ y j. omega arith) a a b j (le_refl a))

pub bit-bit_and : (a b j : ℕ) → bit (bit_and a b) j ≡ min (bit a j) (bit b j)
bit-bit_and a b j = simp bit_and-bitwise (
    bit-digits (λ y. 0) min (λ x y h k. omega arith) (λ y j. omega (arith, bit-zero j)) a a b j
      (le_refl a))

differ_bits : (x y : ℕ) → x < 2 → y < 2 → differ x y ≡ (x + y) % 2
differ_bits zero zero h k = refl
differ_bits zero (suc zero) h k = refl
differ_bits (suc zero) zero h k = refl
differ_bits (suc zero) (suc zero) h k = refl
differ_bits zero (suc (suc y)) h k = absurd (omega arith)
differ_bits (suc zero) (suc (suc y)) h k = absurd (omega arith)
differ_bits (suc (suc x)) y h k = absurd (omega arith)

pub bit-bit_xor : (a b j : ℕ) → bit (bit_xor a b) j ≡ (bit a j + bit b j) % 2
bit-bit_xor a b j =
    let each : bit (bit_xor a b) j ≡ differ (bit a j) (bit b j) = simp bit_xor-bitwise (
      bit-digits (λ y. y) differ (λ x y h k. omega (arith, differ_bits x y h k)) (λ y j. refl) a a b
        j (le_refl a)) in
    each ∙ differ_bits (bit a j) (bit b j) (bit-lt a j) (bit-lt b j)

pub bit-and_not : (a b j : ℕ) → bit (and_not a b) j ≡ bit a j - bit b j
unfolding and_not
bit-and_not a b j =
    omega (arith, bit-bit_xor a (bit_and a b) j, bit-bit_and a b j, bit-lt a j, bit-lt b j)

pub bit-pow : (k j : ℕ) → bit (2 ^ k) j ≡ (if k == j then 1 else 0)
unfolding bit
bit-pow zero zero = refl
bit-pow zero (suc j) = ground (arith, bit-zero j)
bit-pow (suc k) zero = ground (arith, pow-suc 2 k)
bit-pow (suc k) (suc j) =
    let half : 2 ^ suc k / 2 ≡ 2 ^ k = omega (arith, pow-suc 2 k) in
    rw half (ground (arith, bit-pow k j))

-- The mask of the bits below `k`.
pub bit-mask : (k j : ℕ) → bit (2 ^ k - 1) j ≡ (if ltb j k then 1 else 0)
unfolding bit
bit-mask zero j = ground (arith, bit-zero j)
bit-mask (suc k) zero = ground (arith, pow-suc 2 k, one-le-pow k 2)
bit-mask (suc k) (suc j) =
    let half : (2 ^ suc k - 1) / 2 ≡ 2 ^ k - 1 = omega (arith, pow-suc 2 k, one-le-pow k 2) in
    rw half (ground (arith, bit-mask k j))

eq-zero_below : (n x : ℕ) → x ≤ n → ((j : ℕ) → bit x j ≡ 0) → x ≡ 0
unfolding bit
eq-zero_below zero x h none_set = omega arith
eq-zero_below (suc n) zero h none_set = refl
eq-zero_below (suc n) (suc x) h none_set =
    omega (arith, none_set 0, eq-zero_below n (suc x / 2) (omega arith) (λ j. none_set (suc j)))

pub eq-zero_of_bits : (x : ℕ) → ((j : ℕ) → bit x j ≡ 0) → x ≡ 0
eq-zero_of_bits x = eq-zero_below x x (omega arith)

-- The number has no bit at `w` or above.
abbrev pub Fits : ℕ → ℕ → Type 0
Fits w x = (j : ℕ) → w ≤ j → bit x j ≡ 0

clear_below :
    (x t : ℕ)
    → bit x 0 ≡ 0
    → ((j : ℕ) → j < t → bit (x / 2) j ≡ 0)
    → (j : ℕ) → j < suc t
    → bit x j ≡ 0
unfolding bit
clear_below x t low high zero h = low
clear_below x t low high (suc j) h = high j (omega arith)

-- TrailingZeros64 finds the lowest bit that is set.
pub trailing_zeros_lowest :
    (count x : ℕ)
    → Fits count x
    → x ≢ 0
    → (trailing_zeros count x < count)
      × (bit x (trailing_zeros count x) ≡ 1)
      × ((j : ℕ) → j < trailing_zeros count x → bit x j ≡ 0)
unfolding bit trailing_zeros
trailing_zeros_lowest zero x fits h = absurd (h (eq-zero_of_bits x (λ j. fits j (omega arith))))
trailing_zeros_lowest (suc count) x fits h = elim (Bool-cases (x % 2 == 1)) [
  | inl odd ↦ rw odd (omega arith, ground arith, λ j k. absurd (omega arith))
  | inr even ↦
      let (inside, found, first) =
        trailing_zeros_lowest count (x / 2) (λ j k. fits (suc j) (omega arith))
          (λ e. h (ground arith)) in
      let next : 1 + trailing_zeros count (x / 2) ≡ suc (trailing_zeros count (x / 2)) =
        omega arith in
      rw (even, next) (omega arith, found, clear_below x _ (ground arith) first)
]
