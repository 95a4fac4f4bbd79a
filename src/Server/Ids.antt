-- ===== src/Server/Ids.antt =====
-- parseID, on decimal texts and in general.
use mathlib.Core.List.{reverse-cons}
use native.Mathlib.Nat.{pow-suc}
use lottery_search_system.Prelude.{
  ℕ, zero, suc, ◌+◌, ◌-◌, ◌*◌, ◌/◌, ◌%◌, ◌^◌, ◌<◌, ◌≡◌, refl, ap, sym, ◌∙◌, true, false, List, [],
  ◌∷◌, ◌++◌, reverse, some, ltb, ◌==◌, length, length-reverse, ◌>>=◌, none-ne-some, arith,
  Bool-cases, inl, inr,
}
use lottery_search_system.Prelude.Int.{pos}
use lottery_search_system.Decimal.{pad_number}
use lottery_search_system.Decimal.Laws.{low_digits, length-low_digits, pad_number-eq-low_digits}
use lottery_search_system.Pattern.{is_digit}
use lottery_search_system.Server.{decimal_value, parse_int, parse_id}

decimal_value-append :
    (acc : ℕ) (cs ds : List ℕ)
    → decimal_value acc (cs ++ ds) ≡ (decimal_value acc cs >>= λ v. decimal_value v ds)
unfolding decimal_value
decimal_value-append acc [] ds = refl
decimal_value-append acc (c ∷ cs) ds = elim (Bool-cases (is_digit c)) [
  | inl digit ↦ rw digit (decimal_value-append (acc * 10 + (c - b'0')) cs ds)
  | inr other ↦ rw other refl
]

decimal_value-low_digits :
    (w n : ℕ) → n < 10 ^ w → decimal_value 0 (reverse (low_digits w n)) ≡ some n
unfolding decimal_value
decimal_value-low_digits zero n h = ap some (omega arith)
decimal_value-low_digits (suc w) n h =
    let front = decimal_value-low_digits w (n / 10) (omega (arith, pow-suc 10 w)) in
    let digit : is_digit (b'0' + n % 10) ≡ true = ground arith in
    ap (decimal_value 0) (reverse-cons (b'0' + n % 10) (low_digits w (n / 10)))
    ∙ decimal_value-append 0 (reverse (low_digits w (n / 10))) ((b'0' + n % 10) ∷ [])
    ∙ rw (front, decimal_value, digit) (ap some (omega arith))

pub parse_int-digits :
    (cs : List ℕ) (v : ℕ)
    → 0 < length cs
    → decimal_value 0 cs ≡ some v
    → v < 2 ^ 63
    → parse_int cs ≡ some (pos v)
unfolding parse_int decimal_value
parse_int-digits [] v long h small = absurd (omega arith)
parse_int-digits (c ∷ cs) v long h small = elim (Bool-cases (is_digit c)) [
  | inl digit ↦
      let no_minus : c == b'-' ≡ false = ground arith in
      let no_plus : c == b'+' ≡ false = ground arith in
      let fits : ltb v (2 ^ 63) ≡ true = ground arith in
      rw (parse_int, no_minus, no_plus, h, fits) refl
  | inr other ↦ absurd (none-ne-some (sym (rw (decimal_value, other) refl) ∙ h))
]

-- A decimal text of an int64 that is not negative, with any zeros in front, is read as that id.
pub parse_id-pad_number :
    (w n : ℕ) → 0 < w → n < 10 ^ w → n < 2 ^ 63 → parse_id (pad_number w n) ≡ some n
unfolding parse_id
parse_id-pad_number w n wide h small =
    rw
      (
        pad_number-eq-low_digits w n h,
        parse_int-digits (reverse (low_digits w n)) n
            (omega (arith, length-reverse (low_digits w n), length-low_digits w n))
            (decimal_value-low_digits w n h) small,
      )
      refl
