-- ===== src/Server/IdTexts.antt =====
-- The texts that parseID accepts.
use native.Mathlib.Nat.{pow-succ'}
use lottery_search_system.Prelude.{
  ℕ, zero, suc, ◌+◌, ◌-◌, ◌*◌, ◌^◌, ◌<◌, ◌≡◌, ◌↔◌, refl, ap, sym, ◌∙◌, subst, true, List, [], ◌∷◌,
  some, none, ltb, leb, ◌==◌, length, ◌>>=◌, none-ne-some, some_inj, >>=-eq-some, All, arith,
  Bool-cases, inl, inr,
}
use lottery_search_system.Prelude.Int.{ℤ, pos, negsuc}
use lottery_search_system.Pattern.{is_digit}
use lottery_search_system.Server.{decimal_value, some_digits, negated, parse_int, parse_id}
use lottery_search_system.Server.Ids.{parse_int-digits}

abbrev pub AllDigits : List ℕ → Type 0
AllDigits cs = All (λ c. is_digit c ≡ true) cs

-- What digits are worth by their places.
unfoldable pub place_value : List ℕ → ℕ
place_value [] = 0
place_value (c ∷ cs) = (c - b'0') * 10 ^ length cs + place_value cs

-- Digits with or without a plus sign, of an int64; and zeros after a minus sign.
pub data IsIdText (n : ℕ) : List ℕ → Type 0 where
  unsigned :
      (cs : List ℕ) → 0 < length cs → AllDigits cs → place_value cs ≡ n → n < 2 ^ 63 → IsIdText n cs
  plus :
      (cs : List ℕ)
      → 0 < length cs
      → AllDigits cs
      → place_value cs ≡ n
      → n < 2 ^ 63
      → IsIdText n (b'+' ∷ cs)
  minus_zero :
      (cs : List ℕ)
      → 0 < length cs
      → AllDigits cs
      → place_value cs ≡ 0
      → n ≡ 0
      → IsIdText n (b'-' ∷ cs)

shifted : (acc d l : ℕ) → (acc * 10 + d) * 10 ^ l ≡ acc * 10 ^ suc l + d * 10 ^ l
shifted acc d l = rw (pow-succ' 10 l) (grind arith)

decimal_value-place_value :
    (acc : ℕ) (cs : List ℕ)
    → AllDigits cs
    → decimal_value acc cs ≡ some (acc * 10 ^ length cs + place_value cs)
unfolding decimal_value place_value
decimal_value-place_value acc [] h = ap some (omega arith)
decimal_value-place_value acc (c ∷ cs) h = rw h.0 (
    decimal_value-place_value (acc * 10 + (c - b'0')) cs h.1
    ∙ ap some (omega (arith, shifted acc (c - b'0') (length cs))))

decimal_value-AllDigits :
    (acc : ℕ) (cs : List ℕ) (v : ℕ) → decimal_value acc cs ≡ some v → AllDigits cs
unfolding decimal_value
decimal_value-AllDigits acc [] v e = tt
decimal_value-AllDigits acc (c ∷ cs) v e = elim (Bool-cases (is_digit c)) [
  | inl digit ↦ (digit, decimal_value-AllDigits (acc * 10 + (c - b'0')) cs v (rw digit at e))
  | inr other ↦ absurd (none-ne-some (rw other at e))
]

from_zero : (cs : List ℕ) → AllDigits cs → decimal_value 0 cs ≡ some (place_value cs)
from_zero cs h = decimal_value-place_value 0 cs h ∙ ap some (omega arith)

some_digits-AllDigits :
    (cs : List ℕ) (v : ℕ)
    → some_digits cs ≡ some v
    → (0 < length cs) × AllDigits cs × (place_value cs ≡ v)
some_digits-AllDigits [] v e = absurd (none-ne-some e)
some_digits-AllDigits (c ∷ cs) v e =
    let all = decimal_value-AllDigits 0 (c ∷ cs) v e in
    (omega arith, all, some_inj (sym (from_zero (c ∷ cs) all) ∙ e))

some_digits-place_value :
    (cs : List ℕ) → 0 < length cs → AllDigits cs → some_digits cs ≡ some (place_value cs)
some_digits-place_value [] h all = absurd (omega arith)
some_digits-place_value (c ∷ cs) h all = from_zero (c ∷ cs) all

IsIdText-parse_int : (n : ℕ) (raw : List ℕ) → IsIdText n raw → parse_int raw ≡ some (pos n)
unfolding parse_int
IsIdText-parse_int n raw (unsigned cs long all value small) =
    parse_int-digits cs n long (from_zero cs all ∙ ap some value) small
IsIdText-parse_int n raw (plus cs long all value small) =
    let fits : ltb n (2 ^ 63) ≡ true = ground arith in
    rw (parse_int, some_digits-place_value cs long all ∙ ap some value, ◌>>=◌, fits) refl
IsIdText-parse_int n raw (minus_zero cs long all value none_left) =
    rw (parse_int, some_digits-place_value cs long all ∙ ap some value, ◌>>=◌, none_left) refl

pos_inj : (m n : ℕ) → pos m ≡ pos n → m ≡ n
pos_inj m n e = cc

negated_pos : (v n : ℕ) → negated v ≡ pos n → (v ≡ 0) × (n ≡ 0)
negated_pos zero n e = (refl, sym (pos_inj 0 n e))
negated_pos (suc v) n e = cc

parse_int-IsIdText : (n : ℕ) (raw : List ℕ) → parse_int raw ≡ some (pos n) → IsIdText n raw
unfolding parse_int
parse_int-IsIdText n [] e = absurd (none-ne-some e)
parse_int-IsIdText n (c ∷ cs) e = elim (Bool-cases (c == b'-')) [
  | inl minus ↦
      let (v, read, f) = >>=-eq-some (some_digits cs) _ (rw minus at e) in
      let (long, all, value) = some_digits-AllDigits cs v read in
      let own : b'-' ≡ c = ground arith in
      elim (Bool-cases (leb v (2 ^ 63))) [
        | inl fits ↦
            let (zero_v, zero_n) = negated_pos v n (some_inj (rw fits at f)) in
            subst (λ d. IsIdText n (d ∷ cs)) own (minus_zero cs long all (value ∙ zero_v) zero_n)
        | inr over ↦ absurd (none-ne-some (rw over at f))
      ]
  | inr signless ↦ elim (Bool-cases (c == b'+')) [
    | inl plus_sign ↦
        let (v, read, f) = >>=-eq-some (some_digits cs) _ (rw (signless, plus_sign) at e) in
        let (long, all, value) = some_digits-AllDigits cs v read in
        let own : b'+' ≡ c = ground arith in
        elim (Bool-cases (ltb v (2 ^ 63))) [
          | inl fits ↦
              let same = pos_inj v n (some_inj (rw fits at f)) in
              subst (λ d. IsIdText n (d ∷ cs)) own (plus cs long all (value ∙ same) (ground arith))
          | inr over ↦ absurd (none-ne-some (rw over at f))
        ]
    | inr digit ↦
        let (v, read, f) = >>=-eq-some (some_digits (c ∷ cs)) _ (rw (signless, digit) at e) in
        let (long, all, value) = some_digits-AllDigits (c ∷ cs) v read in
        elim (Bool-cases (ltb v (2 ^ 63))) [
          | inl fits ↦
              let same = pos_inj v n (some_inj (rw fits at f)) in
              unsigned (c ∷ cs) long all (value ∙ same) (ground arith)
          | inr over ↦ absurd (none-ne-some (rw over at f))
        ]
  ]
]

-- parseID accepts a text as the id n exactly if it is digits of the value n, with or without a plus sign,
-- and n fits an int64, or if it is a minus sign and zeros and n is 0. It refuses every other text.
pub parse_id-IsIdText : (raw : List ℕ) (n : ℕ) → (parse_id raw ≡ some n) ↔ IsIdText n raw
unfolding parse_id
parse_id-IsIdText raw n = (
  λ e. let (i, read, f) = >>=-eq-some (parse_int raw) _ e in go i read f,
  λ h. rw (parse_id, IsIdText-parse_int n raw h) refl,
)
  where
    go :
        (i : ℤ)
        → parse_int raw ≡ some i
        → (elim i [ pos m ↦ some m | negsuc m ↦ none ]) ≡ some n
        → IsIdText n raw
    go (pos m) read f = parse_int-IsIdText n raw (read ∙ ap (λ k. some (pos k)) (some_inj f))
    go (negsuc m) read f = absurd (none-ne-some f)
