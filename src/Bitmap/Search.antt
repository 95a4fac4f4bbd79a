-- ===== src/Bitmap/Search.antt =====
-- NextSet finds the first member at or after a position.
use lottery_search_system.Prelude.{
  ℕ, zero, suc, ◌+◌, ◌-◌, ◌*◌, ◌/◌, ◌%◌, ◌^◌, ◌≤◌, ◌<◌, ◌≡◌, ◌≢◌, refl, ap, sym, ◌∙◌, true, false,
  List, [], ◌∷◌, some, length, get_or, drop, ltb, leb, ◌==◌, if◌then◌else◌, arith, Bool-cases, inl,
  inr,
}
use lottery_search_system.Prelude.Int.{ℤ, pos, negsuc}
use lottery_search_system.Bitmap.{
  Bitmap, and_not, trailing_zeros, first_in, scan, next_set_from, next_set,
}
use lottery_search_system.Bitmap.Bits.{
  bit, bit-lt, bit-and_not, bit-mask, bit-zero, Fits, trailing_zeros_lowest,
}
use lottery_search_system.Bitmap.Members.{word_at, member, IsBitmap, get_elem?-get_or}

-- The answer for the members at `from` or later: the first of them below the size, or -1 if there
-- is none.
abbrev pub IsNext : Bitmap → ℕ → ℤ → Type 0
IsNext b from (pos m) =
    (from ≤ m)
    × (m < b.size)
    × (member b m ≡ true)
    × ((k : ℕ) → from ≤ k → k < m → member b k ≡ false)
IsNext b from (negsuc n) = (n ≡ 0) × ((k : ℕ) → from ≤ k → k < b.size → member b k ≡ false)

drop-nil : (xs : List ℕ) (i : ℕ) → drop i xs ≡ [] → length xs ≤ i
drop-nil xs zero e = ground arith
drop-nil [] (suc i) e = omega arith
drop-nil (x ∷ xs) (suc i) e = omega (arith, drop-nil xs i e)

drop-cons :
    (xs : List ℕ) (i y : ℕ) (ys : List ℕ)
    → drop i xs ≡ y ∷ ys
    → (i < length xs) × (get_or xs i 0 ≡ y) × (drop (suc i) xs ≡ ys)
drop-cons [] zero y ys e = cc
drop-cons (x ∷ xs) zero y ys e = (omega arith, cc, cc)
drop-cons [] (suc i) y ys e = cc
drop-cons (x ∷ xs) (suc i) y ys e =
    let (inside, here, after) = drop-cons xs i y ys e in (omega arith, here, after)

-- What holds when the loop looks at word `w`: `word` is that word less its bits before `from`, and
-- no earlier word has a member at `from` or later.
record Scanning (b : Bitmap) (from w word : ℕ) : Type 0 where
  inside : w < length b.words
  reached : from < (w + 1) * 64
  fits : Fits 64 word
  bits : (j : ℕ) → bit word j ≡ (if leb from (w * 64 + j) then bit (word_at b w) j else 0)
  before : (k : ℕ) → from ≤ k → k < w * 64 → member b k ≡ false

member-bit : (b : Bitmap) (w j : ℕ) → j < 64 → member b (w * 64 + j) ≡ (bit (word_at b w) j == 1)
unfolding member
member-bit b w j h =
    let word : (w * 64 + j) / 64 ≡ w = omega arith in
    let place : (w * 64 + j) % 64 ≡ j = omega arith in rw (word, place)

module _ (b : Bitmap) (from w word : ℕ) (s : Scanning b from w word) where
  -- A clear bit of the masked word is no member.
  clear-member :
      (k : ℕ)
      → from ≤ k
      → w * 64 ≤ k
      → k < (w + 1) * 64
      → bit word (k - w * 64) ≡ 0
      → member b k ≡ false
  clear-member k h p q clear =
      let split : w * 64 + (k - w * 64) ≡ k = omega arith in
      rw (← split) (ground (arith, member-bit b w (k - w * 64), s.bits (k - w * 64)))

  -- At a word that is not zero the search ends.
  first_in-IsNext : word ≢ 0 → IsNext b from (first_in b.size w word)
  first_in-IsNext h =
      let (inside, found, first) = trailing_zeros_lowest 64 word s.fits h in
      let t = trailing_zeros 64 word in
      let m = w * 64 + t in
      let reached : from ≤ m = ground (arith, s.bits t) in
      let hit : member b m ≡ true = ground (arith, member-bit b w t inside, s.bits t) in
      let earlier : (k : ℕ) → from ≤ k → k < m → member b k ≡ false = λ k p q.
        elim (Bool-cases (ltb k (w * 64))) [
          | inl low ↦ s.before k p (ground arith)
          | inr high ↦
              clear-member k p (ground arith) (omega arith) (first (k - w * 64) (ground arith))
        ] in
      elim (Bool-cases (leb b.size m)) [
        | inl over ↦ rw over (refl, λ k p q. earlier k p (ground arith))
        | inr within ↦ rw within (reached, ground arith, hit, earlier)
      ]

  -- At a word that is zero nothing is found.
  zero-member : word ≡ 0 → (k : ℕ) → from ≤ k → k < (w + 1) * 64 → member b k ≡ false
  zero-member e k h lt = elim (Bool-cases (ltb k (w * 64))) [
    | inl low ↦ s.before k h (ground arith)
    | inr high ↦
        clear-member k h (ground arith) lt (ap (λ t. bit t (k - w * 64)) e ∙ bit-zero (k - w * 64))
  ]

  -- The state at the next word.
  next-Scanning :
      IsBitmap b
      → word ≡ 0
      → (next : ℕ) → w + 1 < length b.words
      → word_at b (w + 1) ≡ next
      → Scanning b from (w + 1) next
  next-Scanning valid e next more here = record {
    inside = more;
    reached = omega (arith, s.reached);
    fits = λ j h. ap (λ t. bit t j) (sym here) ∙ valid.words_fit (w + 1) j h;
    bits = λ j. ground (arith, ap (λ t. bit t j) here, s.reached);
    before = zero-member e;
  }

scan-IsNext :
    (b : Bitmap) (from w word : ℕ) (rest : List ℕ)
    → IsBitmap b
    → Scanning b from w word
    → drop (w + 1) b.words ≡ rest
    → IsNext b from (scan b.size w word rest)
unfolding scan
scan-IsNext b from w word [] valid s e = elim (Bool-cases (word == 0)) [
  | inl empty ↦
      rw (empty, scan)
        (
          refl,
          λ k p q.
              zero-member b from w word s (ground arith) k p
                (omega (arith, valid.room, drop-nil b.words (w + 1) e)),
        )
  | inr found ↦ rw (found, scan) (first_in-IsNext b from w word s (ground arith))
]
scan-IsNext b from w word (next ∷ later) valid s e = elim (Bool-cases (word == 0)) [
  | inl empty ↦
      let (more, here, after) = drop-cons b.words (w + 1) next later e in
      let state = next-Scanning b from w word s valid (ground arith) next more here in
      let shifted : w + 1 + 1 ≡ suc (w + 1) = omega arith in
      rw (empty, scan) (scan-IsNext b from (w + 1) next later valid state (rw shifted after))
  | inr found ↦ rw (found, scan) (first_in-IsNext b from w word s (ground arith))
]

-- The word that the search begins with, less the bits before the position.
start-Scanning :
    (b : Bitmap) (from : ℕ)
    → IsBitmap b
    → from < b.size
    → Scanning b from (from / 64) (and_not (word_at b (from / 64)) (2 ^ (from % 64) - 1))
start-Scanning b from valid h =
    let word = word_at b (from / 64) in
    record {
      inside = omega (arith, valid.room);
      reached = omega arith;
      fits = λ j k.
          ground (arith, bit-and_not word (2 ^ (from % 64) - 1) j, valid.words_fit (from / 64) j k);
      bits = λ j.
          ground (
            arith,
            bit-and_not word (2 ^ (from % 64) - 1) j,
            bit-mask (from % 64) j,
            bit-lt word j,
          );
      before = λ k p q. absurd (omega arith);
    }

next_set_from-IsNext :
    (b : Bitmap) (from : ℕ)
    → IsBitmap b
    → (r : ℤ) × (next_set_from b from ≡ some r) × IsNext b from r
unfolding next_set_from
next_set_from-IsNext b from valid = elim (Bool-cases (leb b.size from)) [
  | inl over ↦ (negsuc 0, rw over, (refl, λ k p q. absurd (ground arith)))
  | inr within ↦
      let s = start-Scanning b from valid (ground arith) in
      let word = and_not (word_at b (from / 64)) (2 ^ (from % 64) - 1) in
      (
        scan b.size (from / 64) word (drop (from / 64 + 1) b.words),
        rw (within, get_elem?-get_or b.words (from / 64) s.inside),
        scan-IsNext b from (from / 64) word _ valid s refl,
      )
]

-- A negative position counts as 0.
abbrev pub start_of : ℤ → ℕ
start_of (pos n) = n
start_of (negsuc n) = 0

-- On a valid bitmap NextSet returns normally, and its answer is the first member at the position or
-- later that is below the size, or -1 if there is none. A negative position counts as 0.
pub next_set-IsNext :
    (b : Bitmap) (from : ℤ)
    → IsBitmap b
    → (r : ℤ) × (next_set b from ≡ some r) × IsNext b (start_of from) r
unfolding next_set
next_set-IsNext b (pos n) valid = next_set_from-IsNext b n valid
next_set-IsNext b (negsuc n) valid = next_set_from-IsNext b 0 valid
