-- ===== src/Bitmap/Members.antt =====
-- A bitmap stands for a set of numbers, and Set, Clear and Test work on that set.
use Prim.Native.Nat.{bit_and, bit_or}
use lottery_search_system.Prelude.{
  ℕ, zero, suc, ◌+◌, ◌-◌, ◌*◌, ◌/◌, ◌%◌, ◌^◌, ◌≤◌, ◌<◌, ◌≡◌, refl, ap, ◌∙◌, Bool, true, false, not,
  List, [], ◌∷◌, some, length, length-set, length-replicate, replicate, get_elem?, get_or, set,
  ◌==◌, if◌then◌else◌, arith, Bool-cases, inl, inr,
}
use lottery_search_system.Bitmap.{Bitmap, new_bitmap, and_not, set_bit, clear_bit, test_bit}
use lottery_search_system.Bitmap.Bits.{
  bit, bit-lt, bit-bit_or, bit-bit_and, bit-and_not, bit-zero, bit-pow, eq-zero_of_bits, Fits,
}

abbrev pub word_at : Bitmap → ℕ → ℕ
word_at b i = get_or b.words i 0

-- Whether the number's bit is set.
unfoldable pub member : Bitmap → ℕ → Bool
member b n = bit (word_at b (n / 64)) (n % 64) == 1

pub record IsBitmap (b : Bitmap) : Type 0 where
  pub room : b.size ≤ 64 * length b.words
  pub words_fit : (i : ℕ) → Fits 64 (word_at b i)

get_or-replicate : (n i a : ℕ) → get_or (replicate n a) i a ≡ a
get_or-replicate zero i a = refl
get_or-replicate (suc n) zero a = refl
get_or-replicate (suc n) (suc i) a = get_or-replicate n i a

pub get_elem?-get_or : (xs : List ℕ) (i : ℕ) → i < length xs → get_elem? xs i ≡ some (get_or xs i 0)
get_elem?-get_or [] i h = absurd (omega arith)
get_elem?-get_or (x ∷ xs) zero h = refl
get_elem?-get_or (x ∷ xs) (suc i) h = get_elem?-get_or xs i (omega arith)

get_or-set :
    (xs : List ℕ) (i j v : ℕ)
    → i < length xs
    → get_or (set xs i v) j 0 ≡ (if i == j then v else get_or xs j 0)
get_or-set [] i j v h = absurd (omega arith)
get_or-set (x ∷ xs) zero zero v h = refl
get_or-set (x ∷ xs) zero (suc j) v h = ground arith
get_or-set (x ∷ xs) (suc i) zero v h = ground arith
get_or-set (x ∷ xs) (suc i) (suc j) v h = ground (arith, get_or-set xs i j v)

pub new_bitmap-IsBitmap : (size : ℕ) → IsBitmap (new_bitmap size)
unfolding new_bitmap
new_bitmap-IsBitmap size = record {
  room = omega (arith, length-replicate {A = ℕ} ((size + 64 - 1) / 64) 0);
  words_fit = λ i j h. ap (λ t. bit t j) (get_or-replicate ((size + 64 - 1) / 64) i 0) ∙ bit-zero j;
}

pub new_bitmap_size : (size : ℕ) → (new_bitmap size).size ≡ size
unfolding new_bitmap
new_bitmap_size size = refl

pub member-new_bitmap : (size n : ℕ) → member (new_bitmap size) n ≡ false
unfolding member new_bitmap
member-new_bitmap size n =
    rw (get_or-replicate ((size + 64 - 1) / 64) (n / 64) 0, bit-zero (n % 64))

-- A word with no other bit than the `k`-th is zero exactly when that bit is clear.
masked_test :
    (w x k : ℕ) → x < 2 → ((j : ℕ) → bit w j ≡ (if k == j then x else 0)) → not (w == 0) ≡ (x == 1)
masked_test w zero k lt bits =
    let clear : w ≡ 0 = eq-zero_of_bits w (λ j. ground (arith, bits j)) in rw clear
masked_test w (suc zero) k lt bits = elim (Bool-cases (w == 0)) [
  | inl clear ↦
      let gone : w ≡ 0 = ground arith in
      let lost = rw gone at (bits k) in absurd (ground (arith, lost, bit-zero k))
  | inr set ↦ rw set
]
masked_test w (suc (suc x)) k lt bits = absurd (omega arith)

-- A bitmap in which one word is replaced.
abbrev with_word : Bitmap → ℕ → ℕ → Bitmap
with_word b i v = record b { words = set b.words i v }

module _ (b : Bitmap) (valid : IsBitmap b) (n : ℕ) (h : n < b.size) where
  inside : n / 64 < length b.words
  inside = omega (arith, valid.room)

  abbrev old : ℕ
  old = word_at b (n / 64)

  with_word-IsBitmap : (v : ℕ) → Fits 64 v → IsBitmap (with_word b (n / 64) v)
  with_word-IsBitmap v fits = record {
    room = omega (arith, valid.room, length-set b.words (n / 64) v);
    words_fit = λ i j k.
        ground (arith, get_or-set b.words (n / 64) i v inside, fits j, valid.words_fit i j);
  }

  -- Replacing the word of `n` by one that differs in the bit of `n` alone changes that member alone.
  member-with_word :
      (v new m : ℕ)
      → new < 2
      → ((j : ℕ) → bit v j ≡ (if n % 64 == j then new else bit old j))
      → member (with_word b (n / 64) v) m ≡ (if n == m then new == 1 else member b m)
  unfolding member
  member-with_word v new m lt bits =
      ground (arith, get_or-set b.words (n / 64) (m / 64) v inside, bits (m % 64))

  bit-or_one : (j : ℕ) → bit (bit_or old (2 ^ (n % 64))) j ≡ (if n % 64 == j then 1 else bit old j)
  bit-or_one j = ground (arith, bit-bit_or old (2 ^ (n % 64)) j, bit-pow (n % 64) j, bit-lt old j)

  bit-and_not_one :
      (j : ℕ) → bit (and_not old (2 ^ (n % 64))) j ≡ (if n % 64 == j then 0 else bit old j)
  bit-and_not_one j =
      ground (arith, bit-and_not old (2 ^ (n % 64)) j, bit-pow (n % 64) j, bit-lt old j)

  -- Of a valid bitmap and a number below its size, Set does not panic, keeps the bitmap valid and
  -- its size, and makes that number a member, and no other number one or none.
  pub set_bit-member :
      (b' : Bitmap) × (set_bit b n ≡ some b')
      × IsBitmap b'
      × (b'.size ≡ b.size)
      × ((m : ℕ) → member b' m ≡ (if n == m then true else member b m))
  unfolding set_bit
  set_bit-member =
      let v = bit_or old (2 ^ (n % 64)) in
      (
        with_word b (n / 64) v,
        rw (get_elem?-get_or b.words (n / 64) inside),
        with_word-IsBitmap v (λ j k. ground (arith, bit-or_one j, valid.words_fit (n / 64) j)),
        refl,
        λ m. member-with_word v 1 m (omega arith) bit-or_one,
      )

  -- Clear likewise takes that number away.
  pub clear_bit-member :
      (b' : Bitmap) × (clear_bit b n ≡ some b')
      × IsBitmap b'
      × (b'.size ≡ b.size)
      × ((m : ℕ) → member b' m ≡ (if n == m then false else member b m))
  unfolding clear_bit
  clear_bit-member =
      let v = and_not old (2 ^ (n % 64)) in
      (
        with_word b (n / 64) v,
        rw (get_elem?-get_or b.words (n / 64) inside),
        with_word-IsBitmap v (λ j k. ground (arith, bit-and_not_one j, valid.words_fit (n / 64) j)),
        refl,
        λ m. member-with_word v 0 m (omega arith) bit-and_not_one,
      )

  bit-and_one :
      (j : ℕ) → bit (bit_and old (2 ^ (n % 64))) j ≡ (if n % 64 == j then bit old j else 0)
  bit-and_one j = ground (arith, bit-bit_and old (2 ^ (n % 64)) j, bit-pow (n % 64) j, bit-lt old j)

  pub test_bit-member : test_bit b n ≡ some (member b n)
  unfolding test_bit member
  test_bit-member = rw (get_elem?-get_or b.words (n / 64) inside) (
      ap some (
        masked_test (bit_and old (2 ^ (n % 64))) (bit old (n % 64)) (n % 64) (bit-lt old (n % 64))
          (λ j. ground (arith, bit-and_one j))))
