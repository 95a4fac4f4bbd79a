-- ===== src/Bitmap.antt =====
-- bitmap.go: a set of numbers below a size, one bit for each, in words of 64 bits.
pub mod Bits
pub mod Members
pub mod Search
pub mod Tests
use Prim.Native.Nat.{bit_and, bit_or, bit_xor}
use lottery_search_system.Prelude.{
  ℕ, zero, suc, ◌+◌, ◌-◌, ◌*◌, ◌/◌, ◌%◌, ◌^◌, Bool, not, List, [], ◌∷◌, Option, none, some,
  replicate, get_elem?, set, drop, leb, ◌==◌, if◌then◌else◌, ◌>>=◌,
}
use lottery_search_system.Prelude.Int.{ℤ, pos, negsuc}

abbrev pub word_bits : ℕ
word_bits = 64

-- The words are uint64 values. No operation below carries out of 64 bits.
pub record Bitmap : Type 0 where
  pub words : List ℕ
  pub size : ℕ

unfoldable pub new_bitmap : ℕ → Bitmap
new_bitmap size = record { words = replicate ((size + word_bits - 1) / word_bits) 0; size = size }

-- x &^ y: the bits of x that are not in y.
unfoldable pub and_not : ℕ → ℕ → ℕ
and_not x y = bit_xor x (bit_and x y)

-- The methods take a number that is not negative. Past the words they panic.
unfoldable pub set_bit : Bitmap → ℕ → Option Bitmap
set_bit b n = do
  word ← get_elem? b.words (n / word_bits)
  some (record b { words = set b.words (n / word_bits) (bit_or word (2 ^ (n % word_bits))) })

unfoldable pub clear_bit : Bitmap → ℕ → Option Bitmap
unfolding and_not
clear_bit b n = do
  word ← get_elem? b.words (n / word_bits)
  some (record b { words = set b.words (n / word_bits) (and_not word (2 ^ (n % word_bits))) })

unfoldable pub test_bit : Bitmap → ℕ → Option Bool
test_bit b n = do
  word ← get_elem? b.words (n / word_bits)
  some (not (bit_and word (2 ^ (n % word_bits)) == 0))

-- bits.TrailingZeros64 of the standard library: how many of the lowest `count` bits come before the
-- first that is set.
unfoldable pub trailing_zeros : ℕ → ℕ → ℕ
trailing_zeros zero x = 0
trailing_zeros (suc count) x = if x % 2 == 1 then 0 else 1 + trailing_zeros count (x / 2)

-- What NextSet answers at a word that is not zero.
abbrev first_in : ℕ → ℕ → ℕ → ℤ
first_in size w word =
    let m = w * word_bits + trailing_zeros 64 word in if leb size m then negsuc 0 else pos m

-- The loop of NextSet: the index and the value of the word that it looks at, and the words after.
pub scan : ℕ → ℕ → ℕ → List ℕ → ℤ
unfolding trailing_zeros
scan size w word [] = if word == 0 then negsuc 0 else first_in size w word
scan size w word (next ∷ later) =
    let rest = scan size (w + 1) next later in if word == 0 then rest else first_in size w word

-- NextSet from a position that is not negative.
next_set_from : Bitmap → ℕ → Option ℤ
unfolding scan and_not
next_set_from b from = if leb b.size from then some (negsuc 0) else (do
  word ← get_elem? b.words (from / word_bits)
  some (
      scan b.size (from / word_bits) (and_not word (2 ^ (from % word_bits) - 1))
        (drop (from / word_bits + 1) b.words)))

-- -1, `negsuc 0`, is the answer when there is none.
unfoldable pub next_set : Bitmap → ℤ → Option ℤ
unfolding next_set_from
next_set b (pos from) = next_set_from b from
next_set b (negsuc n) = next_set_from b 0
