-- ===== src/Bitmap/Tests.antt =====
-- bitmap.go on a bitmap of two words, and the theorems at it.
use lottery_search_system.Prelude.{◌≡◌, refl, none, some, [], ◌∷◌, ◌>>=◌}
use lottery_search_system.Prelude.Int.{ℤ, pos, negsuc}
use lottery_search_system.Bitmap.{Bitmap, new_bitmap, set_bit, clear_bit, test_bit, next_set}
use lottery_search_system.Bitmap.Members.{IsBitmap, new_bitmap-IsBitmap}
use lottery_search_system.Bitmap.Search.{IsNext, next_set-IsNext}

abbrev empty : Bitmap
empty = new_bitmap 70

empty_words : empty ≡ record { words = 0 ∷ 0 ∷ []; size = 70 }
unfolding new_bitmap
empty_words = refl

finds_second_word : (do b ← set_bit empty 3; b' ← set_bit b 66; next_set b' (pos 4)) ≡ some (pos 66)
unfolding new_bitmap set_bit next_set
finds_second_word = refl

finds_nothing :
    (do b ← set_bit empty 3; b' ← clear_bit b 3; next_set b' (negsuc 0)) ≡ some (negsuc 0)
unfolding new_bitmap set_bit clear_bit next_set
finds_nothing = refl

past_the_words : test_bit empty 128 ≡ none
unfolding new_bitmap test_bit
past_the_words = refl

empty-IsBitmap : IsBitmap empty
empty-IsBitmap = new_bitmap-IsBitmap 70

empty_size : empty.size ≡ 70
unfolding new_bitmap
empty_size = refl

next_set-IsNext_example : (r : ℤ) × (next_set empty (pos 5) ≡ some r) × IsNext empty 5 r
next_set-IsNext_example = next_set-IsNext empty (pos 5) empty-IsBitmap
