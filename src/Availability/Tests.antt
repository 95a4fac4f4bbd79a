-- ===== src/Availability/Tests.antt =====
-- load.go in a space of 100 numbers.
use lottery_search_system.Prelude.{
  ℕ, ◌≡◌, ◌<◌, ◌==◌, ◌∙◌, ◌>>=◌, ap, not, refl, false, some, List, [], ◌∷◌, All, arith,
}
use lottery_search_system.Prelude.Int.{pos}
use lottery_search_system.Bitmap.{set_bit, new_bitmap}
use lottery_search_system.Availability.{
  Availability, new_availability, Row, enter_rows, ended, load_hint, maybe_available, stats,
}
use lottery_search_system.Availability.Load.{IsGroup, last_count, load_hint-last_count}
use lottery_search_system.Availability.Valid.{IsHint, maybe_available-some, mark_sold-count}
use lottery_search_system.Availability.Safety.{World}

abbrev rows : List Row
rows = record { num = pos 7; count = pos 2 } ∷ record { num = pos 70; count = pos 1 } ∷ []

rows-IsGroup : All IsGroup rows
rows-IsGroup = ((2, refl, omega arith, omega arith), ((1, refl, omega arith, omega arith), tt))

-- The stock that these rows count.
abbrev stock : ℕ → ℕ
stock n = last_count 0 n rows

abbrev world : World
world = record { hint = new_availability 100; stock = stock }

stats_hint :
    (load_hint 100 (ended rows) 5 (new_availability 100) >>= λ a. some (stats a.0)) ≡ some (2, 3)
unfolding load_hint enter_rows stats new_bitmap set_bit new_availability
stats_hint = refl

-- The hint of these rows, and the one after the only ticket of number 70 is sold.
abbrev hint : Availability
hint = (load_hint-last_count 100 rows 5 (new_availability 100) rows-IsGroup).0

hint-IsHint : IsHint 100 hint
hint-IsHint = (load_hint-last_count 100 rows 5 (new_availability 100) rows-IsGroup).2

hint-counts : (n : ℕ) → n < 100 → hint.counts.at n ≡ stock n
hint-counts = (load_hint-last_count 100 rows 5 (new_availability 100) rows-IsGroup).4

abbrev after : Availability
after = (mark_sold-count hint-IsHint 70 (omega arith)).0

after_70 : maybe_available 100 after (pos 70) ≡ some false
unfolding last_count
after_70 =
    let (a, run, valid, counts) = mark_sold-count hint-IsHint 70 (omega arith) in
    let gone : not (a.counts.at 70 == 0) ≡ false =
      ground (arith, counts 70, hint-counts 70 (omega arith)) in
    maybe_available-some valid 70 (omega arith) ∙ ap some gone
