-- ===== src/Walker/Tests.antt =====
-- walker.go on concrete draws, and the theorems at them.
use lottery_search_system.Prelude.{zero, suc, ◌≡◌, refl, some}
use lottery_search_system.Walker.{Draws, gcd, coprime_to, new_walker, next}

-- The first draw gives the multiplier 2, which shares a factor with 10; the second gives 3.
abbrev draws : Draws
draws zero = 1
draws (suc zero) = 2
draws (suc (suc k)) = 7

new_walker_retries : new_walker 5 10 draws ≡ some (record { n = 10; a = 3; b = 7; i = 0 })
unfolding new_walker coprime_to gcd
new_walker_retries = refl

next_value : (next (record { n = 10; a = 3; b = 7; i = 2 })).0 ≡ some 3
unfolding next
next_value = refl

coprime : gcd 3 10 ≡ 1
unfolding gcd
coprime = refl
