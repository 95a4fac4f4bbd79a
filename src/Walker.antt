-- ===== src/Walker.antt =====
-- walker.go: a scrambled walk through the numbers below n, by j = (a*i + b) mod n.
pub mod Gcd
pub mod Cycle
pub mod Tests
use lottery_search_system.Prelude.{
  ℕ, zero, suc, ◌+◌, ◌*◌, ◌%◌, ◌<◌, Option, none, some, ◌==◌, leb, if◌then◌else◌, ◌>>=◌, arith,
}
use lottery_search_system.Prelude.Order.{lt_wf}
use mathlib.Core.Logic.{dite}
use mathlib.Core.WellFounded.{Acc}
use native.Mathlib.Decide.{dec_lt}

-- math/rand: a generator is the stream of the values that it will draw. A seed stands for one such
-- stream.
abbrev pub Draws : Type 0
Draws = ℕ → ℕ

-- r.Intn(n) for n above zero: a value below n, and the generator after it.
abbrev pub intn : ℕ → Draws → ℕ × Draws
intn n r = (r 0 % n, λ k. r (suc k))

-- The loop of gcd, which divides until b is zero.
gcd_loop : (a b : ℕ) → Acc ◌<◌ b → ℕ
gcd_loop a b (Acc.intro _ smaller) =
    dite (dec_lt 0 b) (λ h. gcd_loop b (a % b) (smaller (a % b) (omega arith))) (λ _. a)

unfoldable pub gcd : ℕ → ℕ → ℕ
unfolding gcd_loop lt_wf dec_lt
gcd a b = gcd_loop a b (lt_wf.apply b)

pub record Walker : Type 0 where
  pub n : ℕ
  pub a : ℕ
  pub b : ℕ
  pub i : ℕ

-- The loop of coprimeTo, which draws until it hits a multiplier that shares no factor with n.
-- `none`: the fuel ran out.
unfoldable pub coprime_to : ℕ → ℕ → Draws → Option (ℕ × Draws)
coprime_to zero n r = none
coprime_to (suc fuel) n r =
    let (drawn, r') = intn n r in
    let rest = coprime_to fuel n r' in if gcd (1 + drawn) n == 1 then some (1 + drawn, r') else rest

-- newWalker, for a match count, which is not negative.
unfoldable pub new_walker : ℕ → ℕ → Draws → Option Walker
new_walker fuel n r = if n == 0 then some (record { n = 0; a = 0; b = 0; i = 0 }) else (do
  (a, r') ← coprime_to fuel n r
  some (record { n = n; a = a; b = (intn n r').0; i = 0 }))

-- `none` stands for the result false, which leaves the walker alone.
unfoldable pub next : Walker → Option ℕ × Walker
next w =
    if leb w.n w.i then (none, w) else (some ((w.a * w.i + w.b) % w.n), record w { i = w.i + 1 })
