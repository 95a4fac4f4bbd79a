-- ===== src/Walker/Gcd.antt =====
-- What gcd(a, n) == 1 gives: n can be cancelled from a product with a.
use mathlib.Core.Logic.{dif_pos, dif_neg}
use mathlib.Core.WellFounded.{Acc}
use Prim.Native.Nat.{◌∣◌}
use native.Mathlib.Bridge.{le_prop}
use native.Mathlib.Decide.{dec_lt}
use native.Mathlib.Nat.{
  dvd-add_iff_right, dvd-mul_left_of_dvd, dvd-mul_right, div-add-mod, one-mul, mod-eq_of_lt,
}
use lottery_search_system.Prelude.{ℕ, ◌*◌, ◌/◌, ◌%◌, ◌<◌, ◌≡◌, refl, ◌∙◌, sym, ap, subst, arith}
use lottery_search_system.Prelude.Order.{lt_wf}
use lottery_search_system.Walker.{gcd, gcd_loop}

dvd-mod-mul : (m a b d : ℕ) → m ∣ a * d → m ∣ b * d → m ∣ a % b * d
dvd-mod-mul m a b d p q =
    (dvd-add_iff_right m (dvd-mul_left_of_dvd m q (a / b))).1
      (subst (λ t. m ∣ t) (omega (arith, ap (λ (t : ℕ). t * d) (sym (div-add-mod a b)))) p)

-- A divisor of a * d and of b * d divides d times the result of the loop.
dvd-gcd_loop-mul :
    (a b : ℕ) (w : Acc ◌<◌ b) (m d : ℕ) → m ∣ a * d → m ∣ b * d → m ∣ gcd_loop a b w * d
unfolding gcd_loop
dvd-gcd_loop-mul a b (Acc.intro _ smaller) m d p q = elim (dec_lt 0 b) [
  | yes h ↦
      rw (dif_pos _ le_prop h)
        (dvd-gcd_loop-mul b (a % b) (smaller (a % b) (omega arith)) m d q (dvd-mod-mul m a b d p q))
  | no h ↦ rw (dif_neg _ h) p
]

pub dvd_of_coprime : (a n d : ℕ) → gcd a n ≡ 1 → n ∣ a * d → n ∣ d
unfolding gcd
dvd_of_coprime a n d e h =
    subst (λ t. n ∣ t) (one-mul d)
      (subst (λ t. n ∣ t * d) e (dvd-gcd_loop-mul a n (lt_wf.apply n) n d h (dvd-mul_right n d)))

gcd_loop_zero : (a b : ℕ) (w : Acc ◌<◌ b) → b ≡ 0 → gcd_loop a b w ≡ a
unfolding gcd_loop
gcd_loop_zero a b (Acc.intro _ smaller) e = elim (dec_lt 0 b) [
  | yes h ↦ absurd (omega arith)
  | no h ↦ rw (dif_neg _ h) refl
]

gcd_loop_one : (a b : ℕ) (w : Acc ◌<◌ b) → b ≡ 1 → gcd_loop a b w ≡ 1
unfolding gcd_loop
gcd_loop_one a b (Acc.intro _ smaller) e = elim (dec_lt 0 b) [
  | yes h ↦
      rw (dif_pos _ le_prop h)
        (gcd_loop_zero b (a % b) (smaller (a % b) (omega arith)) (rw e (omega arith)) ∙ e)
  | no h ↦ absurd (omega arith)
]

-- The step at a number above one, by whatever proof the loop goes on with.
gcd_one_next :
    (n : ℕ) (smaller : (m : ℕ) → m < n → Acc ◌<◌ m) (p : 1 % n < n)
    → 0 < n
    → gcd_loop n (1 % n) (smaller (1 % n) p) ≡ 1
gcd_one_next n smaller p h = elim (dec_lt 1 n) [
  | yes more ↦ gcd_loop_one n (1 % n) (smaller (1 % n) p) (mod-eq_of_lt more)
  | no one ↦
      let e : n ≡ 1 = omega arith in gcd_loop_zero n (1 % n) (smaller (1 % n) p) (rw e refl) ∙ e
]

gcd_one_loop : (n : ℕ) (w : Acc ◌<◌ n) → gcd_loop 1 n w ≡ 1
unfolding gcd_loop
gcd_one_loop n (Acc.intro _ smaller) = elim (dec_lt 0 n) [
  | no h ↦ rw (dif_neg _ h) refl
  | yes h ↦ rw (dif_pos _ le_prop h) (gcd_one_next n smaller _ h)
]

-- One shares no factor with any number.
pub gcd_one : (n : ℕ) → gcd 1 n ≡ 1
unfolding gcd
gcd_one n = gcd_one_loop n (lt_wf.apply n)
