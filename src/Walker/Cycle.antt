-- ===== src/Walker/Cycle.antt =====
-- The walk is a permutation: with a multiplier that shares no factor with n, it visits every number
-- below n once.
use mathlib.Core.List.{Perm, Mem, Mem-prop, exists_of_mem-map}
use mathlib.Core.Logic.{∥∥₁_elim}
use Prim.Native.Nat.{◌∣◌}
use native.Mathlib.Nat.{dvd-add_iff_right, dvd-mul_right, le_of_dvd, div-add-mod, mod-lt}
use lottery_search_system.Prelude.{
  ℕ, zero, suc, ◌+◌, ◌-◌, ◌*◌, ◌/◌, ◌%◌, ◌<◌, ◌≤◌, ◌≡◌, ◌≢◌, refl, ap, ◌∙◌, subst, map, none, some,
  length-map, arith, true, false, ◌==◌, Bool-cases, inl, inr, Option-cases, some_inj, none-ne-some,
  leb, ==_iff,
}
use lottery_search_system.Prelude.Perms.{
  run_from, length-run_from, mem-run_from, lt_of_mem-run_from, Nodup-map-run_from, perm_of_subset,
}
use lottery_search_system.Walker.{Draws, Walker, gcd, coprime_to, new_walker, next}
use lottery_search_system.Walker.Gcd.{dvd_of_coprime}

-- The i-th value of the walk.
abbrev pub visit : ℕ → ℕ → ℕ → ℕ → ℕ
visit n a b i = (a * i + b) % n

-- Steps that agree are a multiple of n apart.
dvd_of_visit-eq : (n a b x d : ℕ) → visit n a b x ≡ visit n a b (x + d) → n ∣ a * d
dvd_of_visit-eq n a b x d e =
    let low = div-add-mod (a * x + b) n in
    let high = div-add-mod (a * (x + d) + b) n in
    (dvd-add_iff_right n (dvd-mul_right n ((a * x + b) / n))).1 (
      subst (λ t. n ∣ t) {x = n * ((a * (x + d) + b) / n)} (omega (arith, low, high, e))
        (dvd-mul_right n ((a * (x + d) + b) / n)))

pub visit-ne : (n a b x y : ℕ) → gcd a n ≡ 1 → x < y → y < x + n → visit n a b x ≢ visit n a b y
visit-ne n a b x y coprime lt near e =
    let apart : y ≡ x + (y - x) = omega arith in
    let agree : visit n a b x ≡ visit n a b (x + (y - x)) = e ∙ ap (visit n a b) apart in
    let divides = dvd_of_coprime a n (y - x) coprime (dvd_of_visit-eq n a b x (y - x) agree) in
    absurd (omega (arith, le_of_dvd {m = n} {n = y - x} (omega arith) divides))

-- With a multiplier that shares no factor with n, the first n values of the walk are the numbers
-- below n, in some order.
pub visits-perm : (n a b : ℕ) → gcd a n ≡ 1 → Perm (map (visit n a b) (run_from n 0)) (run_from n 0)
visits-perm n a b coprime =
    perm_of_subset (map (visit n a b) (run_from n 0)) (run_from n 0)
      (Nodup-map-run_from (visit n a b) n 0
        (λ x y p q r. visit-ne n a b x y coprime q (omega arith)))
      (λ v m. ∥∥₁_elim (exists_of_mem-map m) Mem-prop λ (x, inside, e).
        let below = lt_of_mem-run_from n 0 inside in
        subst (λ t. Mem t (run_from n 0)) e
          (mem-run_from n 0 (visit n a b x) (omega arith)
            (omega (arith, mod-lt (a * x + b) {m = n} (omega arith)))))
      (omega (arith, length-map (run_from n 0) (visit n a b), length-run_from n 0))

-- The multiplier that coprimeTo returns shares no factor with n.
coprime_to-gcd : (fuel n a : ℕ) (r r' : Draws) → coprime_to fuel n r ≡ some (a, r') → gcd a n ≡ 1
unfolding coprime_to
coprime_to-gcd zero n a r r' e = cc
coprime_to-gcd (suc fuel) n a r r' e = elim (Bool-cases (gcd (1 + r 0 % n) n == 1)) [
  | inl hit ↦
      let found = rw (hit, coprime_to) at e in
      let same : 1 + r 0 % n ≡ a = ground (arith, found) in
      subst (λ t. gcd t n ≡ 1) same (ground arith)
  | inr miss ↦ coprime_to-gcd fuel n a (λ k. r (suc k)) r' (rw (miss, coprime_to) at e)
]

-- The loop of coprimeTo ends as soon as some draw gives a multiplier that shares no factor with n.
coprime_to-total :
    (k fuel n : ℕ) (r : Draws)
    → k < fuel
    → gcd (1 + r k % n) n ≡ 1
    → (found : ℕ × Draws) × (coprime_to fuel n r ≡ some found)
unfolding coprime_to
coprime_to-total k zero n r h hit = absurd (omega arith)
coprime_to-total zero (suc fuel) n r h hit =
    let now : (gcd (1 + r 0 % n) n == 1) ≡ true = (==_iff _ _).1 hit in
    ((1 + r 0 % n, λ j. r (suc j)), rw now)
coprime_to-total (suc k) (suc fuel) n r h hit = elim (Bool-cases (gcd (1 + r 0 % n) n == 1)) [
  | inl now ↦ ((1 + r 0 % n, λ j. r (suc j)), rw now)
  | inr later ↦
      let (found, e) = coprime_to-total k fuel n (λ j. r (suc j)) (omega arith) hit in
      (found, rw later e)
]

-- What newWalker builds: a walk through the numbers below n.
pub record IsWalk (n : ℕ) (w : Walker) : Type 0 where
  pub size : w.n ≡ n
  pub start : w.i ≡ 0
  pub coprime : 0 < n → gcd w.a n ≡ 1

pub new_walker-IsWalk :
    (fuel n : ℕ) (r : Draws) (w : Walker) → new_walker fuel n r ≡ some w → IsWalk n w
unfolding new_walker
new_walker-IsWalk fuel n r w e = elim (Bool-cases (n == 0)) [
  | inl empty ↦
      let built : record { n = 0; a = 0; b = 0; i = 0 } ≡ w =
        some_inj (rw (empty, new_walker) at e) in
      rw (← built)
        (record { size = ground arith; start = refl; coprime = λ h. absurd (ground arith) })
  | inr pos ↦ elim (Option-cases (coprime_to fuel n r)) [
    | inl stuck ↦ absurd (none-ne-some (rw (pos, stuck, new_walker) at e))
    | inr ((a, r'), found) ↦
        let built : record { n = n; a = a; b = r' 0 % n; i = 0 } ≡ w =
          some_inj (rw (pos, found, new_walker) at e) in
        rw (← built)
          (record { size = refl; start = refl; coprime = λ h. coprime_to-gcd fuel n a r r' found })
  ]
]

pub new_walker-total :
    (k fuel n : ℕ) (r : Draws)
    → k < fuel
    → gcd (1 + r k % n) n ≡ 1
    → (w : Walker) × (new_walker fuel n r ≡ some w)
unfolding new_walker
new_walker-total k fuel n r h hit =
    let ((a, r'), found) = coprime_to-total k fuel n r h hit in
    elim (Bool-cases (n == 0)) [
      | inl empty ↦ (record { n = 0; a = 0; b = 0; i = 0 }, rw empty)
      | inr pos ↦ (record { n = n; a = a; b = r' 0 % n; i = 0 }, rw (pos, found))
    ]

-- The two branches of next.
pub next-some :
    (w : Walker) → w.i < w.n → next w ≡ (some (visit w.n w.a w.b w.i), record w { i = w.i + 1 })
unfolding next
next-some w h = let more : leb w.n w.i ≡ false = ground arith in rw more

pub next-none : (w : Walker) → w.n ≤ w.i → next w ≡ (none, w)
unfolding next
next-none w h = let over : leb w.n w.i ≡ true = ground arith in rw over
