-- ===== src/Prelude/Perms.antt =====
-- Lists without repetition: runs of consecutive numbers, and when two such lists are permutations.
use Prim.Native.Nat.{ℕ, zero, suc, ◌+◌, ◌≤◌, ◌<◌}
use mathlib.Core.Path.{◌≡◌, refl, sym, ap, ◌∙◌}
use mathlib.Core.Logic.{∥∥₁_elim, ◌≢◌}
use mathlib.Core.HLevel.{⊥_prop}
use mathlib.Core.Logic.Or
use mathlib.Core.List
use mathlib.Core.List.{
  List, [], ◌∷◌, map, Mem, Nodup, Perm, Permᴰ, Subset, Nodup-cons, Nodup-nil, mem-cons, not-mem-nil,
  mem-cons_self, mem-cons_of_mem, exists_of_mem-map,
}
use mathlib.Core.List.Nodup
use mathlib.Core.List.Subperm
use native.Mathlib.Bridge.{from_ℕ, from_le⁻¹, le_prop}
use native.Mathlib.Decide.{ℕ_discrete}
use native.Mathlib.Nat.{ℕ_set}
use native.Mathlib.Omega.{arith}
use lottery_search_system.Prelude.Lists.{length}

module _ {ℓ} {A : Type ℓ} where
  from_ℕ-length : (xs : List A) → from_ℕ (List.length xs) ≡ length xs
  from_ℕ-length [] = refl
  from_ℕ-length (x ∷ xs) = ap suc (from_ℕ-length xs)

  pub perm_of_subset :
      (xs ys : List A) → Nodup xs → Subset xs ys → length ys ≤ length xs → Perm xs ys
  perm_of_subset xs ys d s h =
      Subperm.perm_of_length_le (Nodup.subperm d s)
        (from_le⁻¹ _ _ (omega (arith, from_ℕ-length xs, from_ℕ-length ys)))

module _ {ℓ} {A : Type ℓ} where
  same_length : {xs ys : List A} → Permᴰ xs ys → length xs ≡ length ys
  same_length (Permᴰ.trans front back) = same_length front ∙ same_length back
  same_length (Permᴰ.swap _ _) = refl
  same_length (Permᴰ.cons _ rest) = ap suc (same_length rest)
  same_length Permᴰ.nil = refl

  pub length-perm : {xs ys : List A} → Perm xs ys → length xs ≡ length ys
  length-perm p = ∥∥₁_elim p (ℕ_set _ _) same_length

-- `count` numbers from i on
abbrev pub run_from : ℕ → ℕ → List ℕ
run_from zero i = []
run_from (suc count) i = i ∷ run_from count (suc i)

pub length-run_from : (count i : ℕ) → length (run_from count i) ≡ count
length-run_from zero i = refl
length-run_from (suc count) i = ap suc (length-run_from count (suc i))

pub mem-run_from : (count i j : ℕ) → i ≤ j → j < i + count → Mem j (run_from count i)
mem-run_from zero i j h k = absurd (omega arith)
mem-run_from (suc count) i j h k = elim (ℕ_discrete j i) [
  | yes e ↦ rw e mem-cons_self
  | no e ↦ mem-cons_of_mem i (mem-run_from count (suc i) j (omega arith) (omega arith))
]

pub le_of_mem-run_from : (count i : ℕ) {j : ℕ} → Mem j (run_from count i) → i ≤ j
le_of_mem-run_from zero i m = absurd (not-mem-nil m)
le_of_mem-run_from (suc count) i m =
    Or.elim le_prop (mem-cons.0 m) (λ e. omega arith)
      (λ r. omega (arith, le_of_mem-run_from count (suc i) r))

pub lt_of_mem-run_from : (count i : ℕ) {j : ℕ} → Mem j (run_from count i) → j < i + count
lt_of_mem-run_from zero i m = absurd (not-mem-nil m)
lt_of_mem-run_from (suc count) i m =
    Or.elim le_prop (mem-cons.0 m) (λ e. omega arith)
      (λ r. omega (arith, lt_of_mem-run_from count (suc i) r))

-- A function that tells the numbers of a run apart lists them without repetition.
pub Nodup-map-run_from :
    (f : ℕ → ℕ) (count i : ℕ)
    → ((x y : ℕ) → i ≤ x → x < y → y < i + count → f x ≢ f y)
    → Nodup (map f (run_from count i))
Nodup-map-run_from f zero i h = Nodup-nil
Nodup-map-run_from f (suc count) i h = Nodup-cons.1 (
  (λ m. ∥∥₁_elim (exists_of_mem-map m) ⊥_prop λ (y, inside, e).
      h i y (omega arith) (le_of_mem-run_from count (suc i) inside)
        (omega (arith, lt_of_mem-run_from count (suc i) inside)) (sym e)),
  Nodup-map-run_from f count (suc i) (λ x y p q r. h x y (omega arith) q (omega arith)),
)
