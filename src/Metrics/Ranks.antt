-- ===== src/Metrics/Ranks.antt =====
-- The percentiles of Snapshot, as ranks among the samples.
use lottery_search_system.Prelude.{
  ℕ, zero, suc, ◌+◌, ◌-◌, ◌*◌, ◌/◌, ◌≤◌, ◌<◌, ◌≡◌, refl, ap, ◌∙◌, true, List, [], ◌∷◌, some, length,
  get_elem?, ltb, leb, if◌then◌else◌, All, All-imp, arith, Bool-cases, inl, inr, some_inj,
  none-ne-some, subst,
}
use lottery_search_system.Metrics.{insert, sort, percentiles}

-- How many samples are at most, and how many are below, a value.
abbrev pub at_most : ℕ → List ℕ → ℕ
at_most v [] = 0
at_most v (d ∷ ds) = (if leb d v then 1 else 0) + at_most v ds

abbrev pub below : ℕ → List ℕ → ℕ
below v [] = 0
below v (d ∷ ds) = (if ltb d v then 1 else 0) + below v ds

abbrev IsSorted : List ℕ → Type 0
IsSorted [] = Unit
IsSorted (d ∷ ds) = All (λ e. d ≤ e) ds × IsSorted ds

length-insert : (d : ℕ) (ds : List ℕ) → length (insert d ds) ≡ 1 + length ds
unfolding insert
length-insert d [] = refl
length-insert d (e ∷ es) = ground (arith, length-insert d es)

pub length-sort : (ds : List ℕ) → length (sort ds) ≡ length ds
unfolding sort
length-sort [] = refl
length-sort (d ∷ ds) = omega (arith, length-insert d (sort ds), length-sort ds)

at_most-insert :
    (v d : ℕ) (ds : List ℕ) → at_most v (insert d ds) ≡ (if leb d v then 1 else 0) + at_most v ds
unfolding insert
at_most-insert v d [] = refl
at_most-insert v d (e ∷ es) = ground (arith, at_most-insert v d es)

at_most-sort : (v : ℕ) (ds : List ℕ) → at_most v (sort ds) ≡ at_most v ds
unfolding sort
at_most-sort v [] = refl
at_most-sort v (d ∷ ds) =
    at_most-insert v d (sort ds) ∙ ap (◌+◌ (if leb d v then 1 else 0)) (at_most-sort v ds)

below-insert :
    (v d : ℕ) (ds : List ℕ) → below v (insert d ds) ≡ (if ltb d v then 1 else 0) + below v ds
unfolding insert
below-insert v d [] = refl
below-insert v d (e ∷ es) = ground (arith, below-insert v d es)

below-sort : (v : ℕ) (ds : List ℕ) → below v (sort ds) ≡ below v ds
unfolding sort
below-sort v [] = refl
below-sort v (d ∷ ds) =
    below-insert v d (sort ds) ∙ ap (◌+◌ (if ltb d v then 1 else 0)) (below-sort v ds)

insert-All : (P : ℕ → Type 0) (d : ℕ) (ds : List ℕ) → P d → All P ds → All P (insert d ds)
unfolding insert
insert-All P d [] p h = (p, tt)
insert-All P d (e ∷ es) p h = elim (Bool-cases (leb d e)) [
  | inl first ↦ rw first (p, h)
  | inr after ↦ rw after (h.0, insert-All P d es p h.1)
]

insert-IsSorted : (d : ℕ) (ds : List ℕ) → IsSorted ds → IsSorted (insert d ds)
unfolding insert
insert-IsSorted d [] h = (tt, tt)
insert-IsSorted d (e ∷ es) h = elim (Bool-cases (leb d e)) [
  | inl first ↦ rw first ((ground arith, All-imp (λ x k. ground arith) es h.0), h)
  | inr after ↦ rw after (insert-All (λ x. e ≤ x) d es (ground arith) h.0, insert-IsSorted d es h.1)
]

sort-IsSorted : (ds : List ℕ) → IsSorted (sort ds)
unfolding sort
sort-IsSorted [] = tt
sort-IsSorted (d ∷ ds) = insert-IsSorted d (sort ds) (sort-IsSorted ds)

All-get_elem? : (P : ℕ → Type 0) (ds : List ℕ) (i v : ℕ) → All P ds → get_elem? ds i ≡ some v → P v
All-get_elem? P [] i v h e = absurd (none-ne-some e)
All-get_elem? P (d ∷ ds) zero v h e = subst P (some_inj e) h.0
All-get_elem? P (d ∷ ds) (suc i) v h e = All-get_elem? P ds i v h.1 e

below_first : (v : ℕ) (ds : List ℕ) → All (λ e. v ≤ e) ds → below v ds ≡ 0
below_first v [] h = refl
below_first v (d ∷ ds) h = ground (arith, below_first v ds h.1)

-- The place of a value in a sorted list is its rank.
ranked :
    (ds : List ℕ) (i v : ℕ)
    → IsSorted ds
    → get_elem? ds i ≡ some v
    → (below v ds ≤ i) × (i < at_most v ds)
ranked [] i v h e = absurd (none-ne-some e)
ranked (d ∷ ds) zero v h e =
    let same : d ≡ v = some_inj e in
    (ground (arith, below_first d ds h.0, ap (λ t. below t ds) same), ground arith)
ranked (d ∷ ds) (suc i) v h e =
    let (low, high) = ranked ds i v h.1 e in
    let first : d ≤ v = All-get_elem? (λ x. d ≤ x) ds i v h.0 e in (ground arith, ground arith)

pub get_elem?-some : (ds : List ℕ) (i : ℕ) → i < length ds → (v : ℕ) × (get_elem? ds i ≡ some v)
get_elem?-some [] i h = absurd (omega arith)
get_elem?-some (d ∷ ds) zero h = (d, refl)
get_elem?-some (d ∷ ds) (suc i) h = get_elem?-some ds i (omega arith)

-- Snapshot reads its percentiles in range whenever there is a sample. Half of the samples, rounded
-- down, and ninety-nine hundredths of them, rounded down, are the ranks: at most that many samples
-- are below the percentile, and more than that many are at most the percentile.
pub percentiles-ranked :
    (ds : List ℕ)
    → 0 < length ds
    → (half : ℕ) × (most : ℕ) × (percentiles ds ≡ some (half, most))
      × (below half ds ≤ length ds * 50 / 100)
      × (length ds * 50 / 100 < at_most half ds)
      × (below most ds ≤ length ds * 99 / 100)
      × (length ds * 99 / 100 < at_most most ds)
unfolding percentiles
percentiles-ranked ds h =
    let len = length-sort ds in
    let n = length ds in
    let (half, found) = get_elem?-some (sort ds) (n * 50 / 100) (omega arith) in
    let (most, found') = get_elem?-some (sort ds) (n * 99 / 100) (omega arith) in
    let sorted = sort-IsSorted ds in
    let (low, high) = ranked (sort ds) (n * 50 / 100) half sorted found in
    let (low', high') = ranked (sort ds) (n * 99 / 100) most sorted found' in
    let inner : leb (n * 99 / 100) (n - 1) ≡ true = ground arith in
    (
      half,
      most,
      rw (percentiles, len, found, inner, found') refl,
      omega (arith, below-sort half ds),
      omega (arith, at_most-sort half ds),
      omega (arith, below-sort most ds),
      omega (arith, at_most-sort most ds),
    )
