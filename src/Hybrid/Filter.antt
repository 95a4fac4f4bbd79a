-- ===== src/Hybrid/Filter.antt =====
-- The hint only narrows what the database is asked about.
use mathlib.Core.List.{Mem, Sublist, filter, filter-sublist, mem-filter}
use native.Mathlib.Decide.{dec_lt}
use lottery_search_system.Prelude.{
  ℕ, ◌<◌, ◌≡◌, ◌↔◌, refl, ap, sym, Bool, false, not, List, [], ◌∷◌, some, All, ◌==◌, ◌>>=◌, leb,
  if◌then◌else◌, arith, Bool-cases, inl, inr,
}
use lottery_search_system.Prelude.Int.{pos}
use lottery_search_system.Availability.{Availability, maybe_available}
use lottery_search_system.Availability.Valid.{IsHint, maybe_available-some}
use lottery_search_system.Hybrid.{filter_by_hint}

-- The numbers of which the hint counts a ticket.
stocked : Availability → List ℕ → List ℕ
stocked a = filter (λ n. dec_lt 0 (a.counts.at n))

stocked-cons :
    (a : Availability) (n : ℕ) (ns : List ℕ)
    → stocked a (n ∷ ns) ≡ (if not (a.counts.at n == 0) then n ∷ stocked a ns else stocked a ns)
unfolding stocked
stocked-cons a n ns = ground arith

filter_by_hint-stocked :
    {space : ℕ} {a : Availability} (ns : List ℕ)
    → IsHint space a
    → All (λ n. n < space) ns
    → filter_by_hint space a ns ≡ some (stocked a ns)
unfolding filter_by_hint stocked
filter_by_hint-stocked [] v inside = refl
filter_by_hint-stocked {space = space} {a = a} (n ∷ ns) v inside =
    let head = maybe_available-some v n inside.0 in
    let rest = filter_by_hint-stocked ns v inside.1 in
    rw (filter_by_hint, head, rest, ◌>>=◌) (ap some (sym (stocked-cons a n ns)))

-- On a valid hint and numbers in the space, filterByHint returns normally. It keeps the order of the
-- candidates, adds none, and leaves exactly those of which the hint counts a ticket.
pub filter_by_hint-sublist :
    (space : ℕ) (a : Availability) (raw : List ℕ)
    → IsHint space a
    → All (λ n. n < space) raw
    → (nums : List ℕ) × (filter_by_hint space a raw ≡ some nums)
      × Sublist nums raw
      × ((n : ℕ) → Mem n nums ↔ (Mem n raw × (0 < a.counts.at n)))
unfolding stocked
filter_by_hint-sublist space a raw v inside = (
  stocked a raw,
  filter_by_hint-stocked raw v inside,
  filter-sublist (λ n. dec_lt 0 (a.counts.at n)),
  λ n. mem-filter (λ m. dec_lt 0 (a.counts.at m)),
)

maybe_available_any :
    {space : ℕ} {a : Availability} (n : ℕ)
    → IsHint space a
    → (b : Bool) × (maybe_available space a (pos n) ≡ some b)
unfolding maybe_available
maybe_available_any {space = space} {a = a} n v = elim (Bool-cases (leb space n)) [
  | inl beyond ↦ (false, rw (maybe_available, beyond) refl)
  | inr within ↦ (not (a.counts.at n == 0), maybe_available-some v n (ground arith))
]

-- What holds of every candidate holds of those that are left.
pub filter_by_hint-All :
    {space : ℕ} {a : Availability} (P : ℕ → Type 0) (raw : List ℕ)
    → IsHint space a
    → All P raw
    → (nums : List ℕ) × (filter_by_hint space a raw ≡ some nums) × All P nums
unfolding filter_by_hint
filter_by_hint-All P [] v h = ([], refl, tt)
filter_by_hint-All P (n ∷ ns) v h =
    let (nums, rest, good) = filter_by_hint-All P ns v h.1 in
    let (stocked_here, here) = maybe_available_any n v in
    elim (Bool-cases stocked_here) [
      | inl kept ↦ (n ∷ nums, rw (filter_by_hint, here, rest, ◌>>=◌, kept) refl, (h.0, good))
      | inr dropped ↦ (nums, rw (filter_by_hint, here, rest, ◌>>=◌, dropped) refl, good)
    ]
