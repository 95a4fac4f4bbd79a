-- ===== src/Hybrid/Loads.antt =====
-- postgres/load.go: loadSQL, the query of Load, as a function on the table.
use lottery_search_system.Prelude.{
  ℕ, ◌+◌, ◌≤◌, ◌<◌, ◌^◌, ◌%◌, ◌≡◌, ◌≢◌, refl, sym, ◌∙◌, true, false, List, [], ◌∷◌, map, some, ◌==◌,
  if◌then◌else◌, All, All-imp, arith, Bool-cases, inl, inr,
}
use lottery_search_system.Prelude.Int.{pos}
use lottery_search_system.Availability.{Availability, Row, ended, load_hint}
use lottery_search_system.Availability.Valid.{IsHint}
use lottery_search_system.Availability.Load.{IsGroup, last_count, load_hint-last_count}
use lottery_search_system.Postgres.{Table}
use lottery_search_system.Postgres.Unsold.{unsold}
use lottery_search_system.TicketStore.{is_sold}
use lottery_search_system.Hybrid.Steps.{IsLoad}

-- A group as its number and its count.
abbrev Groups : Type 0
Groups = List (ℕ × ℕ)

unfoldable pub add_group : ℕ → Groups → Groups
add_group n [] = (n, 1) ∷ []
add_group n ((m, c) ∷ gs) =
    let later = add_group n gs in if m == n then (m, c + 1) ∷ gs else (m, c) ∷ later

-- WHERE status <> 2 GROUP BY num.
unfoldable pub group_rows : Table → Groups
group_rows [] = []
group_rows (r ∷ rs) =
    let rest = group_rows rs in if is_sold r.status then rest else add_group r.num rest

abbrev group_row : ℕ × ℕ → Row
group_row g = record { num = pos g.0; count = pos g.1 }

-- loadSQL. The order of the groups is the database's choice, and this is one.
unfoldable pub load_sql : Table → List Row
unfolding group_rows
load_sql t = map group_row (group_rows t)

-- The count of a number over all groups.
total : ℕ → Groups → ℕ
total n [] = 0
total n ((m, c) ∷ gs) = (if m == n then c else 0) + total n gs

total-add_group :
    (n m : ℕ) (gs : Groups) → total n (add_group m gs) ≡ (if m == n then 1 else 0) + total n gs
unfolding total add_group
total-add_group n m [] = omega arith
total-add_group n m ((x, c) ∷ gs) = ground (arith, total-add_group n m gs)

total-group_rows : (n : ℕ) (t : Table) → total n (group_rows t) ≡ unsold t n
unfolding total group_rows unsold
total-group_rows n [] = refl
total-group_rows n (r ∷ rs) =
    ground (arith, total-add_group n r.num (group_rows rs), total-group_rows n rs)

add_group-All :
    (P : ℕ × ℕ → Type 0) (n : ℕ) (gs : Groups)
    → P (n, 1)
    → ((m c : ℕ) → P (m, c) → P (m, c + 1))
    → All P gs
    → All P (add_group n gs)
unfolding add_group
add_group-All P n [] one more h = (one, tt)
add_group-All P n ((m, c) ∷ gs) one more h = elim (Bool-cases (m == n)) [
  | inl own ↦ rw (own, add_group) (more m c h.0, h.1)
  | inr other ↦ rw (other, add_group) (h.0, add_group-All P n gs one more h.1)
]

abbrev IsDistinct : Groups → Type 0
IsDistinct [] = Unit {0}
IsDistinct (g ∷ gs) = All (λ (x : ℕ × ℕ). x.0 ≢ g.0) gs × IsDistinct gs

add_group-IsDistinct : (n : ℕ) (gs : Groups) → IsDistinct gs → IsDistinct (add_group n gs)
unfolding add_group
add_group-IsDistinct n [] h = (tt, tt)
add_group-IsDistinct n ((m, c) ∷ gs) h = elim (Bool-cases (m == n)) [
  | inl own ↦ rw (own, add_group) h
  | inr other ↦
      rw (other, add_group)
        (
          add_group-All (λ x. x.0 ≢ m) n gs (ground arith) (λ x c k. k) h.0,
          add_group-IsDistinct n gs h.1,
        )
]

group_rows-IsDistinct : (t : Table) → IsDistinct (group_rows t)
unfolding group_rows
group_rows-IsDistinct [] = tt
group_rows-IsDistinct (r ∷ rs) = elim (Bool-cases (is_sold r.status)) [
  | inl gone ↦ rw (gone, group_rows) (group_rows-IsDistinct rs)
  | inr left ↦
      rw (left, group_rows) (add_group-IsDistinct r.num (group_rows rs) (group_rows-IsDistinct rs))
]

group_rows_positive : (t : Table) → All (λ (g : ℕ × ℕ). 0 < g.1) (group_rows t)
unfolding group_rows
group_rows_positive [] = tt
group_rows_positive (r ∷ rs) = elim (Bool-cases (is_sold r.status)) [
  | inl gone ↦ rw (gone, group_rows) (group_rows_positive rs)
  | inr left ↦
      rw (left, group_rows)
        (add_group-All (λ g. 0 < g.1) r.num (group_rows rs) (omega arith) (λ m c k. omega arith)
          (group_rows_positive rs))
]

le-total : (gs : Groups) → All (λ (g : ℕ × ℕ). g.1 ≤ total g.0 gs) gs
unfolding total
le-total [] = tt
le-total ((m, c) ∷ gs) = (ground arith, All-imp (λ g h. omega (arith, h)) gs (le-total gs))

total_absent : (n : ℕ) (gs : Groups) → All (λ (g : ℕ × ℕ). g.0 ≢ n) gs → total n gs ≡ 0
unfolding total
total_absent n [] h = refl
total_absent n ((m, c) ∷ gs) h = ground (arith, total_absent n gs h.1)

last_count_absent :
    (d n : ℕ) (gs : Groups)
    → All (λ (g : ℕ × ℕ). g.0 ≢ n) gs
    → last_count d n (map group_row gs) ≡ d
unfolding last_count
last_count_absent d n [] h = refl
last_count_absent d n ((m, c) ∷ gs) h =
    let other : (m == n) ≡ false = ground arith in
    rw (other, last_count) (last_count_absent d n gs h.1)

last_count-total :
    (n : ℕ) (gs : Groups)
    → IsDistinct gs
    → All (λ (g : ℕ × ℕ). g.1 < 2 ^ 31) gs
    → last_count 0 n (map group_row gs) ≡ total n gs
unfolding last_count total
last_count-total n [] h k = refl
last_count-total n ((m, c) ∷ gs) h k = elim (Bool-cases (m == n)) [
  | inl own ↦
      let same : m ≡ n = ground arith in
      let apart : All (λ (g : ℕ × ℕ). g.0 ≢ n) gs = All-imp (λ g e x. e (x ∙ sym same)) gs h.0 in
      rw (own, last_count)
        (last_count_absent (c % 2 ^ 32) n gs apart ∙ omega (arith, total_absent n gs apart))
  | inr other ↦ rw (other, last_count) (last_count-total n gs h.1 k.1 ∙ omega arith)
]

rows-IsGroup :
    (gs : Groups)
    → All (λ (g : ℕ × ℕ). 0 < g.1) gs
    → All (λ (g : ℕ × ℕ). g.1 < 2 ^ 31) gs
    → All IsGroup (map group_row gs)
rows-IsGroup [] h k = tt
rows-IsGroup ((m, c) ∷ gs) h k = ((c, refl, h.0, k.0), rows-IsGroup gs h.1 k.1)

-- On a table with fewer than 2^31 unsold tickets of each number, the rows of loadSQL are groups, and
-- count them.
load_sql-IsLoad :
    (space : ℕ) (t : Table) → ((n : ℕ) → unsold t n < 2 ^ 31) → IsLoad space t (load_sql t)
unfolding load_sql
load_sql-IsLoad space t few =
    let gs = group_rows t in
    let small : All (λ (g : ℕ × ℕ). g.1 < 2 ^ 31) gs =
      All-imp (λ g h. omega (arith, h, few g.0, total-group_rows g.0 t)) gs (le-total gs) in
    record {
      groups = rows-IsGroup gs (group_rows_positive t) small;
      exact =
          λ n inside. last_count-total n gs (group_rows-IsDistinct t) small ∙ total-group_rows n t;
    }

-- On the rows of loadSQL at a table with fewer than 2^31 unsold tickets of each number, Load does not
-- panic and returns no error, whatever the hint was before. The hint is then valid, as new as the
-- load, and counts for each number in the space exactly the tickets of it that are not sold.
pub load_hint-unsold :
    (space : ℕ) (t : Table) (now : ℕ) (a : Availability)
    → ((n : ℕ) → unsold t n < 2 ^ 31)
    → (a' : Availability) × (load_hint space (ended (load_sql t)) now a ≡ some (a', true))
      × IsHint space a'
      × (a'.loaded ≡ now)
      × ((n : ℕ) → n < space → a'.counts.at n ≡ unsold t n)
load_hint-unsold space t now a few =
    let l = load_sql-IsLoad space t few in
    let (a', run, valid, new, counts) = load_hint-last_count space (load_sql t) now a l.groups in
    (a', run, valid, new, λ n inside. counts n inside ∙ l.exact n inside)
