-- ===== src/Hybrid/Interleaved.antt =====
-- The store's calls step by step, in any order of the steps of several goroutines. A sale waits between
-- its statement and its mark, and the counts of a load wait between the query and the swap.
use Prim.Native.String.{String}
use lottery_search_system.Prelude.{
  ℕ, ◌+◌, ◌≤◌, ◌<◌, ◌≡◌, refl, ap, sym, ◌∙◌, subst, false, not, List, [], ◌∷◌, ◌++◌, some, ◌==◌,
  if◌then◌else◌, All, All-imp, arith, Bool-cases, Option-cases, inl, inr, some_inj,
}
use lottery_search_system.Prelude.Array.{update}
use lottery_search_system.Prelude.Int.{pos}
use lottery_search_system.Availability.{Availability, maybe_available, mark_sold, mark_available}
use lottery_search_system.Availability.Valid.{IsHint, maybe_available-some}
use lottery_search_system.Postgres.{Table, confirm_sql}
use lottery_search_system.Postgres.Rows.{IsTable}
use lottery_search_system.Postgres.Schedule.{start, later, confirmed, Schedule-IsTable}
use lottery_search_system.Postgres.Unsold.{unsold, Schedule-unsold}
use lottery_search_system.Postgres.Numbers.{HasNumber, Schedule-HasNumber}
use lottery_search_system.Hybrid.{Names, forget_number, mark_known}
use lottery_search_system.Hybrid.Sync.{
  Freely, forget_number_first, forget_number-known, mark_sold-over, mark_available-over,
}
use lottery_search_system.Hybrid.Ops.{confirm_sql-number}

-- The store, the sales that wait for their mark, by id and number, and the loads that wait for their
-- swap.
pub record Live : Type 0 where
  pub table : Table
  pub hint : Availability
  pub number_of : Names
  pub waiting : List (ℕ × ℕ)
  pub fetched : List Availability

-- One step of one goroutine, or a statement of another replica.
pub data Move (space : ℕ) (s : Live) : Live → Type 0 where
  -- Any statement but a sale by this replica.
  stated : (t : Table) → Freely s.table t → Move space s (record s { table = t })
  -- The statement of Confirm.
  sells :
      (id n : ℕ) (holder : String) (now : ℕ)
      → HasNumber s.table id n
      → (confirm_sql id holder now s.table).1 ≡ 1
      → Move space s (record s {
        table = (confirm_sql id holder now s.table).0;
        waiting = (id, n) ∷ s.waiting;
      })
  -- Its mark, if the number is known.
  marks :
      (id n : ℕ) (before after : List (ℕ × ℕ)) (a : Availability)
      → s.waiting ≡ before ++ (id, n) ∷ after
      → mark_known space mark_sold (forget_number id s.number_of).0 s.hint ≡ some a
      → Move space s (record s {
        hint = a;
        number_of = (forget_number id s.number_of).1;
        waiting = before ++ after;
      })
  -- The mark of a claim or a release.
  raises :
      (n : ℕ) (a : Availability)
      → mark_available space s.hint (pos n) ≡ some a
      → Move space s (record s { hint = a })
  -- The map's entry of a claim, and its loss by a release.
  remembers :
      (id n : ℕ)
      → HasNumber s.table id n
      → Move space s (record s { number_of = update s.number_of id (some n) })
  forgets : (id : ℕ) → Move space s (record s { number_of = (forget_number id s.number_of).1 })
  -- The query of a load. No sale waits.
  fetches :
      (f : Availability)
      → s.waiting ≡ []
      → IsHint space f
      → ((n : ℕ) → n < space → f.counts.at n ≡ unsold s.table n)
      → Move space s (record s { fetched = f ∷ s.fetched })
  -- Its swap.
  swaps :
      (f : Availability) (rest : List Availability)
      → s.fetched ≡ f ∷ rest
      → Move space s (record s { hint = f; fetched = rest })

pub data Moves (space : ℕ) (s : Live) : Live → Type 0 where
  still : Moves space s s
  moved : {s' s'' : Live} → Moves space s s' → Move space s' s'' → Moves space s s''

-- How many waiting sales are of a number.
unfoldable pub owed : ℕ → List (ℕ × ℕ) → ℕ
owed n [] = 0
owed n ((id, m) ∷ ws) = (if m == n then 1 else 0) + owed n ws

owed-middle :
    (n : ℕ) (before : List (ℕ × ℕ)) (w : ℕ × ℕ) (after : List (ℕ × ℕ))
    → owed n (before ++ w ∷ after) ≡ (if w.1 == n then 1 else 0) + owed n (before ++ after)
unfolding owed
owed-middle n [] w after = refl
owed-middle n (v ∷ before) w after = omega (arith, owed-middle n before w after)

All-middle :
    (P : ℕ × ℕ → Type 0) (before : List (ℕ × ℕ)) (w : ℕ × ℕ) (after : List (ℕ × ℕ))
    → All P (before ++ w ∷ after)
    → P w × All P (before ++ after)
All-middle P [] w after h = h
All-middle P (v ∷ before) w after h =
    let (own, rest) = All-middle P before w after h.1 in (own, (h.0, rest))

-- A valid hint that reports at least the unsold tickets and the sales that wait.
abbrev pub IsAbove : ℕ → Table → List (ℕ × ℕ) → Availability → Type 0
IsAbove space t ws a =
    IsHint space a × ((n : ℕ) → n < space → unsold t n + owed n ws ≤ a.counts.at n)

IsAbove-less :
    (space : ℕ) (t t' : Table) (ws ws' : List (ℕ × ℕ)) (a : Availability)
    → ((n : ℕ) → unsold t' n + owed n ws' ≤ unsold t n + owed n ws)
    → IsAbove space t ws a
    → IsAbove space t' ws' a
IsAbove-less space t t' ws ws' a less (valid, over) =
    (valid, λ n inside. omega (arith, less n, over n inside))

pub record IsLive (space : ℕ) (s : Live) : Type 0 where
  pub keyed : IsTable s.table
  pub above : IsAbove space s.table s.waiting s.hint
  pub known : (id n : ℕ) → s.number_of id ≡ some n → HasNumber s.table id n
  pub true_sales : All (λ (w : ℕ × ℕ). HasNumber s.table w.0 w.1) s.waiting
  pub fresh : All (IsAbove space s.table s.waiting) s.fetched

-- Statements and sales, with what waits after them.
moved-IsLive :
    {space : ℕ} {s : Live} (t : Table) (ws : List (ℕ × ℕ))
    → IsLive space s
    → Freely s.table t
    → All (λ (w : ℕ × ℕ). HasNumber t w.0 w.1) ws
    → ((n : ℕ) → unsold t n + owed n ws ≤ unsold s.table n + owed n s.waiting)
    → IsLive space (record s { table = t; waiting = ws })
moved-IsLive {space = space} {s = s} t ws h run sales less = record {
  keyed = Schedule-IsTable h.keyed run;
  above = IsAbove-less space s.table t s.waiting ws s.hint less h.above;
  known = λ id n e. Schedule-HasNumber id n h.keyed run (h.known id n e);
  true_sales = sales;
  fresh = All-imp (λ a k. IsAbove-less space s.table t s.waiting ws a less k) _ h.fresh;
}

sales_kept :
    {space : ℕ} {s : Live} {t : Table}
    → IsLive space s
    → Freely s.table t
    → All (λ (w : ℕ × ℕ). HasNumber t w.0 w.1) s.waiting
sales_kept h run = All-imp (λ w k. Schedule-HasNumber w.0 w.1 h.keyed run k) _ h.true_sales

same_number : (t : Table) (id m n : ℕ) → HasNumber t id m → HasNumber t id n → m ≡ n
same_number t id m n (r, found, number) (r', found', number') =
    sym number ∙ ap (λ x. x.num) (some_inj (sym found ∙ found')) ∙ number'

-- The mark of a waiting sale.
marks-IsAbove :
    {space : ℕ} {s : Live} (id n : ℕ) (before after : List (ℕ × ℕ)) (a : Availability)
    → IsLive space s
    → HasNumber s.table id n
    → s.waiting ≡ before ++ (id, n) ∷ after
    → mark_known space mark_sold (s.number_of id) s.hint ≡ some a
    → IsAbove space s.table (before ++ after) a
marks-IsAbove {space = space} {s = s} id n before after a h number wait run =
    let due : (m : ℕ) → owed m s.waiting ≡ (if n == m then 1 else 0) + owed m (before ++ after) =
      λ m. ap (owed m) wait ∙ owed-middle m before (id, n) after in
    elim (Option-cases (s.number_of id)) [
      | inl unknown ↦
          let same : s.hint ≡ a =
            some_inj (ap (λ o. mark_known space mark_sold o s.hint) (sym unknown) ∙ run) in
          subst (IsAbove space s.table (before ++ after)) same (
            IsAbove-less space s.table s.table s.waiting (before ++ after) s.hint
              (λ m. omega (arith, due m)) h.above)
      | inr (m, found) ↦
          let own : n ≡ m = same_number s.table id n m number (h.known id m found) in
          let marks : mark_sold space s.hint (pos m) ≡ some a =
            ap (λ o. mark_known space mark_sold o s.hint) (sym found) ∙ run in
          let (a', run', valid, over) =
            mark_sold-over m (λ i. unsold s.table i + owed i s.waiting)
              (λ i. unsold s.table i + owed i (before ++ after)) h.above.0 h.above.1
              (λ i. omega (arith, due i)) (ground (arith, due m)) in
          subst (IsAbove space s.table (before ++ after)) (some_inj (sym run' ∙ marks))
            (valid, over)
    ]

Move-IsLive : {space : ℕ} {s s' : Live} → IsLive space s → Move space s s' → IsLive space s'
unfolding owed
Move-IsLive {s = s} h (stated t run) =
    moved-IsLive t s.waiting h run (sales_kept h run)
      (λ n. omega (arith, Schedule-unsold n h.keyed run))
Move-IsLive {s = s} h (sells id n holder now number wrote) =
    let t = (confirm_sql id holder now s.table).0 in
    let run : Freely s.table t = later start (confirmed id holder now tt tt refl) in
    let less = confirm_sql-number id holder now s.table n h.keyed number (ground arith) in
    moved-IsLive t ((id, n) ∷ s.waiting) h run
      (Schedule-HasNumber id n h.keyed run number, sales_kept h run)
      (λ m. elim (Bool-cases (n == m)) [
        | inl own ↦
            let same : n ≡ m = ground arith in
            let less' = subst (λ i. unsold t i + 1 ≤ unsold s.table i) same less in
            rw own (omega (arith, less'))
        | inr other ↦ rw other (omega (arith, Schedule-unsold m h.keyed run))
      ])
Move-IsLive {space = space} {s = s} h (marks id n before after a wait run) =
    let (number, sales) =
      All-middle (λ w. HasNumber s.table w.0 w.1) before (id, n) after
        (subst (All (λ (w : ℕ × ℕ). HasNumber s.table w.0 w.1)) wait h.true_sales) in
    let due : (m : ℕ) → owed m s.waiting ≡ (if n == m then 1 else 0) + owed m (before ++ after) =
      λ m. ap (owed m) wait ∙ owed-middle m before (id, n) after in
    let ran =
      ap (λ o. mark_known space mark_sold o s.hint) (sym (forget_number_first id s.number_of))
      ∙ run in
    record {
      keyed = h.keyed;
      above = marks-IsAbove id n before after a h number wait ran;
      known = λ j m e. h.known j m (forget_number-known id s.number_of j m e);
      true_sales = sales;
      fresh =
          All-imp
            (λ f k.
              IsAbove-less space s.table s.table s.waiting (before ++ after) f
                (λ m. omega (arith, due m)) k)
            _ h.fresh;
    }
Move-IsLive {space = space} {s = s} h (raises n a run) =
    let (a', run', valid, higher) = mark_available-over n h.above.0 in
    let above : IsAbove space s.table s.waiting a' =
      (valid, λ m inside. omega (arith, h.above.1 m inside, higher m)) in
    record {
      keyed = h.keyed;
      above = subst (IsAbove space s.table s.waiting) (some_inj (sym run' ∙ run)) above;
      known = h.known;
      true_sales = h.true_sales;
      fresh = h.fresh;
    }
Move-IsLive {s = s} h (remembers id n number) = record {
  keyed = h.keyed;
  above = h.above;
  known = λ j m e. elim (Bool-cases (id == j)) [
    | inl own ↦
        let same : n ≡ m = some_inj (rw own at e) in
        let place : id ≡ j = ground arith in
        subst (λ i. HasNumber s.table i m) place (subst (HasNumber s.table id) same number)
    | inr other ↦ h.known j m (rw other at e)
  ];
  true_sales = h.true_sales;
  fresh = h.fresh;
}
Move-IsLive {s = s} h (forgets id) = record {
  keyed = h.keyed;
  above = h.above;
  known = λ j m e. h.known j m (forget_number-known id s.number_of j m e);
  true_sales = h.true_sales;
  fresh = h.fresh;
}
Move-IsLive {s = s} h (fetches f quiet valid exact) = record {
  keyed = h.keyed;
  above = h.above;
  known = h.known;
  true_sales = h.true_sales;
  fresh = ((valid, λ n inside. omega (arith, exact n inside, ap (owed n) quiet)), h.fresh);
}
Move-IsLive {space = space} {s = s} h (swaps f rest e) =
    let all = subst (All (IsAbove space s.table s.waiting)) e h.fresh in
    record {
      keyed = h.keyed;
      above = all.0;
      known = h.known;
      true_sales = h.true_sales;
      fresh = all.1;
    }

-- Whatever order the steps come in, every order keeps it.
pub Moves-IsLive : {space : ℕ} {s s' : Live} → IsLive space s → Moves space s s' → IsLive space s'
Moves-IsLive h still = h
Moves-IsLive h (moved run x) = Move-IsLive (Moves-IsLive h run) x

-- From a store whose hint reports at least the unsold tickets, in any order of the steps of sales,
-- marks, loads, claims and releases by the goroutines of this replica and of statements by others,
-- where a load runs its query while no sale waits for its mark: if MaybeAvailable then answers no for
-- a number in the space, every ticket of it in the table is sold.
pub interleaved_never_denies :
    (space : ℕ) (s s' : Live) (n : ℕ)
    → IsLive space s
    → Moves space s s'
    → n < space
    → maybe_available space s'.hint (pos n) ≡ some false
    → unsold s'.table n ≡ 0
interleaved_never_denies space s s' n h run inside answer =
    let h' = Moves-IsLive h run in
    let empty : not (s'.hint.counts.at n == 0) ≡ false =
      some_inj (sym (maybe_available-some h'.above.0 n inside) ∙ answer) in
    ground (arith, h'.above.1 n inside)
