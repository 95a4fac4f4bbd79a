-- ===== src/Availability/Safety.antt =====
-- The rule at the top of load.go: the hint may report more than there is, and never less.
use lottery_search_system.Prelude.{
  ℕ, ◌-◌, ◌≤◌, ◌<◌, ◌≡◌, ap, sym, ◌∙◌, true, false, not, List, some, ◌==◌, All, arith, subst,
  some_inj,
}
use lottery_search_system.Prelude.Array.{update}
use lottery_search_system.Prelude.Int.{pos}
use lottery_search_system.Availability.{
  Availability, Row, ended, load_hint, maybe_available, mark_sold, mark_available,
}
use lottery_search_system.Availability.Valid.{
  IsHint, maybe_available-some, mark_sold-count, mark_available-count,
}
use lottery_search_system.Availability.Load.{IsGroup, last_count, load_hint-last_count}

-- A replica's hint, and how many tickets of each number the database holds that are not sold.
pub record World : Type 0 where
  pub hint : Availability
  pub stock : ℕ → ℕ

-- A sale in the database.
abbrev pub sold_one : (ℕ → ℕ) → ℕ → ℕ → ℕ
sold_one stock n = update stock n (stock n - 1)

-- What can happen. A sale needs a ticket that is not sold. This replica hears of its own sales, and
-- calls MarkAvailable for a ticket that it reserved or released, while the stock stays as it is. A
-- load answers with the counts of the moment.
pub data Event (space : ℕ) (w : World) : World → Type 0 where
  own_sale :
      (n : ℕ) (a : Availability)
      → n < space
      → 0 < w.stock n
      → mark_sold space w.hint (pos n) ≡ some a
      → Event space w (record { hint = a; stock = sold_one w.stock n })
  other_sale :
      (n : ℕ) → 0 < w.stock n → Event space w (record { hint = w.hint; stock = sold_one w.stock n })
  seen :
      (n : ℕ) (a : Availability)
      → n < space
      → mark_available space w.hint (pos n) ≡ some a
      → Event space w (record { hint = a; stock = w.stock })
  loaded :
      (rows : List Row) (now : ℕ) (a : Availability)
      → All IsGroup rows
      → ((n : ℕ) → n < space → last_count 0 n rows ≡ w.stock n)
      → load_hint space (ended rows) now w.hint ≡ some (a, true)
      → Event space w (record { hint = a; stock = w.stock })

pub data Events (space : ℕ) (w : World) : World → Type 0 where
  start : Events space w w
  later : {w' w'' : World} → Events space w w' → Event space w' w'' → Events space w w''

-- The hint is valid, and counts no number lower than its stock.
pub record IsOver (space : ℕ) (w : World) : Type 0 where
  pub valid : IsHint space w.hint
  pub over : (n : ℕ) → n < space → w.stock n ≤ w.hint.counts.at n

-- On groups that count the stock of the moment, Load returns no error and leaves a valid hint that
-- reports no number lower than its stock, whatever the hint was before.
pub load_hint-IsOver :
    (space : ℕ) (rows : List Row) (now : ℕ) (w : World)
    → All IsGroup rows
    → ((n : ℕ) → n < space → last_count 0 n rows ≡ w.stock n)
    → (a : Availability) × (load_hint space (ended rows) now w.hint ≡ some (a, true))
      × IsOver space (record { hint = a; stock = w.stock })
load_hint-IsOver space rows now w groups exact =
    let (a, run, valid, _, counts) = load_hint-last_count space rows now w.hint groups in
    (a, run, record { valid = valid; over = λ n h. omega (arith, counts n h, exact n h) })

Event-IsOver : {space : ℕ} {w w' : World} → IsOver space w → Event space w w' → IsOver space w'
Event-IsOver {space = space} {w = w} o (own_sale n a h pos_n run) =
    let (a', run', valid, counts) = mark_sold-count o.valid n h in
    subst (λ b. IsOver space (record { hint = b; stock = sold_one w.stock n }))
      (some_inj (sym run' ∙ run))
      (record { valid = valid; over = λ m k. ground (arith, counts m, o.over m k) })
Event-IsOver o (other_sale n pos_n) = record {
  valid = o.valid;
  over = λ m k. ground (arith, o.over m k);
}
Event-IsOver {space = space} {w = w} o (seen n a h run) =
    let (a', run', valid, counts) = mark_available-count o.valid n h in
    subst (λ b. IsOver space (record { hint = b; stock = w.stock })) (some_inj (sym run' ∙ run))
      (record { valid = valid; over = λ m k. ground (arith, counts m, o.over m k) })
Event-IsOver {space = space} {w = w} o (loaded rows now a groups exact run) =
    let (a', run', over) = load_hint-IsOver space rows now w groups exact in
    subst (λ b. IsOver space (record { hint = b; stock = w.stock }))
      (ap (λ x. x.0) (some_inj (sym run' ∙ run))) over

Events-IsOver : {space : ℕ} {w w' : World} → IsOver space w → Events space w w' → IsOver space w'
Events-IsOver o start = o
Events-IsOver o (later h e) = Event-IsOver (Events-IsOver o h) e

-- As long as each sale of this replica is marked once, a hint that does not report less than there
-- is goes on so: whatever sales, reservations, releases and loads follow, if MaybeAvailable answers
-- no for a number in the space, none of its tickets is left.
pub never_under :
    (space : ℕ) (w w' : World) (n : ℕ)
    → IsOver space w
    → Events space w w'
    → n < space
    → maybe_available space w'.hint (pos n) ≡ some false
    → w'.stock n ≡ 0
never_under space w w' n o h inside answer =
    let o' = Events-IsOver o h in
    let empty : not (w'.hint.counts.at n == 0) ≡ false =
      some_inj (sym (maybe_available-some o'.valid n inside) ∙ answer) in
    ground (arith, o'.over n inside)
