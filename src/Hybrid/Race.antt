-- ===== src/Hybrid/Race.antt =====
-- Two ways to count a sale twice: a load between a sale and its mark, and the notification of an own
-- sale.
use Prim.Native.String.{String}
use lottery_search_system.Prelude.{
  ℕ, ◌<◌, ◌≡◌, refl, ap, ◌∙◌, true, false, not, some, ◌==◌, arith, ◌>>=◌,
}
use lottery_search_system.Prelude.Int.{pos}
use lottery_search_system.TicketStore.{done}
use lottery_search_system.Availability.{Availability, maybe_available}
use lottery_search_system.Availability.Valid.{IsHint, maybe_available-some, mark_sold-count}
use lottery_search_system.Postgres.{Table, Fate, answered, confirm_sql}
use lottery_search_system.Postgres.Unsold.{unsold}
use lottery_search_system.Hybrid.{Hybrid, forget_number, confirm_hybrid}
use lottery_search_system.Prelude.{[], ◌∷◌, none, ==_self}
use lottery_search_system.Hybrid.Background.{run_listener, listening, alone, listening-IsLowered}
use lottery_search_system.Hybrid.Sync.{forget_number_first}

-- Refresh replaces the hint while Confirm stands between its statement and its mark: the new hint
-- counts exactly what the table then holds, the sale included. If one ticket of the number is
-- left, and this replica knows the number, Confirm takes it off the hint as well: MaybeAvailable
-- answers no while a ticket is unsold.
pub load_before_mark :
    (space : ℕ) (read : Fate) (between : Table → Table) (later : ℕ) (fresh : Availability) (id : ℕ)
    (holder : String) (now : ℕ) (s : Hybrid) (n : ℕ)
    → n < space
    → s.number_of id ≡ some n
    → (confirm_sql id holder now s.table).1 ≡ 1
    → unsold (confirm_sql id holder now s.table).0 n ≡ 1
    → IsHint space fresh
    → fresh.counts.at n ≡ unsold (confirm_sql id holder now s.table).0 n
    → (s' : Hybrid) × (confirm_hybrid space answered read between later (λ a. fresh) id holder now s
        ≡ some (s', done))
      × (maybe_available space s'.hint (pos n) ≡ some false)
      × (unsold s'.table n ≡ 1)
unfolding confirm_hybrid
load_before_mark space read between later fresh id holder now s n inside known wrote left v exact =
    let (a, marks, valid, counts) = mark_sold-count v n inside in
    let gone : not (a.counts.at n == 0) ≡ false = ground (arith, counts n) in
    let one : ((confirm_sql id holder now s.table).1 == 1) ≡ true = ground arith in
    (
      record {
        table = (confirm_sql id holder now s.table).0;
        hint = a;
        number_of = (forget_number id s.number_of).1;
      },
      rw (confirm_hybrid, one, forget_number_first id s.number_of, known, marks, ◌>>=◌) refl,
      maybe_available-some valid n inside ∙ ap some gone,
      left,
    )

-- A replica with RunListener on hears of its own sale as well. Of a number with two unsold tickets that
-- its hint counts exactly, whose sold ticket it knows, Confirm sells one and answers nil. Once the
-- listener, that hears this sale alone, has heard it, MaybeAvailable answers no while a ticket is
-- unsold.
pub told_twice :
    (space : ℕ) (read : Fate) (between : Table → Table) (later : ℕ) (id : ℕ) (holder : String)
    (now : ℕ) (s : Hybrid) (n : ℕ)
    → n < space
    → s.number_of id ≡ some n
    → (confirm_sql id holder now s.table).1 ≡ 1
    → unsold (confirm_sql id holder now s.table).0 n ≡ 1
    → IsHint space s.hint
    → s.hint.counts.at n ≡ 2
    → (s' : Hybrid) × (s'' : Hybrid) × (confirm_hybrid space answered read between later
          (λ a. a)
          id
          holder
          now
          s
        ≡ some (s', done))
      × (run_listener space (listening (alone (some (pos n)) ∷ []) true) s' ≡ some (s'', none))
      × (maybe_available space s''.hint (pos n) ≡ some false)
      × (unsold s''.table n ≡ 1)
unfolding confirm_hybrid
told_twice space read between later id holder now s n inside known wrote left v exact =
    let (a, marks, valid, counts) = mark_sold-count v n inside in
    let one : ((confirm_sql id holder now s.table).1 == 1) ≡ true = ground arith in
    let s' : Hybrid = record {
      table = (confirm_sql id holder now s.table).0;
      hint = a;
      number_of = (forget_number id s.number_of).1;
    } in
    let (s'', heard, lowered) = listening-IsLowered space (some (pos n) ∷ []) s' valid in
    let own : (n == n) ≡ true = ==_self n in
    let gone : not (s''.hint.counts.at n == 0) ≡ false =
      ground (arith, counts n, lowered.counts n inside) in
    (
      s',
      s'',
      rw (confirm_hybrid, one, forget_number_first id s.number_of, known, marks, ◌>>=◌) refl,
      heard,
      maybe_available-some lowered.valid n inside ∙ ap some gone,
      ap (λ t. unsold t n) lowered.table ∙ left,
    )
