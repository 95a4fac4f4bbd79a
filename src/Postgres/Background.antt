-- ===== src/Postgres/Background.antt =====
-- postgres/store.go: RunReaper. The timer's ticks are a list, which ends where the context is done.
use Prim.Native.String.{String}
use lottery_search_system.Prelude.{
  ℕ, ◌+◌, refl, Bool, true, false, ◌&&◌, List, [], ◌∷◌, if◌then◌else◌, All, Bool-cases, inl, inr,
}
use lottery_search_system.Postgres.{Table}
use lottery_search_system.Postgres.Rows.{IsTable}
use lottery_search_system.Postgres.Statements.{reap_expired}
use lottery_search_system.Postgres.Schedule.{
  reaped, Schedule, start, later, Schedule-IsTable, Schedule-trans,
}

-- A tick: what other transactions do before the statement, the rows that it passes over, its time, and
-- whether it fails.
pub record Sweep : Type 0 where
  pub others : Table → Table
  pub skipped : ℕ → Bool
  pub now : ℕ
  pub fails : Bool

abbrev pub swept : ℕ → Sweep → Table → Table
swept batch w t = elim w.fails [
  | true ↦ w.others t
  | false ↦ (reap_expired w.skipped w.now batch (w.others t)).0
]

-- RunReaper, with how many errors it passes on. `reports` says whether there is an `onError`.
unfoldable pub run_reaper : ℕ → Bool → List Sweep → Table → Table × ℕ
run_reaper batch reports [] t = (t, 0)
run_reaper batch reports (w ∷ ws) t =
    let rest = run_reaper batch reports ws (swept batch w t) in
    (rest.0, (if w.fails && reports then 1 else 0) + rest.1)

-- The time of a tick is one of `When`, and the others run statements of `Who` at such times.
pub record IsFairSweep (Who : String → Type 0) (When : ℕ → Type 0) (w : Sweep) : Type 0 where
  pub timely : When w.now
  pub fair : (t : Table) → IsTable t → Schedule Who When t (w.others t)

swept-Schedule :
    {Who : String → Type 0} {When : ℕ → Type 0} (batch : ℕ) (w : Sweep) (t : Table)
    → IsFairSweep Who When w
    → IsTable t
    → Schedule Who When t (swept batch w t)
swept-Schedule {Who = Who} {When = When} batch w t h u = elim (Bool-cases w.fails) [
  | inl failed ↦ rw failed (h.fair t u)
  | inr ran ↦ rw ran (later (h.fair t u) (reaped w.skipped w.now batch h.timely refl))
]

-- The reaper and the others among its sweeps run statements alone, so that what holds of all sequences
-- of statements holds of it.
pub run_reaper-Schedule :
    {Who : String → Type 0} {When : ℕ → Type 0} (batch : ℕ) (reports : Bool) (ws : List Sweep)
    (t : Table)
    → All (IsFairSweep Who When) ws
    → IsTable t
    → Schedule Who When t (run_reaper batch reports ws t).0
unfolding run_reaper
run_reaper-Schedule batch reports [] t h u = start
run_reaper-Schedule batch reports (w ∷ ws) t h u =
    let first = swept-Schedule batch w t h.0 u in
    Schedule-trans first
      (run_reaper-Schedule batch reports ws (swept batch w t) h.1 (Schedule-IsTable u first))
