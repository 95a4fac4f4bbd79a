-- ===== src/Hybrid/Ops.antt =====
-- Each operation of the store keeps the hint in step with the table.
use Prim.Native.String.{String}
use lottery_search_system.Prelude.{
  ℕ, ◌+◌, ◌≤◌, ◌<◌, ◌≡◌, refl, ap, sym, subst, true, some, ◌==◌, arith, Bool-cases, Option-cases,
  inl, inr,
}
use lottery_search_system.TicketStore.{Answer, done, troubled}
use lottery_search_system.Availability.{Availability, mark_sold, mark_available}
use lottery_search_system.Postgres.{
  Table, Fate, answered, rejected, broken, confirm_test, sold_row, confirm_sql, release_sql,
  explain_failure,
}
use lottery_search_system.Postgres.Rows.{IsTable, update_where-failed}
use lottery_search_system.Postgres.Schedule.{start, later, confirmed, released}
use lottery_search_system.Postgres.Unsold.{unsold, confirm_sql-unsold_lt, Schedule-unsold}
use lottery_search_system.Postgres.Numbers.{HasNumber}
use lottery_search_system.Hybrid.{Hybrid, confirm_hybrid, release_hybrid}
use lottery_search_system.Hybrid.Sync.{
  Freely, IsSynced, Schedule-IsSynced, IsRaising, IsMark, marked-IsSynced, mark_sold-over,
  mark_available-over,
}

-- The row of a number that is known for a ticket that Confirm sells.
pub confirm_sql-number :
    (id : ℕ) (holder : String) (now : ℕ) (t : Table) (n : ℕ)
    → IsTable t
    → HasNumber t id n
    → ((confirm_sql id holder now t).1 == 1) ≡ true
    → unsold (confirm_sql id holder now t).0 n + 1 ≤ unsold t n
unfolding confirm_sql
confirm_sql-number id holder now t n u (r, found, number) wrote =
    elim (Bool-cases (confirm_test holder now r)) [
      | inl passes ↦
          subst (λ m. unsold (confirm_sql id holder now t).0 m + 1 ≤ unsold t m) number
            (confirm_sql-unsold_lt id holder now t r found passes)
      | inr fails ↦
          let nothing : (confirm_sql id holder now t).1 ≡ 0 =
            ap (λ x. x.1)
              (update_where-failed id (confirm_test holder now) sold_row t r u found fails) in
          absurd (ground arith)
    ]

module _ {space : ℕ} (exec read : Fate) (between : Table → Table) (later_time : ℕ)
    (during : Availability → Availability) (raising : IsRaising space during)
    (fair : (t : Table) → IsTable t → Freely t (between t)) (id : ℕ) (holder : String) (s : Hybrid)
    (h : IsSynced space s) where
  confirm_sql-IsMark :
      (now : ℕ)
      → ((confirm_sql id holder now s.table).1 == 1) ≡ true
      → IsMark space mark_sold
          (confirm_sql id holder now s.table).0
          (s.number_of id)
          (during s.hint)
  confirm_sql-IsMark now wrote =
      let t = (confirm_sql id holder now s.table).0 in
      let run : Freely s.table t = later start (confirmed id holder now tt tt refl) in
      let over : (n : ℕ) → n < space → unsold s.table n ≤ (during s.hint).counts.at n =
        λ n inside. omega (arith, h.over n inside, raising.higher s.hint n h.valid inside) in
      elim (Option-cases (s.number_of id)) [
        | inl unknown ↦
            subst (λ o. IsMark space mark_sold t o (during s.hint)) (sym unknown)
              (
                during s.hint,
                refl,
                raising.valid s.hint h.valid,
                λ n inside. omega (arith, over n inside, Schedule-unsold n h.keyed run),
              )
        | inr (n, found) ↦
            subst (λ o. IsMark space mark_sold t o (during s.hint)) (sym found)
              (mark_sold-over n (unsold s.table) (unsold t) (raising.valid s.hint h.valid) over
                (λ m. Schedule-unsold m h.keyed run)
                (confirm_sql-number id holder now s.table n h.keyed (h.known id n found) wrote))
      ]

  release_sql-IsMark :
      IsMark space mark_available (release_sql id holder s.table).0 (s.number_of id) (during s.hint)
  release_sql-IsMark =
      let t = (release_sql id holder s.table).0 in
      let run : Freely s.table t = later start (released id holder tt refl) in
      let over : (n : ℕ) → n < space → unsold t n ≤ (during s.hint).counts.at n = λ n inside.
        omega (
          arith,
          h.over n inside,
          raising.higher s.hint n h.valid inside,
          Schedule-unsold n h.keyed run,
        ) in
      let valid = raising.valid s.hint h.valid in
      elim (Option-cases (s.number_of id)) [
        | inl unknown ↦
            subst (λ o. IsMark space mark_available t o (during s.hint)) (sym unknown)
              (during s.hint, refl, valid, over)
        | inr (n, found) ↦
            let (a, marks, valid', higher) = mark_available-over n valid in
            subst (λ o. IsMark space mark_available t o (during s.hint)) (sym found)
              (a, marks, valid', λ m inside. omega (arith, over m inside, higher m))
      ]

  -- Confirm of a store that is in step with its table, where other goroutines raise the hint at most
  -- between the sale and its mark, and statements run before the reason of a refusal is read: it
  -- returns, and the store is in step again.
  pub confirm_hybrid-IsSynced :
      (now : ℕ)
      → (s' : Hybrid) × (a : Answer) × (confirm_hybrid space exec read between later_time during id
            holder now s
          ≡ some (s', a))
        × IsSynced space s'
  unfolding confirm_hybrid
  confirm_hybrid-IsSynced now =
      let t = (confirm_sql id holder now s.table).0 in
      let run : Freely s.table t = later start (confirmed id holder now tt tt refl) in
      let synced = Schedule-IsSynced h run in
      elim exec
        as (λ exec.
          (s' : Hybrid) × (a : Answer) × (confirm_hybrid space exec read between later_time during
              id holder now s
            ≡ some (s', a))
          × IsSynced space s') [
            | rejected ↦ (s, troubled, refl, h)
            | broken ↦ (record s { table = t }, troubled, refl, synced)
            | answered ↦ elim (Bool-cases ((confirm_sql id holder now s.table).1 == 1)) [
              | inl wrote ↦
                  let (s', ran, synced', _) =
                    marked-IsSynced mark_sold during id t s h run (confirm_sql-IsMark now wrote) in
                  (s', done, rw (confirm_hybrid, wrote) ran, synced')
              | inr refused ↦ (
                record s { table = between t },
                explain_failure read (between t) id holder later_time,
                rw (confirm_hybrid, refused) refl,
                Schedule-IsSynced synced (fair t synced.keyed),
              )
            ]
          ]

  -- Release, under the same conditions.
  pub release_hybrid-IsSynced :
      (s' : Hybrid) × (a : Answer) × (release_hybrid space exec read between later_time during id
          holder s
        ≡ some (s', a))
      × IsSynced space s'
  unfolding release_hybrid
  release_hybrid-IsSynced =
      let t = (release_sql id holder s.table).0 in
      let run : Freely s.table t = later start (released id holder tt refl) in
      let synced = Schedule-IsSynced h run in
      elim exec
        as (λ exec.
          (s' : Hybrid) × (a : Answer) × (release_hybrid space exec read between later_time during
              id holder s
            ≡ some (s', a))
          × IsSynced space s') [
            | rejected ↦ (s, troubled, refl, h)
            | broken ↦ (record s { table = t }, troubled, refl, synced)
            | answered ↦ elim (Bool-cases ((release_sql id holder s.table).1 == 1)) [
              | inl wrote ↦
                  let (s', ran, synced', _) =
                    marked-IsSynced mark_available during id t s h run release_sql-IsMark in
                  (s', done, rw (release_hybrid, wrote) ran, synced')
              | inr refused ↦ (
                record s { table = between t },
                explain_failure read (between t) id holder later_time,
                rw (release_hybrid, refused) refl,
                Schedule-IsSynced synced (fair t synced.keyed),
              )
            ]
          ]
