-- ===== src/Postgres/Ends.antt =====
-- How Confirm of the Postgres store ends, however its statements do, without the code's own tests.
use Prim.Native.String.{String}
use text.Mathlib.TextPositions.{eq_refl}
use lottery_search_system.Prelude.{
  ℕ, ◌≤◌, ◌<◌, ◌≡◌, ◌≢◌, refl, ap, sym, ◌∙◌, subst, true, false, some, leb, ◌⊎◌, inl, inr, arith,
  Bool-cases, Option-cases, some_inj, none-ne-some, ◌==◌,
}
use lottery_search_system.TicketStore.{sold, Answer, done, troubled}
use lottery_search_system.Postgres.{
  TicketRow, Table, Fate, answered, rejected, broken, find_row, lease_live, row_held, confirm_test,
  sold_row, confirm_sql, confirm_ticket,
}
use lottery_search_system.Postgres.Rows.{
  IsTable, update_where-none, update_where-failed, update_where_one,
}
use lottery_search_system.Postgres.Safety.{IsHeldRow}
use lottery_search_system.Postgres.Refusals.{
  IsReason, live_until, and_both, row_held-IsHeldRow, explain_failure-IsReason,
}

-- The ticket is the holder's, its lease runs, and its row alone is written: to sold, with the number and
-- the holder that it has.
pub record IsSale (id : ℕ) (holder : String) (now : ℕ) (t t' : Table) : Type 0 where
  pub row : TicketRow
  pub after : TicketRow
  pub until : ℕ
  pub found : find_row id t ≡ some row
  pub held : IsHeldRow holder until row
  pub running : now ≤ until
  pub written : find_row id t' ≡ some after
  pub status : after.status ≡ sold
  pub number : after.num ≡ row.num
  pub owner : after.holder ≡ some holder
  pub others : (j : ℕ) → id ≢ j → find_row j t' ≡ find_row j t

-- No lease of the ticket is the holder's and runs.
abbrev pub IsUnsellable : ℕ → String → ℕ → Table → Type 0
IsUnsellable id holder now t =
    (r : TicketRow) (until : ℕ) → find_row id t ≡ some r → IsHeldRow holder until r → until < now

-- How Confirm ends, by how its UPDATE does.
abbrev pub Ends :
    Fate → Fate → (Table → Table) → ℕ → ℕ → String → ℕ → Table → Table × Answer → Type 0
Ends answered read between later id holder now t (t', a) =
    (IsSale id holder now t t' × (a ≡ done))
    ⊎ (IsUnsellable id holder now t × (t' ≡ between t) × IsReason read id holder later t' a)
Ends rejected read between later id holder now t (t', a) = (t' ≡ t) × (a ≡ troubled)
Ends broken read between later id holder now t (t', a) =
    (IsSale id holder now t t' ⊎ (IsUnsellable id holder now t × (t' ≡ t))) × (a ≡ troubled)

confirm_test-IsHeldRow :
    (r : TicketRow) (holder : String) (now : ℕ)
    → confirm_test holder now r ≡ true
    → (until : ℕ) × IsHeldRow holder until r × (now ≤ until)
confirm_test-IsHeldRow r holder now h =
    let (held, live) = and_both (row_held r holder) (lease_live r.lease_until now) h in
    let (until, lease, running) = live_until r.lease_until now live in
    (until, row_held-IsHeldRow r holder until held lease, running)

confirm_test-ended :
    (r : TicketRow) (holder : String) (now until : ℕ)
    → confirm_test holder now r ≡ false
    → IsHeldRow holder until r
    → until < now
confirm_test-ended r holder now until fails h = elim (Bool-cases (leb now until)) [
  | inl live ↦
      let passes : confirm_test holder now r ≡ true =
        rw (h.status, h.owner, h.lease, eq_refl holder, live) refl in
      cc
  | inr over ↦ ground arith
]

-- confirmSQL sells the ticket and writes one row, or writes nothing.
confirm_sql-IsSale :
    (id : ℕ) (holder : String) (now : ℕ) (t : Table)
    → IsTable t
    → (IsSale id holder now t (confirm_sql id holder now t).0
        × ((confirm_sql id holder now t).1 ≡ 1))
      ⊎ (IsUnsellable id holder now t × (confirm_sql id holder now t ≡ (t, 0)))
unfolding confirm_sql
confirm_sql-IsSale id holder now t keyed = elim (Option-cases (find_row id t)) [
  | inl absent ↦ inr (
    λ r until found h. absurd (none-ne-some (sym absent ∙ found)),
    update_where-none id (confirm_test holder now) sold_row t absent,
  )
  | inr (r, found) ↦ elim (Bool-cases (confirm_test holder now r)) [
    | inl passes ↦
        let (until, held, running) = confirm_test-IsHeldRow r holder now passes in
        let (count, written, others) =
          update_where_one id (confirm_test holder now) sold_row (λ x. refl) t r keyed found
            passes in
        inl (
          record {
            row = r;
            after = sold_row r;
            until = until;
            found = found;
            held = held;
            running = running;
            written = written;
            status = refl;
            number = refl;
            owner = held.owner;
            others = others;
          },
          count,
        )
    | inr fails ↦ inr (
      λ r' until found' h.
          let same : r' ≡ r = some_inj (sym found' ∙ found) in
          confirm_test-ended r holder now until fails (subst (IsHeldRow holder until) same h),
      update_where-failed id (confirm_test holder now) sold_row t r keyed found fails,
    )
  ]
]

-- In a table with the ids as keys, for a ticket that there is or not, and however the two statements
-- end. If the UPDATE answers, the ticket was the holder's with a running lease, is now sold to the
-- holder with nothing else written, and the answer is nil; or it was not, nothing is written, and
-- the answer tells why, by the row as it is read after what others did, or is an error of the
-- database if it cannot be read. If the UPDATE is rejected, nothing is written. If its answer is
-- lost, the ticket is sold or not, as before. In both cases the answer is an error of the database.
pub confirm_ticket-Ends :
    (exec read : Fate) (between : Table → Table) (later id : ℕ) (holder : String) (now : ℕ)
    (t : Table)
    → IsTable t
    → Ends exec read between later id holder now t
        (confirm_ticket exec read between later id holder now t)
unfolding confirm_ticket
confirm_ticket-Ends rejected read between later id holder now t keyed = (refl, refl)
confirm_ticket-Ends broken read between later id holder now t keyed =
    elim (confirm_sql-IsSale id holder now t keyed) [
      | inl (sale, count) ↦ (inl sale, refl)
      | inr (none_held, same) ↦ (inr (none_held, ap (λ x. x.0) same), refl)
    ]
confirm_ticket-Ends answered read between later id holder now t keyed =
    elim (confirm_sql-IsSale id holder now t keyed) [
      | inl (sale, count) ↦
          let one : ((confirm_sql id holder now t).1 == 1) ≡ true = ground arith in
          rw (confirm_ticket, one) (inl (sale, refl))
      | inr (none_held, same) ↦
          rw (confirm_ticket, same)
            (inr (none_held, refl, explain_failure-IsReason read (between t) id holder later))
    ]
