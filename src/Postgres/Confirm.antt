-- ===== src/Postgres/Confirm.antt =====
-- Confirm of the Postgres store, of a ticket that there is, and what it shares with the memory store.
use Prim.Native.String.{String}
use lottery_search_system.Prelude.{
  ℕ, ◌≡◌, ◌≢◌, refl, ap, ◌∙◌, true, false, some, ◌⊎◌, Bool-cases, inl, inr,
}
use lottery_search_system.TicketStore.{is_reserved, done}
use lottery_search_system.Store.{MemoryStore}
use lottery_search_system.Store.Confirm.{is_held}
use lottery_search_system.Postgres.{
  TicketRow, Table, find_row, row_held, confirm_test, sold_row, confirm_sql, explain_failure,
  answered, confirm_ticket,
}
use lottery_search_system.Postgres.Rows.{IsTable, update_where-failed, update_where_one}

-- One row was written, the way `change` says, and every other row is as it was.
abbrev pub Writes : ℕ → (TicketRow → TicketRow) → TicketRow → Table → Table → Type 0
Writes id change r t t' =
    (find_row id t' ≡ some (change r)) × ((j : ℕ) → id ≢ j → find_row j t' ≡ find_row j t)

module _ (between : Table → Table) (later id : ℕ) (holder : String) (now : ℕ) (t : Table)
    (r : TicketRow) (keyed : IsTable t) (found : find_row id t ≡ some r) where
  -- Confirm whose statements answer, in a table with the ids as keys, of a ticket that there is. If the ticket is held by
  -- this holder and its lease has not run out, its row alone is written, to sold, and the answer is
  -- nil, whatever others do after. Otherwise nothing is written, and the error is of the table as
  -- it is when it is read again.
  pub confirm_ticket-Writes :
      ((confirm_test holder now r ≡ true)
        × ((confirm_ticket answered answered between later id holder now t).1 ≡ done)
        × Writes id sold_row r t (confirm_ticket answered answered between later id holder now t).0)
      ⊎ ((confirm_test holder now r ≡ false)
          × (confirm_ticket answered answered between later id holder now t
              ≡ (between t, explain_failure answered (between t) id holder later)))
  unfolding confirm_ticket confirm_sql
  confirm_ticket-Writes = elim (Bool-cases (confirm_test holder now r)) [
    | inl passes ↦
        let (count, row, others) =
          update_where_one id (confirm_test holder now) sold_row (λ x. refl) t r keyed found
            passes in
        let ran : confirm_ticket answered answered between later id holder now t
            ≡ ((confirm_sql id holder now t).0, done) =
          rw (confirm_ticket, confirm_sql, count) refl in
        inl (
          passes,
          ap (λ x. x.1) ran,
          (
            ap (λ x. find_row id x.0) ran ∙ row,
            λ j apart. ap (λ x. find_row j x.0) ran ∙ others j apart,
          ),
        )
    | inr fails ↦ inr (
      fails,
      rw
          (
            confirm_ticket,
            confirm_sql,
            update_where-failed id (confirm_test holder now) sold_row t r keyed found fails,
          )
          refl,
    )
  ]

-- The row holds what the memory store holds of the ticket. Of a ticket that is not reserved the
-- holder and the lease do not matter.
pub record IsMirror (s : MemoryStore) (id : ℕ) (r : TicketRow) : Type 0 where
  pub status : r.status ≡ s.status.at id
  pub holder : is_reserved r.status ≡ true → r.holder ≡ some (s.holder.at id)
  pub lease : is_reserved r.status ≡ true → r.lease_until ≡ some (s.lease_until.at id)

pub IsMirror-held :
    {s : MemoryStore} {id : ℕ} {r : TicketRow} (holder : String)
    → IsMirror s id r
    → row_held r holder ≡ is_held s holder id
IsMirror-held {s = s} {id = id} {r = r} holder m = elim (Bool-cases (is_reserved r.status)) [
  | inl yes_ ↦ rw (yes_, m.holder yes_, ← m.status, yes_) refl
  | inr no_ ↦ rw (no_, ← m.status, no_) refl
]
