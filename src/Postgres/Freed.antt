-- ===== src/Postgres/Freed.antt =====
-- How Release of the Postgres store ends, however its statements do, without the code's own tests.
use Prim.Native.String.{String}
use text.Mathlib.TextPositions.{eq_refl}
use lottery_search_system.Prelude.{
  ℕ, ◌≡◌, ◌≢◌, refl, ap, sym, ◌∙◌, subst, Bool, true, none, some, ◌⊎◌, inl, inr, arith, Bool-cases,
  Option-cases, some_inj, none-ne-some, ◌==◌,
}
use lottery_search_system.TicketStore.{reserved, available, Answer, done, troubled, is_reserved}
use lottery_search_system.Postgres.{
  TicketRow, Table, Fate, answered, rejected, broken, find_row, holder_is, row_held, freed_row,
  release_sql, release_ticket,
}
use lottery_search_system.Postgres.Rows.{
  IsTable, update_where-none, update_where-failed, update_where_one,
}
use lottery_search_system.Postgres.Refusals.{
  IsReason, reserved_only, holder_is-some, and_both, explain_failure-IsReason,
}

-- A row that is reserved by the holder, with a running lease or not.
pub record IsTaken (holder : String) (r : TicketRow) : Type 0 where
  pub status : r.status ≡ reserved
  pub owner : r.holder ≡ some holder

-- The ticket is the holder's, and its row alone is written: it is available again, with its number.
pub record IsReturn (id : ℕ) (holder : String) (t t' : Table) : Type 0 where
  pub row : TicketRow
  pub after : TicketRow
  pub found : find_row id t ≡ some row
  pub taken : IsTaken holder row
  pub written : find_row id t' ≡ some after
  pub status : after.status ≡ available
  pub number : after.num ≡ row.num
  pub owner : after.holder ≡ none
  pub lease : after.lease_until ≡ none
  pub others : (j : ℕ) → id ≢ j → find_row j t' ≡ find_row j t

-- The ticket is not the holder's.
abbrev pub IsForeign : ℕ → String → Table → Type 0
IsForeign id holder t = (r : TicketRow) → find_row id t ≡ some r → ¬ IsTaken holder r

-- How Release ends, by how its UPDATE does.
abbrev pub Returns :
    Fate → Fate → (Table → Table) → ℕ → ℕ → String → Table → Table × Answer → Type 0
Returns answered read between later id holder t (t', a) =
    (IsReturn id holder t t' × (a ≡ done))
    ⊎ (IsForeign id holder t × (t' ≡ between t) × IsReason read id holder later t' a)
Returns rejected read between later id holder t (t', a) = (t' ≡ t) × (a ≡ troubled)
Returns broken read between later id holder t (t', a) =
    (IsReturn id holder t t' ⊎ (IsForeign id holder t × (t' ≡ t))) × (a ≡ troubled)

row_held-IsTaken : (r : TicketRow) (holder : String) → row_held r holder ≡ true → IsTaken holder r
row_held-IsTaken r holder h =
    let (s, o) = and_both (is_reserved r.status) (holder_is r.holder holder) h in
    record { status = reserved_only r.status s; owner = holder_is-some r.holder holder o }

IsTaken-row_held : (r : TicketRow) (holder : String) → IsTaken holder r → row_held r holder ≡ true
IsTaken-row_held r holder h = rw (h.status, h.owner, eq_refl holder) refl

-- releaseSQL frees the ticket and writes one row, or writes nothing.
release_sql-IsReturn :
    (id : ℕ) (holder : String) (t : Table)
    → IsTable t
    → (IsReturn id holder t (release_sql id holder t).0 × ((release_sql id holder t).1 ≡ 1))
      ⊎ (IsForeign id holder t × (release_sql id holder t ≡ (t, 0)))
unfolding release_sql
release_sql-IsReturn id holder t keyed =
    let held : TicketRow → Bool = λ r. row_held r holder in
    elim (Option-cases (find_row id t)) [
      | inl absent ↦ inr (
        λ r found h. absurd (none-ne-some (sym absent ∙ found)),
        update_where-none id held freed_row t absent,
      )
      | inr (r, found) ↦ elim (Bool-cases (row_held r holder)) [
        | inl passes ↦
            let (count, written, others) =
              update_where_one id held freed_row (λ x. refl) t r keyed found passes in
            inl (
              record {
                row = r;
                after = freed_row r;
                found = found;
                taken = row_held-IsTaken r holder passes;
                written = written;
                status = refl;
                number = refl;
                owner = refl;
                lease = refl;
                others = others;
              },
              count,
            )
        | inr fails ↦ inr (
          λ r' found' h.
              let same : r' ≡ r = some_inj (sym found' ∙ found) in
              absurd (cc (fails, IsTaken-row_held r holder (subst (IsTaken holder) same h))),
          update_where-failed id held freed_row t r keyed found fails,
        )
      ]
    ]

-- In a table with the ids as keys, for a ticket that there is or not, and however the two statements
-- end. If the UPDATE answers, the ticket was the holder's, even if its lease had ended, is now
-- available without a holder and a lease, with nothing else written, and the answer is nil; or it
-- was not the holder's, nothing is written, and the answer tells why, by the row as it is read after
-- what others did, or is an error of the database if it cannot be read. If the UPDATE is rejected,
-- nothing is written. If its answer is lost, the ticket is freed or not, as before. In both cases
-- the answer is an error of the database.
pub release_ticket-Returns :
    (exec read : Fate) (between : Table → Table) (later id : ℕ) (holder : String) (t : Table)
    → IsTable t
    → Returns exec read between later id holder t
        (release_ticket exec read between later id holder t)
unfolding release_ticket
release_ticket-Returns rejected read between later id holder t keyed = (refl, refl)
release_ticket-Returns broken read between later id holder t keyed =
    elim (release_sql-IsReturn id holder t keyed) [
      | inl (back, count) ↦ (inl back, refl)
      | inr (foreign, same) ↦ (inr (foreign, ap (λ x. x.0) same), refl)
    ]
release_ticket-Returns answered read between later id holder t keyed =
    elim (release_sql-IsReturn id holder t keyed) [
      | inl (back, count) ↦
          let one : ((release_sql id holder t).1 == 1) ≡ true = ground arith in
          rw (release_ticket, one) (inl (back, refl))
      | inr (foreign, same) ↦
          rw (release_ticket, same)
            (inr (foreign, refl, explain_failure-IsReason read (between t) id holder later))
    ]
