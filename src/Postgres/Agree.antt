-- ===== src/Postgres/Agree.antt =====
-- The Postgres store and the memory store answer Confirm alike.
use Prim.Native.String.{String}
use lottery_search_system.Prelude.{
  ℕ, ◌<◌, ◌≡◌, refl, ap, sym, ◌∙◌, true, false, List, some, ltb, leb, arith, Bool-cases, inl, inr,
  length,
}
use lottery_search_system.Prelude.Array.{update_self}
use lottery_search_system.Prelude.Int.{pos}
use lottery_search_system.Index.{Ticket}
use lottery_search_system.TicketStore.{
  sold, is_reserved, Answer, done, failed, not_held, lease_expired,
}
use lottery_search_system.Store.{MemoryStore, confirm}
use lottery_search_system.Store.Valid.{IsStore}
use lottery_search_system.Store.Confirm.{Confirms, late, bought, confirm-Confirms}
use lottery_search_system.Postgres.{
  TicketRow, Table, find_row, answered, row_held, confirm_test, sold_row, explain_failure,
  explain_row, confirm_ticket,
}
use lottery_search_system.Postgres.Rows.{IsTable}
use lottery_search_system.Postgres.Confirm.{IsMirror, IsMirror-held, confirm_ticket-Writes}

-- Confirm whose statements answer, with nothing between them.
abbrev pub confirm_alone : ℕ → String → ℕ → Table → Table × Answer
confirm_alone id holder now = confirm_ticket answered answered (λ t. t) now id holder now

abbrev Matched : ℕ → String → ℕ → Table → MemoryStore → Answer → Type 0
Matched id holder now t s a =
    ((confirm_alone id holder now t).1 ≡ a)
    × (r : TicketRow) × (find_row id (confirm_alone id holder now t).0 ≡ some r)
    × IsMirror s id r

held-reserved :
    (r : TicketRow) (holder : String) → row_held r holder ≡ true → is_reserved r.status ≡ true
held-reserved r holder h = elim (Bool-cases (is_reserved r.status)) [
  | inl held ↦ held
  | inr free ↦ cc
]

module _ (t : Table) (r : TicketRow) (id : ℕ) (holder : String) (now : ℕ) (keyed : IsTable t)
    (found : find_row id t ≡ some r) where
  unsold-Matched :
      (s : MemoryStore) (a : Answer)
      → IsMirror s id r
      → confirm_test holder now r ≡ false
      → failed (explain_row (some r) holder now) ≡ a
      → Matched id holder now t s a
  unfolding explain_failure
  unsold-Matched s a m fails says =
      elim (confirm_ticket-Writes (λ t. t) now id holder now t r keyed found) [
        | inl (passes, _, _) ↦ absurd cc
        | inr (_, ran) ↦ (
          ap (λ x. x.1) ran ∙ ap (λ o. failed (explain_row o holder now)) found ∙ says,
          r,
          ap (λ x. find_row id x.0) ran ∙ found,
          m,
        )
      ]

  sold-Matched :
      (s : MemoryStore)
      → IsMirror s id (sold_row r)
      → confirm_test holder now r ≡ true
      → Matched id holder now t s done
  sold-Matched s m passes =
      elim (confirm_ticket-Writes (λ t. t) now id holder now t r keyed found) [
        | inl (_, answer, row) ↦ (answer, sold_row r, row.0, m)
        | inr (fails, _) ↦ absurd cc
      ]

Confirms-Matched :
    (size : ℕ) (s : MemoryStore) (id : ℕ) (holder : String) (now : ℕ) (a : Answer)
    (s' : MemoryStore) (t : Table) (r : TicketRow)
    → Confirms size s holder now (pos id) a s'
    → id < size
    → IsTable t
    → find_row id t ≡ some r
    → IsMirror s id r
    → Matched id holder now t s' a
Confirms-Matched size s id holder now a s' t r (Confirms.unknown i h) inside keyed found m =
    absurd (omega arith)
Confirms-Matched size s id holder now a s' t r (Confirms.refused i h other) inside keyed found m =
    let held : row_held r holder ≡ false = IsMirror-held holder m ∙ other in
    unsold-Matched t r id holder now keyed found s (failed not_held) m (rw held refl) (rw held refl)
Confirms-Matched size s id holder now a s' t r (late i h own over) inside keyed found m =
    let held : row_held r holder ≡ true = IsMirror-held holder m ∙ own in
    let lease = m.lease (held-reserved r holder held) in
    let ended : leb now (s.lease_until.at id) ≡ false = ground arith in
    let ended' : ltb (s.lease_until.at id) now ≡ true = ground arith in
    unsold-Matched t r id holder now keyed found s (failed lease_expired) m
      (rw (held, lease, ended) refl) (rw (held, lease, ended') refl)
Confirms-Matched size s id holder now a s' t r (bought i bits h own live) inside keyed found m =
    let held : row_held r holder ≡ true = IsMirror-held holder m ∙ own in
    let lease = m.lease (held-reserved r holder held) in
    let runs : leb now (s.lease_until.at id) ≡ true = ground arith in
    sold-Matched t r id holder now keyed found _
      (record {
        status = sym (update_self s.status.at id sold);
        holder = λ e. absurd cc;
        lease = λ e. absurd cc;
      })
      (rw (held, lease, runs) refl)

-- Of the row with the ticket's id in a table with the ids as keys, which holds what a memory store
-- that satisfies its invariant holds of the ticket, Confirm in the database, whose statements
-- answer with nothing between them, gives the answer that the memory store gives, and the row again holds what the
-- memory store then holds.
pub confirm_ticket-confirm :
    (space : ℕ) (ts : List Ticket) (s : MemoryStore) (t : Table) (r : TicketRow) (id : ℕ)
    (holder : String) (now : ℕ)
    → IsStore space ts s
    → id < length ts
    → IsTable t
    → find_row id t ≡ some r
    → IsMirror s id r
    → (a : Answer) × (s' : MemoryStore) × (r' : TicketRow) × (confirm s (pos id) holder now
        ≡ some (s', a))
      × ((confirm_alone id holder now t).1 ≡ a)
      × (find_row id (confirm_alone id holder now t).0 ≡ some r')
      × IsMirror s' id r'
confirm_ticket-confirm space ts s t r id holder now v inside keyed found m =
    let (a, s', run, valid, c) = confirm-Confirms v (pos id) holder now in
    let (answer, r', row, m') =
      Confirms-Matched (length ts) s id holder now a s' t r c inside keyed found m in
    (a, s', r', run, answer, row, m')
