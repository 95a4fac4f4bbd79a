-- ===== src/Postgres/Safety.antt =====
-- What no sequence of statements can do, and what a claim of the Postgres store promises under
-- whatever the others do.
use Prim.Native.String.{String}
use text.Mathlib.Text.{◌==◌ as str_eq}
use text.Mathlib.TextPositions.{eq_refl}
use lottery_search_system.Prelude.{ℕ, ◌≤◌, ◌≡◌, refl, true, false, some, ltb, leb, arith, inl, inr}
use lottery_search_system.TicketStore.{reserved, sold, done}
use lottery_search_system.Postgres.{
  TicketRow, Table, find_row, confirm_test, sold_row, confirm_ticket, answered,
}
use lottery_search_system.Postgres.Rows.{IsTable}
use lottery_search_system.Postgres.Confirm.{confirm_ticket-Writes}
use lottery_search_system.Postgres.Schedule.{Schedule, IsSafe, Schedule-IsTable, Schedule-kept}

-- A row that the holder has until `until`.
pub record IsHeldRow (holder : String) (until : ℕ) (r : TicketRow) : Type 0 where
  pub status : r.status ≡ reserved
  pub owner : r.holder ≡ some holder
  pub lease : r.lease_until ≡ some until

-- Someone else than this holder.
abbrev pub Others : String → String → Type 0
Others holder other = str_eq holder other ≡ false

sold-IsSafe : (r : TicketRow) → r.status ≡ sold → IsSafe (λ h. Unit) (λ now. Unit) r
sold-IsSafe r e = record { unclaimable = λ now w. rw e refl; unheld = λ holder w. rw e refl }

pub held-IsSafe :
    (holder : String) (until latest : ℕ) (r : TicketRow)
    → IsHeldRow holder until r
    → latest ≤ until
    → IsSafe (Others holder) (λ now. now ≤ latest) r
held-IsSafe holder until latest r h enough = record {
  unclaimable =
      λ now w. let live : ltb until now ≡ false = ground arith in rw (h.status, h.lease, live) refl;
  unheld = λ other w. rw (h.status, h.owner) w;
}

-- In a table with the ids as keys, the row of a sold ticket stays exactly as it is, whatever
-- statements follow: claims, confirmations, releases and reapings by whomever, at any times.
pub sold_row_forever :
    (t t' : Table) (id : ℕ) (r : TicketRow)
    → IsTable t
    → find_row id t ≡ some r
    → r.status ≡ sold
    → Schedule (λ holder. Unit) (λ now. Unit) t t'
    → find_row id t' ≡ some r
sold_row_forever t t' id r u found e h = Schedule-kept id r u found (sold-IsSafe r e) h

-- The holder of a reservation can rely on its lease. Whatever statements follow that run no later
-- than its end, and in which only others confirm and release, Confirm by the holder no later than
-- the end of the lease, if its statement answers, answers nil, and the row is sold, to this holder.
pub lease_honoured :
    (between : Table → Table) (later : ℕ) (t t' : Table) (id : ℕ) (r : TicketRow) (holder : String)
    (until now : ℕ)
    → IsTable t
    → find_row id t ≡ some r
    → IsHeldRow holder until r
    → Schedule (Others holder) (λ time. time ≤ until) t t'
    → now ≤ until
    → ((confirm_ticket answered answered between later id holder now t').1 ≡ done)
      × (find_row id (confirm_ticket answered answered between later id holder now t').0
          ≡ some (sold_row r))
lease_honoured between later t t' id r holder until now u found h s running =
    let found' = Schedule-kept id r u found (held-IsSafe holder until until r h (omega arith)) s in
    let live : leb now until ≡ true = ground arith in
    let passes : confirm_test holder now r ≡ true =
      rw (h.status, h.owner, h.lease, eq_refl holder, live) refl in
    elim (confirm_ticket-Writes between later id holder now t' r (Schedule-IsTable u s) found') [
      | inl (_, answer, writes) ↦ (answer, writes.0)
      | inr (fails, _) ↦ cc
    ]
