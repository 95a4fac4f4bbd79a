-- ===== src/Postgres/Refusals.antt =====
-- explainFailure: what it says of a refusal, without the code's own tests of a row.
use Prim.Native.String.{String}
use text.Mathlib.TextEquality.{eq_iff}
use text.Mathlib.TextPositions.{eq_refl}
use lottery_search_system.Prelude.{
  ℕ, ◌&&◌, ◌≤◌, ◌<◌, ◌≡◌, refl, ap, sym, ◌∙◌, Bool, true, false, Option, none, some, ltb, inl, inr,
  arith, Bool-cases,
}
use lottery_search_system.TicketStore.{
  Status, available, reserved, sold, StoreError, not_held, lease_expired, ticket_not_found, Answer,
  failed, troubled, is_reserved,
}
use lottery_search_system.Postgres.{
  TicketRow, Table, Fate, answered, rejected, broken, find_row, holder_is, lease_live, lease_over,
  row_held, explain_row, explain_failure,
}
use lottery_search_system.Postgres.Safety.{IsHeldRow}

-- What a refusal says of the row that is read again.
pub data Explains (holder : String) (now : ℕ) : Option TicketRow → StoreError → Type 0 where
  missing : Explains holder now none ticket_not_found
  ended :
      (r : TicketRow) (until : ℕ)
      → IsHeldRow holder until r
      → until < now
      → Explains holder now (some r) lease_expired
  other :
      (r : TicketRow)
      → ((until : ℕ) → IsHeldRow holder until r → now ≤ until)
      → Explains holder now (some r) not_held

-- The error of a refusal, by how the query for the row ends.
abbrev pub IsReason : Fate → ℕ → String → ℕ → Table → Answer → Type 0
IsReason answered id holder later t a =
    (e : StoreError) × (a ≡ failed e) × Explains holder later (find_row id t) e
IsReason rejected id holder later t a = a ≡ troubled
IsReason broken id holder later t a = a ≡ troubled

pub reserved_only : (s : Status) → is_reserved s ≡ true → s ≡ reserved
reserved_only available e = cc
reserved_only reserved e = refl
reserved_only sold e = cc

pub holder_is-some :
    (o : Option String) (holder : String) → holder_is o holder ≡ true → o ≡ some holder
holder_is-some none holder e = cc
holder_is-some (some owner) holder e = ap some ((eq_iff owner holder).0 e)

pub live_until :
    (o : Option ℕ) (now : ℕ)
    → lease_live o now ≡ true
    → (until : ℕ) × (o ≡ some until) × (now ≤ until)
live_until none now e = cc
live_until (some until) now e = (until, refl, ground arith)

pub over_until :
    (o : Option ℕ) (now : ℕ)
    → lease_over o now ≡ true
    → (until : ℕ) × (o ≡ some until) × (until < now)
over_until none now e = cc
over_until (some until) now e = (until, refl, ground arith)

pub and_both : (a b : Bool) → a && b ≡ true → (a ≡ true) × (b ≡ true)
and_both true b e = (refl, e)
and_both false b e = cc

pub row_held-IsHeldRow :
    (r : TicketRow) (holder : String) (until : ℕ)
    → row_held r holder ≡ true
    → r.lease_until ≡ some until
    → IsHeldRow holder until r
row_held-IsHeldRow r holder until h lease =
    let (s, o) = and_both (is_reserved r.status) (holder_is r.holder holder) h in
    record {
      status = reserved_only r.status s;
      owner = holder_is-some r.holder holder o;
      lease = lease;
    }

pub IsHeldRow-row_held :
    (r : TicketRow) (holder : String) (until : ℕ)
    → IsHeldRow holder until r
    → row_held r holder ≡ true
IsHeldRow-row_held r holder until h = rw (h.status, h.owner, eq_refl holder) refl

explain_row-Explains :
    (o : Option TicketRow) (holder : String) (now : ℕ)
    → Explains holder now o (explain_row o holder now)
explain_row-Explains none holder now = missing
explain_row-Explains (some r) holder now = elim (Bool-cases (row_held r holder)) [
  | inr free ↦
      rw free (other r (λ until h. absurd (cc (free, IsHeldRow-row_held r holder until h))))
  | inl held ↦ elim (Bool-cases (lease_over r.lease_until now)) [
    | inl over ↦
        let (until, lease, late) = over_until r.lease_until now over in
        rw (held, over) (ended r until (row_held-IsHeldRow r holder until held lease) late)
    | inr running ↦
        rw (held, running)
          (other r (λ until h.
            let live : ltb until now ≡ false = ap (λ l. lease_over l now) (sym h.lease) ∙ running in
            ground arith))
  ]
]

pub explain_failure-IsReason :
    (read : Fate) (t : Table) (id : ℕ) (holder : String) (later : ℕ)
    → IsReason read id holder later t (explain_failure read t id holder later)
unfolding explain_failure
explain_failure-IsReason answered t id holder later = (
  explain_row (find_row id t) holder later,
  refl,
  explain_row-Explains (find_row id t) holder later,
)
explain_failure-IsReason rejected t id holder later = refl
explain_failure-IsReason broken t id holder later = refl
