-- ===== src/Hybrid/Sync.antt =====
-- The hint beside the table: through the operations of the store and whatever other replicas do, it
-- never reports less than there is.
use lottery_search_system.Prelude.{
  ℕ, ◌+◌, ◌≤◌, ◌<◌, ◌≡◌, refl, ap, sym, ◌∙◌, Option, none, some, ◌==◌, leb, arith, Bool-cases,
  Option-cases, inl, inr, none-ne-some, ◌>>=◌,
}
use lottery_search_system.Prelude.Array.{update}
use lottery_search_system.Prelude.Int.{ℤ, pos}
use lottery_search_system.TicketStore.{done}
use lottery_search_system.Availability.{Availability, mark_sold, mark_available}
use lottery_search_system.Availability.Valid.{IsHint, mark_sold-count, mark_available-count}
use lottery_search_system.Postgres.{Table}
use lottery_search_system.Postgres.Rows.{IsTable}
use lottery_search_system.Postgres.Schedule.{Schedule, Schedule-IsTable}
use lottery_search_system.Postgres.Unsold.{unsold, Schedule-unsold}
use lottery_search_system.Postgres.Numbers.{HasNumber, Schedule-HasNumber}
use lottery_search_system.Hybrid.{Hybrid, Names, forget_number, mark_known, marked}

-- Anyone, at any time.
abbrev pub Freely : Table → Table → Type 0
Freely = Schedule (λ holder. Unit) (λ now. Unit)

-- The hint is valid and reports no number lower than it stands, and the map knows true numbers.
pub record IsSynced (space : ℕ) (s : Hybrid) : Type 0 where
  pub keyed : IsTable s.table
  pub valid : IsHint space s.hint
  pub over : (n : ℕ) → n < space → unsold s.table n ≤ s.hint.counts.at n
  pub known : (id n : ℕ) → s.number_of id ≡ some n → HasNumber s.table id n

-- Statements of others leave it so.
pub Schedule-IsSynced :
    {space : ℕ} {s : Hybrid} {t : Table}
    → IsSynced space s
    → Freely s.table t
    → IsSynced space (record s { table = t })
Schedule-IsSynced h run = record {
  keyed = Schedule-IsTable h.keyed run;
  valid = h.valid;
  over = λ n inside. omega (arith, h.over n inside, Schedule-unsold n h.keyed run);
  known = λ id n e. Schedule-HasNumber id n h.keyed run (h.known id n e);
}

kept_entry : (id : ℕ) (names : Names) (j n : ℕ) → update names id none j ≡ some n → names j ≡ some n
kept_entry id names j n e = elim (Bool-cases (id == j)) [
  | inl own ↦ absurd (none-ne-some (rw own at e))
  | inr other ↦ rw other at e
]

-- A number that is forgotten leaves the others.
pub forget_number-known :
    (id : ℕ) (names : Names) (j n : ℕ) → (forget_number id names).1 j ≡ some n → names j ≡ some n
unfolding forget_number
forget_number-known id names j n e = elim (Option-cases (names id)) [
  | inl unknown ↦
      let same : (forget_number id names).1 ≡ names = rw (forget_number, unknown) refl in
      ap (λ f. f j) (sym same) ∙ e
  | inr (m, found) ↦
      let less : (forget_number id names).1 ≡ update names id none =
        rw (forget_number, found) refl in
      kept_entry id names j n (ap (λ f. f j) (sym less) ∙ e)
]

pub forget_number_first : (id : ℕ) (names : Names) → (forget_number id names).0 ≡ names id
unfolding forget_number
forget_number_first id names = elim (Option-cases (names id)) [
  | inl unknown ↦ rw (forget_number, unknown) refl
  | inr (n, found) ↦ rw (forget_number, found) refl
]

-- MarkSold of a number of which a sale has taken a ticket.
pub mark_sold-over :
    {space : ℕ} {a : Availability} (n : ℕ) (before after : ℕ → ℕ)
    → IsHint space a
    → ((m : ℕ) → m < space → before m ≤ a.counts.at m)
    → ((m : ℕ) → after m ≤ before m)
    → after n + 1 ≤ before n
    → (a' : Availability) × (mark_sold space a (pos n) ≡ some a')
      × IsHint space a'
      × ((m : ℕ) → m < space → after m ≤ a'.counts.at m)
unfolding mark_sold
mark_sold-over {space = space} {a = a} n before after v over fewer less =
    elim (Bool-cases (leb space n)) [
      | inl beyond ↦
          (a, rw (mark_sold, beyond) refl, v, λ m inside. omega (arith, over m inside, fewer m))
      | inr within ↦
          let (a', run, valid, counts) = mark_sold-count v n (ground arith) in
          (a', run, valid, λ m inside. ground (arith, counts m, over m inside, fewer m))
    ]

pub mark_available-over :
    {space : ℕ} {a : Availability} (n : ℕ)
    → IsHint space a
    → (a' : Availability) × (mark_available space a (pos n) ≡ some a')
      × IsHint space a'
      × ((m : ℕ) → a.counts.at m ≤ a'.counts.at m)
unfolding mark_available
mark_available-over {space = space} {a = a} n v = elim (Bool-cases (leb space n)) [
  | inl beyond ↦ (a, rw (mark_available, beyond) refl, v, λ m. omega arith)
  | inr within ↦
      let (a', run, valid, counts) = mark_available-count v n (ground arith) in
      (a', run, valid, λ m. ground (arith, counts m))
]

-- What other goroutines do to the hint between a statement and its mark: they only raise it. A load
-- in between is another matter (Hybrid/Race).
pub record IsRaising (space : ℕ) (during : Availability → Availability) : Type 0 where
  pub valid : (a : Availability) → IsHint space a → IsHint space (during a)
  pub higher :
      (a : Availability) (n : ℕ)
      → IsHint space a
      → n < space
      → a.counts.at n ≤ (during a).counts.at n

-- A mark that is sound for the table after the statement.
abbrev pub IsMark :
    ℕ → (ℕ → Availability → ℤ → Option Availability) → Table → Option ℕ → Availability → Type 0
IsMark space mark t known a =
    (a' : Availability) × (mark_known space mark known a ≡ some a')
    × IsHint space a'
    × ((n : ℕ) → n < space → unsold t n ≤ a'.counts.at n)

-- The end of Confirm and Release.
pub marked-IsSynced :
    {space : ℕ} (mark : ℕ → Availability → ℤ → Option Availability)
    (during : Availability → Availability) (id : ℕ) (t : Table) (s : Hybrid)
    → IsSynced space s
    → Freely s.table t
    → IsMark space mark t (s.number_of id) (during s.hint)
    → (s' : Hybrid) × (marked space mark during id t s ≡ some (s', done))
      × IsSynced space s'
      × (s'.table ≡ t)
marked-IsSynced mark during id t s h run (a, sound, valid, over) =
    let first = forget_number_first id s.number_of in
    (
      record { table = t; hint = a; number_of = (forget_number id s.number_of).1 },
      rw (first, sound, ◌>>=◌) refl,
      record {
        keyed = Schedule-IsTable h.keyed run;
        valid = valid;
        over = over;
        known = λ j n e.
            Schedule-HasNumber j n h.keyed run
              (h.known j n (forget_number-known id s.number_of j n e));
      },
      refl,
    )
