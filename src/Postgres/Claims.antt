-- ===== src/Postgres/Claims.antt =====
-- postgres/store.go: Claim, whose loop hybrid.go and sharded.go have too. A round asks the database
-- once, and what it then does, fails to do, and did in between is an argument for each round.
use Prim.Native.String.{String}
use lottery_search_system.Prelude.{
  ℕ, zero, suc, ◌+◌, ◌-◌, ◌*◌, Bool, true, false, List, [], ◌∷◌, ◌++◌, Option, none, some, length,
  ltb, leb, if◌then◌else◌, ◌>>=◌,
}
use lottery_search_system.TicketStore.{Reservation}
use lottery_search_system.Pattern.{Pattern}
use lottery_search_system.Store.{Outside}
use lottery_search_system.Candidates.{Candidates, candidates, next_batch}
use lottery_search_system.Postgres.{Table, Fate, answered, rejected, broken}
use lottery_search_system.Postgres.Statements.{Terms, ClaimSql, claim_sql, distinct_claim_sql}

abbrev pub default_batch_size : ℕ
default_batch_size = 256

abbrev pub default_max_batches : ℕ
default_max_batches = 16

abbrev pub over_fetch : ℕ
over_fetch = 4

-- Why a claim ends early: its context is done, the query failed, its rows could not be read, or the
-- code panicked. The statement of a query that failed has no effect. That of `unread` has.
pub data ClaimError : Type 0 where
  context_done refused unread panicked : ClaimError

-- What claimRows returns.
pub data Rows : Type 0 where
  rows : List Reservation → Rows
  error : ClaimError → Rows

-- The state of a claim, with the reservations collected, and the error that ended it.
pub record Collected (S : Type 0) : Type 0 where
  pub at : S
  pub out : List Reservation
  pub error : Option ClaimError

-- What a round does with its numbers: the round, the numbers, and how many tickets are wanted.
abbrev pub Ask : Type 0 → Type 0
Ask S = ℕ → List ℕ → ℕ → S → S × Rows

-- The loop of Claim, by the rounds that maxBatches leaves. `size` gives the batch that is asked for
-- when so many tickets are missing, `done` says whether the context is done at a round.
module _ {S : Type 0} (k : ℕ) (size : ℕ → ℕ) (done : ℕ → Bool) (ask : Ask S) where
  unfoldable pub claim_loop : ℕ → ℕ → Candidates → Collected S → Collected S
  claim_loop zero i c x = x
  claim_loop (suc rounds) i c x = elim (leb k (length x.out)) [
    | true ↦ x
    | false ↦ elim (done i) [
      | true ↦ record x { error = some context_done }
      | false ↦
          let missing = k - length x.out in
          let (nums, c') = next_batch c (size missing) in
          elim nums [
            | [] ↦ x
            | n ∷ ns ↦
                let (s, answer) = ask i (n ∷ ns) missing x.at in
                elim answer [
                  | error e ↦ record { at = s; out = x.out; error = some e }
                  | rows batch ↦
                      claim_loop rounds (suc i) c'
                        (record { at = s; out = x.out ++ batch; error = none })
                ]
          ]
    ]
  ]

abbrev pub min : ℕ → ℕ → ℕ
min a b = if ltb a b then a else b

-- How many numbers the first pass asks for, and how many the second.
abbrev pub spread_size : ℕ → ℕ
spread_size missing = min (missing * over_fetch) default_batch_size

abbrev pub whole_size : ℕ → ℕ
whole_size missing = default_batch_size

-- The loop over a fresh generator, whose draws and fuel, and whether the context is done at a round,
-- come from outside.
unfoldable pub run_pass :
    {S : Type 0} → Outside → (ℕ → ℕ) → Ask S → Pattern → ℕ → Collected S → Option (Collected S)
unfolding claim_loop
run_pass o size ask p k x = do
  c ← candidates o.fuel p o.draws
  some (claim_loop k size o.cancelled ask default_max_batches 0 c x)

-- The second pass, unless the first one failed or collected enough.
abbrev pub top_up :
    {S : Type 0} → ℕ → (Collected S → Option (Collected S)) → Collected S → Option (Collected S)
top_up k second x = elim x.error [
  | some e ↦ some x
  | none ↦ elim (ltb (length x.out) k) [ true ↦ second x | false ↦ some x ]
]

-- A round in the database: what other transactions do before the statement, the rows that it passes
-- over, its time, and how it ends.
pub record Turn : Type 0 where
  pub others : Table → Table
  pub skipped : ℕ → Bool
  pub now : ℕ
  pub fate : Fate

abbrev pub terms : String → ℕ → ℕ → Terms
terms holder lease now = record { holder = holder; now = now; until = now + lease }

-- claimRows
unfoldable pub claim_rows : ClaimSql → String → ℕ → Turn → List ℕ → ℕ → Table → Table × Rows
claim_rows sql holder lease turn nums want t =
    let t' = turn.others t in
    let (claimed, batch) = sql turn.skipped nums (terms holder lease turn.now) want t' in
    elim turn.fate [
      | answered ↦ (claimed, rows batch)
      | rejected ↦ (t', error refused)
      | broken ↦ (claimed, error unread)
    ]

abbrev pub none_yet : {S : Type 0} → S → Collected S
none_yet s = record { at = s; out = []; error = none }

-- Claim, for a lease that is not negative: a pass that takes one ticket of each number, and, if that was not enough, one that takes
-- any. A `k` below one is 0.
unfoldable pub claim_tickets :
    Outside
    → Outside
    → (ℕ → Turn)
    → (ℕ → Turn)
    → Pattern
    → ℕ
    → String
    → ℕ
    → Table
    → Option (Collected Table)
unfolding run_pass claim_rows
claim_tickets first second turns turns' p k holder lease t = elim k [
  | zero ↦ some (none_yet t)
  | suc k' ↦ (do
    x ←
        run_pass first spread_size (λ i. claim_rows distinct_claim_sql holder lease (turns i)) p
          (suc k') (none_yet t)
    top_up (suc k')
        (run_pass second whole_size (λ i. claim_rows claim_sql holder lease (turns' i)) p (suc k'))
        x)
]
