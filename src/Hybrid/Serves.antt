-- ===== src/Hybrid/Serves.antt =====
-- What Claim promises behind any hint, whatever it counts.
use mathlib.Core.List.{append-nil}
use Prim.Native.String.{String}
use lottery_search_system.Prelude.{
  ℕ, zero, suc, ◌-◌, ◌<◌, ◌≡◌, refl, List, [], ◌∷◌, some, All, length, leb, subst, sym, Bool-cases,
  inl, inr, arith, ◌>>=◌,
}
use lottery_search_system.Prelude.Int.{pos}
use lottery_search_system.TicketStore.{Reservation}
use lottery_search_system.Pattern.{Pattern, parsed, parse_pattern}
use lottery_search_system.Candidates.Complete.{Matching}
use lottery_search_system.Store.{Outside}
use lottery_search_system.Store.Claim.{IsEnough}
use lottery_search_system.Availability.{Availability, mark_available}
use lottery_search_system.Availability.Valid.{IsHint, mark_available-count}
use lottery_search_system.Postgres.{Table}
use lottery_search_system.Postgres.Rows.{IsTable}
use lottery_search_system.Postgres.Statements.{ClaimSql, claim_sql, distinct_claim_sql}
use lottery_search_system.Postgres.Claims.{
  Collected, Rows, rows, error, claim_rows, run_pass, spread_size, whole_size, none_yet,
}
use lottery_search_system.Postgres.Loop.{Kept, NoPanic, IsFine, run_pass-keeps, top_up-keeps}
use lottery_search_system.Postgres.Promise.{Serves}
use lottery_search_system.Postgres.Serves.{
  IsTimely, IsClaim, claim_rows-Serves, claim_sql-IsClaim, distinct_claim_sql-IsClaim, begun,
}
use lottery_search_system.Hybrid.{
  Hybrid, HybridTurn, asked, mark_claimed, remember, reconcile_after_claim, reconciled, ask_hybrid,
  claim_hybrid,
}
use lottery_search_system.Hybrid.Filter.{filter_by_hint-All}

mark_available_any :
    {space : ℕ} {a : Availability} (n : ℕ)
    → IsHint space a
    → (a' : Availability) × (mark_available space a (pos n) ≡ some a') × IsHint space a'
unfolding mark_available
mark_available_any {space = space} {a = a} n v = elim (Bool-cases (leb space n)) [
  | inl beyond ↦ (a, rw (mark_available, beyond) refl, v)
  | inr within ↦
      let (a', run, valid, _) = mark_available-count v n (ground arith) in (a', run, valid)
]

mark_claimed-IsHint :
    {space : ℕ} (batch : List Reservation) (a : Availability)
    → IsHint space a
    → (a' : Availability) × (mark_claimed space batch a ≡ some a') × IsHint space a'
unfolding mark_claimed
mark_claimed-IsHint [] a v = (a, refl, v)
mark_claimed-IsHint (r ∷ rs) a v =
    let (a', run, valid) = mark_available_any r.number v in
    let (a'', rest, valid') = mark_claimed-IsHint rs a' valid in
    (a'', rw (mark_claimed, run, ◌>>=◌, rest) refl, valid')

pub reconciled_lem :
    (space : ℕ) (s : Hybrid) (batch : List Reservation) (a : Availability)
    → mark_claimed space batch s.hint ≡ some a
    → reconciled space s (rows batch)
      ≡ (record s { hint = a; number_of = remember batch s.number_of }, rows batch)
unfolding reconcile_after_claim
reconciled_lem space s batch a run = rw (reconciled, run) refl

-- What is asked of a round: of the database, what claim_tickets-Serves asks, and of the hint, that other
-- goroutines leave it valid.
pub record IsCalm (space : ℕ) (holder : String) (lease latest : ℕ) (turn : HybridTurn)
    : Type 0 where
  pub timely : IsTimely holder lease latest turn.db
  pub before : (a : Availability) → IsHint space a → IsHint space (turn.before a)
  pub during : (a : Availability) → IsHint space a → IsHint space (turn.during a)

-- The promise of the Postgres store, and a valid hint.
pub record HybridServes (space : ℕ) (p : Pattern) (k : ℕ) (holder : String) (latest : ℕ) (t : Table)
    (s : Hybrid) (out : List Reservation) : Type 0 where
  pub serves : Serves p k holder latest t s.table out
  pub hint : IsHint space s.hint

module _ (space : ℕ) (p : Pattern) (k : ℕ) (holder : String) (lease latest : ℕ) (t : Table) where
  abbrev Promise : Hybrid → List Reservation → Type 0
  Promise = HybridServes space p k holder latest t

  reconciled-Promise :
      (s : Hybrid) (out : List Reservation) (answer : Rows)
      → IsHint space s.hint
      → Kept (Serves p k holder latest t) NoPanic out (s.table, answer)
      → Kept Promise NoPanic out (reconciled space s answer)
  reconciled-Promise s out (error e) v h = (record { serves = h.0; hint = v }, h.1)
  reconciled-Promise s out (rows batch) v h =
      let (a, run, valid) = mark_claimed-IsHint batch s.hint v in
      subst (Kept Promise NoPanic out) (sym (reconciled_lem space s batch a run))
        (record { serves = h; hint = valid })

  asked-Promise :
      (sql : ClaimSql) (turn : HybridTurn) (nums : List ℕ) (s : Hybrid) (out : List Reservation)
      → IsClaim p k holder lease latest t sql
      → IsCalm space holder lease latest turn
      → All (Matching p) nums
      → length out < k
      → Promise s out
      → Kept Promise NoPanic out (asked space sql holder lease turn (k - length out) s (some nums))
  asked-Promise sql turn [] s out is_claim calm good room h =
      subst (Promise s) (sym (append-nil out)) h
  asked-Promise sql turn (n ∷ ns) s out is_claim calm good room h =
      let asked_rows = claim_rows sql holder lease turn.db (n ∷ ns) (k - length out) s.table in
      reconciled-Promise
        (record {
          table = asked_rows.0;
          hint = turn.during s.hint;
          number_of = turn.names s.number_of;
        })
        out asked_rows.1 (calm.during s.hint h.hint)
        (claim_rows-Serves p k holder lease latest t sql turn.db (n ∷ ns) s.table out is_claim
          calm.timely good room h.serves)

  ask_hybrid-Promise :
      (sql : ClaimSql) (turn : HybridTurn) (raw : List ℕ) (s : Hybrid) (out : List Reservation)
      → IsClaim p k holder lease latest t sql
      → IsCalm space holder lease latest turn
      → All (Matching p) raw
      → length out < k
      → Promise s out
      → Kept Promise NoPanic out (ask_hybrid space sql holder lease turn raw (k - length out) s)
  unfolding ask_hybrid
  ask_hybrid-Promise sql turn raw s out is_claim calm good room h =
      let s' : Hybrid = record s { hint = turn.before s.hint } in
      let valid = calm.before s.hint h.hint in
      let (nums, run, good') = filter_by_hint-All (Matching p) raw valid good in
      subst
        (λ o. Kept Promise NoPanic out (asked space sql holder lease turn (k - length out) s' o))
        (sym run)
        (asked-Promise sql turn nums s' out is_claim calm good' room
          (record { serves = h.serves; hint = valid }))

  run_pass-Promise :
      (text : List ℕ) (o : Outside) (size : ℕ → ℕ) (sql : ClaimSql) (turns : ℕ → HybridTurn)
      (x : Collected Hybrid)
      → parse_pattern text ≡ parsed p
      → IsEnough p o
      → IsClaim p k holder lease latest t sql
      → ((i : ℕ) → IsCalm space holder lease latest (turns i))
      → Promise x.at x.out
      → IsFine NoPanic x.error
      → (y : Collected Hybrid) × (run_pass o size
            (λ i. ask_hybrid space sql holder lease (turns i))
            p
            k
            x
          ≡ some y)
        × Promise y.at y.out
        × IsFine NoPanic y.error
  run_pass-Promise text o size sql turns x ok e is_claim calm h f =
      run_pass-keeps k size (λ i. ask_hybrid space sql holder lease (turns i)) Promise NoPanic text
        p o x
        (λ i raw s out good room h.
          ask_hybrid-Promise sql (turns i) raw s out is_claim (calm i) good room h)
        tt ok e h f

-- Behind a valid hint, whatever it counts, and under what claim_tickets-Serves asks of the database in
-- each round: if the other goroutines leave the hint valid, Claim returns and does not panic, the
-- hint stays valid, and Claim promises what the Postgres store does. It has run statements alone,
-- kept the ids as keys, and collected at most `k` reservations, of different tickets whose numbers
-- match. The row of each is held by the holder until the time that the reservation tells.
pub claim_hybrid-HybridServes :
    (space : ℕ) (p : Pattern) (k : ℕ) (holder : String) (lease latest : ℕ) (s : Hybrid)
    (text : List ℕ) (first second : Outside) (turns turns' : ℕ → HybridTurn)
    → parse_pattern text ≡ parsed p
    → IsEnough p first
    → IsEnough p second
    → IsTable s.table
    → IsHint space s.hint
    → ((i : ℕ) → IsCalm space holder lease latest (turns i))
    → ((i : ℕ) → IsCalm space holder lease latest (turns' i))
    → (x : Collected Hybrid) × (claim_hybrid space first second turns turns' p k holder lease s
        ≡ some x)
      × HybridServes space p k holder latest s.table x.at x.out
      × IsFine NoPanic x.error
unfolding claim_hybrid
claim_hybrid-HybridServes space p zero holder lease latest s text first second turns turns' ok e e'
      keyed v calm calm' =
    (
      none_yet s,
      refl,
      record { serves = begun p zero holder lease latest s.table keyed; hint = v },
      tt,
    )
claim_hybrid-HybridServes space p (suc k) holder lease latest s text first second turns turns' ok e
      e' keyed v calm calm' =
    let t = s.table in
    let (x, run, h, f) =
      run_pass-Promise space p (suc k) holder lease latest t text first spread_size
        distinct_claim_sql turns (none_yet s) ok e
        (distinct_claim_sql-IsClaim p (suc k) holder lease latest t) calm
        (record { serves = begun p (suc k) holder lease latest t keyed; hint = v }) tt in
    let (y, run', h', f') =
      top_up-keeps (HybridServes space p (suc k) holder latest t) NoPanic (suc k) _
        (λ x h f.
          run_pass-Promise space p (suc k) holder lease latest t text second whole_size claim_sql
            turns' x ok e' (claim_sql-IsClaim p (suc k) holder lease latest t) calm' h f)
        x h f in
    (y, rw run run', h', f')
