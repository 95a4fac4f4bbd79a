-- ===== src/Hybrid/Claims.antt =====
-- Claim keeps the hint in step with the table.
use Prim.Native.String.{String}
use lottery_search_system.Prelude.{
  ℕ, zero, suc, ◌-◌, ◌≡◌, refl, sym, subst, List, [], ◌∷◌, some, All, length, arith,
}
use lottery_search_system.TicketStore.{Reservation}
use lottery_search_system.Pattern.{Pattern, parsed, parse_pattern}
use lottery_search_system.Store.{Outside}
use lottery_search_system.Store.Claim.{IsEnough}
use lottery_search_system.Postgres.{Table}
use lottery_search_system.Postgres.Rows.{IsTable}
use lottery_search_system.Postgres.Statements.{ClaimSql, claim_sql, distinct_claim_sql}
use lottery_search_system.Postgres.Claims.{
  Rows, rows, error, claim_rows, Collected, run_pass, spread_size, whole_size, none_yet,
}
use lottery_search_system.Postgres.Loop.{Kept, NoPanic, IsFine, run_pass-keeps, top_up-keeps}
use lottery_search_system.Postgres.Numbers.{HasNumber}
use lottery_search_system.Hybrid.{
  Hybrid, HybridTurn, Names, reconciled, asked, ask_hybrid, claim_hybrid,
}
use lottery_search_system.Hybrid.Filter.{filter_by_hint-All}
use lottery_search_system.Hybrid.Serves.{reconciled_lem}
use lottery_search_system.Hybrid.Sync.{Freely, IsSynced, Schedule-IsSynced, IsRaising}
use lottery_search_system.Hybrid.Asked.{
  mark_claimed-over, remember-known, IsFree, claim_sql-IsFree, distinct_claim_sql-IsFree, IsAsked,
  claim_rows-IsAsked,
}

-- What is asked of a round: the other transactions are statements, and the other goroutines raise the
-- hint at most, and forget numbers at most.
pub record IsQuiet (space : ℕ) (turn : HybridTurn) : Type 0 where
  pub fair : (t : Table) → IsTable t → Freely t (turn.db.others t)
  pub before : IsRaising space turn.before
  pub during : IsRaising space turn.during
  pub forgets : (names : Names) (id n : ℕ) → turn.names names id ≡ some n → names id ≡ some n

all_unit : (xs : List ℕ) → All (λ n. Unit {0}) xs
all_unit [] = tt
all_unit (x ∷ xs) = (tt, all_unit xs)

abbrev Synced : ℕ → Hybrid → List Reservation → Type 0
Synced space s out = IsSynced space s

module _ (space : ℕ) (turn : HybridTurn) (quiet : IsQuiet space turn) where
  -- The state at the end of the query.
  after_query : Hybrid → Table → Hybrid
  after_query s t = record {
    table = t;
    hint = turn.during s.hint;
    number_of = turn.names s.number_of;
  }

  after_query-IsSynced :
      (s : Hybrid) (t : Table)
      → IsSynced space s
      → Freely s.table t
      → IsSynced space (after_query s t)
  unfolding after_query
  after_query-IsSynced s t h run =
      let synced = Schedule-IsSynced h run in
      record {
        keyed = synced.keyed;
        valid = quiet.during.valid s.hint h.valid;
        over = λ n inside.
            omega (arith, synced.over n inside, quiet.during.higher s.hint n h.valid inside);
        known = λ id n e. synced.known id n (quiet.forgets s.number_of id n e);
      }

  reconciled-IsSynced :
      (s : Hybrid) (t : Table) (answer : Rows) (out : List Reservation)
      → IsSynced space s
      → IsAsked s.table (t, answer)
      → Kept (Synced space) NoPanic out (reconciled space (after_query s t) answer)
  unfolding after_query
  reconciled-IsSynced s t (error e) out h (run, fine) = (after_query-IsSynced s t h run, fine)
  reconciled-IsSynced s t (rows batch) out h (run, true_numbers) =
      let s' = after_query s t in
      let synced : IsSynced space s' = after_query-IsSynced s t h run in
      let (a, marks, valid, higher) = mark_claimed-over batch s'.hint synced.valid in
      subst (Kept (Synced space) NoPanic out) (sym (reconciled_lem space s' batch a marks))
        (record {
          keyed = synced.keyed;
          valid = valid;
          over = λ n inside. omega (arith, synced.over n inside, higher n);
          known = remember-known (HasNumber t) batch s'.number_of true_numbers synced.known;
        })

  asked-IsSynced :
      (sql : ClaimSql) (holder : String) (lease want : ℕ) (nums : List ℕ) (s : Hybrid)
      (out : List Reservation)
      → IsFree sql
      → IsSynced space s
      → Kept (Synced space) NoPanic out (asked space sql holder lease turn want s (some nums))
  unfolding after_query
  asked-IsSynced sql holder lease want [] s out free h = h
  asked-IsSynced sql holder lease want (n ∷ ns) s out free h =
      let result = claim_rows sql holder lease turn.db (n ∷ ns) want s.table in
      reconciled-IsSynced s result.0 result.1 out h
        (claim_rows-IsAsked sql holder lease turn.db (n ∷ ns) want s.table free quiet.fair h.keyed)

  ask_hybrid-IsSynced :
      (sql : ClaimSql) (holder : String) (lease want : ℕ) (raw : List ℕ) (s : Hybrid)
      (out : List Reservation)
      → IsFree sql
      → IsSynced space s
      → Kept (Synced space) NoPanic out (ask_hybrid space sql holder lease turn raw want s)
  unfolding ask_hybrid
  ask_hybrid-IsSynced sql holder lease want raw s out free h =
      let s' : Hybrid = record s { hint = turn.before s.hint } in
      let h' : IsSynced space s' = record {
        keyed = h.keyed;
        valid = quiet.before.valid s.hint h.valid;
        over =
            λ n inside. omega (arith, h.over n inside, quiet.before.higher s.hint n h.valid inside);
        known = h.known;
      } in
      let (nums, run, _) = filter_by_hint-All (λ n. Unit {0}) raw h'.valid (all_unit raw) in
      subst (λ o. Kept (Synced space) NoPanic out (asked space sql holder lease turn want s' o))
        (sym run) (asked-IsSynced sql holder lease want nums s' out free h')

run_pass-IsSynced :
    (space : ℕ) (text : List ℕ) (o : Outside) (size : ℕ → ℕ) (sql : ClaimSql)
    (turns : ℕ → HybridTurn) (p : Pattern) (k : ℕ) (holder : String) (lease : ℕ)
    (x : Collected Hybrid)
    → parse_pattern text ≡ parsed p
    → IsEnough p o
    → IsFree sql
    → ((i : ℕ) → IsQuiet space (turns i))
    → IsSynced space x.at
    → IsFine NoPanic x.error
    → (y : Collected Hybrid) × (run_pass o size
          (λ i. ask_hybrid space sql holder lease (turns i))
          p
          k
          x
        ≡ some y)
      × IsSynced space y.at
      × IsFine NoPanic y.error
run_pass-IsSynced space text o size sql turns p k holder lease x ok e free quiet h f =
    run_pass-keeps k size (λ i. ask_hybrid space sql holder lease (turns i)) (Synced space) NoPanic
      text p o x
      (λ i raw s out good room h.
        ask_hybrid-IsSynced space (turns i) (quiet i) sql holder lease (k - length out) raw s out
          free h)
      tt ok e h f

-- Claim of a store that is in step with its table, for an accepted pattern and usable draws: if in every
-- round the other transactions are statements, and other goroutines raise the hint and forget
-- numbers at most, it returns and does not panic, and the store is in step again, however the
-- statements end.
pub claim_hybrid-IsSynced :
    (space : ℕ) (text : List ℕ) (first second : Outside) (turns turns' : ℕ → HybridTurn)
    (p : Pattern) (k : ℕ) (holder : String) (lease : ℕ) (s : Hybrid)
    → parse_pattern text ≡ parsed p
    → IsEnough p first
    → IsEnough p second
    → ((i : ℕ) → IsQuiet space (turns i))
    → ((i : ℕ) → IsQuiet space (turns' i))
    → IsSynced space s
    → (x : Collected Hybrid) × (claim_hybrid space first second turns turns' p k holder lease s
        ≡ some x)
      × IsSynced space x.at
      × IsFine NoPanic x.error
unfolding claim_hybrid
claim_hybrid-IsSynced space text first second turns turns' p zero holder lease s ok e e' quiet
      quiet' h =
    (none_yet s, refl, h, tt)
claim_hybrid-IsSynced space text first second turns turns' p (suc k) holder lease s ok e e' quiet
      quiet' h =
    let (x, run, h', f) =
      run_pass-IsSynced space text first spread_size distinct_claim_sql turns p (suc k) holder lease
        (none_yet s) ok e distinct_claim_sql-IsFree quiet h tt in
    let (y, run', h'', f') =
      top_up-keeps (Synced space) NoPanic (suc k) _
        (λ x h f.
          run_pass-IsSynced space text second whole_size claim_sql turns' p (suc k) holder lease x
            ok e' claim_sql-IsFree quiet' h f)
        x h' f in
    (y, rw run run', h'', f')
