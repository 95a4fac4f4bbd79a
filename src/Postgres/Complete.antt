-- ===== src/Postgres/Complete.antt =====
-- When Claim has looked at everything.
use Prim.Native.String.{String}
use mathlib.Core.List.{append-nil, append_assoc, Mem, mem-cons, not-mem-nil}
use mathlib.Core.Logic.Or
use mathlib.Core.Bool.{Bool-set}
use lottery_search_system.Prelude.{
  ℕ, zero, suc, ◌-◌, ◌*◌, ◌≤◌, ◌<◌, ◌≡◌, ◌⊎◌, refl, ap, sym, ◌∙◌, subst, Bool, true, false, List,
  [], ◌∷◌, ◌++◌, Option, none, some, length, length-append, length-drop, leb, take,
  take-append-drop, All, All-imp, All-append, arith, Bool-cases, inl, inr, some_inj, >>=-eq-some,
}
use lottery_search_system.Pattern.{Pattern, parsed, parse_pattern, match_count, matches}
use lottery_search_system.Pattern.Parsing.{parsed-IsParsed}
use lottery_search_system.Candidates.{Candidates, candidates, next_batch}
use lottery_search_system.Candidates.Batches.{remaining, next_batch-take}
use lottery_search_system.Candidates.Complete.{mem-remaining, length-remaining}
use lottery_search_system.Store.{Outside}
use lottery_search_system.Postgres.{TicketRow, Table, find_row, answered}
use lottery_search_system.Postgres.Statements.{
  contains, claim_sql, distinct_claim_sql, claimable_row,
}
use lottery_search_system.Postgres.Claims.{
  Turn, Rows, Collected, terms, claim_rows, claim_loop, run_pass, top_up, whole_size, spread_size,
  none_yet, claim_tickets, default_batch_size, default_max_batches,
}
use lottery_search_system.Postgres.Loop.{List-cases, top_up_short}
use lottery_search_system.Postgres.Whole.{
  IsGone, scoped_claim, scoped_claim-IsGone, take_rows-GoneWhere,
}

-- A round in which nothing else happens.
abbrev pub undisturbed : ℕ → Turn
undisturbed now = record { others = λ t. t; skipped = λ id. false; now = now; fate = answered }

listed_all :
    (P : ℕ → Type 0) (nums : List ℕ) → ((n : ℕ) → contains nums n ≡ true → P n) → All P nums
unfolding contains
listed_all P [] f = tt
listed_all P (n ∷ ns) f = (f n (ground arith), listed_all P ns (λ m h. f m (ground arith)))

nothing_taken : (xs : List ℕ) → take default_batch_size xs ≡ [] → xs ≡ []
nothing_taken [] e = refl
nothing_taken (x ∷ xs) e = cc

module _ (k : ℕ) (holder : String) (lease now : ℕ) (done : ℕ → Bool)
    (going : (i : ℕ) → done i ≡ false) (scope : ℕ → Bool) (all : List ℕ) where
  ask : ℕ → List ℕ → ℕ → Table → Table × Rows
  ask i = claim_rows (scoped_claim scope) holder lease (undisturbed now)

  -- The claim is full, or nothing can be claimed any more of any number.
  Ends : Collected Table → Type 0
  Ends x = (k ≤ length x.out) ⊎ All (IsGone scope now x.at) all

  full_stays :
      (rounds i : ℕ) (c : Candidates) (x : Collected Table)
      → k ≤ length x.out
      → claim_loop k whole_size done ask rounds i c x ≡ x
  unfolding claim_loop
  full_stays zero i c x full = refl
  full_stays (suc rounds) i c x full =
      let enough : leb k (length x.out) ≡ true = ground arith in rw (claim_loop, enough) refl

  -- The state after a round over these numbers.
  after : List ℕ → Collected Table → Collected Table
  after nums x =
      let claimed =
        scoped_claim scope (λ id. false) nums (terms holder lease now) (k - length x.out) x.at in
      record { at = claimed.0; out = x.out ++ claimed.1; error = none }

  loop_step :
      (rounds i : ℕ) (c : Candidates) (x : Collected Table) (n : ℕ) (ns : List ℕ)
      → leb k (length x.out) ≡ false
      → (next_batch c default_batch_size).0 ≡ n ∷ ns
      → claim_loop k whole_size done ask (suc rounds) i c x
        ≡ claim_loop k whole_size done ask rounds
            (suc i)
            (next_batch c default_batch_size).1
            (after (n ∷ ns) x)
  unfolding claim_loop ask claim_rows after
  loop_step rounds i c x n ns short batch = rw (claim_loop, short, going i, batch) refl

  loop_over :
      (rounds i : ℕ) (c : Candidates) (x : Collected Table)
      → leb k (length x.out) ≡ false
      → (next_batch c default_batch_size).0 ≡ []
      → claim_loop k whole_size done ask (suc rounds) i c x ≡ x
  unfolding claim_loop
  loop_over rounds i c x short batch = rw (claim_loop, short, going i, batch) refl

  after-IsGone :
      (nums : List ℕ) (x : Collected Table) (before : List ℕ)
      → length (after nums x).out < k
      → All (IsGone scope now x.at) before
      → All (IsGone scope now (after nums x).at) (before ++ nums)
  unfolding after
  after-IsGone nums x before short gone =
      let q = terms holder lease now in
      let want = k - length x.out in
      let batch = (scoped_claim scope (λ id. false) nums q want x.at).1 in
      All-append _ before nums
        (All-imp (λ n g. take_rows-GoneWhere _ q x.at _ (omega arith) g) before gone)
        (listed_all _ nums (λ n listed.
          scoped_claim-IsGone scope nums q want x.at n (omega arith)
            (omega (arith, length-append x.out batch)) listed))

  nothing_left :
      (x : Collected Table) (before rest : List ℕ)
      → All (IsGone scope now x.at) before
      → before ++ rest ≡ all
      → rest ≡ []
      → Ends x
  unfolding Ends
  nothing_left x before rest gone cover empty = inr (
      subst (All (IsGone scope now x.at))
        (sym (append-nil before) ∙ ap (λ r. before ++ r) (sym empty) ∙ cover) gone)

  claim_loop-Ends :
      (rounds i : ℕ) (c : Candidates) (x : Collected Table) (before : List ℕ)
      → All (IsGone scope now x.at) before
      → before ++ remaining c ≡ all
      → length (remaining c) ≤ default_batch_size * rounds
      → Ends (claim_loop k whole_size done ask rounds i c x)
  unfolding claim_loop Ends
  claim_loop-Ends zero i c x before gone cover few = elim (List-cases (remaining c)) [
    | inl empty ↦ nothing_left x before (remaining c) gone cover empty
    | inr (n, ns, more) ↦ absurd (omega (arith, ap length more))
  ]
  claim_loop-Ends (suc rounds) i c x before gone cover few =
      let (front, back, _) = next_batch-take c default_batch_size in
      let c' = (next_batch c default_batch_size).1 in
      elim (Bool-cases (leb k (length x.out))) [
        | inl full ↦
            let enough : k ≤ length x.out = ground arith in
            subst Ends (sym (full_stays (suc rounds) i c x enough)) (inl enough)
        | inr short ↦ elim (List-cases (next_batch c default_batch_size).0) [
          | inl empty ↦ subst Ends (sym (loop_over rounds i c x short empty)) (
              nothing_left x before (remaining c) gone cover
                (nothing_taken (remaining c) (sym front ∙ empty)))
          | inr (n, ns, some_left) ↦
              let x' = after (n ∷ ns) x in
              subst Ends (sym (loop_step rounds i c x n ns short some_left))
                (elim (Bool-cases (leb k (length x'.out))) [
                  | inl full ↦
                      let enough : k ≤ length x'.out = ground arith in
                      subst Ends (sym (full_stays rounds (suc i) c' x' enough)) (inl enough)
                  | inr short' ↦
                      claim_loop-Ends rounds (suc i) c' x' (before ++ (n ∷ ns))
                        (after-IsGone (n ∷ ns) x before (ground arith) gone)
                        (append_assoc before (n ∷ ns) (remaining c')
                          ∙ ap (λ l. before ++ l)
                              (ap (λ l. l ++ remaining c') (sym some_left ∙ front)
                                ∙ ap (λ l. take default_batch_size (remaining c) ++ l) back
                                ∙ take-append-drop default_batch_size (remaining c))
                          ∙ cover)
                        (omega
                          (arith, ap length back, length-drop default_batch_size (remaining c)))
                ])
        ]
      ]

All-Mem :
    (P : ℕ → Type 0) (b c : Bool) (x : ℕ) (xs : List ℕ)
    → (P x → b ≡ c)
    → All P xs
    → Mem x xs
    → b ≡ c
All-Mem P b c x [] f h m = absurd (not-mem-nil m)
All-Mem P b c x (y ∷ ys) f h m =
    Or.elim (Bool-set b c) (mem-cons.0 m) (λ e. f (subst P (sym e) h.0))
      (λ later. All-Mem P b c x ys f h.1 later)

-- A pass with the statement in a scope, that is undisturbed and comes out short.
pub run_pass-Gone :
    (scope : ℕ → Bool) (text : List ℕ) (p : Pattern) (o : Outside) (k : ℕ) (holder : String)
    (lease now : ℕ) (x y : Collected Table) (j : ℕ) (r : TicketRow)
    → parse_pattern text ≡ parsed p
    → ((i : ℕ) → o.cancelled i ≡ false)
    → match_count p ≤ default_batch_size * default_max_batches
    → run_pass o whole_size
        (λ i. claim_rows (scoped_claim scope) holder lease (undisturbed now))
        p
        k
        x
      ≡ some y
    → length y.out < k
    → find_row j y.at ≡ some r
    → scope r.id ≡ true
    → matches p r.num ≡ true
    → claimable_row now r ≡ false
unfolding run_pass Ends ask
run_pass-Gone scope text p o k holder lease now x y j r ok going few run short found within fits =
    let (c, made, built) = >>=-eq-some (candidates o.fuel p o.draws) _ run in
    let h = parsed-IsParsed text p ok in
    let ended =
      claim_loop-Ends k holder lease now o.cancelled going scope (remaining c) default_max_batches 0
        c x [] tt refl (omega (arith, length-remaining h o.fuel o.draws c made)) in
    elim (subst (Ends k holder lease now o.cancelled going scope (remaining c)) (some_inj built)
      ended) [
        | inl full ↦ absurd (omega arith)
        | inr gone ↦
            All-Mem (IsGone scope now y.at) (claimable_row now r) false r.num (remaining c)
              (λ g. g j r found (within, refl)) gone
              ((mem-remaining h o.fuel o.draws c made r.num).1 fits)
      ]

-- For an accepted pattern of at most 4096 matches, sixteen batches of 256: if nothing else happens in
-- the rounds of the second pass, whose context is never done, and Claim returns no error and fewer
-- than `k` reservations, no matching row is left that could be claimed at the time. The first pass
-- may have been disturbed in any way.
pub claim_tickets_complete :
    (text : List ℕ) (p : Pattern) (first second : Outside) (turns : ℕ → Turn) (k : ℕ)
    (holder : String) (lease now : ℕ) (t : Table) (x : Collected Table) (j : ℕ) (r : TicketRow)
    → parse_pattern text ≡ parsed p
    → ((i : ℕ) → second.cancelled i ≡ false)
    → match_count p ≤ default_batch_size * default_max_batches
    → claim_tickets first second turns (λ i. undisturbed now) p k holder lease t ≡ some x
    → x.error ≡ none
    → length x.out < k
    → find_row j x.at ≡ some r
    → matches p r.num ≡ true
    → claimable_row now r ≡ false
unfolding claim_tickets claim_sql
claim_tickets_complete text p first second turns zero holder lease now t x j r ok going few run fine
      short found fits =
    absurd (omega arith)
claim_tickets_complete text p first second turns (suc k) holder lease now t x j r ok going few run
      fine short found fits =
    let again : Collected Table → Option (Collected Table) =
      run_pass second whole_size (λ i. claim_rows claim_sql holder lease (undisturbed now)) p
        (suc k) in
    let (y, _, rest) =
      >>=-eq-some
        (run_pass first spread_size (λ i. claim_rows distinct_claim_sql holder lease (turns i)) p
          (suc k) (none_yet t))
        (top_up (suc k) again) run in
    run_pass-Gone (λ id. true) text p second (suc k) holder lease now y x j r ok going few
      (top_up_short (suc k) again y x rest fine short) short found refl fits
