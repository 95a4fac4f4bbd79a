-- ===== src/Postgres/Loop.antt =====
-- The loop of Claim, whatever its rounds do.
use lottery_search_system.Prelude.{
  ℕ, zero, suc, ◌-◌, ◌<◌, ◌≡◌, refl, ap, sym, ◌∙◌, subst, Bool, true, false, List, [], ◌∷◌, ◌++◌,
  none, some, length, leb, All, All-take, All-drop, Option, Option-cases, ltb, arith, Bool-cases,
  inl, inr, ◌⊎◌, some_inj, none-ne-some,
}
use lottery_search_system.TicketStore.{Reservation}
use lottery_search_system.Candidates.{Candidates, next_batch}
use lottery_search_system.Pattern.{Pattern, parsed, parse_pattern}
use lottery_search_system.Pattern.Parsing.{parsed-IsParsed}
use lottery_search_system.Candidates.Complete.{Matching, remaining-All, candidates-total}
use lottery_search_system.Store.{Outside}
use lottery_search_system.Store.Claim.{IsEnough}
use lottery_search_system.Candidates.Batches.{remaining, next_batch-take}
use lottery_search_system.Postgres.Claims.{
  Collected, ClaimError, context_done, refused, unread, panicked, Ask, Rows, rows, error,
  claim_loop, run_pass, top_up, default_max_batches,
}

pub List-cases : {A : Type 0} (xs : List A) → (xs ≡ []) ⊎ ((y : A) × (ys : List A) × (xs ≡ y ∷ ys))
List-cases [] = inl refl
List-cases (y ∷ ys) = inr (y, ys, refl)

-- What holds after a round, where `P` is of the state and the reservations, and `Fine` of an error.
abbrev pub Kept :
    {S : Type 0}
    → (S → List Reservation → Type 0)
    → (ClaimError → Type 0)
    → List Reservation
    → S × Rows
    → Type 0
Kept P Fine out (s, rows batch) = P s (out ++ batch)
Kept P Fine out (s, error e) = P s out × Fine e

-- The code did not panic.
abbrev pub NoPanic : ClaimError → Type 0
NoPanic context_done = Unit
NoPanic refused = Unit
NoPanic unread = Unit
NoPanic panicked = ⊥

abbrev pub IsFine : (ClaimError → Type 0) → Option ClaimError → Type 0
IsFine Fine none = Unit
IsFine Fine (some e) = Fine e

module _ {S : Type 0} (k : ℕ) (size : ℕ → ℕ) (done : ℕ → Bool) (ask : Ask S)
    (P : S → List Reservation → Type 0) (Fine : ClaimError → Type 0) (Good : ℕ → Type 0)
    (done_fine : Fine context_done)
    (keeps : (i : ℕ) (nums : List ℕ) (s : S) (out : List Reservation)
      → All Good nums
      → length out < k
      → P s out
      → Kept P Fine out (ask i nums (k - length out) s)) where
  abbrev Holds : Collected S → Type 0
  Holds x = P x.at x.out × IsFine Fine x.error

  -- The end of a round, by what it answered.
  after_round :
      (s : S) (out : List Reservation) (answer : Rows) (next : List Reservation → Collected S)
      → Kept P Fine out (s, answer)
      → ((batch : List Reservation) → P s (out ++ batch) → Holds (next batch))
      → Holds (elim answer [
        | error e ↦ record { at = s; out = out; error = some e }
        | rows batch ↦ next batch
      ])
  after_round s out (rows batch) next h go = go batch h
  after_round s out (error e) next h go = h

  -- What every round keeps, the loop keeps.
  pub claim_loop-keeps :
      (rounds i : ℕ) (c : Candidates) (x : Collected S)
      → All Good (remaining c)
      → P x.at x.out
      → IsFine Fine x.error
      → Holds (claim_loop k size done ask rounds i c x)
  unfolding claim_loop
  claim_loop-keeps zero i c x good h f = (h, f)
  claim_loop-keeps (suc rounds) i c x good h f =
      let missing = k - length x.out in
      elim (Bool-cases (leb k (length x.out))) [
        | inl full ↦ rw (claim_loop, full) (h, f)
        | inr short ↦ elim (Bool-cases (done i)) [
          | inl over ↦ rw (claim_loop, short, over) (h, done_fine)
          | inr on ↦
              let (front, back, _) = next_batch-take c (size missing) in
              let fine : All Good (next_batch c (size missing)).0 =
                subst (All Good) (sym front) (All-take Good (size missing) (remaining c) good) in
              let left : All Good (remaining (next_batch c (size missing)).1) =
                subst (All Good) (sym back) (All-drop Good (size missing) (remaining c) good) in
              elim (List-cases (next_batch c (size missing)).0) [
                | inl none_left ↦ rw (claim_loop, short, on, none_left) (h, f)
                | inr (n, ns, some_left) ↦
                    rw (claim_loop, short, on, some_left)
                      (after_round (ask i (n ∷ ns) missing x.at).0 x.out
                        (ask i (n ∷ ns) missing x.at).1
                        (λ batch.
                          claim_loop k size done ask rounds (suc i) (next_batch c (size missing)).1
                            (record {
                              at = (ask i (n ∷ ns) missing x.at).0;
                              out = x.out ++ batch;
                              error = none;
                            }))
                        (keeps i (n ∷ ns) x.at x.out (subst (All Good) some_left fine)
                          (ground arith) h)
                        (λ batch kept.
                          claim_loop-keeps rounds (suc i) (next_batch c (size missing)).1 _ left
                            kept tt))
              ]
        ]
      ]

-- A pass over an accepted pattern, with a usable draw.
pub run_pass-keeps :
    {S : Type 0} (k : ℕ) (size : ℕ → ℕ) (ask : Ask S) (P : S → List Reservation → Type 0)
    (Fine : ClaimError → Type 0) (text : List ℕ) (p : Pattern) (o : Outside) (x : Collected S)
    → ((i : ℕ) (nums : List ℕ) (s : S) (out : List Reservation)
        → All (Matching p) nums
        → length out < k
        → P s out
        → Kept P Fine out (ask i nums (k - length out) s))
    → Fine context_done
    → parse_pattern text ≡ parsed p
    → IsEnough p o
    → P x.at x.out
    → IsFine Fine x.error
    → (y : Collected S) × (run_pass o size ask p k x ≡ some y) × P y.at y.out × IsFine Fine y.error
unfolding run_pass
run_pass-keeps k size ask P Fine text p o x keeps done_fine ok e h f =
    let (c, made, _) = candidates-total p e.draw o.fuel o.draws e.in_fuel e.coprime in
    let kept =
      claim_loop-keeps k size o.cancelled ask P Fine (Matching p) done_fine keeps
        default_max_batches 0 c x (remaining-All (parsed-IsParsed text p ok) o.fuel o.draws c made)
        h f in
    (claim_loop k size o.cancelled ask default_max_batches 0 c x, rw made refl, kept.0, kept.1)

-- The second pass keeps what every pass keeps.
pub top_up-keeps :
    {S : Type 0} (P : S → List Reservation → Type 0) (Fine : ClaimError → Type 0) (k : ℕ)
    (second : Collected S → Option (Collected S))
    → ((x : Collected S)
        → P x.at x.out
        → IsFine Fine x.error
        → (y : Collected S) × (second x ≡ some y) × P y.at y.out × IsFine Fine y.error)
    → (x : Collected S) → P x.at x.out
    → IsFine Fine x.error
    → (y : Collected S) × (top_up k second x ≡ some y) × P y.at y.out × IsFine Fine y.error
top_up-keeps {S = S} P Fine k second go x h f = elim (Option-cases x.error) [
  | inr (e, failed) ↦ (x, ap (λ o. stop_or o) failed, h, f)
  | inl fine ↦ elim (Bool-cases (ltb (length x.out) k)) [
    | inl short ↦
        let (y, run, h', f') = go x h f in
        (y, ap (λ o. stop_or o) fine ∙ ap (λ b. more b) short ∙ run, h', f')
    | inr full ↦ (x, ap (λ o. stop_or o) fine ∙ ap (λ b. more b) full, h, f)
  ]
]
  where
    more : Bool → Option (Collected S)
    more b = elim b [ true ↦ second x | false ↦ some x ]

    stop_or : Option ClaimError → Option (Collected S)
    stop_or o = elim o [ some e ↦ some x | none ↦ more (ltb (length x.out) k) ]

-- An answer without an error that is short comes from the second pass.
pub top_up_short :
    {S : Type 0} (k : ℕ) (second : Collected S → Option (Collected S)) (x y : Collected S)
    → top_up k second x ≡ some y
    → y.error ≡ none
    → length y.out < k
    → second x ≡ some y
top_up_short {S = S} k second x y run fine short = by_error x.error refl run
  where
    more : Bool → Option (Collected S)
    more b = elim b [ true ↦ second x | false ↦ some x ]

    by_length : (b : Bool) → ltb (length x.out) k ≡ b → more b ≡ some y → second x ≡ some y
    by_length true e h = h
    by_length false e h =
        let same : length x.out ≡ length y.out = ap (λ z. length z.out) (some_inj h) in
        absurd (ground arith)

    by_error :
        (o : Option ClaimError)
        → x.error ≡ o
        → elim o [ some e ↦ some x | none ↦ more (ltb (length x.out) k) ] ≡ some y
        → second x ≡ some y
    by_error none e h = by_length (ltb (length x.out) k) refl h
    by_error (some failed) e h =
        absurd (none-ne-some (sym fine ∙ ap (λ z. z.error) (sym (some_inj h)) ∙ e))
