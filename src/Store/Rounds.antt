-- ===== src/Store/Rounds.antt =====
-- The outer loop of claimPass, over the batches of numbers.
use lottery_search_system.Prelude.{
  ℕ, zero, suc, ◌≤◌, ◌<◌, ◌≡◌, refl, ap, ◌∙◌, Bool, true, false, List, [], ◌∷◌, length, length-drop,
  take, drop, take-append-drop, leb, ◌||◌, ◌⊎◌, All, All-imp, All-append, All-take, All-drop, arith,
  Bool-cases, inl, inr, subst,
}
use lottery_search_system.Candidates.{Candidates, next_batch}
use lottery_search_system.Candidates.Batches.{remaining, next_batch-take}
use lottery_search_system.Index.{Ticket}
use lottery_search_system.Index.Counts.{ids_of}
use lottery_search_system.Store.{Request, Progress, claim_rounds, batch_size}
use lottery_search_system.Store.Reserve.{Steps, here, Steps-trans, Going, Steps-Going}
use lottery_search_system.Store.Spread.{Adds, Adds-self, Adds-trans}
use lottery_search_system.Store.Pass.{Settled, Ran, kept_stay, both, claim_batch-Ran}

stopped :
    (k out : ℕ) (cancelled : ℕ → Bool) {A : Type 0}
    → out ≤ k
    → leb k out || cancelled 0 ≡ true
    → (out ≡ k) ⊎ (((i : ℕ) → cancelled i ≡ false) → A)
stopped k out cancelled room e = elim (Bool-cases (leb k out)) [
  | inl full ↦ inl (ground arith)
  | inr other ↦ inr λ never. absurd (ground (arith, never 0))
]

module _ {size : ℕ} {Good : ℕ → Type 0} {q : Request} (ahead : q.now ≤ q.until) where
  Settled-All :
      (ts : List Ticket) {x y : Progress} (n : ℕ) (ns : List ℕ)
      → Steps size Good q x y
      → All (Settled ts q x) (n ∷ take 63 ns)
      → All (Settled ts q y) (drop 63 ns)
      → All (Settled ts q y) (n ∷ ns)
  Settled-All ts {y = y} n ns steps now later = (
    kept_stay ahead (ids_of n ts) steps now.0,
    subst (All (Settled ts q y)) (take-append-drop 63 ns) (
        All-append (Settled ts q y) (take 63 ns) (drop 63 ns)
          (All-imp (λ m. kept_stay ahead (ids_of m ts) steps) (take 63 ns) now.1) later),
  )

module _ {space : ℕ} {ts : List Ticket} {Good : ℕ → Type 0} {q : Request} (ahead : q.now ≤ q.until)
    (fits : (n : ℕ) → Good n → n < space) where
  -- With more fuel than numbers remain, the loop ends.
  pub claim_rounds-Ran :
      (fuel : ℕ) (cancelled : ℕ → Bool) (per : ℕ) (c : Candidates) (l : List ℕ) (x : Progress)
      → remaining c ≡ l
      → Going space ts q x
      → All Good l
      → length l < fuel
      → Ran space ts Good q
          (claim_rounds fuel cancelled q per c x)
          x
          (λ y. per ≡ 1 → Adds x l y)
          λ y. ((i : ℕ) → cancelled i ≡ false) → per ≡ 0 → All (Settled ts q y) l
  unfolding claim_rounds
  claim_rounds-Ran zero cancelled per c l x e g good h = absurd (omega arith)
  claim_rounds-Ran (suc fuel) cancelled per c [] x e g good h =
      elim (Bool-cases (leb q.k (length x.out) || cancelled 0)) [
        | inl stop ↦
            (x, rw (claim_rounds, stop) refl, here, (λ e. Adds-self x []), inr λ never e. tt)
        | inr on ↦
            let empty : (next_batch c batch_size).0 ≡ [] =
              (next_batch-take c batch_size).0 ∙ ap (take batch_size) e in
            (x, rw (claim_rounds, on, empty) refl, here, (λ e. Adds-self x []), inr λ never e. tt)
      ]
  claim_rounds-Ran (suc fuel) cancelled per c (n ∷ ns) x e g good h =
      elim (Bool-cases (leb q.k (length x.out) || cancelled 0)) [
        | inl stop ↦ (
          x,
          rw (claim_rounds, stop) refl,
          here,
          (λ e. Adds-self x (n ∷ ns)),
          stopped q.k (length x.out) cancelled g.room stop,
        )
        | inr on ↦
            let (front, back, _) = next_batch-take c batch_size in
            let batch : (next_batch c batch_size).0 ≡ n ∷ take 63 ns =
              front ∙ ap (take batch_size) e in
            let left : remaining (next_batch c batch_size).1 ≡ drop 63 ns =
              back ∙ ap (drop batch_size) e in
            let (x', run, steps, spread, rest) =
              claim_batch-Ran ahead fits per (n ∷ take 63 ns) x g
                (good.0, All-take Good 63 ns good.1) in
            let g' = Steps-Going steps g in
            let (y, run', steps', spread', rest') =
              claim_rounds-Ran fuel (λ i. cancelled (suc i)) per (next_batch c batch_size).1
                (drop 63 ns) x' left g' (All-drop Good 63 ns good.1)
                (omega (arith, length-drop 63 ns)) in
            (
              y,
              rw (claim_rounds, on, batch, run) run',
              Steps-trans steps steps',
              (λ e.
                  subst (λ l. Adds x (n ∷ l) y) (take-append-drop 63 ns)
                    (Adds-trans x x' y (n ∷ take 63 ns) (drop 63 ns) (spread e) (spread' e))),
              both g' steps'
                  (λ now later never e.
                    Settled-All ahead ts n ns steps' (now e) (later (λ i. never (suc i)) e))
                  rest rest',
            )
      ]
