-- ===== src/Store/Pass.antt =====
-- The loops of claimPass: what they reserve, and what they leave.
use mathlib.Core.List.{append_assoc}
use lottery_search_system.Prelude.{
  ℕ, zero, suc, ◌∙◌, drop, ◌+◌, ◌≤◌, ◌<◌, ◌≡◌, refl, true, false, List, [], ◌∷◌, Option, some,
  length, length-append, ltb, ◌==◌, ◌||◌, ◌&&◌, ◌⊎◌, All, All-imp, arith, Bool-cases, inl, inr,
}
use lottery_search_system.Bitmap.Members.{member, test_bit-member}
use lottery_search_system.Index.{Ticket}
use lottery_search_system.Index.Counts.{ids_of}
use lottery_search_system.Index.Laws.{Groups-tickets_for}
use lottery_search_system.TicketStore.{Status, available, reserved, sold, is_sold}
use lottery_search_system.Store.{Request, Progress, claim_ids, claim_batch}
use lottery_search_system.Store.Spread.{Adds, Adds-self, Adds-trans, skip, pick}
use lottery_search_system.Store.Stock.{All-sold}
use lottery_search_system.Store.Reserve.{
  is_free, free_status, taken, reservation, claimable-is_free, reserve-with_reserved, Step,
  take as take_one, Steps, here, next, Steps-trans, Going, Steps-Going, Steps_stay,
}

-- No ticket of the number can be taken.
abbrev pub Settled : List Ticket → Request → Progress → ℕ → Type 0
Settled ts q y n = All (λ id. is_free y.at q.now id ≡ false) (ids_of n ts)

-- A run of one of the loops: reservations one by one, spread as `Spread` says, until there are enough
-- of them or, as `Rest` says, nothing is left.
abbrev pub Ran :
    ℕ
    → List Ticket
    → (ℕ → Type 0)
    → Request
    → Option Progress
    → Progress
    → (Progress → Type 0)
    → (Progress → Type 0)
    → Type 0
Ran space ts Good q run x Spread Rest =
    (y : Progress) × (run ≡ some y)
    × Steps (length ts) Good q x y
    × Spread y
    × ((length y.out ≡ q.k) ⊎ Rest y)

sold-not_free :
    (status : Status) (until now : ℕ) → is_sold status ≡ true → free_status status until now ≡ false
sold-not_free available until now h = cc
sold-not_free reserved until now h = cc
sold-not_free sold until now h = refl

module _ {size : ℕ} {Good : ℕ → Type 0} {q : Request} where
  pub Steps-length : {x y : Progress} → Steps size Good q x y → length x.out ≤ length y.out
  Steps-length here = omega arith
  Steps-length (next r (take_one x id n room inside number good free)) = omega (
    arith,
    Steps-length r,
    length-append x.out (record { ticket_id = id; number = n; lease_until = q.until } ∷ []),
  )

pub or_later : {A B C : Type 0} → (B → C) → A ⊎ B → A ⊎ C
or_later f (inl a) = inl a
or_later f (inr b) = inr (f b)

stopped :
    (out k per done : ℕ) {A : Type 0}
    → (out == k) || (ltb 0 per && done == per) ≡ true
    → (out ≡ k) ⊎ (per ≡ 0 → A)
stopped out k per done h = elim (Bool-cases (out == k)) [
  | inl full ↦ inl (ground arith)
  | inr other ↦ inr λ e. absurd (ground arith)
]

running :
    (out k per done : ℕ) → out ≤ k → (out == k) || (ltb 0 per && done == per) ≡ false → out < k
running out k per done h e = ground arith

unstopped :
    (out k per done : ℕ)
    → per ≡ 1
    → done ≤ 1
    → (out == k) || (ltb 0 per && done == per) ≡ false
    → done ≡ 0
unstopped out k per done e few h = ground arith

-- One ticket of a number, and none after it.
single_ticket :
    (q : Request) (x y : Progress) (id n done : ℕ)
    → done ≡ 0
    → (done + 1 ≤ 1 → Adds (taken q x id n) (drop (done + 1) (n ∷ [])) y)
    → Adds x (drop done (n ∷ [])) y
single_ticket q x y id n zero e h =
    let (more, added, p) = h (omega arith) in
    (
      reservation q id n ∷ more,
      added ∙ append_assoc x.out (reservation q id n ∷ []) more,
      pick n (reservation q id n) [] more refl p,
    )
single_ticket q x y id n (suc done) e h = absurd (omega arith)

module _ {size : ℕ} {Good : ℕ → Type 0} {q : Request} (ahead : q.now ≤ q.until) where
  pub kept_stay :
      {x y : Progress} (ids : List ℕ)
      → Steps size Good q x y
      → All (λ id. is_free x.at q.now id ≡ false) ids
      → All (λ id. is_free y.at q.now id ≡ false) ids
  kept_stay ids steps = All-imp (λ id. Steps_stay ahead id steps) ids

module _ {space : ℕ} {ts : List Ticket} {Good : ℕ → Type 0} {q : Request} where
  full_stays :
      {x y : Progress}
      → Going space ts q x
      → Steps (length ts) Good q x y
      → length x.out ≡ q.k
      → length y.out ≡ q.k
  full_stays g steps full = omega (arith, Steps-length steps, (Steps-Going steps g).room)

  pub both :
      {x y : Progress} {A B C : Type 0}
      → Going space ts q x
      → Steps (length ts) Good q x y
      → (A → B → C)
      → (length x.out ≡ q.k) ⊎ A
      → (length y.out ≡ q.k) ⊎ B
      → (length y.out ≡ q.k) ⊎ C
  both g steps f (inl full) later = inl (full_stays g steps full)
  both g steps f (inr a) later = or_later (f a) later

module _ {space : ℕ} {ts : List Ticket} {Good : ℕ → Type 0} {q : Request} (ahead : q.now ≤ q.until)
    (fits : (n : ℕ) → Good n → n < space) where
  -- The loop over the tickets of a number.
  claim_ids-Ran :
      (per n done : ℕ) (ids : List ℕ) (x : Progress)
      → Going space ts q x
      → Good n
      → All (λ id. (id < length ts) × (x.at.number_of.at id ≡ n)) ids
      → Ran space ts Good q
          (claim_ids q per n done ids x)
          x
          (λ y. per ≡ 1 → done ≤ 1 → Adds x (drop done (n ∷ [])) y)
          λ y. per ≡ 0 → All (λ id. is_free y.at q.now id ≡ false) ids
  unfolding claim_ids
  claim_ids-Ran per n done [] x g good h =
      (x, refl, here, (λ e few. Adds-self x (drop done (n ∷ []))), inr λ e. tt)
  claim_ids-Ran per n done (id ∷ ids) x g good h =
      elim (Bool-cases ((length x.out == q.k) || (ltb 0 per && done == per))) [
        | inl stop ↦ (
          x,
          rw (stop, claim_ids) refl,
          here,
          (λ e few. Adds-self x (drop done (n ∷ []))),
          stopped (length x.out) q.k per done stop,
        )
        | inr on ↦ elim (Bool-cases (is_free x.at q.now id)) [
          | inl free ↦
              let first : Step (length ts) Good q x (taken q x id n) =
                take_one x id n (running (length x.out) q.k per done g.room on) h.0.0 h.0.1 good
                  free in
              let (y, run, steps, spread, rest) =
                claim_ids-Ran per n (done + 1) ids (taken q x id n)
                  (Steps-Going (next here first) g) good h.1 in
              (
                y,
                rw
                    (
                      claim_ids,
                      on,
                      claimable-is_free g.valid id h.0.0 q.now,
                      free,
                      reserve-with_reserved g.valid id h.0.0 q,
                    )
                    run,
                Steps-trans (next here first) steps,
                (λ e few.
                    single_ticket q x y id n done (unstopped (length x.out) q.k per done e few on)
                      (spread e)),
                or_later (λ later e. (Steps_stay ahead id steps (ground arith), later e)) rest,
              )
          | inr kept ↦
              let (y, run, steps, spread, rest) = claim_ids-Ran per n done ids x g good h.1 in
              (
                y,
                rw (claim_ids, on, claimable-is_free g.valid id h.0.0 q.now, kept) run,
                steps,
                spread,
                or_later (λ later e. (Steps_stay ahead id steps kept, later e)) rest,
              )
        ]
      ]

  unlisted-Settled :
      (n : ℕ) (x : Progress)
      → Going space ts q x
      → n < space
      → member x.at.unsold_numbers n ≡ false
      → Settled ts q x n
  unlisted-Settled n x g h e =
      All-imp (λ id. sold-not_free (x.at.status.at id) (x.at.lease_until.at id) q.now) (ids_of n ts)
        (All-sold x.at.status.at (ids_of n ts)
          (ground (arith, g.valid.counts n h, g.valid.listed n h)))

  -- The loop over the numbers of a batch.
  pub claim_batch-Ran :
      (per : ℕ) (ns : List ℕ) (x : Progress)
      → Going space ts q x
      → All Good ns
      → Ran space ts Good q
          (claim_batch q per ns x)
          x
          (λ y. per ≡ 1 → Adds x ns y)
          λ y. per ≡ 0 → All (Settled ts q y) ns
  unfolding claim_batch
  claim_batch-Ran per [] x g good = (x, refl, here, (λ e. Adds-self x []), inr λ e. tt)
  claim_batch-Ran per (n ∷ ns) x g good = elim (Bool-cases (length x.out == q.k)) [
    | inl full ↦
        (x, rw (claim_batch, full) refl, here, (λ e. Adds-self x (n ∷ ns)), inl (ground arith))
    | inr on ↦
        let inside : n < space = fits n good.0 in
        let tested =
          test_bit-member x.at.unsold_numbers g.valid.bitmap n
            (omega (arith, g.valid.bitmap_size)) in
        elim (Bool-cases (member x.at.unsold_numbers n)) [
          | inl listed ↦
              let found = Groups-tickets_for space ts x.at.index n g.valid.groups inside in
              let (x', run, steps, spread, rest) =
                claim_ids-Ran per n 0 (ids_of n ts) x g good.0 (g.valid.stock.members n) in
              let g' = Steps-Going steps g in
              let (y, run', steps', spread', rest') = claim_batch-Ran per ns x' g' good.1 in
              (
                y,
                rw (claim_batch, on, tested, listed, found, run) run',
                Steps-trans steps steps',
                (λ e. Adds-trans x x' y (n ∷ []) ns (spread e (omega arith)) (spread' e)),
                both g' steps'
                    (λ now later e. (kept_stay ahead (ids_of n ts) steps' (now e), later e)) rest
                    rest',
              )
          | inr absent ↦
              let (y, run, steps, spread, rest) = claim_batch-Ran per ns x g good.1 in
              (
                y,
                rw (claim_batch, on, tested, absent) run,
                steps,
                (λ e. let (more, added, p) = spread e in (more, added, skip n ns more p)),
                or_later
                    (λ later e. (
                      kept_stay ahead (ids_of n ts) steps (unlisted-Settled n x g inside absent),
                      later e,
                    ))
                    rest,
              )
        ]
  ]
