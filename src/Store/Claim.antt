-- ===== src/Store/Claim.antt =====
-- Claim as a whole, and claimPass.
use Prim.Native.String.{String}
use mathlib.Core.Bool.{Bool-set}
use mathlib.Core.List.{Nodup, Mem, mem-cons, not-mem-nil}
use mathlib.Core.Logic.Or
use lottery_search_system.Prelude.{
  ℕ, ◌+◌, ◌%◌, ◌≤◌, ◌<◌, ◌≡◌, refl, ap, sym, ◌∙◌, Bool, true, false, List, [], ◌∷◌, ◌++◌, some,
  length, ltb, ◌==◌, ◌⊎◌, All, arith, Bool-cases, inl, inr, subst, some_inj,
}
use lottery_search_system.Pattern.{Pattern, number_space, parsed, parse_pattern, match_count}
use lottery_search_system.Pattern.Laws.{IsParsed-lt}
use lottery_search_system.Pattern.Parsing.{IsParsed, parsed-IsParsed}
use lottery_search_system.Walker.{gcd}
use lottery_search_system.Candidates.Batches.{remaining}
use lottery_search_system.Candidates.Complete.{
  remaining-Nodup, candidates-total, mem-remaining, length-remaining, remaining-All, Matching,
}
use lottery_search_system.Index.{Ticket}
use lottery_search_system.Index.Counts.{ids_of}
use lottery_search_system.Store.{MemoryStore, Request, Progress, Outside, claim_pass, claim}
use lottery_search_system.Store.Stock.{occurs}
use lottery_search_system.Store.Valid.{IsStore}
use lottery_search_system.Store.Reserve.{is_free, Steps, Steps-trans, Going, Steps-Going}
use lottery_search_system.TicketStore.{Reservation}
use lottery_search_system.Store.Spread.{numbers_of, Picks-Nodup}
use lottery_search_system.Store.Pass.{Settled, Ran, or_later}
use lottery_search_system.Store.Rounds.{claim_rounds-Ran}
use lottery_search_system.Store.Claimed.{Claims, Steps-Claims}

-- What an entry of a list tells about a Boolean, all entries tell of one of them.
All-Mem :
    (P : ℕ → Type 0) (b c : Bool) (x : ℕ) (xs : List ℕ)
    → (P x → b ≡ c)
    → All P xs
    → Mem x xs
    → b ≡ c
All-Mem P b c x [] f h m = absurd (not-mem-nil m)
All-Mem P b c x (y ∷ ys) f h m =
    Or.elim (Bool-set b c) (mem-cons.0 m) (λ e. f (subst P (sym e) h.0))
      (λ later. All-Mem P b c x ys f h.1 later)

All-occurs : (P : ℕ → Type 0) (id : ℕ) (ids : List ℕ) → occurs id ids ≡ 1 → All P ids → P id
unfolding occurs
All-occurs P id [] one h = absurd (omega arith)
All-occurs P id (x ∷ ids) one h = elim (Bool-cases (x == id)) [
  | inl own ↦ subst P (ground arith) h.0
  | inr other ↦ All-occurs P id ids (ground arith) h.1
]

-- Some draw within the fuel gives a multiplier that shares no factor with the number of matches.
pub record IsEnough (p : Pattern) (o : Outside) : Type 0 where
  pub draw : ℕ
  pub in_fuel : draw < o.fuel
  pub coprime : gcd (1 + o.draws draw % match_count p) (match_count p) ≡ 1

abbrev pub request : ℕ → String → ℕ → ℕ → Request
request k holder now lease = record { k = k; holder = holder; now = now; until = now + lease }

-- One pass: it reserves ticket by ticket, until there are enough, or nothing is left that a pass
-- without a bound for each number could take.
claim_pass-Ran :
    (text : List ℕ) (p : Pattern) (ts : List Ticket) (q : Request) (o : Outside) (per : ℕ)
    (x : Progress)
    → IsParsed text p
    → q.now ≤ q.until
    → IsEnough p o
    → Going number_space ts q x
    → Ran number_space ts
        (Matching p)
        q
        (claim_pass o p q per x)
        x
        (λ y.
          per ≡ 1 → (more : List Reservation) × (y.out ≡ x.out ++ more) × Nodup (numbers_of more))
        λ y.
          ((i : ℕ) → o.cancelled i ≡ false)
          → per ≡ 0
          → (id : ℕ) → id < length ts
          → Matching p (y.at.number_of.at id)
          → is_free y.at q.now id ≡ false
unfolding claim_pass
claim_pass-Ran text p ts q o per x h ahead enough g =
    let (c, made, _) =
      candidates-total p enough.draw o.fuel o.draws enough.in_fuel enough.coprime in
    let (y, run, steps, spread, rest) =
      claim_rounds-Ran ahead (IsParsed-lt h) (match_count p + 1) o.cancelled per c (remaining c) x
        refl g (remaining-All h o.fuel o.draws c made)
        (omega (arith, length-remaining h o.fuel o.draws c made)) in
    (
      y,
      rw made run,
      steps,
      (λ e.
          let (more, added, p') = spread e in
          (more, added, Picks-Nodup p' (remaining-Nodup h o.fuel o.draws c made))),
      or_later
          (λ settled never e id inside m.
            All-Mem (Settled ts q y) _ _ (y.at.number_of.at id) (remaining c)
              (λ s.
                All-occurs (λ i. is_free y.at q.now i ≡ false) id (ids_of (y.at.number_of.at id) ts)
                  ((Steps-Going steps g).valid.stock.once id inside).1 s)
              (settled never e)
              ((mem-remaining h o.fuel o.draws c made (y.at.number_of.at id)).1 m))
          rest,
    )

module _ (first second : Outside) (s : MemoryStore) (p : Pattern) (k : ℕ) (holder : String)
    (now lease : ℕ) (x : Progress) where
  claim-claim_pass :
      claim_pass first p (request k holder now lease) 1 (record { at = s; out = [] }) ≡ some x
      → ltb (length x.out) k ≡ true
      → claim first second s p k holder now lease
        ≡ claim_pass second p (request k holder now lease) 0 x
  unfolding claim
  claim-claim_pass run short = rw run (
      ap
        (λ b. elim b [
          | true ↦ claim_pass second p (request k holder now lease) 0 x
          | false ↦ some x
        ])
        short)

  claim_first :
      claim_pass first p (request k holder now lease) 1 (record { at = s; out = [] }) ≡ some x
      → ltb (length x.out) k ≡ false
      → claim first second s p k holder now lease ≡ some x
  unfolding claim
  claim_first run full = rw run (
      ap
        (λ b. elim b [
          | true ↦ claim_pass second p (request k holder now lease) 0 x
          | false ↦ some x
        ])
        full)

-- The tickets that a claim could take.
abbrev pub IsLeft : Pattern → List Ticket → MemoryStore → ℕ → ℕ → Type 0
IsLeft p ts s now id = (id < length ts) × Matching p (s.number_of.at id) × (is_free s now id ≡ true)

module _ (text : List ℕ) (p : Pattern) (ts : List Ticket) (s : MemoryStore) (first second : Outside)
    (k : ℕ) (holder : String) (now lease : ℕ) (accepted : parse_pattern text ≡ parsed p)
    (valid : IsStore number_space ts s) (enough : IsEnough p first) (more : IsEnough p second) where
  abbrev Ended : Progress → Type 0
  Ended y =
      (length y.out ≡ k)
      ⊎ (((i : ℕ) → second.cancelled i ≡ false)
          → (id : ℕ) → id < length ts
          → Matching p (y.at.number_of.at id)
          → is_free y.at now id ≡ false)

  claim-Ran :
      (y : Progress) × (claim first second s p k holder now lease ≡ some y)
      × Steps (length ts) (Matching p) (request k holder now lease) (record { at = s; out = [] }) y
      × Ended y
  claim-Ran =
      let q = request k holder now lease in
      let h = parsed-IsParsed text p accepted in
      let begun : Going number_space ts q (record { at = s; out = [] }) = record {
        valid = valid;
        room = omega arith;
      } in
      let (x, run, steps, spread, rest) =
        claim_pass-Ran text p ts q first 1 (record { at = s; out = [] }) h (omega arith) enough
          begun in
      let going = Steps-Going steps begun in
      elim (Bool-cases (ltb (length x.out) k)) [
        | inl short ↦
            let (y, run', steps', spread', rest') =
              claim_pass-Ran text p ts q second 0 x h (omega arith) more going in
            (
              y,
              claim-claim_pass first second s p k holder now lease x run short ∙ run',
              Steps-trans steps steps',
              or_later (λ left never. left never refl) rest',
            )
        | inr full ↦ (
          x,
          claim_first first second s p k holder now lease x run full,
          steps,
          inl (ground (arith, going.room)),
        )
      ]

  -- For an accepted pattern, a store that satisfies the invariant and draws of which one is usable
  -- in each pass, Claim returns, whatever the context answers. The store then satisfies the
  -- invariant. At most `k` reservations are returned. They are of different tickets, each of a
  -- number that matches the pattern, each available or with a lease that had run out before, and
  -- each reserved for the holder until `now + lease` after. Every other ticket keeps its status,
  -- its holder and its lease.
  pub claim-Claims :
      (y : Progress) × (claim first second s p k holder now lease ≡ some y)
      × IsStore number_space ts y.at
      × (length y.out ≤ k)
      × Claims (length ts) (Matching p) (request k holder now lease) s y
  claim-Claims =
      let (y, run, steps, rest) = claim-Ran in
      let going = Steps-Going steps (record { valid = valid; room = omega arith }) in
      (y, run, going.valid, going.room, Steps-Claims (omega arith) refl steps)

  -- For an accepted pattern, a store that satisfies the invariant and draws of which one is usable
  -- in each pass: if the context of the second pass is never cancelled and Claim returns fewer than
  -- `k` reservations, no matching ticket is left that it could have taken.
  pub claim_complete :
      (y : Progress)
      → claim first second s p k holder now lease ≡ some y
      → ((i : ℕ) → second.cancelled i ≡ false)
      → length y.out < k
      → (id : ℕ) → ¬ IsLeft p ts y.at now id
  claim_complete y run never short id (inside, m, free) =
      let (y', run', steps, rest) = claim-Ran in
      let same : y' ≡ y = some_inj (sym run' ∙ run) in
      elim (subst Ended same rest) [
        | inl full ↦ absurd (omega arith)
        | inr left ↦ absurd (ground (arith, left never id inside m))
      ]

  -- For an accepted pattern, a store that satisfies the invariant and usable draws, Claim spreads
  -- over the numbers first: the first pass takes tickets of numbers that are all different. If
  -- these are enough, they are the answer, and otherwise the second pass goes on from them.
  pub claim_spreads :
      (x : Progress) × (claim_pass first p
          (request k holder now lease)
          1
          (record { at = s; out = [] })
        ≡ some x)
      × Nodup (numbers_of x.out)
      × (((length x.out ≡ k) × (claim first second s p k holder now lease ≡ some x))
          ⊎ ((length x.out < k)
              × (claim first second s p k holder now lease
                  ≡ claim_pass second p (request k holder now lease) 0 x)))
  claim_spreads =
      let begun : Going number_space ts (request k holder now lease) (record { at = s; out = [] }) =
        record { valid = valid; room = omega arith } in
      let (x, run, steps, spread, rest) =
        claim_pass-Ran text p ts (request k holder now lease) first 1 (record { at = s; out = [] })
          (parsed-IsParsed text p accepted) (omega arith) enough begun in
      let (more, added, apart) = spread refl in
      let going = Steps-Going steps begun in
      (
        x,
        run,
        subst (λ out. Nodup (numbers_of out)) (sym added) apart,
        elim (Bool-cases (ltb (length x.out) k)) [
          | inl short ↦
              inr (ground arith, claim-claim_pass first second s p k holder now lease x run short)
          | inr full ↦ inl (
            ground (arith, going.room),
            claim_first first second s p k holder now lease x run full,
          )
        ],
      )
