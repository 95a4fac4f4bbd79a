-- ===== src/Sharded/Complete.antt =====
-- When Claim has looked at every shard.
use Prim.Native.String.{String}
use mathlib.Core.Bool.{Bool-set}
use mathlib.Core.List.{exists_of_mem-map}
use mathlib.Core.List.Perm
use mathlib.Core.Logic.{∥∥₁_elim}
use lottery_search_system.Prelude.{
  ℕ, zero, suc, ◌+◌, ◌*◌, ◌≤◌, ◌<◌, ◌≡◌, refl, ap, sym, ◌∙◌, subst, Bool, true, false, List, Option,
  none, some, length, ltb, ◌==◌, arith, Bool-cases, Option-cases, inl, inr, some_inj, none-ne-some,
  ◌>>=◌,
}
use lottery_search_system.Pattern.{Pattern, parsed, parse_pattern, match_count, matches}
use lottery_search_system.Store.{Outside}
use lottery_search_system.Store.Claim.{IsEnough}
use lottery_search_system.Postgres.{TicketRow, Table, find_row}
use lottery_search_system.Postgres.Statements.{claimable_row, sharded_claim_sql}
use lottery_search_system.Postgres.Claims.{
  Collected, ClaimError, claim_rows, run_pass, whole_size, none_yet, default_batch_size,
  default_max_batches, terms,
}
use lottery_search_system.Postgres.Loop.{IsFine, run_pass-keeps}
use lottery_search_system.Postgres.Whole.{GoneWhere, take_rows-GoneWhere}
use lottery_search_system.Postgres.Complete.{undisturbed, run_pass-Gone}
use lottery_search_system.Prelude.Perms.{mem-run_from, lt_of_mem-run_from}
use lottery_search_system.Sharded.Order.{shards-perm}
use lottery_search_system.Sharded.{ShardRun, shard_at, claim_shards, claim_sharded}

-- The rounds of one shard, in which nothing else happens.
abbrev pub calm_run : Outside → ℕ → ShardRun
calm_run o now = record { outside = o; turns = λ i. undisturbed now }

any-IsFine : (error : Option ClaimError) → IsFine (λ e. Unit {0}) error
any-IsFine none = tt
any-IsFine (some e) = tt

module _ (shard_of : ℕ → ℕ) (shards : ℕ) (outs : ℕ → Outside) (text : List ℕ) (p : Pattern) (k : ℕ)
    (holder : String) (lease now : ℕ) (accepted : parse_pattern text ≡ parsed p)
    (usable : (o : ℕ) → IsEnough p (outs o)) (going : (o i : ℕ) → (outs o).cancelled i ≡ false)
    (few : match_count p ≤ default_batch_size * default_max_batches) where
  InShard : ℕ → TicketRow → Type 0
  InShard shard r = (shard_of r.id ≡ shard) × (matches p r.num ≡ true)

  -- Nothing is left in the shards of the offsets below this one.
  Passed : ℕ → Table → Type 0
  Passed offset t = (o : ℕ) → o < offset → GoneWhere now t (InShard (shard_at shards holder o))

  pass : ℕ → Collected Table → Option (Collected Table)
  pass offset =
      run_pass (outs offset) whole_size
        (λ i.
          claim_rows (sharded_claim_sql shard_of (shard_at shards holder offset)) holder lease
            (undisturbed now))
        p k

  claim_from : ℕ → ℕ → Collected Table → Option (Collected Table)
  claim_from = claim_shards shard_of shards (λ o. calm_run (outs o) now) p k holder lease

  pass-keeps :
      (offset : ℕ) (x : Collected Table)
      → Passed offset x.at
      → (y : Collected Table) × (pass offset x ≡ some y)
        × Passed offset y.at
        × IsFine (λ e. Unit) y.error
  unfolding pass Passed sharded_claim_sql claim_rows
  pass-keeps offset x passed =
      run_pass-keeps k whole_size _ (λ t out. Passed offset t) (λ e. Unit) text p (outs offset) x
        (λ i nums t out _ _ before o below.
          take_rows-GoneWhere _ (terms holder lease now) t _ (omega arith) (before o below))
        tt accepted (usable offset) passed (any-IsFine x.error)

  claim_from_full :
      (left offset : ℕ) (x : Collected Table) → k ≤ length x.out → claim_from left offset x ≡ some x
  unfolding claim_from claim_shards
  claim_from_full zero offset x full = refl
  claim_from_full (suc left) offset x full =
      let enough : ltb (length x.out) k ≡ false = ground arith in rw (claim_shards, enough) refl

  claim_from_failed :
      (left offset : ℕ) (x y : Collected Table) (e : ClaimError)
      → ltb (length x.out) k ≡ true
      → pass offset x ≡ some y
      → y.error ≡ some e
      → claim_from (suc left) offset x ≡ some y
  unfolding claim_from claim_shards pass
  claim_from_failed left offset x y e short run failed =
      simp (claim_shards, short, run, ◌>>=◌, failed) refl

  claim_from_next :
      (left offset : ℕ) (x y : Collected Table)
      → ltb (length x.out) k ≡ true
      → pass offset x ≡ some y
      → y.error ≡ none
      → claim_from (suc left) offset x ≡ claim_from left (suc offset) y
  unfolding claim_from claim_shards pass
  claim_from_next left offset x y short run fine = simp (claim_shards, short, run, ◌>>=◌, fine) refl

  pass-Passed :
      (offset : ℕ) (x y : Collected Table)
      → pass offset x ≡ some y
      → length y.out < k
      → Passed offset y.at
      → Passed (suc offset) y.at
  unfolding pass Passed InShard sharded_claim_sql
  pass-Passed offset x y run short passed o below j r found (own, fits) =
      elim (Bool-cases (o == offset)) [
        | inl last ↦
            let shard : shard_at shards holder offset ≡ shard_of r.id =
              ap (shard_at shards holder) (ground arith) ∙ sym own in
            run_pass-Gone (λ id. shard_of id == shard_at shards holder offset) text p (outs offset)
              k holder lease now x y j r accepted (going offset) few run short found (ground arith)
              fits
        | inr earlier ↦ passed o (ground arith) j r found (own, fits)
      ]

  claim_from-Passed :
      (left offset : ℕ) (x y : Collected Table)
      → claim_from left offset x ≡ some y
      → y.error ≡ none
      → length y.out < k
      → Passed offset x.at
      → Passed (offset + left) y.at
  unfolding claim_from claim_shards
  claim_from-Passed zero offset x y run fine short passed =
      subst (λ n. Passed n y.at) (omega arith)
        (subst (λ (c : Collected Table). Passed offset c.at) (some_inj run) passed)
  claim_from-Passed (suc left) offset x y run fine short passed =
      let (z, ran, passed', _) = pass-keeps offset x passed in
      elim (Bool-cases (ltb (length x.out) k)) [
        | inr full ↦
            let enough : k ≤ length x.out = ground arith in
            let same : x ≡ y = some_inj (sym (claim_from_full (suc left) offset x enough) ∙ run) in
            absurd (omega (arith, ap (λ c. length c.out) same))
        | inl room ↦ elim (Option-cases z.error) [
          | inr (e, failed) ↦
              let same : z ≡ y =
                some_inj (sym (claim_from_failed left offset x z e room ran failed) ∙ run) in
              absurd (none-ne-some (sym fine ∙ ap (λ c. c.error) (sym same) ∙ failed))
          | inl fine' ↦
              let next = sym (claim_from_next left offset x z room ran fine') ∙ run in
              elim (Bool-cases (ltb (length z.out) k)) [
                | inr full ↦
                    let enough : k ≤ length z.out = ground arith in
                    let same : z ≡ y =
                      some_inj (sym (claim_from_full left (suc offset) z enough) ∙ next) in
                    absurd (omega (arith, ap (λ c. length c.out) same))
                | inl room' ↦
                    subst (λ n. Passed n y.at) (omega arith)
                      (claim_from-Passed left (suc offset) z y next fine short
                        (pass-Passed offset x z ran (ground arith) passed'))
              ]
        ]
      ]

-- Every shard is one of those that the rounds come to.
shard_reached :
    (shards : ℕ) (holder : String) (shard : ℕ) (b : Bool)
    → shard < shards
    → ((o : ℕ) → o < shards → shard_at shards holder o ≡ shard → b ≡ false)
    → b ≡ false
shard_reached shards holder shard b inside f =
    let listed =
      (Perm.mem_iff (shards-perm shards holder)).1
        (mem-run_from shards 0 shard (omega arith) (omega arith)) in
    ∥∥₁_elim (exists_of_mem-map listed) (Bool-set b false)
      λ (o, visited, e). let below = lt_of_mem-run_from shards 0 visited in f o (omega arith) e

-- For an accepted pattern of at most 4096 matches, usable draws, and contexts that are never done: if
-- nothing else happens in the rounds, which all run at one time, and Claim returns no error and
-- fewer than `k` reservations, no matching row of the shards below their number is left that could
-- be claimed at that time.
pub claim_sharded_complete :
    (shard_of : ℕ → ℕ) (shards : ℕ) (outs : ℕ → Outside) (text : List ℕ) (p : Pattern) (k : ℕ)
    (holder : String) (lease now : ℕ) (t : Table) (x : Collected Table) (j : ℕ) (r : TicketRow)
    → parse_pattern text ≡ parsed p
    → ((o : ℕ) → IsEnough p (outs o))
    → ((o i : ℕ) → (outs o).cancelled i ≡ false)
    → match_count p ≤ default_batch_size * default_max_batches
    → claim_sharded shard_of shards (λ o. calm_run (outs o) now) p k holder lease t ≡ some x
    → x.error ≡ none
    → length x.out < k
    → find_row j x.at ≡ some r
    → shard_of r.id < shards
    → matches p r.num ≡ true
    → claimable_row now r ≡ false
unfolding claim_sharded claim_from Passed InShard
claim_sharded_complete shard_of shards outs text p zero holder lease now t x j r ok usable going few
      run fine short found inside fits =
    absurd (omega arith)
claim_sharded_complete shard_of shards outs text p (suc k) holder lease now t x j r ok usable going
      few run fine short found inside fits =
    shard_reached shards holder (shard_of r.id) (claimable_row now r) inside (λ o below own.
      claim_from-Passed shard_of shards outs text p (suc k) holder lease now ok usable going few
        shards 0 (none_yet t) x run fine short (λ i h. absurd (omega arith)) o (omega arith) j r
        found (sym own, fits))
