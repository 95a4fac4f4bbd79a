-- ===== src/Hybrid/Steps.antt =====
-- Sequences of calls of a replica's store, among the statements of other replicas.
use Prim.Native.String.{String}
use lottery_search_system.Prelude.{
  ℕ, ◌<◌, ◌≡◌, refl, ap, sym, ◌∙◌, subst, true, false, not, List, none, some, All, ◌==◌,
  if◌then◌else◌, arith, some_inj, >>=-eq-some, ◌>>=◌,
}
use lottery_search_system.Prelude.Int.{pos}
use lottery_search_system.TicketStore.{Answer}
use lottery_search_system.Pattern.{Pattern, parsed, parse_pattern}
use lottery_search_system.Store.{Outside}
use lottery_search_system.Store.Claim.{IsEnough}
use lottery_search_system.Availability.{
  Availability, Row, Query, ended, new_availability, load_hint, maybe_available,
}
use lottery_search_system.Availability.Valid.{maybe_available-some}
use lottery_search_system.Availability.Load.{IsGroup, last_count, load_hint-last_count}
use lottery_search_system.Postgres.{Table, Fate}
use lottery_search_system.Postgres.Rows.{IsTable}
use lottery_search_system.Postgres.Claims.{Collected}
use lottery_search_system.Postgres.Unsold.{unsold}
use lottery_search_system.Hybrid.{
  Hybrid, HybridTurn, claim_hybrid, confirm_hybrid, release_hybrid, refresh, new_hybrid,
}
use lottery_search_system.Hybrid.Sync.{Freely, IsSynced, Schedule-IsSynced, IsRaising}
use lottery_search_system.Hybrid.Ops.{confirm_hybrid-IsSynced, release_hybrid-IsSynced}
use lottery_search_system.Hybrid.Claims.{IsQuiet, claim_hybrid-IsSynced}

-- The rows of loadSQL, at a table: a group for each number that has unsold tickets.
pub record IsLoad (space : ℕ) (t : Table) (rows : List Row) : Type 0 where
  pub groups : All IsGroup rows
  pub exact : (n : ℕ) → n < space → last_count 0 n rows ≡ unsold t n

-- NewHybrid, on the counts of a table with the ids as keys, returns a store that is in step with it.
pub new_hybrid-IsSynced :
    (space : ℕ) (rows : List Row) (now : ℕ) (t : Table)
    → IsTable t
    → IsLoad space t rows
    → (s : Hybrid) × (new_hybrid space (ended rows) now t ≡ some (some s))
      × IsSynced space s
      × (s.table ≡ t)
unfolding new_hybrid
new_hybrid-IsSynced space rows now t u l =
    let (a, run, valid, _, counts) =
      load_hint-last_count space rows now (new_availability space) l.groups in
    (
      record { table = t; hint = a; number_of = λ id. none },
      rw (run, ◌>>=◌) refl,
      record {
        keyed = u;
        valid = valid;
        over = λ n inside. omega (arith, counts n inside, l.exact n inside);
        known = λ id n e. cc;
      },
      refl,
    )

refresh-IsSynced :
    {space : ℕ} {s : Hybrid} (rows : List Row) (now : ℕ)
    → IsSynced space s
    → IsLoad space s.table rows
    → (s' : Hybrid) × (refresh space (ended rows) now s ≡ some (s', true)) × IsSynced space s'
unfolding refresh
refresh-IsSynced {space = space} {s = s} rows now h l =
    let (a, run, valid, _, counts) =
      load_hint-last_count space rows now (new_availability space) l.groups in
    (
      record s { hint = a },
      rw (run, ◌>>=◌) refl,
      record {
        keyed = h.keyed;
        valid = valid;
        over = λ n inside. omega (arith, counts n inside, l.exact n inside);
        known = h.known;
      },
    )

-- A load that fails changes nothing.
refresh_failed :
    (space : ℕ) (query : Query) (now : ℕ) (s s' : Hybrid)
    → refresh space query now s ≡ some (s', false)
    → s ≡ s'
unfolding refresh
refresh_failed space query now s s' run =
    let (x, loaded, e) = >>=-eq-some (load_hint space query now (new_availability space)) _ run in
    let pair : (if x.1 then record s { hint = x.0 } else s, x.1) ≡ (s', false) = some_inj e in
    ap (λ b. if b then record s { hint = x.0 } else s) (sym (ap (λ y. y.1) pair))
    ∙ ap (λ y. y.0) pair

-- What can happen to a replica's store. The conditions are those under which the operations are looked
-- at one by one; notifications are another matter (Availability/Safety).
pub data Step (space : ℕ) (s : Hybrid) : Hybrid → Type 0 where
  claimed :
      (text : List ℕ) (first second : Outside) (turns turns' : ℕ → HybridTurn) (p : Pattern) (k : ℕ)
      (holder : String) (lease : ℕ) (x : Collected Hybrid)
      → parse_pattern text ≡ parsed p
      → IsEnough p first
      → IsEnough p second
      → ((i : ℕ) → IsQuiet space (turns i))
      → ((i : ℕ) → IsQuiet space (turns' i))
      → claim_hybrid space first second turns turns' p k holder lease s ≡ some x
      → Step space s x.at
  confirmed :
      (exec read : Fate) (between : Table → Table) (later : ℕ)
      (during : Availability → Availability) (id : ℕ) (holder : String) (now : ℕ) (a : Answer)
      (s' : Hybrid)
      → IsRaising space during
      → ((t : Table) → IsTable t → Freely t (between t))
      → confirm_hybrid space exec read between later during id holder now s ≡ some (s', a)
      → Step space s s'
  released :
      (exec read : Fate) (between : Table → Table) (later : ℕ)
      (during : Availability → Availability) (id : ℕ) (holder : String) (a : Answer) (s' : Hybrid)
      → IsRaising space during
      → ((t : Table) → IsTable t → Freely t (between t))
      → release_hybrid space exec read between later during id holder s ≡ some (s', a)
      → Step space s s'
  refreshed :
      (rows : List Row) (now : ℕ) (s' : Hybrid)
      → IsLoad space s.table rows
      → refresh space (ended rows) now s ≡ some (s', true)
      → Step space s s'
  unloaded :
      (query : Query) (now : ℕ) (s' : Hybrid)
      → refresh space query now s ≡ some (s', false)
      → Step space s s'
  others : (t : Table) → Freely s.table t → Step space s (record s { table = t })

pub data Steps (space : ℕ) (s : Hybrid) : Hybrid → Type 0 where
  start : Steps space s s
  later : {s' s'' : Hybrid} → Steps space s s' → Step space s' s'' → Steps space s s''

Step-IsSynced : {space : ℕ} {s s' : Hybrid} → IsSynced space s → Step space s s' → IsSynced space s'
Step-IsSynced {space = space} {s = s} h
      (claimed text first second turns turns' p k holder lease x ok e e' quiet quiet' run) =
    let (x', run', h', _) =
      claim_hybrid-IsSynced space text first second turns turns' p k holder lease s ok e e' quiet
        quiet' h in
    subst (λ (y : Collected Hybrid). IsSynced space y.at) (some_inj (sym run' ∙ run)) h'
Step-IsSynced {space = space} {s = s} h
      (confirmed exec read between time during id holder now a s' raising fair run) =
    let (x, b, run', h') =
      confirm_hybrid-IsSynced exec read between time during raising fair id holder s h now in
    subst (IsSynced space) (ap (λ y. y.0) (some_inj (sym run' ∙ run))) h'
Step-IsSynced {space = space} {s = s} h
      (released exec read between time during id holder a s' raising fair run) =
    let (x, b, run', h') =
      release_hybrid-IsSynced exec read between time during raising fair id holder s h in
    subst (IsSynced space) (ap (λ y. y.0) (some_inj (sym run' ∙ run))) h'
Step-IsSynced {space = space} h (refreshed rows now s' l run) =
    let (x, run', h') = refresh-IsSynced rows now h l in
    subst (IsSynced space) (ap (λ y. y.0) (some_inj (sym run' ∙ run))) h'
Step-IsSynced {space = space} {s = s} h (unloaded query now s' run) =
    subst (IsSynced space) (refresh_failed space query now s s' run) h
Step-IsSynced h (others t run) = Schedule-IsSynced h run

-- A store that is in step with its table stays so, whatever calls and statements follow.
pub Steps-IsSynced :
    {space : ℕ} {s s' : Hybrid} → IsSynced space s → Steps space s s' → IsSynced space s'
Steps-IsSynced h start = h
Steps-IsSynced h (later r x) = Step-IsSynced (Steps-IsSynced h r) x

-- From a store that is in step with its table, in any sequence of whole claims, confirmations, releases
-- and loads of this replica, with statements of others between them and during them: if no load is
-- swapped in, no other sale is marked and no notification is heard during a call, and the draws of
-- the claims are usable, a number in the space to which MaybeAvailable then answers no has no unsold
-- ticket in the table.
pub hint_never_denies :
    (space : ℕ) (s s' : Hybrid) (n : ℕ)
    → IsSynced space s
    → Steps space s s'
    → n < space
    → maybe_available space s'.hint (pos n) ≡ some false
    → unsold s'.table n ≡ 0
hint_never_denies space s s' n h r inside answer =
    let h' = Steps-IsSynced h r in
    let empty : not (s'.hint.counts.at n == 0) ≡ false =
      some_inj (sym (maybe_available-some h'.valid n inside) ∙ answer) in
    ground (arith, h'.over n inside)
