-- ===== src/Store/Safety.antt =====
-- What no sequence of calls on a store can do.
use Prim.Native.String.{String}
use text.Mathlib.Text.{◌==◌ as str_eq}
use lottery_search_system.Prelude.{
  ℕ, ◌≤◌, ◌<◌, ◌≡◌, refl, ap, sym, ◌∙◌, false, List, some, length, arith, subst, some_inj,
}
use lottery_search_system.Prelude.Int.{pos}
use lottery_search_system.Pattern.{number_space}
use lottery_search_system.Index.{Ticket}
use lottery_search_system.TicketStore.{reserved, sold, not_held, Answer, failed}
use lottery_search_system.Store.{MemoryStore, Progress, confirm}
use lottery_search_system.Store.Valid.{IsStore}
use lottery_search_system.Store.Reserve.{is_free}
use lottery_search_system.Store.Claimed.{IsSame, reserved_not_free}
use lottery_search_system.Store.Claim.{claim-Claims}
use lottery_search_system.Store.Confirm.{
  is_held, Confirms, late, bought, confirm-Confirms, release-Releases,
}
use lottery_search_system.Store.History.{
  Called, claimed, confirmed, released, History, start, later, IsSame-self, IsSame-trans,
  Claims-kept, Confirms-kept, Releases-kept,
}

-- The ticket is safe from the calls that are allowed.
abbrev Kept : (String → ℕ → Type 0) → MemoryStore → ℕ → Type 0
Kept Allowed s id =
    (holder : String) (now : ℕ)
    → Allowed holder now
    → (is_free s now id ≡ false) × (is_held s holder id ≡ false)

IsSame-Kept :
    {Allowed : String → ℕ → Type 0} {s s' : MemoryStore} {id : ℕ}
    → IsSame s s' id
    → Kept Allowed s id
    → Kept Allowed s' id
IsSame-Kept same kept holder now ok = rw (same.status, same.holder, same.lease) (kept holder now ok)

module _ {ts : List Ticket} {Allowed : String → ℕ → Type 0} where
  Called-IsStore :
      {s s' : MemoryStore}
      → IsStore number_space ts s
      → Called Allowed s s'
      → IsStore number_space ts s'
  Called-IsStore {s = s} v (claimed text p first second k holder now lease y ok accepted e e' run) =
      let (y', run', valid, _, _) =
        claim-Claims text p ts s first second k holder now lease accepted v e e' in
      subst (λ (z : Progress). IsStore number_space ts z.at) (some_inj (sym run' ∙ run)) valid
  Called-IsStore v (confirmed id holder now a s' ok run) =
      let (a', r, run', valid, _) = confirm-Confirms v id holder now in
      subst (IsStore number_space ts) (ap (λ x. x.0) (some_inj (sym run' ∙ run))) valid
  Called-IsStore v (released id holder now a s' ok run) =
      let (a', r, run', valid, _) = release-Releases v id holder in
      subst (IsStore number_space ts) (ap (λ x. x.0) (some_inj (sym run' ∙ run))) valid

  Called-IsSame :
      {s s' : MemoryStore} (id : ℕ)
      → IsStore number_space ts s
      → Kept Allowed s id
      → Called Allowed s s'
      → IsSame s s' id
  Called-IsSame {s = s} id v kept
        (claimed text p first second k holder now lease y ok accepted e e' run) =
      let (y', run', valid, room, c) =
        claim-Claims text p ts s first second k holder now lease accepted v e e' in
      subst (λ (z : Progress). IsSame s z.at id) (some_inj (sym run' ∙ run))
        (Claims-kept id c (kept holder now ok).0)
  Called-IsSame {s = s} id v kept (confirmed i holder now a s' ok run) =
      let (a', r, run', valid, c) = confirm-Confirms v i holder now in
      subst (λ z. IsSame s z id) (ap (λ x. x.0) (some_inj (sym run' ∙ run)))
        (Confirms-kept id c (kept holder now ok).1)
  Called-IsSame {s = s} id v kept (released i holder now a s' ok run) =
      let (a', r, run', valid, c) = release-Releases v i holder in
      subst (λ z. IsSame s z id) (ap (λ x. x.0) (some_inj (sym run' ∙ run)))
        (Releases-kept id c (kept holder now ok).1)

  -- Whatever claims of accepted patterns with usable draws, confirmations and releases are made, a
  -- store that satisfies the invariant goes on satisfying it.
  pub History-IsStore :
      {s s' : MemoryStore}
      → IsStore number_space ts s
      → History Allowed s s'
      → IsStore number_space ts s'
  History-IsStore v start = v
  History-IsStore v (later h c) = Called-IsStore (History-IsStore v h) c

  History-IsSame :
      {s s' : MemoryStore} (id : ℕ)
      → IsStore number_space ts s
      → Kept Allowed s id
      → History Allowed s s'
      → IsSame s s' id
  History-IsSame {s = s} id v kept start = IsSame-self s id
  History-IsSame id v kept (later h c) =
      let same = History-IsSame id v kept h in
      IsSame-trans same (Called-IsSame id (History-IsStore v h) (IsSame-Kept same kept) c)

sold-Kept : (s : MemoryStore) (id : ℕ) → s.status.at id ≡ sold → Kept (λ h now. Unit) s id
sold-Kept s id e holder now ok = rw e (refl, refl)

-- A sold ticket of a store that satisfies the invariant stays sold, with its holder, whatever
-- claims with usable draws, confirmations and releases follow, by whomever.
pub sold_forever :
    (ts : List Ticket) (s s' : MemoryStore) (id : ℕ)
    → IsStore number_space ts s
    → s.status.at id ≡ sold
    → History (λ holder now. Unit) s s'
    → (s'.status.at id ≡ sold) × (s'.holder.at id ≡ s.holder.at id)
sold_forever ts s s' id v e h =
    let same = History-IsSame id v (sold-Kept s id e) h in (same.status ∙ e, same.holder)

abbrev answered : MemoryStore → Answer → MemoryStore × Answer
answered s a = (s, a)

not_held-refused :
    {size : ℕ} {s : MemoryStore} {id : ℕ} {s' : MemoryStore} {holder : String} {now : ℕ}
    {a : Answer}
    → Confirms size s holder now (pos id) a s'
    → id < size
    → is_held s holder id ≡ false
    → answered s' a ≡ answered s (failed not_held)
not_held-refused (Confirms.unknown i h) inside kept = absurd (omega arith)
not_held-refused (Confirms.refused i h other) inside kept = refl
not_held-refused (late i h own over) inside kept = cc
not_held-refused (bought i bits h own running) inside kept = cc

-- A ticket of a store that satisfies the invariant is sold once: whatever claims with usable draws,
-- confirmations and releases follow its sale, Confirm refuses it to every holder as not held and
-- leaves the store as it was.
pub sold_once :
    (ts : List Ticket) (s s' : MemoryStore) (id : ℕ) (holder : String) (now : ℕ)
    → IsStore number_space ts s
    → id < length ts
    → s.status.at id ≡ sold
    → History (λ holder now. Unit) s s'
    → confirm s' (pos id) holder now ≡ some (s', failed not_held)
sold_once ts s s' id holder now v inside e h =
    let v' = History-IsStore v h in
    let (a, r, run, valid, c) = confirm-Confirms v' (pos id) holder now in
    let kept = sold-Kept s' id (sold_forever ts s s' id v e h).0 holder now tt in
    run ∙ ap some (not_held-refused c inside kept.1)

-- While the lease of a reserved ticket of a store that satisfies the invariant runs, no claim with
-- usable draws, confirmation or release by another holder, made no later than its end, changes the
-- ticket: it stays reserved, by the same holder, and until the same time.
pub lease_exclusive :
    (ts : List Ticket) (s s' : MemoryStore) (id : ℕ)
    → IsStore number_space ts s
    → s.status.at id ≡ reserved
    → History
        (λ holder now. (str_eq (s.holder.at id) holder ≡ false) × (now ≤ s.lease_until.at id))
        s
        s'
    → (s'.status.at id ≡ reserved)
      × (s'.holder.at id ≡ s.holder.at id)
      × (s'.lease_until.at id ≡ s.lease_until.at id)
lease_exclusive ts s s' id v e h =
    let same =
      History-IsSame id v
        (λ holder now (other, running). (reserved_not_free _ _ now e running, rw e other)) h in
    (same.status ∙ e, same.holder, same.lease)
