-- ===== src/Store/History.antt =====
-- Sequences of calls on a store, in the order in which they take its mutex.
use Prim.Native.String.{String}
use lottery_search_system.Prelude.{ℕ, ◌≡◌, ◌≢◌, refl, sym, ◌∙◌, false, List, some, All-imp}
use lottery_search_system.Prelude.Array.{update_other}
use lottery_search_system.Prelude.Int.{ℤ}
use lottery_search_system.Pattern.{Pattern, parsed, parse_pattern}
use lottery_search_system.TicketStore.{available, sold, Answer, Reservation}
use lottery_search_system.Store.{MemoryStore, Request, Progress, Outside, claim, confirm, release}
use lottery_search_system.Store.Reserve.{is_free}
use lottery_search_system.Store.Claimed.{Claims, IsTaken, IsSame, apart}
use lottery_search_system.Store.Claim.{IsEnough}
use lottery_search_system.Store.Confirm.{is_held, Confirms, late, bought, Releases, freed}

-- One call on a store, by a holder and at a time that are allowed.
pub data Called (Allowed : String → ℕ → Type 0) (s : MemoryStore) : MemoryStore → Type 0 where
  claimed :
      (text : List ℕ) (p : Pattern) (first second : Outside) (k : ℕ) (holder : String)
      (now lease : ℕ) (y : Progress)
      → Allowed holder now
      → parse_pattern text ≡ parsed p
      → IsEnough p first
      → IsEnough p second
      → claim first second s p k holder now lease ≡ some y
      → Called Allowed s y.at
  confirmed :
      (id : ℤ) (holder : String) (now : ℕ) (a : Answer) (s' : MemoryStore)
      → Allowed holder now
      → confirm s id holder now ≡ some (s', a)
      → Called Allowed s s'
  released :
      (id : ℤ) (holder : String) (now : ℕ) (a : Answer) (s' : MemoryStore)
      → Allowed holder now
      → release s id holder ≡ some (s', a)
      → Called Allowed s s'

pub data History (Allowed : String → ℕ → Type 0) (s : MemoryStore) : MemoryStore → Type 0 where
  start : History Allowed s s
  later :
      {s' s'' : MemoryStore} → History Allowed s s' → Called Allowed s' s'' → History Allowed s s''

pub IsSame-self : (s : MemoryStore) (id : ℕ) → IsSame s s id
IsSame-self s id = record { status = refl; holder = refl; lease = refl }

pub IsSame-trans :
    {s s' s'' : MemoryStore} {id : ℕ} → IsSame s s' id → IsSame s' s'' id → IsSame s s'' id
IsSame-trans h k = record {
  status = k.status ∙ h.status;
  holder = k.holder ∙ h.holder;
  lease = k.lease ∙ h.lease;
}

-- A ticket that is not free is not among those taken.
pub Claims-kept :
    {size : ℕ} {Good : ℕ → Type 0} {q : Request} {s : MemoryStore} {y : Progress} (id : ℕ)
    → Claims size Good q s y
    → is_free s q.now id ≡ false
    → IsSame s y.at id
Claims-kept {size = size} {Good = Good} {q = q} {s = s} {y = y} id c kept =
    let other : (r : Reservation) → IsTaken size Good q s y.at r → r.ticket_id ≢ id =
      λ r k e. apart (is_free s q.now) r.ticket_id id k.was_free kept (sym e) in
    c.others id (All-imp other y.out c.each)

-- A ticket that the caller does not hold is neither sold to it nor released by it.
pub Confirms-kept :
    {size : ℕ} {s s' : MemoryStore} {holder : String} {now : ℕ} {a : Answer} {i : ℤ} (id : ℕ)
    → Confirms size s holder now i a s'
    → is_held s holder id ≡ false
    → IsSame s s' id
Confirms-kept {s = s} id (Confirms.negative n) kept = IsSame-self s id
Confirms-kept {s = s} id (Confirms.unknown i h) kept = IsSame-self s id
Confirms-kept {s = s} id (Confirms.refused i h other) kept = IsSame-self s id
Confirms-kept {s = s} id (late i h own over) kept = IsSame-self s id
Confirms-kept {s = s} {holder = holder} id (bought i bits h own running) kept = record {
  status = update_other s.status.at i sold id (λ e. apart (is_held s holder) i id own kept (sym e));
  holder = refl;
  lease = refl;
}

pub Releases-kept :
    {size : ℕ} {s s' : MemoryStore} {holder : String} {a : Answer} {i : ℤ} (id : ℕ)
    → Releases size s holder i a s'
    → is_held s holder id ≡ false
    → IsSame s s' id
Releases-kept {s = s} id (Releases.negative n) kept = IsSame-self s id
Releases-kept {s = s} id (Releases.unknown i h) kept = IsSame-self s id
Releases-kept {s = s} id (Releases.refused i h other) kept = IsSame-self s id
Releases-kept {s = s} {holder = holder} id (freed i h own) kept =
    let other : i ≢ id = λ e. apart (is_held s holder) i id own kept (sym e) in
    record {
      status = update_other s.status.at i available id other;
      holder = update_other s.holder.at i "" id other;
      lease = refl;
    }
