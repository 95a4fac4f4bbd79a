-- ===== src/Store/Claimed.antt =====
-- What a chain of reservations adds up to.
use lottery_search_system.Prelude.{
  ℕ, ◌≤◌, ◌<◌, ◌≡◌, ◌≢◌, refl, ap, sym, ◌∙◌, Bool, true, false, List, [], ◌∷◌, ◌++◌, All, All-imp,
  All-append, arith, subst,
}
use lottery_search_system.Prelude.Array.{update_self, update_other}
use lottery_search_system.TicketStore.{Status, available, reserved, sold, Reservation}
use lottery_search_system.Store.{MemoryStore, Request, Progress}
use lottery_search_system.Store.Reserve.{
  is_free, free_status, taken, reservation, Step, take, Steps, here, next,
}

-- The reservations are of different tickets.
abbrev pub Distinct : List Reservation → Type 0
Distinct [] = Unit
Distinct (r ∷ rs) = All (λ (t : Reservation). t.ticket_id ≢ r.ticket_id) rs × Distinct rs

-- One entry of a claim's answer, `s` being the store before and `s'` the store after: a ticket of a
-- number that is asked for, free before, and reserved for the holder until the end of the lease
-- after.
pub record IsTaken (size : ℕ) (Good : ℕ → Type 0) (q : Request) (s s' : MemoryStore)
    (r : Reservation) : Type 0 where
  pub inside : r.ticket_id < size
  pub number : s.number_of.at r.ticket_id ≡ r.number
  pub good : Good r.number
  pub was_free : is_free s q.now r.ticket_id ≡ true
  pub status : s'.status.at r.ticket_id ≡ reserved
  pub holder : s'.holder.at r.ticket_id ≡ q.holder
  pub lease : s'.lease_until.at r.ticket_id ≡ q.until
  pub told : r.lease_until ≡ q.until

-- A ticket is as it was.
pub record IsSame (s s' : MemoryStore) (id : ℕ) : Type 0 where
  pub status : s'.status.at id ≡ s.status.at id
  pub holder : s'.holder.at id ≡ s.holder.at id
  pub lease : s'.lease_until.at id ≡ s.lease_until.at id

-- What a claim does: its answer lists the tickets it took, each once, and no other changed.
pub record Claims (size : ℕ) (Good : ℕ → Type 0) (q : Request) (s : MemoryStore) (y : Progress)
    : Type 0 where
  pub each : All (IsTaken size Good q s y.at) y.out
  pub distinct : Distinct y.out
  pub others : (id : ℕ) → All (λ (r : Reservation). r.ticket_id ≢ id) y.out → IsSame s y.at id
  pub numbers : y.at.number_of ≡ s.number_of

Distinct-append :
    (rs : List Reservation) (t : Reservation)
    → Distinct rs
    → All (λ (r : Reservation). r.ticket_id ≢ t.ticket_id) rs
    → Distinct (rs ++ t ∷ [])
Distinct-append [] t d h = (tt, tt)
Distinct-append (r ∷ rs) t d h =
    (All-append _ rs (t ∷ []) d.0 ((λ e. h.0 (sym e)), tt), Distinct-append rs t d.1 h.1)

All-fst : (P : Reservation → Type 0) (xs ys : List Reservation) → All P (xs ++ ys) → All P xs
All-fst P [] ys h = tt
All-fst P (x ∷ xs) ys h = (h.0, All-fst P xs ys h.1)

All-last :
    (P : Reservation → Type 0) (xs : List Reservation) (y : Reservation)
    → All P (xs ++ y ∷ [])
    → P y
All-last P [] y h = h.0
All-last P (x ∷ xs) y h = All-last P xs y h.1

pub reserved_not_free :
    (status : Status) (until now : ℕ)
    → status ≡ reserved
    → now ≤ until
    → free_status status until now ≡ false
reserved_not_free available until now e h = cc
reserved_not_free reserved until now e h = ground arith
reserved_not_free sold until now e h = refl

pub apart : (test : ℕ → Bool) (i j : ℕ) → test i ≡ true → test j ≡ false → j ≢ i
apart test i j h k e = cc

module _ {size : ℕ} {Good : ℕ → Type 0} {q : Request} (ahead : q.now ≤ q.until) where
  still :
      {s : MemoryStore} (y : Progress) (id n : ℕ) {r : Reservation}
      → IsTaken size Good q s y.at r
      → id ≢ r.ticket_id
      → IsTaken size Good q s (taken q y id n).at r
  still y id n {r = r} k h = record {
    inside = k.inside;
    number = k.number;
    good = k.good;
    was_free = k.was_free;
    status = update_other y.at.status.at id reserved r.ticket_id h ∙ k.status;
    holder = update_other y.at.holder.at id q.holder r.ticket_id h ∙ k.holder;
    lease = update_other y.at.lease_until.at id q.until r.ticket_id h ∙ k.lease;
    told = k.told;
  }

  Claims-taken :
      {s : MemoryStore} {y z : Progress}
      → Claims size Good q s y
      → Step size Good q y z
      → Claims size Good q s z
  Claims-taken {s = s} c (take y id n room inside number good free) =
      let fresh : (r : Reservation) → IsTaken size Good q s y.at r → r.ticket_id ≢ id = λ r k.
        apart (is_free y.at q.now) id r.ticket_id free
          (reserved_not_free _ _ q.now k.status (omega (arith, k.lease))) in
      let new : All (λ (r : Reservation). r.ticket_id ≢ id) y.out = All-imp fresh y.out c.each in
      let same : IsSame s y.at id = c.others id new in
      record {
        each =
            All-append _ y.out (reservation q id n ∷ [])
              (All-imp (λ r k. still y id n k (λ e. fresh r k (sym e))) y.out c.each)
              (
                record {
                  inside = inside;
                  number = ap (λ t. t.at id) (sym c.numbers) ∙ number;
                  good = good;
                  was_free = rw (← same.status, ← same.lease) free;
                  status = update_self y.at.status.at id reserved;
                  holder = update_self y.at.holder.at id q.holder;
                  lease = update_self y.at.lease_until.at id q.until;
                  told = refl;
                },
                tt,
              );
        distinct = Distinct-append y.out (reservation q id n) c.distinct new;
        others = λ other h.
            let before = c.others other (All-fst _ y.out (reservation q id n ∷ []) h) in
            let apart_last = All-last _ y.out (reservation q id n) h in
            record {
              status = update_other y.at.status.at id reserved other apart_last ∙ before.status;
              holder = update_other y.at.holder.at id q.holder other apart_last ∙ before.holder;
              lease = update_other y.at.lease_until.at id q.until other apart_last ∙ before.lease;
            };
        numbers = c.numbers;
      }

  pub Steps-Claims :
      {x y : Progress} → x.out ≡ [] → Steps size Good q x y → Claims size Good q x.at y
  Steps-Claims {x = x} e here = record {
    each = subst (All (IsTaken size Good q x.at x.at)) (sym e) tt;
    distinct = subst Distinct (sym e) tt;
    others = λ id h. record { status = refl; holder = refl; lease = refl };
    numbers = refl;
  }
  Steps-Claims e (next r st) = Claims-taken (Steps-Claims e r) st
