-- ===== src/Store/Reserve.antt =====
-- One reservation, and the chains of reservations that a claim makes.
use lottery_search_system.Prelude.{
  none, ℕ, ◌≤◌, ◌<◌, ◌≡◌, refl, sym, ◌∙◌, Bool, true, false, List, [], ◌∷◌, ◌++◌, Option, some,
  length, length-append, ltb, ◌==◌, if◌then◌else◌, ◌>>=◌, arith, Bool-cases, inl, inr,
}
use lottery_search_system.Prelude.Array.{update}
use lottery_search_system.Index.{Ticket}
use lottery_search_system.Index.Counts.{ids_of}
use lottery_search_system.TicketStore.{Status, available, reserved, sold, is_sold, Reservation}
use lottery_search_system.Store.{MemoryStore, Request, Progress, claimable, reserve}
use lottery_search_system.Store.Stock.{unsold_in-unsold}
use lottery_search_system.Store.Valid.{IsStore}

-- Whether a claim at this time may take the ticket: it is available, or its lease has run out.
abbrev pub free_status : Status → ℕ → ℕ → Bool
free_status available until now = true
free_status reserved until now = ltb until now
free_status sold until now = false

abbrev pub is_free : MemoryStore → ℕ → ℕ → Bool
is_free s now id = free_status (s.status.at id) (s.lease_until.at id) now

-- The store after the ticket is reserved.
abbrev pub with_reserved : Request → MemoryStore → ℕ → MemoryStore
with_reserved q s id = record s {
  status = record { len = s.status.len; at = update s.status.at id reserved };
  holder = record { len = s.holder.len; at = update s.holder.at id q.holder };
  lease_until = record { len = s.lease_until.len; at = update s.lease_until.at id q.until };
}

abbrev pub reservation : Request → ℕ → ℕ → Reservation
reservation q id n = record { ticket_id = id; number = n; lease_until = q.until }

abbrev pub taken : Request → Progress → ℕ → ℕ → Progress
taken q x id n = record { at = with_reserved q x.at id; out = x.out ++ reservation q id n ∷ [] }

module _ {space : ℕ} {ts : List Ticket} {s : MemoryStore} (v : IsStore space ts s) (id : ℕ)
    (h : id < length ts) where
  pub claimable-is_free : (now : ℕ) → claimable s id now ≡ some (is_free s now id)
  unfolding claimable
  claimable-is_free now =
      let status_inside : ltb id s.status.len ≡ true = ground (arith, v.status_len) in
      let lease_inside : ltb id s.lease_until.len ≡ true = ground (arith, v.lease_len) in
      rw status_inside (cases (s.status.at id) lease_inside)
    where
      cases :
          (status : Status)
          → ltb id s.lease_until.len ≡ true
          → elim status as (λ _. Option Bool) [
            | available ↦ some true
            | reserved ↦
                ((if ltb id s.lease_until.len then some (s.lease_until.at id) else none)
                  >>= λ until. some (ltb until now))
            | sold ↦ some false
          ]
            ≡ some (free_status status (s.lease_until.at id) now)
      cases available e = refl
      cases reserved e = rw e
      cases sold e = refl

  pub reserve-with_reserved : (q : Request) → reserve q s id ≡ some (with_reserved q s id)
  unfolding reserve
  reserve-with_reserved q =
      let status_inside : ltb id s.status.len ≡ true = ground (arith, v.status_len) in
      let holder_inside : ltb id s.holder.len ≡ true = ground (arith, v.holder_len) in
      let lease_inside : ltb id s.lease_until.len ≡ true = ground (arith, v.lease_len) in
      rw (status_inside, holder_inside, lease_inside)

  -- A reservation of a free ticket keeps the invariant.
  pub with_reserved-IsStore :
      (q : Request) → is_free s q.now id ≡ true → IsStore space ts (with_reserved q s id)
  with_reserved-IsStore q free = record {
    groups = v.groups;
    stock = v.stock;
    status_len = v.status_len;
    holder_len = v.holder_len;
    lease_len = v.lease_len;
    number_len = v.number_len;
    unsold_len = v.unsold_len;
    bitmap = v.bitmap;
    bitmap_size = v.bitmap_size;
    counts = λ n k.
        v.counts n k
        ∙ sym (
            unsold_in-unsold s.status.at id reserved (ids_of n ts) (unsold (s.status.at id) free)
              refl);
    listed = v.listed;
  }
    where
      unsold :
          (status : Status)
          → free_status status (s.lease_until.at id) q.now ≡ true
          → is_sold status ≡ false
      unsold available e = refl
      unsold reserved e = refl
      unsold sold e = cc

-- One ticket that is free, of a number that is asked for, is reserved while there is room.
pub data Step (size : ℕ) (Good : ℕ → Type 0) (q : Request) : Progress → Progress → Type 0 where
  take :
      (x : Progress) (id n : ℕ)
      → length x.out < q.k
      → id < size
      → x.at.number_of.at id ≡ n
      → Good n
      → is_free x.at q.now id ≡ true
      → Step size Good q x (taken q x id n)

pub data Steps (size : ℕ) (Good : ℕ → Type 0) (q : Request) (x : Progress) : Progress → Type 0 where
  here : Steps size Good q x x
  next : {y z : Progress} → Steps size Good q x y → Step size Good q y z → Steps size Good q x z

module _ {size : ℕ} {Good : ℕ → Type 0} {q : Request} where
  pub Steps-trans :
      {x y z : Progress} → Steps size Good q x y → Steps size Good q y z → Steps size Good q x z
  Steps-trans r here = r
  Steps-trans r (next t st) = next (Steps-trans r t) st

-- The invariant of a claim under way.
pub record Going (space : ℕ) (ts : List Ticket) (q : Request) (x : Progress) : Type 0 where
  pub valid : IsStore space ts x.at
  pub room : length x.out ≤ q.k

module _ {space : ℕ} {ts : List Ticket} {Good : ℕ → Type 0} {q : Request} where
  Step-Going :
      {x y : Progress} → Step (length ts) Good q x y → Going space ts q x → Going space ts q y
  Step-Going (take x id n room inside number good free) g = record {
    valid = with_reserved-IsStore g.valid id inside q free;
    room = omega (arith, length-append x.out (reservation q id n ∷ []));
  }

  pub Steps-Going :
      {x y : Progress} → Steps (length ts) Good q x y → Going space ts q x → Going space ts q y
  Steps-Going here g = g
  Steps-Going (next r st) g = Step-Going st (Steps-Going r g)

module _ {size : ℕ} {Good : ℕ → Type 0} {q : Request} (ahead : q.now ≤ q.until) where
  -- A ticket that is not free stays so: what the claim reserves has a lease that has not run out.
  Step_stays :
      {x y : Progress} (id : ℕ)
      → Step size Good q x y
      → is_free x.at q.now id ≡ false
      → is_free y.at q.now id ≡ false
  Step_stays id (take x taken n room inside number good free) h = elim (Bool-cases (taken == id)) [
    | inl own ↦ rw own (ground arith)
    | inr other ↦ rw other h
  ]

  pub Steps_stay :
      {x y : Progress} (id : ℕ)
      → Steps size Good q x y
      → is_free x.at q.now id ≡ false
      → is_free y.at q.now id ≡ false
  Steps_stay id here h = h
  Steps_stay id (next r st) h = Step_stays id st (Steps_stay id r h)
