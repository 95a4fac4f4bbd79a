-- ===== src/Store/Stock.antt =====
-- The tickets that a store is loaded with: which number each id has, when the ids are dense.
use lottery_search_system.Prelude.{
  ℕ, ◌+◌, ◌^◌, ◌≤◌, ◌<◌, ◌≡◌, ◌≢◌, refl, true, false, List, [], ◌∷◌, length, ◌==◌, if◌then◌else◌,
  All, All-imp, arith, Bool-cases, inl, inr,
}
use lottery_search_system.Prelude.Array.{update}
use lottery_search_system.Index.{Ticket}
use lottery_search_system.Index.Counts.{ids_of, InSpace}
use lottery_search_system.TicketStore.{Status, available, sold, is_sold}

-- How often an id stands in a list, and how many tickets have it.
unfoldable pub occurs : ℕ → List ℕ → ℕ
occurs id [] = 0
occurs id (x ∷ xs) = (if x == id then 1 else 0) + occurs id xs

unfoldable pub tickets_with : ℕ → List Ticket → ℕ
tickets_with id [] = 0
tickets_with id (t ∷ ts) = (if t.id == id then 1 else 0) + tickets_with id ts

-- The number that the last ticket with this id has, and `d` if there is none.
unfoldable pub last_number : ℕ → ℕ → List Ticket → ℕ
last_number d id [] = d
last_number d id (t ∷ ts) = last_number (if t.id == id then t.number else d) id ts

-- The ids are 0 to len - 1, each once, as NewMemoryStore requires. The numbers lie in the space, and
-- no number has so many tickets that their count leaves a uint16.
pub record IsDense (space : ℕ) (ts : List Ticket) : Type 0 where
  pub in_space : InSpace space ts
  pub ids_fit : All (λ (t : Ticket). t.id < length ts) ts
  pub once : (id : ℕ) → id < length ts → tickets_with id ts ≡ 1
  pub few : (n : ℕ) → length (ids_of n ts) < 2 ^ 16
  pub short : length ts < 2 ^ 31

last_number_none : (d id : ℕ) (ts : List Ticket) → tickets_with id ts ≡ 0 → last_number d id ts ≡ d
unfolding last_number tickets_with
last_number_none d id [] h = refl
last_number_none d id (t ∷ ts) h = ground (arith, last_number_none d id ts)

-- Every ticket's id has the ticket's number.
pub last_number-ids_of :
    (d : ℕ → ℕ) (n : ℕ) (ts : List Ticket)
    → All (λ (t : Ticket). tickets_with t.id ts ≤ 1) ts
    → All (λ id. last_number (d id) id ts ≡ n) (ids_of n ts)
unfolding last_number ids_of tickets_with
last_number-ids_of d n [] h = tt
last_number-ids_of d n (t ∷ ts) h =
    let later : All (λ (u : Ticket). tickets_with u.id ts ≤ 1) ts =
      All-imp (λ u k. omega (arith, k)) ts h.1 in
    let rest = last_number-ids_of (λ id. if t.id == id then t.number else d id) n ts later in
    elim (Bool-cases (t.number == n)) [
      | inl own ↦ rw own (ground (arith, last_number_none t.number t.id ts), rest)
      | inr other ↦ rw other rest
    ]

occurs-le-tickets_with :
    (id n : ℕ) (ts : List Ticket) → occurs id (ids_of n ts) ≤ tickets_with id ts
unfolding occurs ids_of tickets_with
occurs-le-tickets_with id n [] = omega arith
occurs-le-tickets_with id n (t ∷ ts) = ground (arith, occurs-le-tickets_with id n ts)

occurs-cons :
    (id n : ℕ) (t : Ticket) (ts : List Ticket)
    → occurs id (ids_of n (t ∷ ts))
      ≡ (if t.number == n then (if t.id == id then 1 else 0) else 0) + occurs id (ids_of n ts)
unfolding occurs ids_of
occurs-cons id n t ts = ground arith

-- An id that one ticket has stands once among the ids of its number, which lies in the space.
pub occurs-last_number :
    (space d id : ℕ) (ts : List Ticket)
    → InSpace space ts
    → tickets_with id ts ≡ 1
    → (last_number d id ts < space) × (occurs id (ids_of (last_number d id ts) ts) ≡ 1)
unfolding tickets_with last_number
occurs-last_number space d id [] s h = absurd (omega arith)
occurs-last_number space d id (t ∷ ts) s h = elim (Bool-cases (t.id == id)) [
  | inl own ↦
      let none_left : tickets_with id ts ≡ 0 = ground arith in
      rw (own, last_number_none t.number id ts none_left)
        (s.0, ground (arith, occurs-cons id t.number t ts, occurs-le-tickets_with id t.number ts))
  | inr other ↦
      let one : tickets_with id ts ≡ 1 = ground arith in
      let (inside, single) = occurs-last_number space d id ts s.1 one in
      rw other (inside, ground (arith, occurs-cons id (last_number d id ts) t ts, single))
]

-- What a store knows of its tickets, `number` being its table from ids to numbers.
pub record IsStock (space : ℕ) (ts : List Ticket) (number : ℕ → ℕ) : Type 0 where
  pub members : (n : ℕ) → All (λ id. (id < length ts) × (number id ≡ n)) (ids_of n ts)
  pub once :
      (id : ℕ) → id < length ts → (number id < space) × (occurs id (ids_of (number id) ts) ≡ 1)
  pub few : (n : ℕ) → length (ids_of n ts) < 2 ^ 16

-- How many of these tickets are not sold.
unfoldable pub unsold_in : (ℕ → Status) → List ℕ → ℕ
unsold_in status [] = 0
unsold_in status (id ∷ ids) = (if is_sold (status id) then 0 else 1) + unsold_in status ids

pub unsold_in-available : (ids : List ℕ) → unsold_in (λ id. available) ids ≡ length ids
unfolding unsold_in
unsold_in-available [] = refl
unsold_in-available (id ∷ ids) = omega (arith, unsold_in-available ids)

pub unsold_in-le : (status : ℕ → Status) (ids : List ℕ) → unsold_in status ids ≤ length ids
unfolding unsold_in
unsold_in-le status [] = omega arith
unsold_in-le status (id ∷ ids) = ground (arith, unsold_in-le status ids)

-- A status that changes between two that are not sold leaves the count alone, and a sale lowers it
-- by one for each place where the ticket stands.
pub unsold_in-unsold :
    (status : ℕ → Status) (id : ℕ) (new : Status) (ids : List ℕ)
    → is_sold (status id) ≡ false
    → is_sold new ≡ false
    → unsold_in (update status id new) ids ≡ unsold_in status ids
unfolding unsold_in
unsold_in-unsold status id new [] h k = refl
unsold_in-unsold status id new (x ∷ ids) h k =
    ground (arith, unsold_in-unsold status id new ids h k)

pub unsold_in-sold :
    (status : ℕ → Status) (id : ℕ) (ids : List ℕ)
    → is_sold (status id) ≡ false
    → unsold_in (update status id sold) ids + occurs id ids ≡ unsold_in status ids
unfolding unsold_in occurs
unsold_in-sold status id [] h = omega arith
unsold_in-sold status id (x ∷ ids) h = ground (arith, unsold_in-sold status id ids h)

-- A ticket of another number does not stand among these.
pub occurs_other :
    (number : ℕ → ℕ) (id n m : ℕ) (ids : List ℕ)
    → All (λ x. (x < n) × (number x ≡ m)) ids
    → number id ≢ m
    → occurs id ids ≡ 0
unfolding occurs
occurs_other number id n m [] h k = refl
occurs_other number id n m (x ∷ ids) h k = ground (arith, occurs_other number id n m ids h.1 k)

pub unsold_in_pos :
    (status : ℕ → Status) (id : ℕ) (ids : List ℕ)
    → is_sold (status id) ≡ false
    → occurs id ids ≡ 1
    → 0 < unsold_in status ids
unsold_in_pos status id ids h one = omega (arith, unsold_in-sold status id ids h)

ids_of-fit :
    (bound n : ℕ) (ts : List Ticket)
    → All (λ (t : Ticket). t.id < bound) ts
    → All (λ id. id < bound) (ids_of n ts)
unfolding ids_of
ids_of-fit bound n [] h = tt
ids_of-fit bound n (t ∷ ts) h = elim (Bool-cases (t.number == n)) [
  | inl own ↦ rw own (h.0, ids_of-fit bound n ts h.1)
  | inr other ↦ rw other (ids_of-fit bound n ts h.1)
]

All-zip : (P Q : ℕ → Type 0) (xs : List ℕ) → All P xs → All Q xs → All (λ x. P x × Q x) xs
All-zip P Q [] h k = tt
All-zip P Q (x ∷ xs) h k = ((h.0, k.0), All-zip P Q xs h.1 k.1)

-- A dense list of tickets and the table that is read off it.
pub IsDense-IsStock :
    (space : ℕ) (ts : List Ticket) → IsDense space ts → IsStock space ts (λ id. last_number 0 id ts)
IsDense-IsStock space ts d = record {
  members = λ n. All-zip _ _ (ids_of n ts) (ids_of-fit (length ts) n ts d.ids_fit) (
      last_number-ids_of (λ id. 0) n ts
        (All-imp (λ t h. omega (arith, d.once t.id h)) ts d.ids_fit));
  once = λ id h. occurs-last_number space 0 id ts d.in_space (d.once id h);
  few = d.few;
}

-- A number whose count is zero has no ticket that is not sold.
pub All-sold :
    (status : ℕ → Status) (ids : List ℕ)
    → unsold_in status ids ≡ 0
    → All (λ id. is_sold (status id) ≡ true) ids
unfolding unsold_in
All-sold status [] h = tt
All-sold status (x ∷ ids) h = (ground arith, All-sold status ids (ground arith))
