-- ===== src/Store.antt =====
-- store.go: the store that keeps every ticket in memory. Each method holds the mutex from its first
-- line to its last, so a call is one step from a store to the next, and the time that it reads from
-- the clock is an argument. `none` is a run-time panic, or fuel that ran out.
pub mod Stock
pub mod Valid
pub mod Reserve
pub mod Spread
pub mod Pass
pub mod Rounds
pub mod Claimed
pub mod Sell
pub mod Confirm
pub mod History
pub mod Safety
pub mod Tests
pub mod Claim
use Prim.Native.String.{String}
use text.Mathlib.Text.{◌==◌ as str_eq}
use lottery_search_system.Prelude.{
  ℕ, zero, suc, ◌+◌, ◌-◌, ◌%◌, ◌^◌, Bool, true, false, not, ◌&&◌, ◌||◌, List, [], ◌∷◌, ◌++◌, Option,
  none, some, length, ltb, leb, ◌==◌, if◌then◌else◌, ◌>>=◌,
}
use lottery_search_system.Prelude.Array.{Array, make, load, store}
use lottery_search_system.Prelude.Int.{ℤ, pos, negsuc}
use lottery_search_system.Pattern.{Pattern, match_count}
use lottery_search_system.Walker.{Draws}
use lottery_search_system.Candidates.{Candidates, candidates, next_batch}
use lottery_search_system.Bitmap.{Bitmap, new_bitmap, set_bit, clear_bit, test_bit}
use lottery_search_system.Index.{Ticket, Index, build_index, tickets_for}
use lottery_search_system.TicketStore.{
  Status, available, reserved, sold, not_held, lease_expired, ticket_not_found, Answer, done,
  failed, Reservation, is_reserved,
}

-- How many candidate numbers are considered at a time.
abbrev pub batch_size : ℕ
batch_size = 64

pub record MemoryStore : Type 0 where
  pub index : Index
  pub status : Array Status
  pub holder : Array String
  pub lease_until : Array ℕ
  pub number_of : Array ℕ
  pub unsold : Array ℕ
  pub unsold_numbers : Bitmap

-- uint16 arithmetic.
abbrev pub add16 : ℕ → ℕ → ℕ
add16 a b = (a + b) % 2 ^ 16

-- The loop of NewMemoryStore.
pub enter_tickets : MemoryStore → List Ticket → Option MemoryStore
enter_tickets s [] = some s
enter_tickets s (t ∷ ts) = do
  numbers ← store s.number_of t.id t.number
  count ← load s.unsold t.number
  unsold ← store s.unsold t.number (add16 count 1)
  bits ← set_bit s.unsold_numbers t.number
  enter_tickets (record s { number_of = numbers; unsold = unsold; unsold_numbers = bits }) ts

unfoldable pub new_memory_store : ℕ → List Ticket → Option MemoryStore
unfolding enter_tickets
new_memory_store space tickets = do
  index ← build_index space tickets
  enter_tickets
      (record {
        index = index;
        status = make (length tickets) available;
        holder = make (length tickets) "";
        lease_until = make (length tickets) 0;
        number_of = make (length tickets) 0;
        unsold = make space 0;
        unsold_numbers = new_bitmap space;
      })
      tickets

pub claimable : MemoryStore → ℕ → ℕ → Option Bool
claimable s id now = do
  status ← load s.status id
  elim status [
    | available ↦ some true
    | reserved ↦ (do until ← load s.lease_until id; some (ltb until now))
    | sold ↦ some false
  ]

-- Who claims, when, until when, and how many.
pub record Request : Type 0 where
  pub k : ℕ
  pub holder : String
  pub now : ℕ
  pub until : ℕ

-- The three writes by which a ticket is reserved.
pub reserve : Request → MemoryStore → ℕ → Option MemoryStore
reserve q s id = do
  status ← store s.status id reserved
  holder ← store s.holder id q.holder
  lease ← store s.lease_until id q.until
  some (record s { status = status; holder = holder; lease_until = lease })

-- The store, and the reservations collected so far.
pub record Progress : Type 0 where
  pub at : MemoryStore
  pub out : List Reservation

-- The loop of claimPass over the tickets of one number, of which `taken` are taken already.
pub claim_ids : Request → ℕ → ℕ → ℕ → List ℕ → Progress → Option Progress
claim_ids q per_number number taken [] p = some p
claim_ids q per_number number taken (id ∷ ids) p =
    elim ((length p.out == q.k) || (ltb 0 per_number && taken == per_number)) [
      | true ↦ some p
      | false ↦ (do
        free ← claimable p.at id q.now
        elim free [
          | false ↦ claim_ids q per_number number taken ids p
          | true ↦ (do
            s ← reserve q p.at id
            claim_ids q per_number number (taken + 1) ids (record {
              at = s;
              out = p.out ++ record { ticket_id = id; number = number; lease_until = q.until } ∷ [];
            }))
        ])
    ]

-- The loop of claimPass over the numbers of one batch.
pub claim_batch : Request → ℕ → List ℕ → Progress → Option Progress
unfolding claim_ids
claim_batch q per_number [] p = some p
claim_batch q per_number (n ∷ ns) p = elim (length p.out == q.k) [
  | true ↦ some p
  | false ↦ (do
    listed ← test_bit p.at.unsold_numbers n
    elim listed [
      | false ↦ claim_batch q per_number ns p
      | true ↦ (do
        ids ← tickets_for p.at.index n
        p' ← claim_ids q per_number n 0 ids p
        claim_batch q per_number ns p')
    ])
]

-- The outer loop of claimPass. `cancelled` holds the answers of ctx.Err(), one for each round.
pub claim_rounds : ℕ → (ℕ → Bool) → Request → ℕ → Candidates → Progress → Option Progress
unfolding claim_batch
claim_rounds zero cancelled q per_number c p = none
claim_rounds (suc fuel) cancelled q per_number c p = elim (leb q.k (length p.out) || cancelled 0) [
  | true ↦ some p
  | false ↦
      let (batch, c') = next_batch c batch_size in
      elim batch [
        | [] ↦ some p
        | n ∷ ns ↦ (do
          p' ← claim_batch q per_number (n ∷ ns) p
          claim_rounds fuel (λ i. cancelled (suc i)) q per_number c' p')
      ]
]

-- What claimPass draws from outside: the values of its generator, with the fuel for them, and the
-- answers of the context.
pub record Outside : Type 0 where
  pub draws : Draws
  pub fuel : ℕ
  pub cancelled : ℕ → Bool

-- One round more than there are numbers to walk is fuel enough for the loop.
pub claim_pass : Outside → Pattern → Request → ℕ → Progress → Option Progress
unfolding claim_rounds
claim_pass o p q per_number progress = do
  c ← candidates o.fuel p o.draws
  claim_rounds (match_count p + 1) o.cancelled q per_number c progress

-- Claim, for a count and a lease that are not negative: a pass that takes one ticket of each number, and, if that was not enough, one that takes
-- any.
unfoldable pub claim :
    Outside → Outside → MemoryStore → Pattern → ℕ → String → ℕ → ℕ → Option Progress
unfolding claim_pass
claim first second s p k holder now lease =
    let q : Request = record { k = k; holder = holder; now = now; until = now + lease } in
    (do
      progress ← claim_pass first p q 1 (record { at = s; out = [] })
      elim (ltb (length progress.out) k) [
        | true ↦ claim_pass second p q 0 progress
        | false ↦ some progress
      ])

-- The end of Confirm: the sale, and the count of the number.
pub sell : MemoryStore → ℕ → Option MemoryStore
sell s id = do
  status ← store s.status id sold
  n ← load s.number_of id
  count ← load s.unsold n
  unsold ← store s.unsold n (add16 count (2 ^ 16 - 1))
  left ← load unsold n
  bits ← elim (left == 0) [ true ↦ clear_bit s.unsold_numbers n | false ↦ some s.unsold_numbers ]
  some (record s { status = status; unsold = unsold; unsold_numbers = bits })

-- The ticket is reserved, and by this holder.
unfoldable held_by : MemoryStore → ℕ → String → Option Bool
held_by s id holder = do
  status ← load s.status id
  elim (is_reserved status) [
    | false ↦ some false
    | true ↦ (do owner ← load s.holder id; some (str_eq owner holder))
  ]

unfoldable confirm_at : MemoryStore → ℕ → String → ℕ → Option (MemoryStore × Answer)
unfolding held_by sell
confirm_at s id holder now = elim (leb s.status.len id) [
  | true ↦ some (s, failed ticket_not_found)
  | false ↦ (do
    held ← held_by s id holder
    elim held [
      | false ↦ some (s, failed not_held)
      | true ↦ (do
        until ← load s.lease_until id
        elim (ltb until now) [
          | true ↦ some (s, failed lease_expired)
          | false ↦ (do s' ← sell s id; some (s', done))
        ])
    ])
]

unfoldable pub confirm : MemoryStore → ℤ → String → ℕ → Option (MemoryStore × Answer)
unfolding confirm_at
confirm s (pos id) holder now = confirm_at s id holder now
confirm s (negsuc n) holder now = some (s, failed ticket_not_found)

unfoldable release_at : MemoryStore → ℕ → String → Option (MemoryStore × Answer)
unfolding held_by
release_at s id holder = elim (leb s.status.len id) [
  | true ↦ some (s, failed ticket_not_found)
  | false ↦ (do
    held ← held_by s id holder
    elim held [
      | false ↦ some (s, failed not_held)
      | true ↦ (do
        status ← store s.status id available
        owner ← store s.holder id ""
        some (record s { status = status; holder = owner }, done))
    ])
]

unfoldable pub release : MemoryStore → ℤ → String → Option (MemoryStore × Answer)
unfolding release_at
release s (pos id) holder = release_at s id holder
release s (negsuc n) holder = some (s, failed ticket_not_found)

pub status_of : MemoryStore → ℕ → Option Status
status_of s id = load s.status id
