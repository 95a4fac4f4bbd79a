-- ===== src/Store/Valid.antt =====
-- The invariant of the memory store, and NewMemoryStore.
use lottery_search_system.Prelude.{
  ℕ, ◌+◌, ◌^◌, ◌<◌, ◌≡◌, refl, ap, true, not, List, [], ◌∷◌, some, length, ltb, ◌==◌, if◌then◌else◌,
  All, arith,
}
use mathlib.Core.Path.{fun_ext}
use lottery_search_system.Prelude.Array.{make, update}
use lottery_search_system.Bitmap.Members.{
  member, IsBitmap, new_bitmap-IsBitmap, member-new_bitmap, set_bit-member, new_bitmap_size,
}
use lottery_search_system.Bitmap.{new_bitmap}
use lottery_search_system.Index.{Ticket, Index}
use lottery_search_system.Index.Counts.{ids_of, InSpace}
use lottery_search_system.Index.Laws.{Groups, build_index-Groups}
use lottery_search_system.TicketStore.{available}
use lottery_search_system.Store.{MemoryStore, add16, enter_tickets, new_memory_store}
use lottery_search_system.Store.Stock.{
  IsDense, IsStock, last_number, unsold_in, unsold_in-available, IsDense-IsStock,
}

pub record IsStore (space : ℕ) (ts : List Ticket) (s : MemoryStore) : Type 0 where
  pub groups : Groups space ts s.index
  pub stock : IsStock space ts s.number_of.at
  pub status_len : s.status.len ≡ length ts
  pub holder_len : s.holder.len ≡ length ts
  pub lease_len : s.lease_until.len ≡ length ts
  pub number_len : s.number_of.len ≡ length ts
  pub unsold_len : s.unsold.len ≡ space
  pub bitmap : IsBitmap s.unsold_numbers
  pub bitmap_size : s.unsold_numbers.size ≡ space
  -- unsold[n] counts the tickets of number n that are not sold,
  pub counts : (n : ℕ) → n < space → s.unsold.at n ≡ unsold_in s.status.at (ids_of n ts)
  -- and the bitmap lists the numbers whose count is above zero.
  pub listed : (n : ℕ) → n < space → member s.unsold_numbers n ≡ not (s.unsold.at n == 0)

-- What the loop of NewMemoryStore leaves.
record Entered (space : ℕ) (ts : List Ticket) (s s' : MemoryStore) : Type 0 where
  index : s'.index ≡ s.index
  status : s'.status ≡ s.status
  holder : s'.holder ≡ s.holder
  lease : s'.lease_until ≡ s.lease_until
  number_len : s'.number_of.len ≡ s.number_of.len
  numbers : (id : ℕ) → s'.number_of.at id ≡ last_number (s.number_of.at id) id ts
  unsold_len : s'.unsold.len ≡ space
  counts : (n : ℕ) → s'.unsold.at n ≡ s.unsold.at n + length (ids_of n ts)
  bitmap : IsBitmap s'.unsold_numbers
  bitmap_size : s'.unsold_numbers.size ≡ space
  listed : (n : ℕ) → n < space → member s'.unsold_numbers n ≡ not (s'.unsold.at n == 0)

length-ids_of-cons :
    (n : ℕ) (t : Ticket) (ts : List Ticket)
    → length (ids_of n (t ∷ ts)) ≡ (if t.number == n then 1 else 0) + length (ids_of n ts)
unfolding ids_of
length-ids_of-cons n t ts = ground arith

enter_tickets-Entered :
    (space : ℕ) (ts : List Ticket) (s : MemoryStore)
    → InSpace space ts
    → All (λ (t : Ticket). t.id < s.number_of.len) ts
    → ((n : ℕ) → s.unsold.at n + length (ids_of n ts) < 2 ^ 16)
    → s.unsold.len ≡ space
    → IsBitmap s.unsold_numbers
    → s.unsold_numbers.size ≡ space
    → ((n : ℕ) → n < space → member s.unsold_numbers n ≡ not (s.unsold.at n == 0))
    → (s' : MemoryStore) × (enter_tickets s ts ≡ some s') × Entered space ts s s'
unfolding enter_tickets last_number ids_of
enter_tickets-Entered space [] s h ids room len bitmap size listed = (
  s,
  refl,
  record {
    index = refl;
    status = refl;
    holder = refl;
    lease = refl;
    number_len = refl;
    numbers = λ id. refl;
    unsold_len = len;
    counts = λ n. omega arith;
    bitmap = bitmap;
    bitmap_size = size;
    listed = listed;
  },
)
enter_tickets-Entered space (t ∷ ts) s h ids room len bitmap size listed =
    let (bits, set, valid, same, members) =
      set_bit-member s.unsold_numbers bitmap t.number (omega (arith, h.0)) in
    let id_inside : ltb t.id s.number_of.len ≡ true = ground (arith, ids.0) in
    let number_inside : ltb t.number s.unsold.len ≡ true = ground (arith, h.0) in
    let s' : MemoryStore = record s {
      number_of = record { len = s.number_of.len; at = update s.number_of.at t.id t.number };
      unsold = record {
        len = s.unsold.len;
        at = update s.unsold.at t.number (add16 (s.unsold.at t.number) 1);
      };
      unsold_numbers = bits;
    } in
    let grown : (n : ℕ) → s'.unsold.at n ≡ s.unsold.at n + (if t.number == n then 1 else 0) =
      λ n. ground (arith, room t.number, length-ids_of-cons t.number t ts) in
    let (r, run, e) =
      enter_tickets-Entered space ts s' h.1 ids.1
        (λ n. omega (arith, grown n, room n, length-ids_of-cons n t ts)) len valid (omega arith)
        (λ n k. ground (arith, members n, listed n k, grown n)) in
    (
      r,
      rw (id_inside, number_inside, set) run,
      record {
        index = e.index;
        status = e.status;
        holder = e.holder;
        lease = e.lease;
        number_len = e.number_len;
        numbers = e.numbers;
        unsold_len = e.unsold_len;
        counts = λ n. omega (arith, e.counts n, grown n, length-ids_of-cons n t ts);
        bitmap = e.bitmap;
        bitmap_size = e.bitmap_size;
        listed = e.listed;
      },
    )

abbrev empty_store : ℕ → List Ticket → Index → MemoryStore
empty_store space ts index = record {
  index = index;
  status = make (length ts) available;
  holder = make (length ts) "";
  lease_until = make (length ts) 0;
  number_of = make (length ts) 0;
  unsold = make space 0;
  unsold_numbers = new_bitmap space;
}

-- On tickets with the ids 0 to len - 1, each once, with numbers in the space, fewer than 2^16 of each
-- number and fewer than 2^31 in all, NewMemoryStore does not panic, and the store that it builds
-- satisfies the invariant, with every ticket available.
pub new_memory_store-IsStore :
    (space : ℕ) (ts : List Ticket)
    → IsDense space ts
    → (s : MemoryStore) × (new_memory_store space ts ≡ some s)
      × IsStore space ts s
      × ((id : ℕ) → s.status.at id ≡ available)
unfolding new_memory_store
new_memory_store-IsStore space ts d =
    let (index, built, groups) = build_index-Groups space ts d.in_space d.short in
    let (s, run, e) =
      enter_tickets-Entered space ts (empty_store space ts index) d.in_space d.ids_fit
        (λ n. omega (arith, d.few n)) refl (new_bitmap-IsBitmap space) (new_bitmap_size space)
        (λ n h. member-new_bitmap space n) in
    (
      s,
      rw (built, run),
      record {
        groups = rw e.index groups;
        stock = rw (fun_ext e.numbers) (IsDense-IsStock space ts d);
        status_len = ap (λ a. a.len) e.status;
        holder_len = ap (λ a. a.len) e.holder;
        lease_len = ap (λ a. a.len) e.lease;
        number_len = e.number_len;
        unsold_len = e.unsold_len;
        bitmap = e.bitmap;
        bitmap_size = e.bitmap_size;
        counts = λ n h. rw e.status (omega (arith, e.counts n, unsold_in-available (ids_of n ts)));
        listed = e.listed;
      },
      λ id. ap (λ a. a.at id) e.status,
    )
