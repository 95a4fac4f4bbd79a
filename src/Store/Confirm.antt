-- ===== src/Store/Confirm.antt =====
-- Confirm and Release, on every branch.
use Prim.Native.String.{String}
use text.Mathlib.Text.{◌==◌ as str_eq}
use lottery_search_system.Prelude.{
  ℕ, ◌≤◌, ◌<◌, ◌≡◌, refl, ap, sym, ◌∙◌, Bool, true, false, Option, List, some, none, length, ltb,
  leb, if◌then◌else◌, ◌>>=◌, arith, Bool-cases, inl, inr,
}
use lottery_search_system.Prelude.Array.{update}
use lottery_search_system.Prelude.Int.{ℤ, pos, negsuc}
use lottery_search_system.Bitmap.{Bitmap}
use lottery_search_system.Index.{Ticket}
use lottery_search_system.Index.Counts.{ids_of}
use lottery_search_system.TicketStore.{
  Status, available, reserved, sold, not_held, lease_expired, ticket_not_found, Answer, done,
  failed, is_reserved, is_sold,
}
use lottery_search_system.Store.{
  MemoryStore, held_by, sell, confirm_at, confirm, release_at, release,
}
use lottery_search_system.Store.Stock.{unsold_in-unsold}
use lottery_search_system.Store.Valid.{IsStore}
use lottery_search_system.Store.Sell.{with_sold, sell-IsStore}

-- The ticket is reserved, and by this holder.
abbrev pub is_held : MemoryStore → String → ℕ → Bool
is_held s holder id = if is_reserved (s.status.at id) then str_eq (s.holder.at id) holder else false

abbrev pub with_released : MemoryStore → ℕ → MemoryStore
with_released s id = record s {
  status = record { len = s.status.len; at = update s.status.at id available };
  holder = record { len = s.holder.len; at = update s.holder.at id "" };
}

-- What Confirm answers and leaves, `size` being the number of tickets.
pub data Confirms (size : ℕ) (s : MemoryStore) (holder : String) (now : ℕ)
    : ℤ → Answer → MemoryStore → Type 0 where
  negative : (n : ℕ) → Confirms size s holder now (negsuc n) (failed ticket_not_found) s
  unknown : (id : ℕ) → size ≤ id → Confirms size s holder now (pos id) (failed ticket_not_found) s
  refused :
      (id : ℕ)
      → id < size
      → is_held s holder id ≡ false
      → Confirms size s holder now (pos id) (failed not_held) s
  late :
      (id : ℕ)
      → id < size
      → is_held s holder id ≡ true
      → s.lease_until.at id < now
      → Confirms size s holder now (pos id) (failed lease_expired) s
  bought :
      (id : ℕ) (bits : Bitmap)
      → id < size
      → is_held s holder id ≡ true
      → now ≤ s.lease_until.at id
      → Confirms size s holder now (pos id) done (with_sold s id bits)

-- What Release answers and leaves.
pub data Releases (size : ℕ) (s : MemoryStore) (holder : String)
    : ℤ → Answer → MemoryStore → Type 0 where
  negative : (n : ℕ) → Releases size s holder (negsuc n) (failed ticket_not_found) s
  unknown : (id : ℕ) → size ≤ id → Releases size s holder (pos id) (failed ticket_not_found) s
  refused :
      (id : ℕ)
      → id < size
      → is_held s holder id ≡ false
      → Releases size s holder (pos id) (failed not_held) s
  freed :
      (id : ℕ)
      → id < size
      → is_held s holder id ≡ true
      → Releases size s holder (pos id) done (with_released s id)

pub held-unsold :
    (s : MemoryStore) (holder : String) (id : ℕ)
    → is_held s holder id ≡ true
    → is_sold (s.status.at id) ≡ false
held-unsold s holder id h = go (s.status.at id) (str_eq (s.holder.at id) holder) h
  where
    go :
        (status : Status) (same : Bool)
        → (if is_reserved status then same else false) ≡ true
        → is_sold status ≡ false
    go available same e = refl
    go reserved same e = refl
    go sold same e = cc

-- The last test of Confirm.
abbrev sold_unless : MemoryStore → ℕ → Bool → Option (MemoryStore × Answer)
sold_unless s id over = elim over [
  | true ↦ some (s, failed lease_expired)
  | false ↦ (do s' ← sell s id; some (s', done))
]

module _ {space : ℕ} {ts : List Ticket} {s : MemoryStore} (v : IsStore space ts s) where
  held_by-is_held :
      (id : ℕ) (holder : String) → id < length ts → held_by s id holder ≡ some (is_held s holder id)
  unfolding held_by
  held_by-is_held id holder h =
      let status_inside : ltb id s.status.len ≡ true = ground (arith, v.status_len) in
      let holder_inside : ltb id s.holder.len ≡ true = ground (arith, v.holder_len) in
      rw status_inside (go (is_reserved (s.status.at id)) holder_inside)
    where
      go :
          (b : Bool)
          → ltb id s.holder.len ≡ true
          → elim b as (λ _. Option Bool) [
            | true ↦
                ((if ltb id s.holder.len then some (s.holder.at id) else none) >>= λ owner.
                some (str_eq owner holder))
            | false ↦ some false
          ]
            ≡ some (if b then str_eq (s.holder.at id) holder else false)
      go true e = rw e
      go false e = refl

  -- Confirm never panics on a store that satisfies the invariant, keeps the invariant, and does what
  -- `Confirms` says: an unknown id, a ticket that is not held by this holder and a lease that has
  -- run out are refused with the store as it was, in that order, and otherwise the ticket is sold.
  pub confirm-Confirms :
      (id : ℤ) (holder : String) (now : ℕ)
      → (a : Answer) × (s' : MemoryStore) × (confirm s id holder now ≡ some (s', a))
        × IsStore space ts s'
        × Confirms (length ts) s holder now id a s'
  unfolding confirm confirm_at
  confirm-Confirms (negsuc n) holder now = (failed ticket_not_found, s, refl, v, negative n)
  confirm-Confirms (pos id) holder now = elim (Bool-cases (leb s.status.len id)) [
    | inl beyond ↦ (
      failed ticket_not_found,
      s,
      rw (confirm, confirm_at, beyond) refl,
      v,
      unknown id (ground (arith, v.status_len)),
    )
    | inr within ↦
        let h : id < length ts = ground (arith, v.status_len) in
        let found = held_by-is_held id holder h in
        elim (Bool-cases (is_held s holder id)) [
          | inr other ↦ (
            failed not_held,
            s,
            rw (confirm, confirm_at, within, found, other) refl,
            v,
            refused id h other,
          )
          | inl own ↦
              let lease_inside : ltb id s.lease_until.len ≡ true = ground (arith, v.lease_len) in
              elim (Bool-cases (ltb (s.lease_until.at id) now)) [
                | inl over ↦ (
                  failed lease_expired,
                  s,
                  rw (confirm, confirm_at, within, found, own, lease_inside)
                      (ap (sold_unless s id) over),
                  v,
                  late id h own (ground arith),
                )
                | inr running ↦
                    let (bits, sells, valid) = sell-IsStore v id h (held-unsold s holder id own) in
                    (
                      done,
                      with_sold s id bits,
                      rw (confirm, confirm_at, within, found, own, lease_inside)
                          (ap (sold_unless s id) running ∙ rw sells refl),
                      valid,
                      bought id bits h own (ground arith),
                    )
              ]
        ]
  ]

  with_released-IsStore :
      (id : ℕ) → is_sold (s.status.at id) ≡ false → IsStore space ts (with_released s id)
  with_released-IsStore id unsold = record {
    groups = v.groups;
    stock = v.stock;
    status_len = v.status_len;
    holder_len = v.holder_len;
    lease_len = v.lease_len;
    number_len = v.number_len;
    unsold_len = v.unsold_len;
    bitmap = v.bitmap;
    bitmap_size = v.bitmap_size;
    counts = λ n k.
        v.counts n k ∙ sym (unsold_in-unsold s.status.at id available (ids_of n ts) unsold refl);
    listed = v.listed;
  }

  -- Release never panics on a store that satisfies the invariant, keeps the invariant, and does what
  -- `Releases` says: an unknown id and a ticket that is not held by this holder are refused with the
  -- store as it was, in that order, and otherwise the ticket is available and has no holder.
  pub release-Releases :
      (id : ℤ) (holder : String)
      → (a : Answer) × (s' : MemoryStore) × (release s id holder ≡ some (s', a))
        × IsStore space ts s'
        × Releases (length ts) s holder id a s'
  unfolding release release_at
  release-Releases (negsuc n) holder = (failed ticket_not_found, s, refl, v, negative n)
  release-Releases (pos id) holder = elim (Bool-cases (leb s.status.len id)) [
    | inl beyond ↦ (
      failed ticket_not_found,
      s,
      rw (release, release_at, beyond) refl,
      v,
      unknown id (ground (arith, v.status_len)),
    )
    | inr within ↦
        let h : id < length ts = ground (arith, v.status_len) in
        let found = held_by-is_held id holder h in
        let status_inside : ltb id s.status.len ≡ true = ground (arith, v.status_len) in
        let holder_inside : ltb id s.holder.len ≡ true = ground (arith, v.holder_len) in
        elim (Bool-cases (is_held s holder id)) [
          | inr other ↦ (
            failed not_held,
            s,
            rw (release, release_at, within, found, other) refl,
            v,
            refused id h other,
          )
          | inl own ↦ (
            done,
            with_released s id,
            rw (release, release_at, within, found, own, status_inside, holder_inside) refl,
            with_released-IsStore id (held-unsold s holder id own),
            freed id h own,
          )
        ]
  ]
