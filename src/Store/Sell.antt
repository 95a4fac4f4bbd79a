-- ===== src/Store/Sell.antt =====
-- The end of Confirm: the sale of a reserved ticket.
use lottery_search_system.Prelude.{
  ℕ, ◌-◌, ◌^◌, ◌<◌, ◌≡◌, ◌≢◌, ◌∙◌, true, false, not, List, some, length, ltb, ◌==◌, arith,
  Bool-cases, inl, inr, subst,
}
use lottery_search_system.Prelude.Array.{update, update_self}
use lottery_search_system.Bitmap.{Bitmap}
use lottery_search_system.Bitmap.Members.{member, IsBitmap, clear_bit-member}
use lottery_search_system.Index.{Ticket}
use lottery_search_system.Index.Counts.{ids_of}
use lottery_search_system.TicketStore.{sold, is_sold}
use lottery_search_system.Store.{MemoryStore, add16, sell}
use lottery_search_system.Store.Stock.{
  unsold_in, unsold_in-sold, unsold_in_pos, unsold_in-le, occurs_other,
}
use lottery_search_system.Store.Valid.{IsStore}

-- The store after the sale, `bits` being the bitmap that is left.
abbrev pub with_sold : MemoryStore → ℕ → Bitmap → MemoryStore
with_sold s id bits = record s {
  status = record { len = s.status.len; at = update s.status.at id sold };
  unsold = record {
    len = s.unsold.len;
    at = update s.unsold.at (s.number_of.at id) (s.unsold.at (s.number_of.at id) - 1);
  };
  unsold_numbers = bits;
}

module _ {space : ℕ} {ts : List Ticket} {s : MemoryStore} (v : IsStore space ts s) (id : ℕ)
    (h : id < length ts) (unsold : is_sold (s.status.at id) ≡ false) where
  abbrev number : ℕ
  number = s.number_of.at id

  abbrev count : ℕ
  count = s.unsold.at number

  in_space : number < space
  in_space = (v.stock.once id h).0

  count_pos : 0 < count
  count_pos = omega (
    arith,
    v.counts number in_space,
    unsold_in_pos s.status.at id (ids_of number ts) unsold (v.stock.once id h).1,
  )

  count_fits : count < 2 ^ 16
  count_fits = omega (
    arith,
    v.counts number in_space,
    unsold_in-le s.status.at (ids_of number ts),
    v.stock.few number,
  )

  less : add16 count (2 ^ 16 - 1) ≡ count - 1
  less = omega (arith, count_pos, count_fits)

  counts_number : count - 1 ≡ unsold_in (update s.status.at id sold) (ids_of number ts)
  counts_number = omega (
    arith,
    v.counts number in_space,
    unsold_in-sold s.status.at id (ids_of number ts) unsold,
    (v.stock.once id h).1,
  )

  counts_sold :
      (n : ℕ)
      → n < space
      → update s.unsold.at number (count - 1) n
        ≡ unsold_in (update s.status.at id sold) (ids_of n ts)
  counts_sold n inside = elim (Bool-cases (number == n)) [
    | inl own ↦
        let e : number ≡ n = ground arith in
        rw own (
          subst (λ m. count - 1 ≡ unsold_in (update s.status.at id sold) (ids_of m ts)) e
            counts_number)
    | inr other ↦
        let apart : number ≢ n = λ e. ground arith in
        let absent =
          occurs_other s.number_of.at id (length ts) n (ids_of n ts) (v.stock.members n) apart in
        rw other (
          omega
            (arith, v.counts n inside, unsold_in-sold s.status.at id (ids_of n ts) unsold, absent))
  ]

  with_sold-IsStore :
      (bits : Bitmap)
      → IsBitmap bits
      → bits.size ≡ space
      → ((n : ℕ) → n < space → member bits n ≡ not (update s.unsold.at number (count - 1) n == 0))
      → IsStore space ts (with_sold s id bits)
  with_sold-IsStore bits valid size listed = record {
    groups = v.groups;
    stock = v.stock;
    status_len = v.status_len;
    holder_len = v.holder_len;
    lease_len = v.lease_len;
    number_len = v.number_len;
    unsold_len = v.unsold_len;
    bitmap = valid;
    bitmap_size = size;
    counts = counts_sold;
    listed = listed;
  }

  pub sell-IsStore :
      (bits : Bitmap) × (sell s id ≡ some (with_sold s id bits))
      × IsStore space ts (with_sold s id bits)
  unfolding sell
  sell-IsStore =
      let status_inside : ltb id s.status.len ≡ true = ground (arith, v.status_len) in
      let number_inside : ltb id s.number_of.len ≡ true = ground (arith, v.number_len) in
      let unsold_inside : ltb number s.unsold.len ≡ true = ground (arith, v.unsold_len, in_space) in
      elim (Bool-cases (count - 1 == 0)) [
        | inl last ↦
            let (bits, cleared, valid, size, members) =
              clear_bit-member s.unsold_numbers v.bitmap number
                (omega (arith, v.bitmap_size, in_space)) in
            (
              bits,
              rw (
                status_inside,
                number_inside,
                unsold_inside,
                less,
                update_self s.unsold.at number (count - 1),
                unsold_inside,
                last,
                cleared,
              ),
              with_sold-IsStore bits valid (size ∙ v.bitmap_size)
                  (λ n inside. ground (arith, members n, v.listed n inside)),
            )
        | inr more ↦ (
          s.unsold_numbers,
          rw (
            status_inside,
            number_inside,
            unsold_inside,
            less,
            update_self s.unsold.at number (count - 1),
            unsold_inside,
            more,
          ),
          with_sold-IsStore s.unsold_numbers v.bitmap v.bitmap_size
              (λ n inside. ground (arith, count_pos, v.listed n inside)),
        )
      ]
