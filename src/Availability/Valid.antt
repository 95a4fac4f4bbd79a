-- ===== src/Availability/Valid.antt =====
-- The invariant of the hint, and its operations on single numbers.
use lottery_search_system.Prelude.{
  ℕ, ◌-◌, ◌<◌, ◌≡◌, refl, ap, ◌∙◌, true, false, not, some, ltb, leb, ◌==◌, if◌then◌else◌, arith,
  Bool-cases, inl, inr,
}
use mathlib.Core.Path.{fun_ext}
use lottery_search_system.Prelude.Array.{update, update_self}
use lottery_search_system.Prelude.Int.{pos}
use lottery_search_system.Bitmap.Members.{
  member, IsBitmap, new_bitmap-IsBitmap, member-new_bitmap, new_bitmap_size, set_bit-member,
  clear_bit-member, test_bit-member,
}
use lottery_search_system.Availability.{
  Availability, new_availability, maybe_available, lowered, mark_sold, mark_available,
}

-- The bitmap lists the numbers whose count is above zero.
pub record IsHint (space : ℕ) (a : Availability) : Type 0 where
  pub len : a.counts.len ≡ space
  pub bitmap : IsBitmap a.non_zero
  pub size : a.non_zero.size ≡ space
  pub listed : (n : ℕ) → n < space → member a.non_zero n ≡ not (a.counts.at n == 0)

pub new_availability-IsHint : (space : ℕ) → IsHint space (new_availability space)
unfolding new_availability
new_availability-IsHint space = record {
  len = refl;
  bitmap = new_bitmap-IsBitmap space;
  size = new_bitmap_size space;
  listed = λ n h. member-new_bitmap space n;
}

module _ {space : ℕ} {a : Availability} (v : IsHint space a) where
  pub maybe_available-some :
      (n : ℕ) → n < space → maybe_available space a (pos n) ≡ some (not (a.counts.at n == 0))
  unfolding maybe_available
  maybe_available-some n h =
      let within : leb space n ≡ false = ground arith in
      rw (maybe_available, within)
        (test_bit-member a.non_zero v.bitmap n (omega (arith, v.size)) ∙ ap some (v.listed n h))

  lowered-update :
      (n : ℕ)
      → n < space
      → lowered a.counts n
        ≡ some (record a.counts { at = update a.counts.at n (a.counts.at n - 1) })
  lowered-update n h =
      let counts_inside : ltb n a.counts.len ≡ true = ground (arith, v.len) in
      elim (Bool-cases (ltb 0 (a.counts.at n))) [
        | inl above ↦ rw (counts_inside, above) refl
        | inr empty ↦
            rw (counts_inside, empty)
              (ap (λ f. some (record a.counts { at = f })) (fun_ext (λ m. ground arith)))
      ]

  -- MarkSold of a number in the space lowers its count by one, to no less than zero, and no other.
  pub mark_sold-count :
      (n : ℕ)
      → n < space
      → (a' : Availability) × (mark_sold space a (pos n) ≡ some a')
        × IsHint space a'
        × ((m : ℕ) → a'.counts.at m ≡ update a.counts.at n (a.counts.at n - 1) m)
  unfolding mark_sold
  mark_sold-count n h =
      let within : leb space n ≡ false = ground arith in
      let counts_inside : ltb n a.counts.len ≡ true = ground (arith, v.len) in
      let less = lowered-update n h in
      let new : ℕ → ℕ = update a.counts.at n (a.counts.at n - 1) in
      elim (Bool-cases (a.counts.at n - 1 == 0)) [
        | inl last ↦
            let (bits, cleared, valid, size, members) =
              clear_bit-member a.non_zero v.bitmap n (omega (arith, v.size)) in
            (
              record a { counts = record a.counts { at = new }; non_zero = bits },
              rw (
                mark_sold,
                within,
                less,
                counts_inside,
                update_self a.counts.at n (a.counts.at n - 1),
                last,
                cleared,
              ),
              record {
                len = v.len;
                bitmap = valid;
                size = size ∙ v.size;
                listed = λ m k. ground (arith, members m, v.listed m k);
              },
              λ m. refl,
            )
        | inr more ↦ (
          record a { counts = record a.counts { at = new } },
          rw (
            mark_sold,
            within,
            less,
            counts_inside,
            update_self a.counts.at n (a.counts.at n - 1),
            more,
          ),
          record {
            len = v.len;
            bitmap = v.bitmap;
            size = v.size;
            listed = λ m k. ground (arith, v.listed m k);
          },
          λ m. refl,
        )
      ]

  -- MarkAvailable of a number in the space raises its count to one if it is zero, and changes no
  -- other.
  pub mark_available-count :
      (n : ℕ)
      → n < space
      → (a' : Availability) × (mark_available space a (pos n) ≡ some a')
        × IsHint space a'
        × ((m : ℕ)
            → a'.counts.at m
              ≡ update a.counts.at n (if a.counts.at n == 0 then 1 else a.counts.at n) m)
  unfolding mark_available
  mark_available-count n h =
      let within : leb space n ≡ false = ground arith in
      let counts_inside : ltb n a.counts.len ≡ true = ground (arith, v.len) in
      let (bits, set, valid, size, members) =
        set_bit-member a.non_zero v.bitmap n (omega (arith, v.size)) in
      elim (Bool-cases (a.counts.at n == 0)) [
        | inl empty ↦ (
          record a { counts = record a.counts { at = update a.counts.at n 1 }; non_zero = bits },
          rw (mark_available, within, counts_inside, empty, set),
          record {
            len = v.len;
            bitmap = valid;
            size = size ∙ v.size;
            listed = λ m k. ground (arith, members m, v.listed m k);
          },
          λ m. rw empty refl,
        )
        | inr stocked ↦ (
          record a { non_zero = bits },
          rw (mark_available, within, counts_inside, stocked, set),
          record {
            len = v.len;
            bitmap = valid;
            size = size ∙ v.size;
            listed = λ m k. ground (arith, members m, v.listed m k);
          },
          λ m. ground arith,
        )
      ]
