-- ===== src/Availability/Load.antt =====
-- Load, on the rows that the query answers with.
use lottery_search_system.Prelude.{
  ℕ, ◌%◌, ◌^◌, ◌<◌, ◌≡◌, refl, ap, sym, ◌∙◌, Bool, true, false, not, List, [], ◌∷◌, some, ltb, leb,
  ◌==◌, if◌then◌else◌, All, arith, Bool-cases, inl, inr,
}
use lottery_search_system.Prelude.Array.{Array, make, update}
use lottery_search_system.Prelude.Int.{ℤ, pos, negsuc}
use lottery_search_system.Bitmap.{Bitmap, new_bitmap}
use lottery_search_system.Bitmap.Members.{
  member, IsBitmap, new_bitmap-IsBitmap, member-new_bitmap, new_bitmap_size, set_bit-member,
}
use lottery_search_system.Availability.{
  Availability, Row, uint32, enter_row, enter_rows, ended, load_hint,
}
use lottery_search_system.Availability.Valid.{IsHint}

-- A group of the query has at least one ticket, and their count fits an int32.
abbrev pub IsGroup : Row → Type 0
IsGroup r = (c : ℕ) × (r.count ≡ pos c) × (0 < c) × (c < 2 ^ 31)

abbrev is_num : ℕ → ℤ → Bool
is_num n (pos m) = m == n
is_num n (negsuc m) = false

-- The count of the last row of this number, and `d` if there is none.
unfoldable pub last_count : ℕ → ℕ → List Row → ℕ
last_count d n [] = d
last_count d n (r ∷ rs) = last_count (if is_num n r.num then uint32 r.count else d) n rs

-- Load's scratch space.
record IsScratch (space : ℕ) (x : Array ℕ × Bitmap) : Type 0 where
  len : x.0.len ≡ space
  bitmap : IsBitmap x.1
  size : x.1.size ≡ space
  listed : (n : ℕ) → n < space → member x.1 n ≡ not (x.0.at n == 0)

enter_row-IsScratch :
    (space : ℕ) (num : ℤ) (c : ℕ) (x : Array ℕ × Bitmap)
    → 0 < c
    → c < 2 ^ 31
    → IsScratch space x
    → (y : Array ℕ × Bitmap) × (enter_row space (record { num = num; count = pos c }) x ≡ some y)
      × IsScratch space y
      × ((n : ℕ) → n < space → y.0.at n ≡ (if is_num n num then c % 2 ^ 32 else x.0.at n))
enter_row-IsScratch space (negsuc m) c x pos_c small v = (x, refl, v, λ n h. refl)
enter_row-IsScratch space (pos m) c x pos_c small v = elim (Bool-cases (leb space m)) [
  | inl beyond ↦ (x, rw (enter_row, beyond) refl, v, λ n h. ground arith)
  | inr within ↦
      let counts_inside : ltb m x.0.len ≡ true = ground (arith, v.len) in
      let above : ltb 0 c ≡ true = ground arith in
      let (bits, set, valid, size, members) =
        set_bit-member x.1 v.bitmap m (ground (arith, v.size)) in
      (
        (record x.0 { at = update x.0.at m (c % 2 ^ 32) }, bits),
        rw (enter_row, within, counts_inside, above, set) refl,
        record {
          len = v.len;
          bitmap = valid;
          size = size ∙ v.size;
          listed = λ n h. ground (arith, members n, v.listed n h);
        },
        λ n h. refl,
      )
]

enter_rows-IsScratch :
    (space : ℕ) (rows : List Row) (x : Array ℕ × Bitmap)
    → All IsGroup rows
    → IsScratch space x
    → (y : Array ℕ × Bitmap) × (enter_rows space rows x ≡ some y)
      × IsScratch space y
      × ((n : ℕ) → n < space → y.0.at n ≡ last_count (x.0.at n) n rows)
unfolding enter_rows last_count
enter_rows-IsScratch space [] x groups v = (x, refl, v, λ n h. refl)
enter_rows-IsScratch space (r ∷ rs) x groups v =
    let (c, e, pos_c, small) = groups.0 in
    let (y, entered, valid, counts) = enter_row-IsScratch space r.num c x pos_c small v in
    let (z, run, valid', counts') = enter_rows-IsScratch space rs y groups.1 valid in
    let first : enter_row space r x ≡ some y =
      ap (λ count. enter_row space (record { num = r.num; count = count }) x) e ∙ entered in
    (
      z,
      rw first run,
      valid',
      λ n h.
          counts' n h
          ∙ ap (λ d. last_count d n rs)
              (counts n h
                ∙ ap (λ count. if is_num n r.num then uint32 count else x.0.at n) (sym e)),
    )

-- If the query answers with groups and the reading does not break off, Load returns no error, and
-- the hint is valid and counts for each number in the space what its row says, or zero. The hint
-- before does not matter.
pub load_hint-last_count :
    (space : ℕ) (rows : List Row) (now : ℕ) (a : Availability)
    → All IsGroup rows
    → (a' : Availability) × (load_hint space (ended rows) now a ≡ some (a', true))
      × IsHint space a'
      × (a'.loaded ≡ now)
      × ((n : ℕ) → n < space → a'.counts.at n ≡ last_count 0 n rows)
unfolding load_hint
load_hint-last_count space rows now a groups =
    let begun : IsScratch space (make space 0, new_bitmap space) = record {
      len = refl;
      bitmap = new_bitmap-IsBitmap space;
      size = new_bitmap_size space;
      listed = λ n h. member-new_bitmap space n;
    } in
    let (x, run, v, counts) =
      enter_rows-IsScratch space rows (make space 0, new_bitmap space) groups begun in
    (
      record { counts = x.0; non_zero = x.1; loaded = now },
      rw (load_hint, run) refl,
      record { len = v.len; bitmap = v.bitmap; size = v.size; listed = v.listed },
      refl,
      counts,
    )
