-- ===== src/Commands/Seed.antt =====
-- cmd/seed/main.go: the source of the rows that are copied into the table. An int is its bit pattern,
-- and the draws of the generator are an argument.
use lottery_search_system.Prelude.{
  ℕ, zero, suc, ◌+◌, ◌-◌, ◌%◌, ◌^◌, ◌<◌, ◌≡◌, refl, ap, List, [], ◌∷◌, Option, none, some, false,
  length, ◌==◌, if◌then◌else◌, ◌>>=◌, arith,
}

-- One call of the source, on rowsLeft and a draw: the row and rowsLeft after it, or the end.
abbrev pub next_row : ℕ → ℕ → Option (ℕ × ℕ)
next_row left draw = if left == 0 then none else some (draw, (left + 2 ^ 64 - 1) % 2 ^ 64)

-- CopyFrom asks the source until it ends. `none`: the fuel ran out. `draws i` is the i-th number.
unfoldable pub copy_rows : (ℕ → ℕ) → ℕ → ℕ → ℕ → Option (List ℕ)
copy_rows draws zero i left = none
copy_rows draws (suc fuel) i left = elim (next_row left (draws i)) [
  | none ↦ some []
  | some (row, left') ↦ copy_rows draws fuel (suc i) left' >>= λ rows. some (row ∷ rows)
]

copy_rows_step :
    (draws : ℕ → ℕ) (fuel i left : ℕ) (rows : List ℕ)
    → suc left < 2 ^ 64
    → copy_rows draws fuel (suc i) left ≡ some rows
    → copy_rows draws (suc fuel) i (suc left) ≡ some (draws i ∷ rows)
unfolding copy_rows
copy_rows_step draws fuel i left rows small run =
    let less : (suc left + 2 ^ 64 - 1) % 2 ^ 64 ≡ left = omega arith in
    let going : (suc left == 0) ≡ false = ground arith in
    rw (copy_rows, going, less, run, ◌>>=◌) refl

-- With more fuel than `left` the copy ends, with as many rows as the bit pattern of the count says. For
-- a count below zero these are 2^64 less its amount.
pub copy_rows-total :
    (draws : ℕ → ℕ) (fuel i left : ℕ)
    → left < 2 ^ 64
    → left < fuel
    → (rows : List ℕ) × (copy_rows draws fuel i left ≡ some rows) × (length rows ≡ left)
unfolding copy_rows
copy_rows-total draws zero i left small enough = absurd (omega arith)
copy_rows-total draws (suc fuel) i zero small enough = ([], refl, refl)
copy_rows-total draws (suc fuel) i (suc left) small enough =
    let (rows, run, size) = copy_rows-total draws fuel (suc i) left (omega arith) (omega arith) in
    (draws i ∷ rows, copy_rows_step draws fuel i left rows small run, ap suc size)
