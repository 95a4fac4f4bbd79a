-- ===== src/Prelude/Array.antt =====
-- A Go slice of a fixed length, as its length and the values at its indices. An access out of
-- range is a run-time panic, `none`.
use Prim.Native.Nat.{ℕ}
use mathlib.Core.Path.{◌≡◌}
use mathlib.Core.Logic.{◌≢◌}
use native.Mathlib.Omega.{arith}
use mathlib.Core.Option.{Option, none, some}
use lottery_search_system.Prelude.Tests.{ltb, ◌==◌, if◌then◌else◌}

pub record Array {ℓ} (A : Type ℓ) : Type ℓ where
  pub len : ℕ
  pub at : ℕ → A

module _ {ℓ} {A : Type ℓ} where
  -- make([]T, n)
  abbrev pub make : ℕ → A → Array A
  make n a = record { len = n; at = λ i. a }

  abbrev pub update : (ℕ → A) → ℕ → A → ℕ → A
  update f i v j = if i == j then v else f j

  -- a[i] as a value
  abbrev pub load : Array A → ℕ → Option A
  load a i = if ltb i a.len then some (a.at i) else none

  -- a[i] = v
  abbrev pub store : Array A → ℕ → A → Option (Array A)
  store a i v = if ltb i a.len then some (record a { at = update a.at i v }) else none

pub update_self {ℓ} : {A : Type ℓ} (f : ℕ → A) (i : ℕ) (v : A) → update f i v i ≡ v
update_self f i v = ground arith

pub update_other {ℓ} :
    {A : Type ℓ} (f : ℕ → A) (i : ℕ) (v : A) (j : ℕ) → i ≢ j → update f i v j ≡ f j
update_other f i v j h = ground arith
