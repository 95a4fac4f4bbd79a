-- ===== src/Hybrid/Background.antt =====
-- postgres/hybrid.go: RunRefresher and RunListener. Ticks and notifications are lists.
use lottery_search_system.Prelude.{
  ℕ, ◌+◌, ◌-◌, ◌<◌, ◌≡◌, ◌==◌, map, refl, ◌∙◌, Bool, true, List, [], ◌∷◌, Option, none, some, leb,
  if◌then◌else◌, ◌>>=◌, arith, Bool-cases, inl, inr,
}
use lottery_search_system.Prelude.Int.{ℤ, pos, negsuc}
use lottery_search_system.Availability.{Query, mark_sold}
use lottery_search_system.Availability.Valid.{IsHint, mark_sold-count}
use lottery_search_system.Hybrid.{Hybrid, refresh, notified}

-- A tick of the timer: what happens to the store before it, the answer of the load's query, and the
-- time.
pub record Tick : Type 0 where
  pub others : Hybrid → Hybrid
  pub query : Query
  pub now : ℕ

-- RunRefresher until its context is done, with how many errors it logs. An error does not end it.
unfoldable pub run_refresher : ℕ → List Tick → Hybrid → Option (Hybrid × ℕ)
run_refresher space [] s = some (s, 0)
run_refresher space (k ∷ ks) s = do
  (s', fine) ← refresh space k.query k.now (k.others s)
  (s'', errors) ← run_refresher space ks s'
  some (s'', (if fine then 0 else 1) + errors)

-- A notification: what happens to the store before it, and the number that Sscanf reads from its
-- payload, if it reads one.
pub record Notice : Type 0 where
  pub others : Hybrid → Hybrid
  pub number : Option ℤ

-- How the connection does: none is acquired or LISTEN fails, for instance since the context is done, or
-- notifications come, until the wait for one fails, with the context done or not.
pub data Connection : Type 0 where
  no_connection : Connection
  no_listen : Connection
  listening : List Notice → Bool → Connection

pub data ListenError : Type 0 where
  acquiring issuing waiting : ListenError

unfoldable pub apply_notices : ℕ → List Notice → Hybrid → Option Hybrid
apply_notices space [] s = some s
apply_notices space (m ∷ ms) s = do
  s' ← notified space m.number (m.others s)
  apply_notices space ms s'

-- RunListener, with the error that it returns.
unfoldable pub run_listener : ℕ → Connection → Hybrid → Option (Hybrid × Option ListenError)
run_listener space no_connection s = some (s, some acquiring)
run_listener space no_listen s = some (s, some issuing)
run_listener space (listening ms cancelled) s = do
  s' ← apply_notices space ms s
  some (s', if cancelled then none else some waiting)

-- A notification that comes alone.
abbrev pub alone : Option ℤ → Notice
alone number = record { others = λ s. s; number = number }

-- How many of the notifications are of the number.
abbrev pub told_of : ℕ → List (Option ℤ) → ℕ
told_of n [] = 0
told_of n (none ∷ ms) = told_of n ms
told_of n (some (negsuc m) ∷ ms) = told_of n ms
told_of n (some (pos m) ∷ ms) = (if m == n then 1 else 0) + told_of n ms

told_of-cons :
    (n : ℕ) (m : Option ℤ) (ms : List (Option ℤ))
    → told_of n (m ∷ ms) ≡ told_of n (m ∷ []) + told_of n ms
told_of-cons n none ms = omega arith
told_of-cons n (some (negsuc m)) ms = omega arith
told_of-cons n (some (pos m)) ms = omega arith

-- The hint after some notifications.
pub record IsLowered (space : ℕ) (numbers : List (Option ℤ)) (s s' : Hybrid) : Type 0 where
  pub valid : IsHint space s'.hint
  pub counts : (n : ℕ) → n < space → s'.hint.counts.at n ≡ s.hint.counts.at n - told_of n numbers
  pub table : s'.table ≡ s.table
  pub names : s'.number_of ≡ s.number_of

notified-lowers :
    (space : ℕ) (number : Option ℤ) (s : Hybrid)
    → IsHint space s.hint
    → (s' : Hybrid) × (notified space number s ≡ some s') × IsLowered space (number ∷ []) s s'
unfolding notified mark_sold
notified-lowers space none s v =
    (s, refl, record { valid = v; counts = λ n h. omega arith; table = refl; names = refl })
notified-lowers space (some (negsuc m)) s v =
    (s, refl, record { valid = v; counts = λ n h. omega arith; table = refl; names = refl })
notified-lowers space (some (pos m)) s v = elim (Bool-cases (leb space m)) [
  | inl beyond ↦ (
    s,
    rw (notified, mark_sold, beyond, ◌>>=◌) refl,
    record { valid = v; counts = λ n h. ground arith; table = refl; names = refl },
  )
  | inr within ↦
      let (a, run, valid, counts) = mark_sold-count v m (ground arith) in
      (
        record s { hint = a },
        rw (notified, run, ◌>>=◌) refl,
        record {
          valid = valid;
          counts = λ n h. ground (arith, counts n);
          table = refl;
          names = refl;
        },
      )
]

apply_notices-lowers :
    (space : ℕ) (numbers : List (Option ℤ)) (s : Hybrid)
    → IsHint space s.hint
    → (s' : Hybrid) × (apply_notices space (map alone numbers) s ≡ some s')
      × IsLowered space numbers s s'
unfolding apply_notices
apply_notices-lowers space [] s v =
    (s, refl, record { valid = v; counts = λ n h. omega arith; table = refl; names = refl })
apply_notices-lowers space (m ∷ ms) s v =
    let (x, run, first) = notified-lowers space m s v in
    let (y, runs, rest) = apply_notices-lowers space ms x first.valid in
    (
      y,
      rw (apply_notices, run, ◌>>=◌) runs,
      record {
        valid = rest.valid;
        counts = λ n h. omega (arith, first.counts n h, rest.counts n h, told_of-cons n m ms);
        table = rest.table ∙ first.table;
        names = rest.names ∙ first.names;
      },
    )

-- What RunListener does on each course of the connection.
abbrev pub Listens : ℕ → Hybrid → List (Option ℤ) → Bool → Type 0
Listens space s numbers cancelled =
    (s' : Hybrid) × (run_listener space (listening (map alone numbers) cancelled) s
      ≡ some (s', if cancelled then none else some waiting))
    × IsLowered space numbers s s'

-- If no connection is acquired or LISTEN fails, RunListener returns that error, whatever the context,
-- and changes nothing. Otherwise, over a valid hint and any notifications, with nothing else in
-- between, it does not panic, and when the wait fails returns an error exactly if the context is not
-- done. It skips the payloads that are no number and those outside of the space. The hint stays valid,
-- the count of each number is lowered once for each notification of it, as far as zero, and nothing
-- else changes.
pub run_listener-IsLowered :
    (space : ℕ) (numbers : List (Option ℤ)) (cancelled : Bool) (s : Hybrid)
    → IsHint space s.hint
    → (run_listener space no_connection s ≡ some (s, some acquiring))
      × (run_listener space no_listen s ≡ some (s, some issuing))
      × Listens space s numbers cancelled
unfolding run_listener
run_listener-IsLowered space numbers cancelled s v =
    let (s', run, lowered) = apply_notices-lowers space numbers s v in
    (refl, refl, (s', rw (run_listener, run, ◌>>=◌) refl, lowered))

-- The same of notifications alone, until the context is done.
pub listening-IsLowered :
    (space : ℕ) (numbers : List (Option ℤ)) (s : Hybrid)
    → IsHint space s.hint
    → Listens space s numbers true
listening-IsLowered space numbers s v = (run_listener-IsLowered space numbers true s v).2
