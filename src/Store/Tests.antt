-- ===== src/Store/Tests.antt =====
-- store.go on two tickets, of numbers 127023 and 127024.
use mathlib.Core.List.{Nodup}
use lottery_search_system.Store.Spread.{numbers_of}
use lottery_search_system.Prelude.{
  ◌⊎◌, ℕ, zero, suc, ◌≤◌, ◌<◌, ◌≡◌, refl, ap, true, false, some, List, [], ◌∷◌, length, All, arith,
}
use lottery_search_system.Prelude.Int.{pos}
use lottery_search_system.Prelude.Text.{codes}
use lottery_search_system.Pattern.{Pattern, number_space, parsed, parse_pattern, match_count}
use lottery_search_system.Walker.{gcd}
use lottery_search_system.Index.{Ticket}
use lottery_search_system.Index.Counts.{length-ids_of-le}
use lottery_search_system.TicketStore.{
  available, reserved, is_sold, Answer, failed, not_held, Reservation,
}
use lottery_search_system.Store.{
  MemoryStore, Progress, Outside, new_memory_store, claim, claim_pass, confirm, release,
}
use lottery_search_system.Store.Stock.{IsDense, tickets_with}
use lottery_search_system.Store.Valid.{IsStore, new_memory_store-IsStore}
use lottery_search_system.Store.Reserve.{is_free, free_status, with_reserved, with_reserved-IsStore}
use lottery_search_system.Store.Claimed.{Claims, IsTaken, Distinct}
use lottery_search_system.Candidates.Complete.{Matching}
use lottery_search_system.Store.Claim.{
  IsEnough, IsLeft, request, claim-Claims, claim_spreads, claim_complete,
}
use lottery_search_system.Store.Sell.{with_sold, sell-IsStore}
use lottery_search_system.Store.Confirm.{Confirms, Releases, confirm-Confirms, release-Releases}
use lottery_search_system.Store.History.{History, confirmed, start, later}
use lottery_search_system.Store.Safety.{History-IsStore, sold_once, lease_exclusive}

abbrev pub two_tickets : List Ticket
two_tickets = record { id = 1; number = 127023 } ∷ record { id = 0; number = 127024 } ∷ []

two_tickets_once : (id : ℕ) → id < 2 → tickets_with id two_tickets ≡ 1
unfolding tickets_with
two_tickets_once zero h = refl
two_tickets_once (suc zero) h = refl
two_tickets_once (suc (suc id)) h = absurd (omega arith)

pub two_tickets-IsDense : IsDense number_space two_tickets
two_tickets-IsDense = record {
  in_space = (omega arith, (omega arith, tt));
  ids_fit = (omega arith, (omega arith, tt));
  once = two_tickets_once;
  few = λ n. omega (arith, length-ids_of-le n two_tickets);
  short = omega arith;
}

new_memory_store-IsStore_example :
    (s : MemoryStore) × (new_memory_store number_space two_tickets ≡ some s)
    × IsStore number_space two_tickets s
    × ((id : ℕ) → s.status.at id ≡ available)
new_memory_store-IsStore_example =
    new_memory_store-IsStore number_space two_tickets two_tickets-IsDense

-- The store of these tickets, built without a look inside.
abbrev pub loaded : MemoryStore
loaded = (new_memory_store-IsStore number_space two_tickets two_tickets-IsDense).0

pub loaded-IsStore : IsStore number_space two_tickets loaded
loaded-IsStore = (new_memory_store-IsStore number_space two_tickets two_tickets-IsDense).2

loaded_unsold : is_sold (loaded.status.at 0) ≡ false
loaded_unsold =
    ap is_sold ((new_memory_store-IsStore number_space two_tickets two_tickets-IsDense).3 0)

abbrev pub ends_023 : Pattern
ends_023 = record { base = 120023; wildcards = 2 ∷ [] }

pub ends_023-parsed : parse_pattern (codes "12*023") ≡ parsed ends_023
unfolding parse_pattern
ends_023-parsed = refl

abbrev pub outside : Outside
outside = record { draws = λ i. 2; fuel = 1; cancelled = λ i. false }

pub outside-IsEnough : IsEnough ends_023 outside
unfolding match_count gcd
outside-IsEnough = record { draw = 0; in_fuel = omega arith; coprime = refl }

claim-Claims_example :
    (y : Progress) × (claim outside outside loaded ends_023 3 "alice" 100 30 ≡ some y)
    × IsStore number_space two_tickets y.at
    × (length y.out ≤ 3)
    × Claims 2 (Matching ends_023) (request 3 "alice" 100 30) loaded y
claim-Claims_example =
    claim-Claims (codes "12*023") ends_023 two_tickets loaded outside outside 3 "alice" 100 30
      ends_023-parsed loaded-IsStore outside-IsEnough outside-IsEnough

-- A claim of three tickets finds two.
at_most_two :
    (y : Progress)
    → Claims 2 (Matching ends_023) (request 3 "alice" 100 30) loaded y
    → length y.out < 3
at_most_two y c = go y.out c.each c.distinct
  where
    go :
        (rs : List Reservation)
        → All (IsTaken 2 (Matching ends_023) (request 3 "alice" 100 30) loaded y.at) rs
        → Distinct rs
        → length rs < 3
    go [] h d = omega arith
    go (a ∷ []) h d = omega arith
    go (a ∷ b ∷ []) h d = omega arith
    go (a ∷ b ∷ c ∷ rs) h d =
        absurd (omega (arith, h.0.inside, h.1.0.inside, h.1.1.0.inside, d.0.0, d.0.1.0, d.1.0.0))

claimed_run :
    (y : Progress) × (claim outside outside loaded ends_023 3 "alice" 100 30 ≡ some y)
    × IsStore number_space two_tickets y.at
    × (length y.out ≤ 3)
    × Claims 2 (Matching ends_023) (request 3 "alice" 100 30) loaded y
claimed_run =
    claim-Claims (codes "12*023") ends_023 two_tickets loaded outside outside 3 "alice" 100 30
      ends_023-parsed loaded-IsStore outside-IsEnough outside-IsEnough

claim_complete_example : ¬ IsLeft ends_023 two_tickets claimed_run.0.at 100 1
claim_complete_example =
    claim_complete (codes "12*023") ends_023 two_tickets loaded outside outside 3 "alice" 100 30
      ends_023-parsed loaded-IsStore outside-IsEnough outside-IsEnough claimed_run.0 claimed_run.1
      (λ i. refl) (at_most_two claimed_run.0 claimed_run.4) 1

-- Ticket 0 reserved for alice until 130.
loaded_free : is_free loaded 100 0 ≡ true
loaded_free =
    ap (λ status. free_status status (loaded.lease_until.at 0) 100)
      ((new_memory_store-IsStore number_space two_tickets two_tickets-IsDense).3 0)

abbrev pub held : MemoryStore
held = with_reserved (request 1 "alice" 100 30) loaded 0

pub held-IsStore : IsStore number_space two_tickets held
held-IsStore =
    with_reserved-IsStore loaded-IsStore 0 (omega arith) (request 1 "alice" 100 30) loaded_free

confirm-Confirms_example :
    (a : Answer) × (s' : MemoryStore) × (confirm held (pos 0) "alice" 120 ≡ some (s', a))
    × IsStore number_space two_tickets s'
    × Confirms 2 held "alice" 120 (pos 0) a s'
confirm-Confirms_example = confirm-Confirms held-IsStore (pos 0) "alice" 120

release-Releases_example :
    (a : Answer) × (s' : MemoryStore) × (release held (pos 0) "alice" ≡ some (s', a))
    × IsStore number_space two_tickets s'
    × Releases 2 held "alice" (pos 0) a s'
release-Releases_example = release-Releases held-IsStore (pos 0) "alice"

abbrev after_bob : MemoryStore
after_bob = (confirm-Confirms held-IsStore (pos 0) "bob" 120).1

lease_exclusive_example :
    (after_bob.status.at 0 ≡ reserved)
    × (after_bob.holder.at 0 ≡ "alice")
    × (after_bob.lease_until.at 0 ≡ 130)
lease_exclusive_example = lease_exclusive two_tickets held after_bob 0 held-IsStore refl (
    later start (
      confirmed (pos 0) "bob" 120 (confirm-Confirms held-IsStore (pos 0) "bob" 120).0 after_bob
        (refl, omega arith) (confirm-Confirms held-IsStore (pos 0) "bob" 120).2))

-- Ticket 0 sold, and then confirmed once more.
abbrev bought : MemoryStore
bought = with_sold loaded 0 (sell-IsStore loaded-IsStore 0 (omega arith) loaded_unsold).0

bought-IsStore : IsStore number_space two_tickets bought
bought-IsStore = (sell-IsStore loaded-IsStore 0 (omega arith) loaded_unsold).2

abbrev after_again : MemoryStore
after_again = (confirm-Confirms bought-IsStore (pos 0) "bob" 120).1

bought_again : History (λ holder now. Unit) bought after_again
bought_again = later start (
    confirmed (pos 0) "bob" 120 (confirm-Confirms bought-IsStore (pos 0) "bob" 120).0 after_again tt
      (confirm-Confirms bought-IsStore (pos 0) "bob" 120).2)

History-IsStore_example : IsStore number_space two_tickets after_again
History-IsStore_example = History-IsStore bought-IsStore bought_again

sold_once_example : confirm after_again (pos 0) "alice" 121 ≡ some (after_again, failed not_held)
sold_once_example =
    sold_once two_tickets bought after_again 0 "alice" 121 bought-IsStore (omega arith) refl
      bought_again

claim_spreads_example :
    (x : Progress) × (claim_pass outside ends_023
        (request 3 "alice" 100 30)
        1
        (record { at = loaded; out = [] })
      ≡ some x)
    × Nodup (numbers_of x.out)
    × (((length x.out ≡ 3) × (claim outside outside loaded ends_023 3 "alice" 100 30 ≡ some x))
        ⊎ ((length x.out < 3)
            × (claim outside outside loaded ends_023 3 "alice" 100 30
                ≡ claim_pass outside ends_023 (request 3 "alice" 100 30) 0 x)))
claim_spreads_example =
    claim_spreads (codes "12*023") ends_023 two_tickets loaded outside outside 3 "alice" 100 30
      ends_023-parsed loaded-IsStore outside-IsEnough outside-IsEnough
