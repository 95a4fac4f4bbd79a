-- ===== src/Server/Tests.antt =====
-- server.go on single requests, over a store that hands out one ticket.
use lottery_search_system.Prelude.{
  ℕ, zero, suc, ◌+◌, ◌%◌, ap, some_inj, subst, ◌≤◌, ◌≡◌, refl, true, false, ◌⊎◌, List, [], ◌∷◌,
  some, none, length, ltb, All, arith,
}
use lottery_search_system.Prelude.Int.{pos}
use lottery_search_system.Prelude.Text.{codes}
use lottery_search_system.Pattern.{
  Pattern, number_space, parsed, parse_pattern, match_count, matches, number_at, pow10,
}
use lottery_search_system.Pattern.Horner.{fits}
use lottery_search_system.Pattern.Laws.{IsParsed-matches-number_at}
use lottery_search_system.Pattern.Parsing.{parsed-IsParsed}
use lottery_search_system.Walker.{gcd}
use lottery_search_system.TicketStore.{lease_expired, Reservation}
use lottery_search_system.Store.{MemoryStore, Outside}
use lottery_search_system.Store.Valid.{IsStore}
use lottery_search_system.Store.Claim.{IsEnough}
use lottery_search_system.Store.Tests.{two_tickets, loaded, loaded-IsStore}
use lottery_search_system.Server.{
  known, TicketStore, SearchRequest, TicketView, SearchResponse, found, error, reply, handle_search,
  parse_int, decimal_value, parse_id, finish_reservation, handle_confirm, status_for_error,
}
use lottery_search_system.Server.IdTexts.{IsIdText, parse_id-IsIdText}
use lottery_search_system.Prelude.{◌↔◌}
use lottery_search_system.Server.Search.{IsValid, IsHonest, Passes, Refuses, handle_search-Passes}
use lottery_search_system.Server.Finish.{Acts, Rejects, finish_reservation-Acts}
use lottery_search_system.Server.Memory.{memory_backend, memory_search-fits}

abbrev ends_023 : Pattern
ends_023 = record { base = 120023; wildcards = 2 ∷ [] }

ends_023-parsed : parse_pattern (codes "12*023") ≡ parsed ends_023
unfolding parse_pattern
ends_023-parsed = refl

abbrev ticket : Reservation
ticket = record { ticket_id = 4; number = 127023; lease_until = 130 }

-- A store that counts the calls, has a ticket of the first number of any pattern, and finds every
-- lease run out.
abbrev offer : Pattern → ℕ → List Reservation
offer p zero = []
offer p (suc k) = record { ticket_id = 4; number = number_at p 0; lease_until = 130 } ∷ []

abbrev one_ticket : TicketStore ℕ
one_ticket = record {
  claim = λ s p k holder lease. some (suc s, offer p k, none);
  confirm = λ s id holder. some (suc s, some (known lease_expired));
  release = λ s id holder. some (suc s, none);
}

offer-honest :
    (text : List ℕ) (p : Pattern) (k : ℕ)
    → parse_pattern text ≡ parsed p
    → (length (offer p k) ≤ k) × All (λ (r : Reservation). matches p r.number ≡ true) (offer p k)
offer-honest text p zero accepted = (omega arith, tt)
offer-honest text p (suc k) accepted =
    (omega arith, (IsParsed-matches-number_at (parsed-IsParsed text p accepted) 0, tt))

one_ticket-IsHonest : IsHonest (λ s. Unit) one_ticket
one_ticket-IsHonest = record {
  claims = λ s s' text p k holder lease got good accepted run.
      subst (λ out. (length out ≤ k) × All (λ (r : Reservation). matches p r.number ≡ true) out)
        (ap (λ x. x.1) (some_inj run)) (offer-honest text p k accepted);
}

abbrev search : SearchRequest
search = record { pattern = codes "12*023"; count = pos 2; holder = "alice" }

search-IsValid : IsValid search ends_023 2
search-IsValid = record {
  pattern = ends_023-parsed;
  count = refl;
  least = omega arith;
  most = omega arith;
  holder = refl;
}

id_text : parse_id (codes "0042") ≡ some 42
unfolding parse_id parse_int decimal_value
id_text = refl

id_negative : parse_id (codes "-1") ≡ none
unfolding parse_id parse_int decimal_value
id_negative = refl

late_confirm :
    handle_confirm one_ticket 0 (codes "7") (some "alice")
    ≡ some (1, reply 410 (error "the hold on this ticket has expired"))
unfolding handle_confirm finish_reservation parse_id parse_int decimal_value status_for_error
late_confirm = refl

parse_id-IsIdText_example : (parse_id (codes "+42") ≡ some 42) ↔ IsIdText 42 (codes "+42")
parse_id-IsIdText_example = parse_id-IsIdText (codes "+42") 42

handle_search-Passes_example :
    Passes one_ticket 30 0 (some search) ⊎ Refuses one_ticket 30 0 (some search)
handle_search-Passes_example = handle_search-Passes one_ticket 30 0 (some search)

finish_reservation-Acts_example :
    Acts one_ticket.confirm 0 (codes "7") (some "alice")
    ⊎ Rejects one_ticket.confirm 0 (codes "7") (some "alice")
finish_reservation-Acts_example =
    finish_reservation-Acts one_ticket.confirm 0 (codes "7") (some "alice")

-- Draws that are all 0 are usable for every pattern.
abbrev zeros : Outside
zeros = record { draws = λ i. 0; fuel = 1; cancelled = λ i. false }

gcd_one-pow10 : (w : ℕ) → gcd (1 + 0 % pow10 w) (pow10 w) ≡ 1
unfolding gcd
gcd_one-pow10 zero = refl
gcd_one-pow10 (suc zero) = refl
gcd_one-pow10 (suc (suc zero)) = refl
gcd_one-pow10 (suc (suc (suc zero))) = refl
gcd_one-pow10 (suc (suc (suc (suc zero)))) = refl
gcd_one-pow10 (suc (suc (suc (suc (suc zero))))) = refl
gcd_one-pow10 (suc (suc (suc (suc (suc (suc zero)))))) = refl
gcd_one-pow10 (suc (suc (suc (suc (suc (suc (suc w))))))) = refl

zeros-IsEnough : (text : List ℕ) (p : Pattern) → parse_pattern text ≡ parsed p → IsEnough p zeros
unfolding match_count
zeros-IsEnough text p accepted = record {
  draw = 0;
  in_fuel = omega arith;
  coprime = gcd_one-pow10 (length p.wildcards);
}

memory_search-fits_example :
    (s' : MemoryStore) × (answer : SearchResponse) × (handle_search
        (memory_backend zeros zeros 100)
        30
        loaded
        (some search)
      ≡ some (s', reply 200 (found answer)))
    × IsStore number_space two_tickets s'
    × (length answer.tickets ≤ 2)
    × (answer.partial ≡ ltb (length answer.tickets) 2)
    × All (λ (t : TicketView). fits (codes "12*023") t.number ≡ true) answer.tickets
memory_search-fits_example =
    memory_search-fits two_tickets zeros zeros 100 zeros-IsEnough zeros-IsEnough loaded search
      ends_023 2 30 loaded-IsStore search-IsValid
