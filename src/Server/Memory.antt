-- ===== src/Server/Memory.antt =====
-- The memory store behind the server.
use lottery_search_system.Prelude.{
  ℕ, ◌≤◌, ◌≡◌, sym, ap, ◌∙◌, true, List, Option, some, none, ◌>>=◌, length, ltb, All, All-imp,
  subst, some_inj,
}
use lottery_search_system.Prelude.Int.{pos}
use lottery_search_system.Pattern.{Pattern, number_space, parsed, parse_pattern, matches}
use lottery_search_system.Pattern.Horner.{fits}
use lottery_search_system.Index.{Ticket}
use lottery_search_system.TicketStore.{Answer, done, failed, troubled, Reservation}
use lottery_search_system.Store.{MemoryStore, Progress, Outside, claim, confirm, release}
use lottery_search_system.Store.Valid.{IsStore}
use lottery_search_system.Store.Claim.{IsEnough, claim-Claims}
use lottery_search_system.Server.{
  Failure, known, unexpected, TicketStore, SearchRequest, TicketView, SearchResponse, found, reply,
  handle_search,
}
use lottery_search_system.Server.Search.{IsValid, IsHonest, search_response-fits}

abbrev failure_of : Answer → Option Failure
failure_of done = none
failure_of (failed e) = some (known e)
failure_of troubled = some unexpected

-- Claim of the memory store returns no error.
abbrev handed : Progress → Option (MemoryStore × List Reservation × Option Failure)
handed y = some (y.at, y.out, none)

-- The methods of MemoryStore as a TicketStore, at a time and with the draws of a claim.
abbrev pub memory_backend : Outside → Outside → ℕ → TicketStore MemoryStore
memory_backend first second now = record {
  claim = λ s p k holder lease. claim first second s p k holder now lease >>= handed;
  confirm = λ s id holder. confirm s (pos id) holder now >>= λ (s', a). some (s', failure_of a);
  release = λ s id holder. release s (pos id) holder >>= λ (s', a). some (s', failure_of a);
}

module _ (ts : List Ticket) (first second : Outside) (now : ℕ)
    (enough : (text : List ℕ) (p : Pattern) → parse_pattern text ≡ parsed p → IsEnough p first)
    (more : (text : List ℕ) (p : Pattern) → parse_pattern text ≡ parsed p → IsEnough p second) where
  -- The memory store keeps the promise, in a state that satisfies its invariant.
  pub memory_backend-IsHonest : IsHonest (IsStore number_space ts) (memory_backend first second now)
  memory_backend-IsHonest = record {
    claims = λ s s' text p k holder lease got good accepted run.
        let (y, ran, valid, room, c) =
          claim-Claims text p ts s first second k holder now lease accepted good
            (enough text p accepted) (more text p accepted) in
        let same : y.out ≡ got =
          ap (λ x. x.1) (some_inj (sym (ap (λ m. m >>= handed) ran) ∙ run)) in
        subst (λ out. (length out ≤ k) × All (λ (r : Reservation). matches p r.number ≡ true) out)
          same (room, All-imp (λ r t. t.good) y.out c.each);
  }

  -- Over a memory store that satisfies its invariant, with draws that are usable for every accepted
  -- pattern, a valid request is answered 200. At most as many tickets are returned as requested,
  -- the answer says that it is partial exactly if they are fewer, and each ticket's number, as it
  -- is written, agrees with the pattern's text at each position that is not a star. The store goes
  -- on satisfying its invariant.
  pub memory_search-fits :
      (s : MemoryStore) (req : SearchRequest) (p : Pattern) (k lease : ℕ)
      → IsStore number_space ts s
      → IsValid req p k
      → (s' : MemoryStore) × (answer : SearchResponse) × (handle_search
            (memory_backend first second now)
            lease
            s
            (some req)
          ≡ some (s', reply 200 (found answer)))
        × IsStore number_space ts s'
        × (length answer.tickets ≤ k)
        × (answer.partial ≡ ltb (length answer.tickets) k)
        × All (λ (t : TicketView). fits req.pattern t.number ≡ true) answer.tickets
  memory_search-fits s req p k lease good v =
      let (y, ran, valid, room, c) =
        claim-Claims req.pattern p ts s first second k req.holder now lease v.pattern good
          (enough req.pattern p v.pattern) (more req.pattern p v.pattern) in
      let (answer, replied, asked, few, partial, fit) =
        search_response-fits (IsStore number_space ts) (memory_backend first second now) lease s
          y.at req p k y.out memory_backend-IsHonest good v (ap (λ m. m >>= handed) ran) in
      (y.at, answer, replied, valid, few, partial, fit)
