-- ===== src/Server/Search.antt =====
-- handleSearch: when the store is asked, and what the answer says.
use Prim.Native.String.{String}
use text.Mathlib.Text.{◌==◌ as str_eq}
use lottery_search_system.Prelude.{
  ℕ, ◌≤◌, ◌<◌, ◌≡◌, ◌≢◌, refl, ap, sym, ◌∙◌, Bool, true, false, ◌||◌, List, [], ◌∷◌, map, Option,
  some, none, ltb, ◌==◌, length, length-map, ◌>>=◌, All, arith, Bool-cases, Option-cases,
  none-ne-some, inl, inr, some_inj, ◌⊎◌,
}
use lottery_search_system.Prelude.Int.{ℤ, pos, negsuc}
use lottery_search_system.Pattern.{
  Pattern, Parsed, ParseError, parsed, malformed, parse_pattern, matches,
}
use lottery_search_system.Pattern.Horner.{fits}
use lottery_search_system.Pattern.Laws.{matches-fits, IsParsed-lt}
use lottery_search_system.Pattern.Parsing.{parsed-IsParsed}
use lottery_search_system.TicketStore.{Reservation}
use lottery_search_system.Server.{
  Failure, TicketStore, SearchRequest, TicketView, view_of, SearchResponse, Body, found, error,
  pattern_error, Response, reply, accepted_count, has, insert_key, distinct_keys, search_response,
  search_store, handle_search,
}

-- No number is in the list twice.
abbrev pub Unique : List ℕ → Type 0
Unique [] = Unit
Unique (n ∷ ns) = (has n ns ≡ false) × Unique ns

abbrev pub numbers_of : List Reservation → List ℕ
numbers_of got = map (λ (r : Reservation). r.number) got

insert_key-Unique : (n : ℕ) (seen : List ℕ) → Unique seen → Unique (insert_key n seen)
insert_key-Unique n seen u = elim (Bool-cases (has n seen)) [
  | inl old ↦ rw old u
  | inr new ↦ rw new (new, u)
]

has-insert_key : (m n : ℕ) (seen : List ℕ) → has m (insert_key n seen) ≡ (m == n) || has m seen
has-insert_key m n seen = elim (Bool-cases (has n seen)) [
  | inl old ↦ rw old (elim (Bool-cases (m == n)) [
    | inl same ↦ rw same (ap (λ k. has k seen) (ground arith) ∙ old)
    | inr other ↦ rw other refl
  ])
  | inr new ↦ rw new refl
]

distinct_keys-Unique :
    (got : List Reservation) (seen : List ℕ)
    → Unique seen
    → Unique (distinct_keys got seen)
      × ((n : ℕ) → has n (distinct_keys got seen) ≡ has n (numbers_of got) || has n seen)
unfolding distinct_keys
distinct_keys-Unique [] seen u = (u, λ n. refl)
distinct_keys-Unique (r ∷ rs) seen u =
    let (u', h) =
      distinct_keys-Unique rs (insert_key r.number seen) (insert_key-Unique r.number seen u) in
    (
      u',
      λ n.
          h n
          ∙ ap (λ b. has n (numbers_of rs) || b) (has-insert_key n r.number seen)
          ∙ swap (has n (numbers_of rs)) (n == r.number) (has n seen),
    )
  where
    swap : (a b c : Bool) → a || (b || c) ≡ (b || a) || c
    swap true true c = refl
    swap true false c = refl
    swap false true c = refl
    swap false false c = refl

-- The number of distinct numbers in an answer is the length of a list that has each number of the
-- claimed tickets once and no other.
pub distinct_numbers-Unique :
    (count : ℕ) (got : List Reservation)
    → (keys : List ℕ) × ((search_response count got).distinct_numbers ≡ length keys)
      × Unique keys
      × ((n : ℕ) → has n keys ≡ has n (numbers_of got))
unfolding search_response
distinct_numbers-Unique count got =
    let (u, h) = distinct_keys-Unique got [] tt in
    (distinct_keys got [], refl, u, λ n. h n ∙ or_false (has n (numbers_of got)))
  where
    or_false : (b : Bool) → b || false ≡ b
    or_false true = refl
    or_false false = refl

-- The request is one that handleSearch passes on.
pub record IsValid (req : SearchRequest) (p : Pattern) (k : ℕ) : Type 0 where
  pub pattern : parse_pattern req.pattern ≡ parsed p
  pub count : req.count ≡ pos k
  pub least : 0 < k
  pub most : k ≤ 20
  pub holder : str_eq req.holder "" ≡ false

accepted_count-some : (c : ℤ) (k : ℕ) → accepted_count c ≡ some k → (c ≡ pos k) × (0 < k) × (k ≤ 20)
accepted_count-some (pos n) k h = elim (Bool-cases (ltb n 1 || ltb 20 n)) [
  | inl out ↦ absurd (none-ne-some (sym (rw out refl) ∙ h))
  | inr inner ↦
      let e : n ≡ k = some_inj (sym (rw inner refl) ∙ h) in (ap pos e, ground arith, ground arith)
]
accepted_count-some (negsuc n) k h = absurd (none-ne-some h)

IsValid-accepted_count :
    {req : SearchRequest} {p : Pattern} {k : ℕ}
    → IsValid req p k
    → accepted_count req.count ≡ some k
IsValid-accepted_count {k = k} v =
    let inner : ltb k 1 || ltb 20 k ≡ false = ground (arith, v.least, v.most) in
    ap accepted_count v.count ∙ rw inner refl

Parsed-cases :
    (x : Parsed) → ((p : Pattern) × (x ≡ parsed p)) ⊎ ((e : ParseError) × (x ≡ malformed e))
Parsed-cases (parsed p) = inl (p, refl)
Parsed-cases (malformed e) = inr (e, refl)

parsed-ne-malformed : {p : Pattern} {e : ParseError} {x : Parsed} → x ≡ parsed p → x ≢ malformed e
parsed-ne-malformed h k = cc

true-ne-false : true ≢ false
true-ne-false e = cc

module _ {S : Type 0} (store : TicketStore S) (lease : ℕ) (s : S) where
  -- What handleSearch answers once the store has.
  abbrev pub finish_search : ℕ → S × List Reservation × Option Failure → Option (S × Response)
  finish_search k (s', got, err) = elim err [
    | some e ↦ some (s', reply 500 (error "could not complete search"))
    | none ↦ some (s', reply 200 (found (search_response k got)))
  ]

  -- A request is passed on exactly when it is valid.
  abbrev pub Passes : Option SearchRequest → Type 0
  Passes decoded =
      (req : SearchRequest) × (p : Pattern) × (k : ℕ) × (decoded ≡ some req)
      × IsValid req p k
      × (handle_search store lease s decoded
          ≡ (store.claim s p k req.holder lease >>= finish_search k))

  abbrev pub Refuses : Option SearchRequest → Type 0
  Refuses decoded =
      ((req : SearchRequest) (p : Pattern) (k : ℕ) → decoded ≡ some req → ¬ IsValid req p k)
      × (b : Body) × (handle_search store lease s decoded ≡ some (s, reply 400 b))

  handle_search-some : (req : SearchRequest) → Passes (some req) ⊎ Refuses (some req)
  unfolding handle_search search_store
  handle_search-some req = elim (Parsed-cases (parse_pattern req.pattern)) [
    | inr (e, bad) ↦ inr (
      (λ req' p k same v.
          parsed-ne-malformed
            (ap (λ (r : SearchRequest). parse_pattern r.pattern) (some_inj same) ∙ v.pattern) bad),
      pattern_error e,
      rw (handle_search, bad) refl,
    )
    | inl (p, good) ↦ elim (Option-cases (accepted_count req.count)) [
      | inl out ↦ inr (
        (λ req' p' k same v. none-ne-some (
            sym out
            ∙ ap (λ (r : SearchRequest). accepted_count r.count) (some_inj same)
            ∙ IsValid-accepted_count v)),
        error "count must be between 1 and 20",
        rw (handle_search, good, out) refl,
      )
      | inr (k, inner) ↦ elim (Bool-cases (str_eq req.holder "")) [
        | inl empty ↦ inr (
          (λ req' p' k' same v. true-ne-false (
              sym empty
              ∙ ap (λ (r : SearchRequest). str_eq r.holder "") (some_inj same)
              ∙ v.holder)),
          error "holder is required",
          rw (handle_search, good, inner, empty) refl,
        )
        | inr named ↦
            let (count, least, most) = accepted_count-some req.count k inner in
            inl (
              req,
              p,
              k,
              refl,
              record { pattern = good; count = count; least = least; most = most; holder = named },
              rw (handle_search, good, inner, named) refl,
            )
      ]
    ]
  ]

  -- handleSearch asks the store exactly for a body that decodes, with a pattern that parses, a count
  -- from 1 to 20 and a holder that is not empty, and with these values. It answers 500 if the store
  -- returns an error, and else 200 with what the store returned. Any other request is answered 400
  -- and leaves the store as it was.
  pub handle_search-Passes : (decoded : Option SearchRequest) → Passes decoded ⊎ Refuses decoded
  unfolding handle_search
  handle_search-Passes none =
      inr ((λ req p k same v. none-ne-some same), error "malformed JSON body", refl)
  handle_search-Passes (some req) = handle_search-some req

-- What a store promises of a claim for an accepted pattern, in a state that satisfies `Good`: no more
-- tickets than asked for, each of a number that matches the pattern.
pub record IsHonest {S : Type 0} (Good : S → Type 0) (store : TicketStore S) : Type 0 where
  pub claims :
      (s s' : S) (text : List ℕ) (p : Pattern) (k : ℕ) (holder : String) (lease : ℕ)
      (got : List Reservation)
      → Good s
      → parse_pattern text ≡ parsed p
      → store.claim s p k holder lease ≡ some (s', got, none)
      → (length got ≤ k) × All (λ (r : Reservation). matches p r.number ≡ true) got

views-fit :
    (text : List ℕ) (p : Pattern) (got : List Reservation)
    → parse_pattern text ≡ parsed p
    → All (λ (r : Reservation). matches p r.number ≡ true) got
    → All (λ (t : TicketView). fits text t.number ≡ true) (map view_of got)
unfolding view_of
views-fit text p [] accepted h = tt
views-fit text p (r ∷ got) accepted h = (
  sym (
        matches-fits text p r.number accepted
          (IsParsed-lt (parsed-IsParsed text p accepted) r.number h.0))
      ∙ h.0,
  views-fit text p got accepted h.1,
)

-- If the store keeps its promise in this state and answers a valid request without an error, the answer has at
-- most as many tickets as requested, says that it is partial exactly if it has fewer, and the number
-- of each ticket, as it is written, agrees with the text of the pattern at each position that is not
-- a star.
pub search_response-fits :
    {S : Type 0} (Good : S → Type 0) (store : TicketStore S) (lease : ℕ) (s s' : S)
    (req : SearchRequest) (p : Pattern) (k : ℕ) (got : List Reservation)
    → IsHonest Good store
    → Good s
    → IsValid req p k
    → store.claim s p k req.holder lease ≡ some (s', got, none)
    → (answer : SearchResponse) × (handle_search store lease s (some req)
        ≡ some (s', reply 200 (found answer)))
      × (answer.requested ≡ k)
      × (length answer.tickets ≤ k)
      × (answer.partial ≡ ltb (length answer.tickets) k)
      × All (λ (t : TicketView). fits req.pattern t.number ≡ true) answer.tickets
unfolding handle_search search_store search_response
search_response-fits Good store lease s s' req p k got honest good v run =
    let (few, match) = honest.claims s s' req.pattern p k req.holder lease got good v.pattern run in
    (
      search_response k got,
      rw (handle_search, v.pattern, IsValid-accepted_count v, v.holder, run) refl,
      refl,
      omega (arith, length-map got view_of, few),
      refl,
      views-fit req.pattern p got v.pattern match,
    )
