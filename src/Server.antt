-- ===== src/Server.antt =====
-- server.go: the HTTP handlers. The store behind them is any `TicketStore`, whose operations may
-- panic, `none`, or fail in ways of their own. Routing, headers, logging and the JSON text are
-- outside: the decoders are arguments, and an answer is the status code and the value to encode.
pub mod Ids
pub mod IdTexts
pub mod Search
pub mod Finish
pub mod Memory
pub mod Tests
use Prim.Native.String.{String}
use text.Mathlib.Text.{◌==◌ as str_eq}
use lottery_search_system.Prelude.{
  ℕ, zero, suc, ◌+◌, ◌-◌, ◌*◌, ◌^◌, Bool, true, false, ◌&&◌, ◌||◌, List, [], ◌∷◌, ◌++◌, map, Option,
  none, some, length, ltb, leb, ◌==◌, if◌then◌else◌, ◌>>=◌,
}
use lottery_search_system.Prelude.Int.{ℤ, pos, negsuc}
use lottery_search_system.Decimal.{pad_number}
use lottery_search_system.Pattern.{
  Pattern, ParseError, parsed, malformed, parse_pattern, digits, is_digit,
}
use lottery_search_system.TicketStore.{
  StoreError, not_held, lease_expired, ticket_not_found, Reservation,
}

-- What an operation of a store may return: nil, one of the three errors, or some other error.
pub data Failure : Type 0 where
  known : StoreError → Failure
  unexpected : Failure

-- The interface TicketStore, over the states `S` of the store behind it.
pub record TicketStore (S : Type 0) : Type 0 where
  pub claim : S → Pattern → ℕ → String → ℕ → Option (S × List Reservation × Option Failure)
  pub confirm : S → ℕ → String → Option (S × Option Failure)
  pub release : S → ℕ → String → Option (S × Option Failure)

pub record SearchRequest : Type 0 where
  pub pattern : List ℕ
  pub count : ℤ
  pub holder : String

pub record TicketView : Type 0 where
  pub id : ℕ
  pub number : List ℕ
  pub lease_until : ℕ

unfoldable pub view_of : Reservation → TicketView
view_of r = record {
  id = r.ticket_id;
  number = pad_number digits r.number;
  lease_until = r.lease_until;
}

pub record SearchResponse : Type 0 where
  pub tickets : List TicketView
  pub requested : ℕ
  pub partial : Bool
  pub distinct_numbers : ℕ

-- The bodies. The text of a pattern error is the error's own.
pub data Body : Type 0 where
  found : SearchResponse → Body
  status_ok : Body
  error : String → Body
  pattern_error : ParseError → Body

pub record Response : Type 0 where
  pub code : ℕ
  pub body : Body

abbrev pub reply : ℕ → Body → Response
reply code body = record { code = code; body = body }

abbrev pub max_count : ℕ
max_count = 20

-- The count, if it is between 1 and 20.
abbrev pub accepted_count : ℤ → Option ℕ
accepted_count (pos n) = if ltb n 1 || ltb max_count n then none else some n
accepted_count (negsuc n) = none

-- The keys of the map `distinct`.
abbrev pub has : ℕ → List ℕ → Bool
has n [] = false
has n (m ∷ ms) = (n == m) || has n ms

abbrev pub insert_key : ℕ → List ℕ → List ℕ
insert_key n seen = if has n seen then seen else n ∷ seen

unfoldable pub distinct_keys : List Reservation → List ℕ → List ℕ
distinct_keys [] seen = seen
distinct_keys (r ∷ rs) seen = distinct_keys rs (insert_key r.number seen)

unfoldable pub search_response : ℕ → List Reservation → SearchResponse
search_response count got =
    let tickets = map view_of got in
    record {
      tickets = tickets;
      requested = count;
      partial = ltb (length tickets) count;
      distinct_numbers = length (distinct_keys got []);
    }

abbrev pub answered : {S : Type 0} → S → Response → Option (S × Response)
answered s r = some (s, r)

-- handleSearch after the checks.
unfoldable pub search_store :
    {S : Type 0} → TicketStore S → ℕ → S → Pattern → ℕ → String → Option (S × Response)
search_store store lease s p count holder = store.claim s p count holder lease >>= λ (s', got, err).
    elim err [
      | some e ↦ answered s' (reply 500 (error "could not complete search"))
      | none ↦ answered s' (reply 200 (found (search_response count got)))
    ]

unfoldable pub handle_search :
    {S : Type 0} → TicketStore S → ℕ → S → Option SearchRequest → Option (S × Response)
handle_search store lease s none = answered s (reply 400 (error "malformed JSON body"))
handle_search store lease s (some req) = elim (parse_pattern req.pattern) [
  | malformed e ↦ answered s (reply 400 (pattern_error e))
  | parsed p ↦ elim (accepted_count req.count) [
    | none ↦ answered s (reply 400 (error "count must be between 1 and 20"))
    | some count ↦
        if str_eq req.holder ""
        then answered s (reply 400 (error "holder is required"))
        else search_store store lease s p count req.holder
  ]
]

-- statusForError
unfoldable pub status_for_error : Failure → ℕ × String
status_for_error (known ticket_not_found) = (404, "no such reservation")
status_for_error (known not_held) = (409, "you are not holding this ticket")
status_for_error (known lease_expired) = (410, "the hold on this ticket has expired")
status_for_error unexpected = (500, "unexpected error")

-- strconv.ParseInt(raw, 10, 64) of the standard library: an optional sign, then digits, at least
-- one, of a value that fits an int64.
unfoldable pub decimal_value : ℕ → List ℕ → Option ℕ
decimal_value acc [] = some acc
decimal_value acc (c ∷ cs) = if is_digit c then decimal_value (acc * 10 + (c - b'0')) cs else none

abbrev pub some_digits : List ℕ → Option ℕ
some_digits [] = none
some_digits (c ∷ cs) = decimal_value 0 (c ∷ cs)

abbrev pub negated : ℕ → ℤ
negated zero = pos 0
negated (suc n) = negsuc n

unfoldable pub parse_int : List ℕ → Option ℤ
parse_int [] = none
parse_int (c ∷ cs) =
    if c == b'-'
    then (some_digits cs >>= λ n. if leb n (2 ^ 63) then some (negated n) else none)
    else (some_digits (if c == b'+' then cs else c ∷ cs) >>= λ n.
        if ltb n (2 ^ 63) then some (pos n) else none)

-- parseID: the id, if it is not negative.
unfoldable pub parse_id : List ℕ → Option ℕ
parse_id raw = parse_int raw >>= λ id. elim id [ pos n ↦ some n | negsuc n ↦ none ]

-- finishReservation, for Confirm or Release as the action.
unfoldable pub finish_reservation :
    {S : Type 0}
    → (S → ℕ → String → Option (S × Option Failure))
    → S
    → List ℕ
    → Option String
    → Option (S × Response)
finish_reservation action s raw decoded = elim (parse_id raw) [
  | none ↦ answered s (reply 400 (error "reservation id must be a non-negative integer"))
  | some id ↦ elim decoded [
    | none ↦ answered s (reply 400 (error "malformed JSON body"))
    | some holder ↦
        if str_eq holder ""
        then answered s (reply 400 (error "holder is required"))
        else (action s id holder >>= λ (s', err). elim err [
          | some e ↦ let (code, msg) = status_for_error e in answered s' (reply code (error msg))
          | none ↦ answered s' (reply 200 status_ok)
        ])
  ]
]

unfoldable pub handle_confirm :
    {S : Type 0} → TicketStore S → S → List ℕ → Option String → Option (S × Response)
handle_confirm store = finish_reservation store.confirm

unfoldable pub handle_release :
    {S : Type 0} → TicketStore S → S → List ℕ → Option String → Option (S × Response)
handle_release store = finish_reservation store.release

pub handle_health : Response
handle_health = reply 200 status_ok
