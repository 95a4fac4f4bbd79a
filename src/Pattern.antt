-- ===== src/Pattern.antt =====
-- pattern.go: search patterns, and the odometer that lists the numbers that match one.
pub mod Horner
pub mod Parsing
pub mod Odometer
pub mod Laws
pub mod Tests
use lottery_search_system.Prelude.{
  ℕ, suc, ◌+◌, ◌-◌, ◌*◌, ◌/◌, ◌%◌, Bool, true, false, ◌&&◌, List, [], ◌∷◌, ◌++◌, reverse, length,
  get_or, leb, ◌==◌, if◌then◌else◌,
}

-- How many digits a ticket number has.
abbrev pub digits : ℕ
digits = 6

-- How many distinct ticket numbers exist.
abbrev pub number_space : ℕ
number_space = 1000000

abbrev powers : List ℕ
powers = 1 ∷ 10 ∷ 100 ∷ 1000 ∷ 10000 ∷ 100000 ∷ 1000000 ∷ []

-- The table's entry. The code reads entries 0 to 6 alone, and there is no other.
abbrev pub pow10 : ℕ → ℕ
pow10 i = get_or powers i 0

pub record Pattern : Type 0 where
  pub base : ℕ
  pub wildcards : List ℕ

-- The two malformed inputs, which the code wraps in ErrBadPattern.
pub data ParseError : Type 0 where
  bad_length : ℕ → ParseError
  bad_character : ℕ → ParseError

pub data Parsed : Type 0 where
  parsed : Pattern → Parsed
  malformed : ParseError → Parsed

-- '*'
abbrev pub star : ℕ
star = b'*'

abbrev pub is_digit : ℕ → Bool
is_digit c = leb b'0' c && leb c b'9'

-- The loop of ParsePattern: the bytes from position `i` on, and the pattern built so far.
pub parse_loop : ℕ → List ℕ → Pattern → Parsed
parse_loop i [] p = parsed p
parse_loop i (c ∷ cs) p = elim (c == star) [
  | true ↦ parse_loop (suc i) cs (record p { wildcards = p.wildcards ++ i ∷ [] })
  | false ↦ elim (is_digit c) [
    | true ↦
        parse_loop (suc i) cs (record p { base = p.base + (c - b'0') * pow10 (digits - 1 - i) })
    | false ↦ malformed (bad_character c)
  ]
]

unfoldable pub parse_pattern : List ℕ → Parsed
unfolding parse_loop
parse_pattern s =
    if length s == digits
    then parse_loop 0 s (record { base = 0; wildcards = [] })
    else malformed (bad_length (length s))

unfoldable pub match_count : Pattern → ℕ
match_count p = pow10 (length p.wildcards)

-- The loop of NumberAt, over the wildcards from the last to the first.
pub spin : List ℕ → ℕ → ℕ → ℕ
spin [] j n = n
spin (w ∷ ws) j n = spin ws (j / 10) (n + j % 10 * pow10 (digits - 1 - w))

unfoldable pub number_at : Pattern → ℕ → ℕ
unfolding spin
number_at p j = spin (reverse p.wildcards) j p.base

-- The loop of Matches: takes the digit at each wildcard away from `rest`.
pub strip : ℕ → List ℕ → ℕ → ℕ
strip number [] rest = rest
strip number (w ∷ ws) rest =
    let place = pow10 (digits - 1 - w) in strip number ws (rest - number / place % 10 * place)

unfoldable pub matches : Pattern → ℕ → Bool
unfolding strip
matches p number = strip number p.wildcards number == p.base
