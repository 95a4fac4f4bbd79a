-- ===== src/Pattern/Tests.antt =====
-- pattern.go on concrete texts, and the theorems at them.
use lottery_search_system.Prelude.{◌≡◌, refl, [], ◌∷◌, true, arith}
use lottery_search_system.Prelude.Text.{codes}
use lottery_search_system.Decimal.{pad_number}
use lottery_search_system.Pattern.{
  Pattern, parsed, malformed, bad_length, bad_character, parse_pattern, number_at, matches, digits,
}
use lottery_search_system.Pattern.Horner.{fits}
use lottery_search_system.Pattern.Parsing.{Verdict, parse_pattern-Verdict}
use lottery_search_system.Pattern.Laws.{number_at-enumerates, matches-fits}

abbrev odometer : Pattern
odometer = record { base = 100407; wildcards = 1 ∷ 2 ∷ 4 ∷ [] }

parse_pattern-odometer : parse_pattern (codes "1**4*7") ≡ parsed odometer
unfolding parse_pattern
parse_pattern-odometer = refl

parse_pattern_short : parse_pattern (codes "12345") ≡ malformed (bad_length 5)
unfolding parse_pattern
parse_pattern_short = refl

parse_pattern_letter : parse_pattern (codes "12a4b6") ≡ malformed (bad_character b'a')
unfolding parse_pattern
parse_pattern_letter = refl

number_at-odometer : number_at odometer 123 ≡ 112437
unfolding number_at
number_at-odometer = refl

number_at-enumerates_example : matches odometer (number_at odometer 5) ≡ true
number_at-enumerates_example =
    ((number_at-enumerates (codes "1**4*7") odometer parse_pattern-odometer).0 5).0

matches-fits_example : matches odometer 112437 ≡ fits (codes "1**4*7") (pad_number digits 112437)
matches-fits_example =
    matches-fits (codes "1**4*7") odometer 112437 parse_pattern-odometer (omega arith)

parse_pattern-Verdict_example : Verdict (codes "12a4b6") (parse_pattern (codes "12a4b6"))
parse_pattern-Verdict_example = parse_pattern-Verdict (codes "12a4b6")
