-- ===== src/Commands/Tests.antt =====
-- The programs on concrete inputs, and the theorems at them.
use Prim.Native.String.{String}
use text.Mathlib.Text.{◌==◌ as str_eq}
use lottery_search_system.Prelude.{
  ℕ, ◌≡◌, refl, true, false, [], ◌∷◌, none, some, if◌then◌else◌, arith,
}
use lottery_search_system.Prelude.Int.{pos}
use lottery_search_system.Prelude.Text.{codes}
use lottery_search_system.Server.{parse_int, decimal_value}
use lottery_search_system.Metrics.{insert, sort}
use lottery_search_system.Commands.Config.{load_config, env_int}
use lottery_search_system.Commands.Loadgen.{
  FireResult, fill_shape, mixed_pattern, tally, pct, last_latency, printed, panicked_after, report,
}
use lottery_search_system.Commands.Report.{Ending, report-Ending}

-- A number of connections beyond an int32, a number that does not parse, and nothing else.
abbrev odd : String → String
odd key =
    if str_eq key "LOTTERY_MAX_CONNS"
    then "4294967316"
    else (if str_eq key "LOTTERY_REAP_BATCH" then "many" else "")

load_config-odd : (load_config (λ text. none) odd).max_conns ≡ pos 20
unfolding load_config env_int parse_int decimal_value
load_config-odd = refl

load_config-odd_batch : (load_config (λ text. none) odd).reap_batch ≡ pos 5000
unfolding load_config env_int parse_int decimal_value
load_config-odd_batch = refl

mixed_pattern_text : mixed_pattern 5 (λ i. 7) ≡ some (codes "7*7*7*")
unfolding mixed_pattern fill_shape
mixed_pattern_text = refl

abbrev refused : FireResult
refused = record { latency = 40; got = 0; status = 0; err = true }

abbrev served : ℕ → ℕ → FireResult
served latency got = record { latency = latency; got = got; status = 200; err = false }

report_three :
    report (served 7600 2 ∷ refused ∷ served 4400 0 ∷ [])
    ≡ printed
        (record {
          requests = 3;
          counts = record {
            lat = 7600 ∷ 4400 ∷ [];
            errs = 1;
            empty = 1;
            tickets = 2;
            codes = (200, 2) ∷ [];
          };
          p50 = 8000;
          p90 = 8000;
          p99 = 8000;
        })
        8000
unfolding report tally pct last_latency sort insert
report_three = refl

-- Every request failed, and the report ends in a panic.
report-refused :
    report (refused ∷ refused ∷ [])
    ≡ panicked_after (record {
      requests = 2;
      counts = record { lat = []; errs = 2; empty = 0; tickets = 0; codes = [] };
      p50 = 0;
      p90 = 0;
      p99 = 0;
    })
unfolding report tally pct last_latency sort insert
report-refused = refl

report-Ending_example : Ending (refused ∷ refused ∷ []) (report (refused ∷ refused ∷ []))
report-Ending_example = report-Ending (refused ∷ refused ∷ []) (omega arith)
