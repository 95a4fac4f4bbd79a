-- ===== src/Commands/Loadgen.antt =====
-- cmd/loadgen/main.go: the patterns that the load generator asks for, and its report. The draws of
-- the generator are arguments. A latency counts nanoseconds.
use lottery_search_system.Prelude.{
  ℕ, suc, ◌+◌, ◌-◌, ◌*◌, ◌/◌, ◌%◌, ◌^◌, Bool, true, false, List, [], ◌∷◌, ◌++◌, Option, none, some,
  length, get_elem?, ltb, leb, ◌==◌, if◌then◌else◌, ◌>>=◌,
}
use lottery_search_system.Prelude.Text.{codes}
use lottery_search_system.Pattern.{star}
use lottery_search_system.Metrics.{add64, sort}

pub record FireResult : Type 0 where
  pub latency : ℕ
  pub got : ℕ
  pub status : ℕ
  pub err : Bool

abbrev pub shapes : List (List ℕ)
shapes =
    codes "******"
    ∷ codes "1*****"
    ∷ codes "12****"
    ∷ codes "***456"
    ∷ codes "****23"
    ∷ codes "1*3*5*"
    ∷ codes "123456"
    ∷ []

-- The loop of mixedPattern. `draws i` is the digit drawn `i`-th.
unfoldable pub fill_shape : (ℕ → ℕ) → ℕ → List ℕ → List ℕ
fill_shape draws i [] = []
fill_shape draws i (c ∷ cs) = elim (c == star) [
  | true ↦ c ∷ fill_shape draws i cs
  | false ↦ (b'0' + draws i) % 256 ∷ fill_shape draws (suc i) cs
]

-- `none` is an index out of range.
unfoldable pub mixed_pattern : ℕ → (ℕ → ℕ) → Option (List ℕ)
unfolding fill_shape
mixed_pattern shape draws = get_elem? shapes shape >>= λ s. some (fill_shape draws 0 s)

-- What the report has counted so far. `codes` counts the answers of each status.
pub record Tally : Type 0 where
  pub lat : List ℕ
  pub errs : ℕ
  pub empty : ℕ
  pub tickets : ℕ
  pub codes : List (ℕ × ℕ)

abbrev pub bump : ℕ → List (ℕ × ℕ) → List (ℕ × ℕ)
bump status [] = (status, 1) ∷ []
bump status ((code, n) ∷ rest) =
    if code == status then (code, add64 n 1) ∷ rest else (code, n) ∷ bump status rest

abbrev pub tally_one : Tally → FireResult → Tally
tally_one t r = elim r.err [
  | true ↦ record t { errs = add64 t.errs 1 }
  | false ↦ record {
    lat = t.lat ++ r.latency ∷ [];
    errs = t.errs;
    empty = if r.got == 0 then add64 t.empty 1 else t.empty;
    tickets = add64 t.tickets r.got;
    codes = bump r.status t.codes;
  }
]

-- The loop over the results.
unfoldable pub tally : Tally → List FireResult → Tally
tally t [] = t
tally t (r ∷ rs) = tally (tally_one t r) rs

abbrev pub no_results : Tally
no_results = record { lat = []; errs = 0; empty = 0; tickets = 0; codes = [] }

-- Round to the microsecond, halves away from zero, as far as an int64 reaches.
abbrev pub round_micro : ℕ → ℕ
round_micro d =
    let r = d % 1000 in
    if ltb (r + r) 1000
    then d - r
    else (if ltb (d + 1000 - r) (2 ^ 63) then d + 1000 - r else 2 ^ 63 - 1)

-- pct, at a whole number of hundredths. The source multiplies as floats and takes the integer part;
-- for fewer than 2^40 samples the error of the product is below a hundredth, so that this is the
-- quotient by 100. `none` is an index out of range.
unfoldable pub pct : List ℕ → ℕ → Option ℕ
pct sorted percent =
    if length sorted == 0
    then some 0
    else (let i = length sorted * percent / 100 in
        get_elem? sorted (if leb (length sorted) i then length sorted - 1 else i) >>= λ d.
        some (round_micro d))

-- The last line's `lat[len(lat)-1]`, where 0 - 1 is out of range.
unfoldable pub last_latency : List ℕ → Option ℕ
last_latency lat = if length lat == 0 then none else get_elem? lat (length lat - 1)

-- What has been printed of the counts, and of the percentiles.
pub record Summary : Type 0 where
  pub requests : ℕ
  pub counts : Tally
  pub p50 : ℕ
  pub p90 : ℕ
  pub p99 : ℕ

-- How the report ends: without results, printed with the greatest latency, or by a panic, after the
-- lines before it.
pub data Report : Type 0 where
  no_results_collected : Report
  printed : Summary → ℕ → Report
  panicked_after : Summary → Report
  panicked : Report

abbrev pub finished : Summary → Option ℕ → Report
finished s none = panicked_after s
finished s (some d) = printed s (round_micro d)

abbrev pub summarised : Option Summary → List ℕ → Report
summarised none lat = panicked
summarised (some s) lat = finished s (last_latency lat)

abbrev pub summary_of : ℕ → Tally → List ℕ → Option Summary
summary_of requests t lat = pct lat 50 >>= λ p50. pct lat 90 >>= λ p90. pct lat 99 >>= λ p99.
    some (record { requests = requests; counts = t; p50 = p50; p90 = p90; p99 = p99 })

unfoldable pub report : List FireResult → Report
unfolding tally
report rs =
    if length rs == 0
    then no_results_collected
    else (let t = tally no_results rs in
        let lat = sort t.lat in summarised (summary_of (length rs) t lat) lat)
