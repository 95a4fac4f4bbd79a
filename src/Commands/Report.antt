-- ===== src/Commands/Report.antt =====
-- cmd/loadgen/main.go: how the report of the load generator ends.
use lottery_search_system.Prelude.{
  ℕ, ◌+◌, ◌-◌, ◌*◌, ◌/◌, ◌^◌, ◌<◌, ◌≡◌, refl, ap, ◌∙◌, false, List, [], ◌∷◌, none, some, length,
  length-append, leb, ◌==◌, if◌then◌else◌, arith, Bool-cases, inl, inr,
}
use lottery_search_system.Metrics.{sort}
use lottery_search_system.Metrics.Ranks.{length-sort, get_elem?-some}
use lottery_search_system.Commands.Loadgen.{
  FireResult, Tally, tally_one, tally, no_results, round_micro, pct, last_latency, Summary,
  summary_of, Report, no_results_collected, printed, panicked_after, report,
}

abbrev pub failures : List FireResult → ℕ
failures [] = 0
failures (r ∷ rs) = (if r.err then 1 else 0) + failures rs

abbrev pub answers : List FireResult → ℕ
answers [] = 0
answers (r ∷ rs) = (if r.err then 0 else 1) + answers rs

failures-answers : (rs : List FireResult) → failures rs + answers rs ≡ length rs
failures-answers [] = refl
failures-answers (r ∷ rs) = ground (arith, failures-answers rs)

tally_one_errs :
    (t : Tally) (r : FireResult)
    → t.errs + 1 < 2 ^ 64
    → (tally_one t r).errs ≡ t.errs + (if r.err then 1 else 0)
tally_one_errs t r h = elim (Bool-cases r.err) [
  | inl failed ↦ rw failed (omega arith)
  | inr answered ↦ rw answered (omega arith)
]

tally_one_lat :
    (t : Tally) (r : FireResult)
    → length (tally_one t r).lat ≡ length t.lat + (if r.err then 0 else 1)
tally_one_lat t r = elim (Bool-cases r.err) [
  | inl failed ↦ rw failed (omega arith)
  | inr answered ↦ rw answered (omega (arith, length-append t.lat (r.latency ∷ [])))
]

tally_errs :
    (t : Tally) (rs : List FireResult)
    → t.errs + length rs < 2 ^ 64
    → (tally t rs).errs ≡ t.errs + failures rs
unfolding tally
tally_errs t [] h = omega arith
tally_errs t (r ∷ rs) h =
    let one = tally_one_errs t r (omega arith) in
    omega (arith, one, tally_errs (tally_one t r) rs (ground arith))

tally_lat : (t : Tally) (rs : List FireResult) → length (tally t rs).lat ≡ length t.lat + answers rs
unfolding tally
tally_lat t [] = omega arith
tally_lat t (r ∷ rs) = omega (arith, tally_one_lat t r, tally_lat (tally_one t r) rs)

-- How the report of some results ends.
pub data Ending (rs : List FireResult) : Report → Type 0 where
  nothing : length rs ≡ 0 → Ending rs no_results_collected
  complete :
      (s : Summary) (d : ℕ)
      → 0 < answers rs
      → s.requests ≡ length rs
      → s.counts.errs ≡ failures rs
      → length s.counts.lat ≡ answers rs
      → Ending rs (printed s d)
  crashed :
      (s : Summary)
      → 0 < length rs
      → answers rs ≡ 0
      → s.counts.errs ≡ length rs
      → Ending rs (panicked_after s)

pct-none : (sorted : List ℕ) (percent : ℕ) → length sorted ≡ 0 → pct sorted percent ≡ some 0
unfolding pct
pct-none [] percent e = refl
pct-none (d ∷ ds) percent e = cc

pct-some :
    (sorted : List ℕ) (percent : ℕ) → 0 < length sorted → (d : ℕ) × (pct sorted percent ≡ some d)
unfolding pct
pct-some sorted percent h =
    let i = length sorted * percent / 100 in
    let full : (length sorted == 0) ≡ false = ground arith in
    let within : (if leb (length sorted) i then length sorted - 1 else i) < length sorted =
      ground arith in
    let (d, found) = get_elem?-some sorted _ within in (round_micro d, rw (pct, full, found) refl)

summary_of-some :
    (n : ℕ) (t : Tally) (lat : List ℕ)
    → ((percent : ℕ) → (d : ℕ) × (pct lat percent ≡ some d))
    → (s : Summary) × (summary_of n t lat ≡ some s) × (s.requests ≡ n) × (s.counts ≡ t)
summary_of-some n t lat all =
    let (d50, e50) = all 50 in
    let (d90, e90) = all 90 in
    let (d99, e99) = all 99 in
    (
      record { requests = n; counts = t; p50 = d50; p90 = d90; p99 = d99 },
      rw (e50, e90, e99) refl,
      refl,
      refl,
    )

last_latency-some : (lat : List ℕ) → 0 < length lat → (d : ℕ) × (last_latency lat ≡ some d)
unfolding last_latency
last_latency-some lat h =
    let (d, found) = get_elem?-some lat (length lat - 1) (omega arith) in
    let full : (length lat == 0) ≡ false = ground arith in (d, rw (last_latency, full, found) refl)

last_latency-none : (lat : List ℕ) → length lat ≡ 0 → last_latency lat ≡ none
unfolding last_latency
last_latency-none [] h = refl
last_latency-none (d ∷ ds) h = cc

-- The report of fewer than 2^64 results says that there are none, or is printed whole, or panics.
-- It is printed whole exactly if some result is not an error; then its counts are those of all
-- results, of the errors and of the others. If there are results and all are errors, it panics after
-- it has printed their number.
pub report-Ending : (rs : List FireResult) → length rs < 2 ^ 64 → Ending rs (report rs)
unfolding report
report-Ending rs h = elim (Bool-cases (length rs == 0)) [
  | inl e ↦ rw (report, e) (nothing (ground arith))
  | inr e ↦
      let t = tally no_results rs in
      let errs = tally_errs no_results rs (omega arith) in
      let size = tally_lat no_results rs in
      let sorted = length-sort t.lat in
      let total = failures-answers rs in
      elim (Bool-cases (length t.lat == 0)) [
        | inl empty ↦
            let dry : length (sort t.lat) ≡ 0 = ground arith in
            let (s, found, n, counts) =
              summary_of-some (length rs) t (sort t.lat)
                (λ percent. (0, pct-none (sort t.lat) percent dry)) in
            rw (report, e, found, last_latency-none (sort t.lat) dry)
              (crashed s (ground arith) (ground arith) (ap (λ c. c.errs) counts ∙ ground arith))
        | inr some_left ↦
            let wet : 0 < length (sort t.lat) = ground arith in
            let (s, found, n, counts) =
              summary_of-some (length rs) t (sort t.lat)
                (λ percent. pct-some (sort t.lat) percent wet) in
            let (d, last) = last_latency-some (sort t.lat) wet in
            rw (report, e, found, last)
              (complete s (round_micro d) (ground arith) n (ap (λ c. c.errs) counts ∙ ground arith)
                (ap (λ c. length c.lat) counts ∙ ground arith))
      ]
]
