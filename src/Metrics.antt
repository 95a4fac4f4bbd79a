-- ===== src/Metrics.antt =====
-- metrics.go: what the claim path reports of itself.
pub mod Ranks
pub mod Counters
pub mod Tests
use lottery_search_system.Prelude.{
  ℕ, zero, suc, ◌+◌, ◌-◌, ◌*◌, ◌/◌, ◌%◌, ◌^◌, List, [], ◌∷◌, ◌++◌, Option, some, none, length,
  get_elem?, ltb, leb, ◌==◌, if◌then◌else◌, ◌>>=◌,
}

-- The counters are int64 values as their bit patterns, and a latency counts nanoseconds.
pub record Metrics : Type 0 where
  pub requests : ℕ
  pub empty : ℕ
  pub partial : ℕ
  pub issued : ℕ
  pub db_round_trips : ℕ
  pub candidates_walked : ℕ
  pub rows_contended : ℕ
  pub latencies : List ℕ

abbrev pub new_metrics : Metrics
new_metrics = record {
  requests = 0;
  empty = 0;
  partial = 0;
  issued = 0;
  db_round_trips = 0;
  candidates_walked = 0;
  rows_contended = 0;
  latencies = [];
}

abbrev pub max_latency_samples : ℕ
max_latency_samples = 10000

abbrev pub add64 : ℕ → ℕ → ℕ
add64 a b = (a + b) % 2 ^ 64

-- One claim, as Observe is told of it.
pub record Claimed : Type 0 where
  pub latency : ℕ
  pub requested : ℕ
  pub issued : ℕ
  pub candidates : ℕ
  pub contended : ℕ
  pub round_trips : ℕ

unfoldable pub observe : Metrics → Claimed → Metrics
observe m c = record {
  requests = add64 m.requests 1;
  empty = if c.issued == 0 then add64 m.empty 1 else m.empty;
  partial =
      if c.issued == 0
      then m.partial
      else (if ltb c.issued c.requested then add64 m.partial 1 else m.partial);
  issued = add64 m.issued c.issued;
  db_round_trips = add64 m.db_round_trips c.round_trips;
  candidates_walked = add64 m.candidates_walked c.candidates;
  rows_contended = add64 m.rows_contended c.contended;
  latencies =
      if ltb (length m.latencies) max_latency_samples
      then m.latencies ++ c.latency ∷ []
      else m.latencies;
}

-- sort.Slice of the standard library, on the durations.
unfoldable pub insert : ℕ → List ℕ → List ℕ
insert d [] = d ∷ []
insert d (e ∷ es) = if leb d e then d ∷ e ∷ es else e ∷ insert d es

unfoldable pub sort : List ℕ → List ℕ
sort [] = []
sort (d ∷ ds) = insert d (sort ds)

-- A quotient of two numbers, which the code computes as a float64. The denominator 0 stands for a
-- field that is left at 0.
pub record Quotient : Type 0 where
  pub top : ℕ
  pub bottom : ℕ

-- ms: whole microseconds, over 1000.
abbrev pub ms : ℕ → Quotient
ms d = record { top = d / 1000; bottom = 1000 }

pub record Snapshot : Type 0 where
  pub requests : ℕ
  pub empty : ℕ
  pub partial : ℕ
  pub issued : ℕ
  pub db_round_trips : ℕ
  pub candidates_per_request : Quotient
  pub contended_per_request : Quotient
  pub p50 : Quotient
  pub p99 : Quotient

-- The samples at the ranks 50 and 99 of a hundred.
unfoldable pub percentiles : List ℕ → Option (ℕ × ℕ)
percentiles ds = do
  half ← get_elem? (sort ds) (length (sort ds) * 50 / 100)
  let last = length (sort ds) - 1
  let rank = length (sort ds) * 99 / 100
  most ← get_elem? (sort ds) (if leb rank last then rank else last)
  some (half, most)

unfoldable pub snapshot : Metrics → Option Snapshot
snapshot m =
    let none_yet : Quotient = record { top = 0; bottom = 0 } in
    let rate : ℕ → Quotient =
      λ total. if m.requests == 0 then none_yet else record { top = total; bottom = m.requests } in
    let filled : Quotient → Quotient → Snapshot = λ p50 p99. record {
      requests = m.requests;
      empty = m.empty;
      partial = m.partial;
      issued = m.issued;
      db_round_trips = m.db_round_trips;
      candidates_per_request = rate m.candidates_walked;
      contended_per_request = rate m.rows_contended;
      p50 = p50;
      p99 = p99;
    } in
    if length m.latencies == 0
    then some (filled none_yet none_yet)
    else (percentiles m.latencies >>= λ (half, most). some (filled (ms half) (ms most)))
