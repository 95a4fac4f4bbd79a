-- ===== src/Metrics/Counters.antt =====
-- What the counters hold after a sequence of claims.
use mathlib.Core.List.{append_assoc, append-nil}
use lottery_search_system.Prelude.{
  ℕ, zero, suc, ◌+◌, ◌%◌, ◌^◌, ◌<◌, ◌≡◌, refl, sym, ◌∙◌, List, [], ◌∷◌, ◌++◌, map, take, length,
  length-append, ltb, ◌==◌, if◌then◌else◌, arith, true, false,
}
use lottery_search_system.Metrics.{Metrics, new_metrics, Claimed, observe, max_latency_samples}

abbrev pub observe_all : Metrics → List Claimed → Metrics
observe_all m [] = m
observe_all m (c ∷ cs) = observe_all (observe m c) cs

abbrev pub total : (Claimed → ℕ) → List Claimed → ℕ
total f [] = 0
total f (c ∷ cs) = f c + total f cs

abbrev pub is_empty : Claimed → ℕ
is_empty c = if c.issued == 0 then 1 else 0

abbrev pub is_partial : Claimed → ℕ
is_partial c = if c.issued == 0 then 0 else (if ltb c.issued c.requested then 1 else 0)

-- The counters add up from where they were, and the samples are the first ones.
record AddsUp (m m' : Metrics) (cs : List Claimed) : Type 0 where
  pub requests : m'.requests ≡ (m.requests + length cs) % 2 ^ 64
  pub empty : m'.empty ≡ (m.empty + total is_empty cs) % 2 ^ 64
  pub partial : m'.partial ≡ (m.partial + total is_partial cs) % 2 ^ 64
  pub issued : m'.issued ≡ (m.issued + total (λ c. c.issued) cs) % 2 ^ 64

record IsSmall (m : Metrics) : Type 0 where
  requests : m.requests < 2 ^ 64
  empty : m.empty < 2 ^ 64
  partial : m.partial < 2 ^ 64
  issued : m.issued < 2 ^ 64

observe-IsSmall : (m : Metrics) (c : Claimed) → IsSmall m → IsSmall (observe m c)
unfolding observe
observe-IsSmall m c h = record {
  requests = omega arith;
  empty = ground (arith, h.empty);
  partial = ground (arith, h.partial);
  issued = omega arith;
}

observe_all-AddsUp : (m : Metrics) (cs : List Claimed) → IsSmall m → AddsUp m (observe_all m cs) cs
unfolding observe
observe_all-AddsUp m [] h = record {
  requests = omega (arith, h.requests);
  empty = omega (arith, h.empty);
  partial = omega (arith, h.partial);
  issued = omega (arith, h.issued);
}
observe_all-AddsUp m (c ∷ cs) h =
    let later = observe_all-AddsUp (observe m c) cs (observe-IsSmall m c h) in
    record {
      requests = omega (arith, later.requests);
      empty = ground (arith, later.empty);
      partial = ground (arith, later.partial);
      issued = omega (arith, later.issued);
    }

-- The samples, `room` being what is left below the cap.
latencies-take :
    (room : ℕ) (m : Metrics) (cs : List Claimed)
    → length m.latencies + room ≡ max_latency_samples
    → (observe_all m cs).latencies ≡ m.latencies ++ take room (map (λ (c : Claimed). c.latency) cs)
unfolding observe
latencies-take zero m [] h = sym (append-nil m.latencies)
latencies-take (suc room) m [] h = sym (append-nil m.latencies)
latencies-take zero m (c ∷ cs) h =
    let full : ltb (length m.latencies) 10000 ≡ false = ground arith in
    latencies-take zero (observe m c) cs (rw full h) ∙ rw full refl
latencies-take (suc room) m (c ∷ cs) h =
    let below_cap : ltb (length m.latencies) 10000 ≡ true = ground arith in
    latencies-take room (observe m c) cs
      (rw below_cap (omega (arith, length-append m.latencies (c.latency ∷ []))))
    ∙ rw below_cap (append_assoc m.latencies (c.latency ∷ []) _)

-- After any sequence of claims the counters are, as int64 values, the numbers of claims, of claims
-- that got nothing, of claims that got something but less than they asked for, and of tickets handed
-- out, and the samples are the latencies of the first ten thousand claims.
pub observe_totals :
    (cs : List Claimed)
    → ((observe_all new_metrics cs).requests ≡ length cs % 2 ^ 64)
      × ((observe_all new_metrics cs).empty ≡ total is_empty cs % 2 ^ 64)
      × ((observe_all new_metrics cs).partial ≡ total is_partial cs % 2 ^ 64)
      × ((observe_all new_metrics cs).issued ≡ total (λ c. c.issued) cs % 2 ^ 64)
      × ((observe_all new_metrics cs).latencies
          ≡ take max_latency_samples (map (λ (c : Claimed). c.latency) cs))
observe_totals cs =
    let sums = observe_all-AddsUp new_metrics cs (record {
      requests = omega arith;
      empty = omega arith;
      partial = omega arith;
      issued = omega arith;
    }) in
    (
      omega (arith, sums.requests),
      omega (arith, sums.empty),
      omega (arith, sums.partial),
      omega (arith, sums.issued),
      latencies-take 10000 new_metrics cs refl,
    )
