-- ===== src/Metrics.antt =====
-- core/src/metrics.rs: bounded samples with their percentiles, and a high watermark.
use native.Mathlib.Nat.{mul-le-mul_left}
use elo_ranking_pairing_syst.Base.{
  ℕ, zero, suc, leb→le, ◌+◌, ◌-◌, ◌*◌, ◌/◌, ◌%◌, ◌≤◌, ◌<◌, ◌≡◌, ◌==◌, Bool, true, false, ◌&&◌, ◌||◌,
  List, [], ◌∷◌, ◌++◌, min, length, get_elem?, unwrap_or, leb, ltb, length-append, arith,
  if◌then◌else◌,
}
use elo_ranking_pairing_syst.Base.Word.{u64_max, u64_mod}
use elo_ranking_pairing_syst.Base.Text.{Text, text, to_ascii_lowercase}
use elo_ranking_pairing_syst.Base.Map.{Map}
use elo_ranking_pairing_syst.Components.{QueueMode}
use elo_ranking_pairing_syst.Base.Order.{nat_order}
use elo_ranking_pairing_syst.Base.Sort.{sort_by, IsSorted, sort_by-IsSorted, length-sort_by}

abbrev pub max_latency_samples : ℕ
max_latency_samples = 4096

-- The loop of `compare_exchange_weak` on a value that no other thread changes.
unfoldable pub observe_high : ℕ → ℕ → ℕ
observe_high old n = if ltb old n then n else old

abbrev pub Histogram : Type 0
Histogram = List ℕ

-- `VecDeque::pop_front`
abbrev pub pop_front : Histogram → Histogram
pop_front [] = []
pop_front (x ∷ xs) = xs

unfoldable pub observe : Histogram → ℕ → Histogram
observe values value =
    let kept = if length values == max_latency_samples then pop_front values else values in
    kept ++ value ∷ []

-- A sample of a sorted list; the index is always within it.
unfoldable pub percentile : List ℕ → ℕ → ℕ
percentile [] p = 0
percentile (x ∷ xs) p =
    unwrap_or 0 (get_elem? (x ∷ xs) ((min (length (x ∷ xs) * p) u64_max + 99) / 100 - 1))

pub record HistogramSummary : Type 0 where
  pub samples : ℕ
  pub p50 : ℕ
  pub p95 : ℕ
  pub p99 : ℕ

unfoldable pub summary : Histogram → HistogramSummary
summary values =
    let sorted = sort_by leb values in
    record {
      samples = length sorted;
      p50 = percentile sorted 50;
      p95 = percentile sorted 95;
      p99 = percentile sorted 99;
    }

-- The figures of the authority; `QueueLabel` is a mode and a region.
pub record MetricSnapshot : Type 0 where
  pub queue_players : Map (QueueMode × Text) ℕ
  pub capacity_total : ℕ
  pub capacity_used : ℕ
  pub reservations : ℕ
  pub running_instances : ℕ
  pub party_structure_difference_sum : ℕ
  pub elo_quality_sum : ℕ
  pub match_latency_us : List ℕ

-- Counters and watermarks are words of 64 bits.
pub record Metrics : Type 0 where
  pub commands : ℕ
  pub matches : ℕ
  pub ready_accepts : ℕ
  pub ready_rejects : ℕ
  pub ready_timeouts : ℕ
  pub credit_penalties : ℕ
  pub launch_failures : ℕ
  pub reconnects : ℕ
  pub invariant_failures : ℕ
  pub command_queue_high : ℕ
  pub event_queue_high : ℕ
  pub control_queue_high : ℕ
  pub queue_wait_us : Histogram
  pub candidate_compute_us : Histogram
  pub commit_us : Histogram
  pub ready_check_us : Histogram
  pub placement_us : Histogram
  pub launch_us : Histogram
  pub lifecycle : MetricSnapshot

-- `Counter::add`: `fetch_add` wraps.
unfoldable pub add : ℕ → ℕ → ℕ
add counter n = (counter + n) % u64_mod

-- `str::contains`
unfoldable pub is_prefix : Text → Text → Bool
is_prefix [] value = true
is_prefix (c ∷ part) [] = false
is_prefix (c ∷ part) (d ∷ value) = (c == d) && is_prefix part value

unfoldable pub has_part : Text → Text → Bool
unfolding is_prefix
has_part part [] = is_prefix part []
has_part part (d ∷ value) = is_prefix part (d ∷ value) || has_part part value

unfoldable pub redact_field : Text → Text → Text
unfolding to_ascii_lowercase has_part
redact_field name value =
    let lower = to_ascii_lowercase name in
    if has_part (text "token") lower
      || has_part (text "secret") lower
      || has_part (text "authorization") lower
    then text "[REDACTED]"
    else value

abbrev pub observe_all : Histogram → List ℕ → Histogram
observe_all h [] = h
observe_all h (v ∷ vs) = observe_all (observe h v) vs

observe-length :
    (h : Histogram) (v : ℕ)
    → length h ≤ max_latency_samples
    → length (observe h v) ≤ max_latency_samples
unfolding observe
observe-length [] v l = ground arith
observe-length (x ∷ h) v l =
    ground (arith, length-append h (v ∷ []), length-append (x ∷ h) (v ∷ []))

-- However many values are observed, at most 4096 samples are kept.
pub observe_all-length :
    (vs : List ℕ) (h : Histogram)
    → length h ≤ max_latency_samples
    → length (observe_all h vs) ≤ max_latency_samples
observe_all-length [] h l = l
observe_all-length (v ∷ vs) h l = observe_all-length vs (observe h v) (observe-length h v l)

head-le :
    (x : ℕ) (xs : List ℕ) (j : ℕ)
    → IsSorted leb (x ∷ xs)
    → j < length (x ∷ xs)
    → x ≤ unwrap_or 0 (get_elem? (x ∷ xs) j)
head-le x xs zero s l = omega arith
head-le x [] (suc j) s l = omega (arith, l)
head-le x (y ∷ ys) (suc j) s l =
    omega (arith, leb→le x y s.0, head-le y ys j s.1 (omega (arith, l)))

sorted-le :
    (xs : List ℕ) (i j : ℕ)
    → IsSorted leb xs
    → i ≤ j
    → j < length xs
    → unwrap_or 0 (get_elem? xs i) ≤ unwrap_or 0 (get_elem? xs j)
sorted-le [] i j s h l = omega (arith, l)
sorted-le (x ∷ xs) zero j s h l = head-le x xs j s l
sorted-le (x ∷ xs) (suc i) zero s h l = omega (arith, h)
sorted-le (x ∷ []) (suc i) (suc j) s h l = omega (arith, l)
sorted-le (x ∷ y ∷ ys) (suc i) (suc j) s h l =
    sorted-le (y ∷ ys) i j s.1 (omega (arith, h)) (omega (arith, l))

percentile-le :
    (xs : List ℕ) (p q : ℕ) → IsSorted leb xs → p ≤ q → q ≤ 100 → percentile xs p ≤ percentile xs q
unfolding percentile
percentile-le [] p q s h k = omega arith
percentile-le (x ∷ xs) p q s h k =
    let n = length (x ∷ xs) in
    let near = mul-le-mul_left n h in
    let top = mul-le-mul_left n k in
    sorted-le (x ∷ xs) ((min (n * p) u64_max + 99) / 100 - 1) ((min (n * q) u64_max + 99) / 100 - 1)
      s (omega (arith, near)) (omega (arith, top))

-- A summary counts all samples, and its percentiles are in their order.
pub summary_ordered :
    (values : Histogram)
    → ((summary values).samples ≡ length values)
      × ((summary values).p50 ≤ (summary values).p95)
      × ((summary values).p95 ≤ (summary values).p99)
unfolding summary
summary_ordered values =
    let sorted = sort_by-IsSorted leb nat_order.total values in
    (
      length-sort_by leb values,
      percentile-le (sort_by leb values) 50 95 sorted (omega arith) (omega arith),
      percentile-le (sort_by leb values) 95 99 sorted (omega arith) (omega arith),
    )
