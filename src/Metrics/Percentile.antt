-- ===== src/Metrics/Percentile.antt =====
-- `percentile` of src/metrics/metrics.cpp. The double `std::ceil(quantile * n)` is a parameter,
-- `rank`, a number for each count of samples.
use coroutine_rpc_scheduler.Common.{
  List, [], arith, get_or, if◌then◌else◌, leb, length, min, refl, suc, zero, ℕ, ◌-◌, ◌<◌, ◌==◌, ◌∷◌,
  ◌≡◌, ◌≤◌,
}
use coroutine_rpc_scheduler.Metrics.{Metrics}
use coroutine_rpc_scheduler.Metrics.Window.{sample_values}
use coroutine_rpc_scheduler.Common.Sort.{sort_by, insert_by, length-sort_by}

module _ (rank : ℕ → ℕ) where
  unfoldable pub percentile : List ℕ → ℕ
  unfolding sort_by
  percentile values =
      let n = length values in
      let index = if leb (rank n) 1 then 0 else rank n - 1 in
      if n == 0 then 0 else get_or (sort_by leb values) (if leb n index then n - 1 else index) 0

abbrev pub count_le : ℕ → List ℕ → ℕ
count_le v [] = 0
count_le v (x ∷ xs) = if leb x v then suc (count_le v xs) else count_le v xs

count_le-insert_by : (v a : ℕ) (xs : List ℕ) → count_le v (insert_by leb a xs) ≡ count_le v (a ∷ xs)
unfolding insert_by
count_le-insert_by v a [] = refl
count_le-insert_by v a (x ∷ xs) = ground (arith, count_le-insert_by v a xs)

count_le-sort_by : (v : ℕ) (xs : List ℕ) → count_le v (sort_by leb xs) ≡ count_le v xs
unfolding sort_by
count_le-sort_by v [] = refl
count_le-sort_by v (x ∷ xs) =
    ground (arith, count_le-insert_by v x (sort_by leb xs), count_le-sort_by v xs)

-- Every number of the list is at least the bound.
abbrev AreFrom : ℕ → List ℕ → Type 0
AreFrom b [] = Unit {0}
AreFrom b (x ∷ xs) = (b ≤ x) × AreFrom x xs

insert_by-AreFrom : (b a : ℕ) (xs : List ℕ) → b ≤ a → AreFrom b xs → AreFrom b (insert_by leb a xs)
unfolding insert_by
insert_by-AreFrom b a [] h k = (h, tt)
insert_by-AreFrom b a (x ∷ xs) h k = ground (arith, insert_by-AreFrom x a xs)

sort_by-AreFrom : (xs : List ℕ) → AreFrom 0 (sort_by leb xs)
unfolding sort_by
sort_by-AreFrom [] = tt
sort_by-AreFrom (x ∷ xs) = insert_by-AreFrom 0 x (sort_by leb xs) (omega arith) (sort_by-AreFrom xs)

from-get_or : (b i : ℕ) (xs : List ℕ) → AreFrom b xs → i < length xs → b ≤ get_or xs i 0
from-get_or b i [] s h = elim h [ ]
from-get_or b zero (x ∷ xs) s h = s.0
from-get_or b (suc i) (x ∷ xs) s h = omega (arith, s.0, from-get_or x i xs s.1 (omega arith))

-- In a sorted list the item at index `i` has `i` items at most as large before it.
count_le-get_or :
    (b i : ℕ) (xs : List ℕ) → AreFrom b xs → i < length xs → suc i ≤ count_le (get_or xs i 0) xs
count_le-get_or b i [] s h = elim h [ ]
count_le-get_or b zero (x ∷ xs) s h = ground arith
count_le-get_or b (suc i) (x ∷ xs) s h =
    ground (arith, count_le-get_or x i xs s.1 (omega arith), from-get_or x i xs s.1 (omega arith))

covers_index :
    (values : List ℕ) (i : ℕ)
    → i < length values
    → suc i ≤ count_le (get_or (sort_by leb values) i 0) values
covers_index values i h =
    let n = length-sort_by leb values in
    omega (
      arith,
      n,
      count_le-sort_by (get_or (sort_by leb values) i 0) values,
      count_le-get_or 0 i (sort_by leb values) (sort_by-AreFrom values) (omega arith),
    )

-- The percentile covers its rank: at least `rank n` of the `n` samples, and at least one, are at
-- most as large, for every rank up to `n`; a rank above `n` gives the largest.
pub percentile_covers :
    (rank : ℕ → ℕ) (values : List ℕ)
    → 0 < length values
    → (1 ≤ count_le (percentile rank values) values)
      × (min (rank (length values)) (length values) ≤ count_le (percentile rank values) values)
unfolding percentile
percentile_covers rank values h = ground (
  arith,
  covers_index values 0,
  covers_index values (length values - 1),
  covers_index values (rank (length values) - 1),
)

-- struct MetricsSnapshot, with the four percentiles; `rank95` and `rank99` are the two ranks.
pub record MetricsSnapshot : Type 0 where
  pub counters : Metrics
  pub task_duration_p95_ms : ℕ
  pub task_duration_p99_ms : ℕ
  pub schedule_delay_p95_ms : ℕ
  pub schedule_delay_p99_ms : ℕ

unfoldable pub snapshot : (ℕ → ℕ) → (ℕ → ℕ) → Metrics → MetricsSnapshot
unfolding percentile sample_values
snapshot rank95 rank99 m = record {
  counters = m;
  task_duration_p95_ms = percentile rank95 (sample_values m.task_durations);
  task_duration_p99_ms = percentile rank99 (sample_values m.task_durations);
  schedule_delay_p95_ms = percentile rank95 (sample_values m.schedule_delays);
  schedule_delay_p99_ms = percentile rank99 (sample_values m.schedule_delays);
}
