-- ===== src/Metrics/Window.antt =====
-- The sample window of src/metrics/metrics.cpp holds the latest samples.
use coroutine_rpc_scheduler.Common.{
  List, [], arith, length, min, refl, suc, zero, ℕ, ◌%◌, ◌+◌, ◌<◌, ◌∷◌, ◌≡◌, ◌≤◌,
}
use coroutine_rpc_scheduler.Metrics.{Samples, sample_window_size, observe}

unfoldable pub observe_all : List ℕ → Samples → Samples
observe_all [] s = s
observe_all (v ∷ vs) s = observe_all vs (observe v s)

-- The vector that `snapshot` copies: the first `count` slots, from slot `i` on.
unfoldable pub copy_from : (ℕ → ℕ) → ℕ → ℕ → List ℕ
copy_from f i zero = []
copy_from f i (suc n) = f i ∷ copy_from f (i + 1) n

unfoldable pub sample_values : Samples → List ℕ
unfolding copy_from
sample_values s = copy_from s.values 0 (min s.total sample_window_size)

observe_all-total :
    (vs : List ℕ) (s : Samples)
    → s.total + length vs < 18446744073709551616
    → (observe_all vs s).total ≡ s.total + length vs
unfolding observe_all observe
observe_all-total [] s h = omega arith
observe_all-total (v ∷ vs) s h = ground (arith, observe_all-total vs (observe v s))

-- Samples number `i` and later after sample number `t` miss its slot until 1024 have come.
slot_kept :
    (t i : ℕ) (vs : List ℕ) (s : Samples)
    → s.total ≡ t + i
    → 0 < i
    → i + length vs ≤ 1024
    → t + i + length vs < 18446744073709551616
    → (observe_all vs s).values (t % 1024) ≡ s.values (t % 1024)
unfolding observe_all observe
slot_kept t i [] s e pos few small = refl
slot_kept t i (v ∷ vs) s e pos few small = ground (
  arith,
  slot_kept t (i + 1) vs (observe v s) (omega arith) (omega arith) (omega arith) (omega arith),
)

-- A sample stays in its slot while fewer than 1024 others follow it: the window holds the last
-- 1024 samples, whichever came before. The count of all samples must not have wrapped.
pub observe_all_window :
    (v : ℕ) (vs : List ℕ) (s : Samples)
    → length vs < sample_window_size
    → s.total + length vs + 1 < 18446744073709551616
    → (observe_all (v ∷ vs) s).values (s.total % sample_window_size) ≡ v
unfolding observe_all observe
observe_all_window v vs s h k = ground (
  arith,
  slot_kept s.total 1 vs (observe v s) (omega arith) (omega arith) (omega arith) (omega arith),
)
