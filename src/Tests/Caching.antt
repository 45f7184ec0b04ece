-- ===== src/Tests/Caching.antt =====
-- The cache's task at concrete events: the first delay passes, a value is generated, it expires and
-- the next attempt fails.
use rust_playground.Base.{◌≡◌, ◌≢◌, refl, ℕ, false, some, [], ◌∷◌, ok, err, ◌==◌, ==→eq}
use rust_playground.Cache.{real, CacheInfo, Task, expired, new, handle, start, panics}
use rust_playground.Cache.Reachable.{Steps, here, step, handle-not_panics}
use rust_playground.Cache.Latest.{best, cached-best}

abbrev good : CacheInfo ℕ ℕ
good = record { value = ok 5; creation_time = 1100; validation_time = 100 }

abbrev bad : CacheInfo ℕ ℕ
bad = record { value = err (real 3); creation_time = 601100; validation_time = 600100 }

abbrev filled : Task ℕ ℕ
filled = record { cached_value = good; cache_expired = some 600000; new_value = false }

fills : Steps ◌==◌ (start 1000 0) (good ∷ []) filled
unfolding handle start
fills = step (new (some good) 1100 100) (step expired here refl refl) refl refl

kept : Steps ◌==◌ filled (bad ∷ []) filled
unfolding handle
kept = step (new (some bad) 601100 600100) (step expired here refl refl) refl refl

cached-best_example : ◌≡◌ (ok 5) (best (good ∷ []))
cached-best_example = cached-best ◌==◌ ==→eq 1000 0 fills

handle-not_panics_example : handle ◌==◌ filled expired ≢ panics
handle-not_panics_example = handle-not_panics ◌==◌ 1000 0 expired fills refl
