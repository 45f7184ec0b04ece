-- ===== src/Cache.antt =====
-- The cache of ui/src/server_axum/cache.rs: `cache_task` as a handler of the events that its
-- `select!` waits for. A future that is fused is a running one or a terminated one, and a
-- terminated one does not resolve. `T` is the cached data, `E` the generator's error and `eq` the
-- equality of `T`.
pub mod Reachable
pub mod Latest
use rust_playground.Base.{
  ℕ, ◌*◌, Bool, true, false, Option, none, some, if◌then◌else◌, Result, ok, err, is_ok, is_some,
}

-- Durations, in milliseconds.
abbrev pub sandbox_cache_time_to_live : ℕ
sandbox_cache_time_to_live = 10 * 60 * 1000

abbrev pub sandbox_cache_error_time_to_live : ℕ
sandbox_cache_error_time_to_live = 10 * 1000

abbrev pub sandbox_cache_initial_delay : ℕ
sandbox_cache_initial_delay = 100

pub data CacheError (E : Type 0) : Type 0 where
  empty : CacheError E
  real : E → CacheError E

pub record CacheInfo (T E : Type 0) : Type 0 where
  pub value : Result T (CacheError E)
  pub creation_time : ℕ
  pub validation_time : ℕ

module _ {T E : Type 0} where
  -- `CacheInfo::build`, at the time `now` of the wall clock and of the monotonic one.
  abbrev pub build : ℕ → ℕ → Result T (CacheError E) → CacheInfo T E
  build now instant v = record { value = v; creation_time = now; validation_time = instant }

  abbrev pub stamped_value : CacheInfo T E → Result T (CacheError E) × ℕ
  stamped_value i = (i.value, i.creation_time)

  -- The match of `try_combine_with_previous`, on the old value and the new one.
  abbrev pub combine :
      (T → T → Bool)
      → CacheInfo T E
      → CacheInfo T E
      → Result T (CacheError E)
      → Result T (CacheError E)
      → CacheInfo T E
  combine eq self old_value (err a) (ok b) = self
  combine eq self old_value (err a) (err b) = self
  combine eq self old_value (ok a) (err b) = old_value
  combine eq self old_value (ok a) (ok b) =
      if eq a b then record old_value { validation_time = self.validation_time } else self

  unfoldable pub try_combine_with_previous :
      (T → T → Bool) → CacheInfo T E → CacheInfo T E → CacheInfo T E
  try_combine_with_previous eq self old_value = combine eq self old_value old_value.value self.value

-- The variables of the task: `cache_expired`, with its delay while it is running, and whether
-- `new_value` is running.
pub record Task (T E : Type 0) : Type 0 where
  pub cached_value : CacheInfo T E
  pub cache_expired : Option ℕ
  pub new_value : Bool

-- What `select!` gives. `new` has what the generator's task built, or nothing when it was aborted
-- or panicked, and the times at which the task then looks at the clocks.
pub data Event (T E : Type 0) : Type 0 where
  rx_closed rx expired : Event T E
  new : Option (CacheInfo T E) → ℕ → ℕ → Event T E

pub data Handled (T E : Type 0) : Type 0 where
  goes_on : Task T E → Option (Result T (CacheError E) × ℕ) → Handled T E
  stops panics : Handled T E

module _ {T E : Type 0} where
  abbrev pub unwrap_or_empty : ℕ → ℕ → Option (CacheInfo T E) → CacheInfo T E
  unwrap_or_empty now instant none = build now instant (err empty)
  unwrap_or_empty now instant (some i) = i

  abbrev pub cache_ttl : CacheInfo T E → ℕ
  cache_ttl i =
      if is_ok i.value then sandbox_cache_time_to_live else sandbox_cache_error_time_to_live

  -- Before the loop, at the given times.
  unfoldable pub start : ℕ → ℕ → Task T E
  start now instant = record {
    cached_value = build now instant (err empty);
    cache_expired = some sandbox_cache_initial_delay;
    new_value = false;
  }

  -- Whether `select!` can give an event.
  abbrev pub is_possible : Task T E → Event T E → Bool
  is_possible t rx_closed = true
  is_possible t rx = true
  is_possible t expired = is_some t.cache_expired
  is_possible t (new v now instant) = t.new_value

  -- The arms of the loop's `match`. A future that has resolved is terminated.
  unfoldable pub handle : (T → T → Bool) → Task T E → Event T E → Handled T E
  unfolding try_combine_with_previous
  handle eq t rx_closed = stops
  handle eq t rx = goes_on t (some (stamped_value t.cached_value))
  handle eq t expired =
      if t.new_value
      then panics
      else goes_on (record t { cache_expired = none; new_value = true }) none
  handle eq t (new v now instant) =
      let i = try_combine_with_previous eq (unwrap_or_empty now instant v) t.cached_value in
      if is_some t.cache_expired
      then panics
      else goes_on
          (record { cached_value = i; cache_expired = some (cache_ttl i); new_value = false }) none
