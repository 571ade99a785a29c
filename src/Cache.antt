-- ===== src/Cache.antt =====
-- The cache of arrivals by stop id (bkk_uds_server/bkk_cache.hpp and bkk_cache.cpp).
--
-- Times are nanoseconds of the steady clock, an argument of each operation that reads it. The code
-- compares a difference of times with a window; the model adds the window to the older time, which
-- is the same over the integers and has no subtraction. A configuration's numbers are not negative:
-- the argument parser gives no others. A public method takes the mutex once for each of its critical
-- sections, which are the functions `assign`, `remove_stale_entries` and `get_element` below.
pub mod Reads
pub mod History
pub mod Size
use bkk_api.Common.{
  ℕ, ◌+◌, ◌*◌, Bytes, ltb, leb, if◌then◌else◌, Bool, Option, none, some, List, [], ◌∷◌,
}
use bkk_api.Common.Assoc.{lookup, insert, erase_if}
use bkk_api.Types.{Arrival}

pub record CacheEntry : Type 0 where
  pub arrivals : List Arrival
  pub timestamp : ℕ

pub data CacheState : Type 0 where
  hit_fresh hit_stale miss : CacheState

pub record CacheConfig : Type 0 where
  pub freshness_seconds : ℕ
  pub staleness_seconds : ℕ
  pub max_cache_size : ℕ

pub record UdsCache : Type 0 where
  pub cache : List (Bytes × CacheEntry)
  pub cache_freshness_seconds : ℕ
  pub cache_staleness_seconds : ℕ
  pub max_cache_size : ℕ

-- `std::chrono::seconds(n)`, in nanoseconds.
abbrev pub seconds : ℕ → ℕ
seconds n = n * 1000000000

-- The constructor; no configuration leaves the members' defaults.
unfoldable pub make_cache : Option CacheConfig → UdsCache
make_cache none = record {
  cache = [];
  cache_freshness_seconds = 10;
  cache_staleness_seconds = 20;
  max_cache_size = 100;
}
make_cache (some config) = record {
  cache = [];
  cache_freshness_seconds = config.freshness_seconds;
  cache_staleness_seconds = config.staleness_seconds;
  max_cache_size = config.max_cache_size;
}

-- `cache[stop_id] = cache_entry`, the first critical section of `put_element`.
unfoldable pub assign : UdsCache → Bytes → CacheEntry → UdsCache
assign c stop_id entry = record c { cache = insert stop_id entry c.cache }

-- `now - timestamp >= staleness`.
abbrev pub is_expired : ℕ → ℕ → CacheEntry → Bool
is_expired staleness now entry = leb (entry.timestamp + seconds staleness) now

unfoldable pub remove_stale_entries : UdsCache → ℕ → UdsCache
remove_stale_entries c now = record c {
  cache = erase_if (is_expired c.cache_staleness_seconds now) c.cache;
}

-- `now` is the time that the sweep reads, after the entry is stored.
unfoldable pub put_element : UdsCache → Bytes → CacheEntry → ℕ → UdsCache
unfolding assign remove_stale_entries
put_element c stop_id entry now = remove_stale_entries (assign c stop_id entry) now

-- The two windows, for an entry that was found.
unfoldable pub classify : UdsCache → ℕ → CacheEntry → CacheEntry → CacheState × CacheEntry
classify c now entry entry_out =
    if ltb now (entry.timestamp + seconds c.cache_freshness_seconds)
    then (hit_fresh, entry)
    else if ltb now (entry.timestamp + seconds c.cache_staleness_seconds)
    then (hit_stale, entry)
    else (miss, entry_out)

-- The state, and what `*entry_out` holds afterwards.
unfoldable pub get_element : UdsCache → Bytes → CacheEntry → ℕ → CacheState × CacheEntry
get_element c stop_id entry_out now = elim (lookup stop_id c.cache) [
  | none ↦ (miss, entry_out)
  | some entry ↦ classify c now entry entry_out
]
