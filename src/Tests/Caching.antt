-- ===== src/Tests/Caching.antt =====
-- Tests of Cache.
use bkk_api.Common.{
  ◌<◌, ◌≡◌, refl, Bytes, bytes, List, [], ◌∷◌, some, str_eq, length, if◌then◌else◌, arith,
}
use bkk_api.Common.Assoc.{lookup, insert, erase_if, unless}
use bkk_api.Cache.{
  UdsCache, CacheEntry, hit_stale, miss, seconds, make_cache, is_expired, put_element, get_element,
  classify,
}
use bkk_api.Cache.Reads
use bkk_api.Cache.History
use bkk_api.Cache.History.{Section, stores, sweeps}
use bkk_api.Cache.Size

abbrev start : UdsCache
start = record {
  cache = [];
  cache_freshness_seconds = 10;
  cache_staleness_seconds = 20;
  max_cache_size = 2;
}

abbrev old_entry : CacheEntry
old_entry = record { arrivals = []; timestamp = seconds 3 }

abbrev new_entry : CacheEntry
new_entry = record { arrivals = []; timestamp = seconds 30 }

start_made :
    make_cache
      (some (record { freshness_seconds = 10; staleness_seconds = 20; max_cache_size = 2 }))
    ≡ start
unfolding make_cache
start_made = refl

-- A stale entry, and one second later none.
stale_then_gone :
    (get_element
        (put_element start (bytes "A") old_entry (seconds 4))
        (bytes "A")
        new_entry
        (seconds 22)
      ≡ (hit_stale, old_entry))
    × (get_element
          (put_element start (bytes "A") old_entry (seconds 4))
          (bytes "A")
          new_entry
          (seconds 23)
        ≡ (miss, new_entry))
unfolding put_element get_element classify insert erase_if lookup str_eq
stale_then_gone = (refl, refl)

-- Two threads store; the sweep of the first comes last.
abbrev history : List Section
history =
    sweeps (seconds 31)
    ∷ sweeps (seconds 30)
    ∷ stores (bytes "A") new_entry
    ∷ stores (bytes "B") old_entry
    ∷ []

get_element-run_example :
    History.Answers start
      (seconds 35)
      old_entry
      (History.latest (bytes "A") history)
      (get_element (History.run start history) (bytes "A") old_entry (seconds 35))
get_element-run_example =
    History.get_element-run start history (bytes "A") old_entry (seconds 35) refl (omega arith)
      (omega arith)

put_element-IsValid_example :
    Reads.IsValid (put_element start (bytes "A") old_entry (seconds 4))
    × Reads.IsSwept (put_element start (bytes "A") old_entry (seconds 4)) (seconds 4)
    × ((put_element start (bytes "A") old_entry (seconds 4)).cache_freshness_seconds ≡ 10)
    × ((put_element start (bytes "A") old_entry (seconds 4)).cache_staleness_seconds ≡ 20)
    × ((put_element start (bytes "A") old_entry (seconds 4)).max_cache_size ≡ 2)
put_element-IsValid_example = Reads.put_element-IsValid start (bytes "A") old_entry (seconds 4) tt

lookup-put_element_example :
    lookup (bytes "B") (put_element start (bytes "A") old_entry (seconds 4)).cache
    ≡ unless
        (is_expired 20 (seconds 4))
        (if str_eq (bytes "A") (bytes "B") then some old_entry else lookup (bytes "B") [])
lookup-put_element_example =
    Reads.lookup-put_element start (bytes "A") (bytes "B") old_entry (seconds 4) tt

get_element-put_element_example : Reads.Classified start (seconds 22) old_entry new_entry (
    get_element
      (put_element start (bytes "A") old_entry (seconds 4))
      (bytes "A")
      new_entry
      (seconds 22))
get_element-put_element_example =
    Reads.get_element-put_element start (bytes "A") old_entry new_entry (seconds 4) (seconds 22) tt
      (omega arith) (omega arith)

put_all_exceeds_example :
    (keys : List Bytes) × Size.AllDistinct keys
    × (2 < length (Size.put_all start old_entry (seconds 4) keys).cache)
put_all_exceeds_example = Size.put_all_exceeds start old_entry (seconds 4) refl refl
