-- ===== src/ThreadPool.antt =====
-- The handling of a client and the pool of threads (bkk_uds_server/bkk_thread_pool.cpp).
--
-- The socket, the clock, libcurl and cJSON are parameters: the packet that a client sends, the times that
-- a call reads, and the answers to requests are arguments.
pub mod Handle
pub mod Replies
pub mod Refresh
pub mod Workers
pub mod Sums
pub mod Steady
pub mod Queue
pub mod Wakeups
use bkk_api.Common.{
  ℕ, ◌+◌, Bytes, Bool, Option, none, some, List, [], ◌∷◌, ◌==◌, if◌then◌else◌, length, take, Ptr,
  null, cell,
}
use bkk_api.Types.{BkkApiStatus, ok, Arrival}
use bkk_api.ResponseParser.External.{Json, Platform}
use bkk_api.Cache.{
  UdsCache, CacheEntry, CacheState, hit_fresh, hit_stale, miss, get_element, put_element,
}
use bkk_api.Api.{Curl, get_arrivals_for_station}
use bkk_api.Protocol.{request_size, stop_id_of, api_key_of, Response, make_response}

-- What the handler does to the outside, in order.
pub data Event : Type 0 where
  -- `std::thread(...).detach()` on a copy of the request.
  spawns : Bytes → Event
  sends : Response → Event
  closes : Event

-- The times of a call: of the look into the cache, of the new entry, and of the sweep behind it.
pub record Times : Type 0 where
  pub looked : ℕ
  pub stored : ℕ
  pub swept : ℕ

-- A vector behind a pointer that is not NULL.
abbrev pub vector : Ptr (List Arrival) → List Arrival
vector null = []
vector (cell l) = l

-- `cache_entry_t cache_entry;`
abbrev pub no_entry : CacheEntry
no_entry = record { arrivals = []; timestamp = 0 }

pub record Handled : Type 0 where
  pub cache : UdsCache
  pub events : List Event

-- `recv` into the request object, which takes one packet and drops what does not fit.
abbrev pub recv_request : Bytes → Bytes
recv_request packet = take request_size packet

module _ (j : Json) (pl : Platform j) where
  -- The status, the cache, and the vector `*arrivals_out`, which was empty.
  pub record Refreshed : Type 0 where
    pub status : BkkApiStatus
    pub cache : UdsCache
    pub arrivals : List Arrival

  unfoldable pub store_fetched :
      UdsCache → Bytes → Times → BkkApiStatus × Ptr (List Arrival) → Refreshed
  store_fetched cache stop_id times (ok, fresh_arrivals) = record {
    status = ok;
    cache =
        put_element cache stop_id
          (record { arrivals = vector fresh_arrivals; timestamp = times.stored }) times.swept;
    arrivals = vector fresh_arrivals;
  }
  store_fetched cache stop_id times (status, fresh_arrivals) = record {
    status = status;
    cache = cache;
    arrivals = [];
  }

  -- `fresh_fetch_and_update_cache`; `none` is a text of the request without an end.
  unfoldable pub fresh_fetch_and_update_cache : Curl → Bytes → UdsCache → Times → Option Refreshed
  unfolding store_fetched
  fresh_fetch_and_update_cache curl request cache times = elim (api_key_of request) [
    | none ↦ none
    | some api_key ↦ elim (stop_id_of request) [
      | none ↦ none
      | some stop_id ↦ some (
          store_fetched cache stop_id times
            (get_arrivals_for_station j pl curl stop_id api_key (cell [])))
    ]
  ]

  -- The branches on the state of the cache, and the response.
  unfoldable pub answer_client :
      Curl → Bytes → UdsCache → Times → CacheState × CacheEntry → Option Handled
  answer_client curl request cache times (hit_fresh, entry) =
      some
        (record { cache = cache; events = sends (make_response ok entry.arrivals) ∷ closes ∷ [] })
  answer_client curl request cache times (hit_stale, entry) = some (record {
    cache = cache;
    events = spawns request ∷ sends (make_response ok entry.arrivals) ∷ closes ∷ [];
  })
  answer_client curl request cache times (miss, entry) =
      elim (fresh_fetch_and_update_cache curl request cache times) [
        | none ↦ none
        | some r ↦ some (record {
          cache = r.cache;
          events = sends (make_response r.status r.arrivals) ∷ closes ∷ [];
        })
      ]

  -- From the test of the size on, for what `recv` left in the request object. `none` is a read of a text
  -- that goes on past the request.
  unfoldable pub handle_received : Curl → Bytes → UdsCache → Times → Option Handled
  handle_received curl request cache times =
      if length request == request_size
      then elim (stop_id_of request) [
        | none ↦ none
        | some stop_id ↦
            answer_client curl request cache times (get_element cache stop_id no_entry times.looked)
      ]
      else some (record { cache = cache; events = closes ∷ [] })

  -- The packet is what the client sent, `none` if `recv` fails or the client has gone.
  unfoldable pub handle_client : Curl → Option Bytes → UdsCache → Times → Option Handled
  handle_client curl none cache times = some (record { cache = cache; events = closes ∷ [] })
  handle_client curl (some packet) cache times =
      handle_received curl (recv_request packet) cache times

  -- The body of the detached thread: the vector is dropped.
  unfoldable pub refresh_in_background : Curl → Bytes → UdsCache → Times → Option UdsCache
  refresh_in_background curl request cache times =
      elim (fresh_fetch_and_update_cache curl request cache times) [
        | none ↦ none
        | some r ↦ some r.cache
      ]
