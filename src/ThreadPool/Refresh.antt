-- ===== src/ThreadPool/Refresh.antt =====
-- What a stale hit leads to (bkk_uds_server/bkk_thread_pool.cpp).
use bkk_api.Common.{◌+◌, ◌≤◌, ◌<◌, Bytes, some, List, [], ◌∷◌, length, cell, ◌≡◌, refl, ◌∙◌, arith}
use bkk_api.Types.{ok, Arrival}
use bkk_api.ResponseParser.External.{Json, Platform}
use bkk_api.Cache.{
  UdsCache, CacheEntry, CacheState, hit_fresh, hit_stale, miss, get_element, put_element, seconds,
}
use bkk_api.Cache.Reads.{IsValid}
use bkk_api.Api.{Curl, get_arrivals_for_station}
use bkk_api.Protocol.{request_size, stop_id_of, api_key_of, make_response}
use bkk_api.ThreadPool.{
  spawns, sends, closes, Times, no_entry, store_fetched, answer_client, handle_received,
  handle_client, refresh_in_background,
}
use bkk_api.ThreadPool.Replies.{fetch_lem, fresh_hit, handle_client_whole}

module _ (j : Json) (pl : Platform j) where
  answer_stale :
      (curl : Curl) (request : Bytes) (c : UdsCache) (t : Times) (got : CacheState × CacheEntry)
      → got.0 ≡ hit_stale
      → answer_client j pl curl request c t got
        ≡ some (record {
          cache = c;
          events = spawns request ∷ sends (make_response ok got.1.arrivals) ∷ closes ∷ [];
        })
  unfolding answer_client
  answer_stale curl request c t (hit_fresh, entry) e = absurd (ground arith)
  answer_stale curl request c t (hit_stale, entry) e = refl
  answer_stale curl request c t (miss, entry) e = absurd (ground arith)

  refresh_stored :
      (curl : Curl) (request : Bytes) (c : UdsCache) (t : Times) {stop_id key : Bytes}
      {l : List Arrival}
      → stop_id_of request ≡ some stop_id
      → api_key_of request ≡ some key
      → get_arrivals_for_station j pl curl stop_id key (cell []) ≡ (ok, cell l)
      → refresh_in_background j pl curl request c t
        ≡ some (put_element c stop_id (record { arrivals = l; timestamp = t.stored }) t.swept)
  unfolding refresh_in_background store_fetched
  refresh_stored curl request c t i k f =
      rw (fetch_lem j pl curl request c t k i, refresh_in_background, f) refl

  -- A client whose stop is in the cache, but stale, is answered at once from the entry, the cache stays as
  -- it is, and a refresh with its request is started. When that refresh has fetched arrivals, on
  -- whatever cache it finds by then, the next client that asks for the stop within the freshness
  -- window gets them, and nothing is requested for it.
  pub handle_client_refreshed :
      (curl other : Curl) (first second : Bytes) (c later : UdsCache) (t u w : Times)
      {stop_id key : Bytes} {l : List Arrival}
      → length first ≡ request_size
      → stop_id_of first ≡ some stop_id
      → api_key_of first ≡ some key
      → (get_element c stop_id no_entry t.looked).0 ≡ hit_stale
      → IsValid later
      → later.cache_freshness_seconds ≤ later.cache_staleness_seconds
      → get_arrivals_for_station j pl curl stop_id key (cell []) ≡ (ok, cell l)
      → length second ≡ request_size
      → stop_id_of second ≡ some stop_id
      → u.swept ≤ w.looked
      → w.looked < u.stored + seconds later.cache_freshness_seconds
      → let old = (get_element c stop_id no_entry t.looked).1 in
        (handle_client j pl curl (some first) c t
          ≡ some (record {
            cache = c;
            events = spawns first ∷ sends (make_response ok old.arrivals) ∷ closes ∷ [];
          }))
        × (d : UdsCache) × (refresh_in_background j pl curl first later u ≡ some d)
        × (handle_client j pl other (some second) d w
            ≡ some (record { cache = d; events = sends (make_response ok l) ∷ closes ∷ [] }))
  unfolding handle_received
  handle_client_refreshed curl other first second c later t u w {stop_id} {key} {l} s1 i1 k1 stale v
        le f s2 i2 after fresh =
      let entry : CacheEntry = record { arrivals = l; timestamp = u.stored } in
      let d = put_element later stop_id entry u.swept in
      let read = fresh_hit j pl later stop_id entry u.swept w.looked v le after fresh in
      (
        handle_client_whole j pl curl first c t s1
            ∙ rw (s1, i1, handle_received)
                (answer_stale curl first c t (get_element c stop_id no_entry t.looked) stale),
        d,
        refresh_stored curl first later u i1 k1 f,
        handle_client_whole j pl other second d w s2
            ∙ rw (s2, i2, handle_received, read) (unfold answer_client in refl),
      )
