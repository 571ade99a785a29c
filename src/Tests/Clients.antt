-- ===== src/Tests/Clients.antt =====
-- Tests of ThreadPool and Protocol.
use bkk_api.Common.{
  ◌≡◌, ◌++◌, refl, bytes, [], ◌∷◌, some, none, length, take, replicate, until_zero, c_str, strncpy,
  arith,
}
use bkk_api.Common.Assoc.{lookup, insert, erase_if}
use bkk_api.Types.{zero_arrival, ok}
use bkk_api.Cache.{UdsCache, seconds, put_element, get_element, classify}
use bkk_api.Protocol.{
  client_request, stop_id_of, api_key_of, request_size, copy_arrivals, make_response,
}
use bkk_api.Protocol.Request
use bkk_api.ThreadPool.{
  spawns, sends, closes, Times, Handled, store_fetched, fresh_fetch_and_update_cache, answer_client,
  handle_received, handle_client, refresh_in_background,
}
use bkk_api.ThreadPool.Handle
use bkk_api.ThreadPool.Replies
use bkk_api.ThreadPool.Refresh
use bkk_api.Tests.Sample.{sample_json, sample_platform, sample_curl, dead_curl}
use bkk_api.Tests.Parser.{first_arrival}
use bkk_api.Tests.Fetching

-- All that the handling of a client computes with.
program : Unit {0}
unfolding Fetching.program lookup insert erase_if put_element get_element classify client_request
    c_str until_zero copy_arrivals make_response store_fetched fresh_fetch_and_update_cache
    answer_client handle_received handle_client refresh_in_background
program = tt

abbrev pub start : UdsCache
start = record {
  cache = [];
  cache_freshness_seconds = 10;
  cache_staleness_seconds = 20;
  max_cache_size = 100;
}

abbrev pub first : Times
first = record { looked = seconds 5; stored = seconds 6; swept = seconds 6 }

abbrev later : Times
later = record { looked = seconds 9; stored = seconds 9; swept = seconds 9 }

abbrev filled : UdsCache
filled = record start {
  cache = (bytes "F02262", record { arrivals = first_arrival ∷ []; timestamp = seconds 6 }) ∷ [];
}

abbrev served : Handled
served = record {
  cache = filled;
  events = sends (make_response ok (first_arrival ∷ [])) ∷ closes ∷ [];
}

serve_first :
    handle_client sample_json sample_platform sample_curl
      (some (client_request (bytes "F02262") (bytes "k1")))
      start
      first
    ≡ some served
unfolding program
serve_first = refl

start-IsGood : Handle.IsGood start
start-IsGood = record { valid = tt; full = tt }

handle_client-IsSound_example : Handle.IsSound served
handle_client-IsSound_example =
    Handle.handle_client-IsSound sample_json sample_platform sample_curl
      (some (client_request (bytes "F02262") (bytes "k1"))) start first start-IsGood serve_first

refresh_first :
    refresh_in_background sample_json sample_platform sample_curl
      (client_request (bytes "F02262") (bytes "k1"))
      start
      first
    ≡ some filled
unfolding program
refresh_first = refl

refresh_in_background-IsGood_example : Handle.IsGood filled
refresh_in_background-IsGood_example =
    Handle.refresh_in_background-IsGood sample_json sample_platform sample_curl
      (client_request (bytes "F02262") (bytes "k1")) start first start-IsGood refresh_first

serve_longer :
    handle_client sample_json sample_platform sample_curl
      (some (client_request (bytes "F02262") (bytes "k1") ++ bytes "more"))
      start
      first
    ≡ some served
unfolding program
serve_longer = refl

handle_client_total_example :
    (h : Handled) × (handle_client sample_json sample_platform dead_curl
        (some (client_request (bytes "F02262") (bytes "k1")))
        start
        first
      ≡ some h)
unfolding client_request c_str strncpy
handle_client_total_example =
    Replies.handle_client_total sample_json sample_platform dead_curl
      (client_request (bytes "F02262") (bytes "k1")) start first {key = bytes "k1"} refl

handle_client_unterminated_example :
    handle_client sample_json sample_platform sample_curl (some (replicate 320 b'A')) start first
    ≡ none
handle_client_unterminated_example =
    Replies.handle_client_unterminated sample_json sample_platform sample_curl (replicate 320 b'A')
      start first refl (omega arith)

-- The second client has another key, and the server would not answer it.
handle_client_second_example :
    handle_client sample_json sample_platform dead_curl
      (some (client_request (bytes "F02262") (bytes "wrong")))
      filled
      later
    ≡ some (record {
      cache = filled;
      events = sends (make_response ok (first_arrival ∷ [])) ∷ closes ∷ [];
    })
unfolding program
handle_client_second_example =
    Replies.handle_client_second sample_json sample_platform sample_curl dead_curl
      (client_request (bytes "F02262") (bytes "k1"))
      (client_request (bytes "F02262") (bytes "wrong")) start first later {stop_id = bytes "F02262"}
      {key = bytes "k1"} {l = first_arrival ∷ []} {h = served} tt (omega arith) refl refl refl refl
      refl refl refl refl (omega arith) (omega arith)

client_request_read_example :
    (length (client_request (bytes "F02262") (bytes "k1")) ≡ request_size)
    × (stop_id_of (client_request (bytes "F02262") (bytes "k1"))
        ≡ some (take 63 (until_zero (bytes "F02262"))))
    × (api_key_of (client_request (bytes "F02262") (bytes "k1"))
        ≡ some (take 255 (until_zero (bytes "k1"))))
client_request_read_example = Request.client_request_read (bytes "F02262") (bytes "k1")

make_response_lem_example :
    ((make_response ok (first_arrival ∷ [])).status ≡ ok)
    × ((make_response ok (first_arrival ∷ [])).number_of_arrivals ≡ 1)
    × ((make_response ok (first_arrival ∷ [])).arrivals ≡ first_arrival ∷ replicate 15 zero_arrival)
make_response_lem_example = Request.make_response_lem ok (first_arrival ∷ [])

abbrev stale_look : Times
stale_look = record { looked = seconds 17; stored = seconds 17; swept = seconds 17 }

abbrev refreshing : Times
refreshing = record { looked = seconds 17; stored = seconds 18; swept = seconds 18 }

abbrev after_refresh : Times
after_refresh = record { looked = seconds 20; stored = seconds 20; swept = seconds 20 }

handle_client_refreshed_example :
    (handle_client sample_json sample_platform dead_curl
        (some (client_request (bytes "F02262") (bytes "k1")))
        filled
        stale_look
      ≡ some (record {
        cache = filled;
        events =
            spawns (client_request (bytes "F02262") (bytes "k1"))
            ∷ sends (make_response ok (first_arrival ∷ []))
            ∷ closes
            ∷ [];
      }))
    × (d : UdsCache) × (refresh_in_background sample_json sample_platform sample_curl
          (client_request (bytes "F02262") (bytes "k1"))
          filled
          refreshing
        ≡ some d)
    × (handle_client sample_json sample_platform dead_curl
          (some (client_request (bytes "F02262") (bytes "wrong")))
          d
          after_refresh
        ≡ some (record {
          cache = d;
          events = sends (make_response ok (first_arrival ∷ [])) ∷ closes ∷ [];
        }))
unfolding program
handle_client_refreshed_example =
    Refresh.handle_client_refreshed sample_json sample_platform sample_curl dead_curl
      (client_request (bytes "F02262") (bytes "k1"))
      (client_request (bytes "F02262") (bytes "wrong")) filled filled stale_look refreshing
      after_refresh {stop_id = bytes "F02262"} {key = bytes "k1"} {l = first_arrival ∷ []} refl refl
      refl refl (refl, tt) (omega arith) refl refl refl (omega arith) (omega arith)
