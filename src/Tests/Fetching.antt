-- ===== src/Tests/Fetching.antt =====
-- Tests of Api.
use bkk_api.Common.{◌≡◌, refl, bytes, [], ◌∷◌, ◌++◌, cell, str_lt, is_prefix, true}
use bkk_api.Api.{
  write_all, map_insert, map_of, add_params, request_url, status_of_answer, make_request,
  format_stop_id, arrivals_endpoint, stop_params, get_arrivals_for_stop, is_successful_parse_status,
  parse_answer, get_arrivals_for_station,
}
use bkk_api.Types.{ok, curl_perform_failed}
use bkk_api.Api.Url
use bkk_api.Api.Fetch
use bkk_api.Tests.Sample.{sample_json, sample_platform, sample_curl, dead_curl}
use bkk_api.Tests.Parser.{first_arrival}
use bkk_api.Tests.Parser

-- All that a fetch computes with.
unfoldable pub program : Unit {0}
unfolding Parser.program str_lt is_prefix write_all map_insert map_of add_params request_url
    status_of_answer make_request format_stop_id stop_params get_arrivals_for_stop
    is_successful_parse_status parse_answer get_arrivals_for_station
program = tt

pub fetch_sample :
    get_arrivals_for_station sample_json sample_platform sample_curl
      (bytes "F02262")
      (bytes "key")
      (cell [])
    ≡ (ok, cell (first_arrival ∷ []))
unfolding program
fetch_sample = refl

fetch_dead :
    get_arrivals_for_station sample_json sample_platform dead_curl
      (bytes "F02262")
      (bytes "key")
      (cell (first_arrival ∷ []))
    ≡ (curl_perform_failed, cell [])
unfolding program
fetch_dead = refl

get_arrivals_for_station-Fetched_example : Fetch.Fetched (
    get_arrivals_for_station sample_json sample_platform sample_curl
      (bytes "F02262")
      (bytes "key")
      (cell []))
get_arrivals_for_station-Fetched_example =
    Fetch.get_arrivals_for_station-Fetched sample_json sample_platform sample_curl (bytes "F02262")
      (bytes "key") []

make_request-Answered_example :
    Fetch.Answered sample_curl
      (bytes "key")
      (sample_curl.perform (request_url arrivals_endpoint (bytes "key") []))
      (bytes "old")
      (make_request sample_curl arrivals_endpoint (bytes "key") [] (cell (bytes "old")))
make_request-Answered_example =
    Fetch.make_request-Answered sample_curl arrivals_endpoint (bytes "key") [] (bytes "old")

request_url-stop_params_example :
    request_url arrivals_endpoint (bytes "k1") (stop_params (bytes "F02262"))
    ≡ bytes
        "https://futar.bkk.hu/api/query/v1/ws/otp/api/where/arrivals-and-departures-for-stop.json?minutesAfter=30&minutesBefore=0&onlyDepartures=1&stopId=BKK_F02262&key=k1"
unfolding format_stop_id is_prefix
request_url-stop_params_example = Url.request_url-stop_params (bytes "F02262") (bytes "k1")

request_url_injection_example :
    request_url arrivals_endpoint
      (bytes "k1")
      (stop_params (bytes "BKK_F02262" ++ (bytes "&key=" ++ bytes "k2")))
    ≡ request_url arrivals_endpoint (bytes "k2") (stop_params (bytes "BKK_F02262"))
      ++ (bytes "&key=" ++ bytes "k1")
unfolding is_prefix
request_url_injection_example =
    Url.request_url_injection (bytes "BKK_F02262") (bytes "k2") (bytes "k1") refl

format_stop_id_idem_example :
    (is_prefix (bytes "BKK_") (format_stop_id (bytes "F02262")) ≡ true)
    × (format_stop_id (format_stop_id (bytes "F02262")) ≡ format_stop_id (bytes "F02262"))
format_stop_id_idem_example = Url.format_stop_id_idem (bytes "F02262")
