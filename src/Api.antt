-- ===== src/Api.antt =====
-- The requests to the server of the transport company (bkk_uds_server/bkk_api.cpp).
--
-- libcurl is a parameter. Memory for strings is always there, so no exception reaches the `catch` of
-- `get_arrivals_for_station`; the messages to the log and to the standard streams are left out.
pub mod Url
pub mod Fetch
use bkk_api.Common.{
  ℕ, Bytes, bytes, str_eq, str_lt, is_prefix, ltb, leb, ◌==◌, if◌then◌else◌, Bool, true, false,
  ◌&&◌, ◌||◌, not, Option, none, some, List, [], ◌∷◌, ◌++◌, Ptr, null, cell,
}
use bkk_api.Types.{
  BkkApiStatus, ok, missing_api_key, curl_init_failed, curl_perform_failed, invalid_api_key,
  http_error, arrivals_parse_failed, unexpected_exception, Arrival,
}
use bkk_api.ResponseParser.{
  ArrivalsParseStatus, success, success_with_warnings, is_empty, Parsed, parse_arrivals_response,
}
use bkk_api.ResponseParser.External.{Json, Platform}

-- What `curl_easy_perform` does with a request: the pieces that it hands to the write callback,
-- whether it returns `CURLE_OK`, and the code of the answer.
pub record Performed : Type 0 where
  pub chunks : List Bytes
  pub is_ok : Bool
  pub http_code : ℕ

-- libcurl: whether `curl_easy_init` gives a handle, and what a request to an address does.
pub record Curl : Type 0 where
  pub init : Bool
  pub perform : Bytes → Performed

abbrev pub base_url : Bytes
base_url = bytes "https://futar.bkk.hu/api/query/v1/ws/otp/api/where"

-- `WriteCallback`, and the calls of it.
abbrev pub write_callback : Bytes → Bytes → Bytes
write_callback userp contents = userp ++ contents

unfoldable pub write_all : Bytes → List Bytes → Bytes
write_all userp [] = userp
write_all userp (contents ∷ rest) = write_all (write_callback userp contents) rest

unfoldable pub is_successful_parse_status : ArrivalsParseStatus → Bool
is_successful_parse_status success = true
is_successful_parse_status success_with_warnings = true
is_successful_parse_status _ = false

abbrev pub Params : Type 0
Params = List (Bytes × Bytes)

-- `std::map` keeps its keys in order; a key that is there already keeps its value.
unfoldable pub map_insert : Bytes → Bytes → Params → Params
map_insert k v [] = (k, v) ∷ []
map_insert k v ((j, w) ∷ m) =
    if str_lt k j
    then (k, v) ∷ (j, w) ∷ m
    else if str_eq k j
    then (j, w) ∷ m
    else (j, w) ∷ map_insert k v m

unfoldable pub map_of : Params → Params → Params
map_of m [] = m
map_of m ((k, v) ∷ rest) = map_of (map_insert k v m) rest

-- The loop over the parameters, and the key behind it.
unfoldable pub add_params : Bytes → Bool → Params → Bytes → Bytes
add_params url first [] api_key =
    (if not first then url ++ bytes "&" else url) ++ (bytes "key=" ++ api_key)
add_params url first ((k, v) ∷ rest) api_key =
    add_params ((if not first then url ++ bytes "&" else url) ++ (k ++ (bytes "=" ++ v))) false rest
      api_key

unfoldable pub request_url : Bytes → Bytes → Params → Bytes
request_url endpoint api_key params =
    add_params (base_url ++ (bytes "/" ++ (endpoint ++ bytes "?"))) true params api_key

-- The status for what curl reports.
unfoldable pub status_of_answer : Performed → BkkApiStatus
status_of_answer a =
    if not a.is_ok
    then curl_perform_failed
    else if a.http_code == 401
    then invalid_api_key
    else if ltb a.http_code 200 || leb 300 a.http_code
    then http_error
    else ok

unfoldable pub make_request : Curl → Bytes → Bytes → Params → Ptr Bytes → BkkApiStatus × Ptr Bytes
make_request curl endpoint api_key params null = (unexpected_exception, null)
make_request curl endpoint api_key params (cell old) =
    let answer = curl.perform (request_url endpoint api_key params) in
    if is_empty api_key
    then (missing_api_key, cell old)
    else if not curl.init
    then (curl_init_failed, cell [])
    else (status_of_answer answer, cell (write_all [] answer.chunks))

-- `rfind("BKK_", 0) != 0` asks whether the prefix is missing.
unfoldable pub format_stop_id : Bytes → Bytes
format_stop_id stop_id =
    if is_prefix (bytes "BKK_") stop_id then stop_id else bytes "BKK_" ++ stop_id

abbrev pub arrivals_endpoint : Bytes
arrivals_endpoint = bytes "arrivals-and-departures-for-stop.json"

unfoldable pub stop_params : Bytes → Params
stop_params stop_id = map_of [] (
    (bytes "stopId", format_stop_id stop_id)
    ∷ (bytes "onlyDepartures", bytes "1")
    ∷ (bytes "minutesBefore", bytes "0")
    ∷ (bytes "minutesAfter", bytes "30")
    ∷ [])

unfoldable pub get_arrivals_for_stop : Curl → Bytes → Bytes → Ptr Bytes → BkkApiStatus × Ptr Bytes
get_arrivals_for_stop curl stop_id api_key response_out =
    make_request curl arrivals_endpoint api_key (stop_params stop_id) response_out

-- The text of a string that a call has filled.
abbrev pub content : Ptr Bytes → Bytes
content null = []
content (cell s) = s

module _ (j : Json) (pl : Platform j) where
  -- The status of the request, and the parse of its answer if there is one.
  unfoldable pub parse_answer :
      BkkApiStatus × Ptr Bytes → Ptr (List Arrival) → BkkApiStatus × Ptr (List Arrival)
  parse_answer (ok, response) out =
      let p = parse_arrivals_response j pl (content response) out in
      if not (is_successful_parse_status p.status)
      then (arrivals_parse_failed, p.output_arrivals)
      else (ok, p.output_arrivals)
  parse_answer (status, response) out = (status, out)

  unfoldable pub get_arrivals_for_station :
      Curl → Bytes → Bytes → Ptr (List Arrival) → BkkApiStatus × Ptr (List Arrival)
  get_arrivals_for_station curl stop_id api_key null = (unexpected_exception, null)
  get_arrivals_for_station curl stop_id api_key (cell old) =
      parse_answer (get_arrivals_for_stop curl stop_id api_key (cell [])) (cell [])
