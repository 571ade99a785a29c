-- ===== src/Api/Url.antt =====
-- The address of a request (bkk_uds_server/bkk_api.cpp).
use bkk_api.Common.{
  Bytes, bytes, is_prefix, is_prefix-append, is_prefix-append_true, Bool-cases, inl, inr, ◌++◌, ◌≡◌,
  ap, true, str_lt, str_eq,
}
use mathlib.Core.List.{append_assoc}
use bkk_api.Api.{
  request_url, arrivals_endpoint, stop_params, format_stop_id, map_of, map_insert, add_params,
}

-- The stop id that is sent always has the prefix, and formatting it again changes nothing.
pub format_stop_id_idem :
    (s : Bytes)
    → (is_prefix (bytes "BKK_") (format_stop_id s) ≡ true)
      × (format_stop_id (format_stop_id s) ≡ format_stop_id s)
unfolding format_stop_id
format_stop_id_idem s = elim (Bool-cases (is_prefix (bytes "BKK_") s)) [
  | inl h ↦ (rw (h, h), rw (h, h))
  | inr h ↦ (rw h (is_prefix-append (bytes "BKK_") s), rw (h, is_prefix-append (bytes "BKK_") s))
]

-- The part of the address before the stop id.
abbrev pub url_front : Bytes
url_front =
    bytes
      "https://futar.bkk.hu/api/query/v1/ws/otp/api/where/arrivals-and-departures-for-stop.json?minutesAfter=30&minutesBefore=0&onlyDepartures=1&stopId="

-- The address of a request for a stop: the parameters stand in the order of their names, the next
-- thirty minutes from now on, and the key comes last.
pub request_url-stop_params :
    (stop_id api_key : Bytes)
    → request_url arrivals_endpoint api_key (stop_params stop_id)
      ≡ url_front ++ (format_stop_id stop_id ++ (bytes "&key=" ++ api_key))
unfolding request_url stop_params map_of map_insert add_params str_lt str_eq
request_url-stop_params stop_id api_key =
    ap (λ t. url_front ++ t)
      (append_assoc (format_stop_id stop_id) (bytes "&") (bytes "key=" ++ api_key))

format_stop_id-append :
    (s t : Bytes)
    → is_prefix (bytes "BKK_") s ≡ true
    → format_stop_id (s ++ t) ≡ format_stop_id s ++ t
unfolding format_stop_id
format_stop_id-append s t h = rw (h, is_prefix-append_true (bytes "BKK_") s t h)

-- Nothing of a stop id is escaped, so a client's stop id can carry parameters of its own: for an id
-- with the prefix, the request with `&key=` and another key behind the id is, up to the key that the
-- server meant to send, the request for the plain id with that other key.
pub request_url_injection :
    (s other api_key : Bytes)
    → is_prefix (bytes "BKK_") s ≡ true
    → request_url arrivals_endpoint api_key (stop_params (s ++ (bytes "&key=" ++ other)))
      ≡ request_url arrivals_endpoint other (stop_params s) ++ (bytes "&key=" ++ api_key)
request_url_injection s other api_key h = rw (
  request_url-stop_params (s ++ (bytes "&key=" ++ other)) api_key,
  request_url-stop_params s other,
  format_stop_id-append s (bytes "&key=" ++ other) h,
)
