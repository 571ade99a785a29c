-- ===== src/Protocol.antt =====
-- The messages over the socket (bkk_uds/bkk_uds_protocol.h), and the request as the test client
-- builds it (test/test_main.c).
pub mod Request
use bkk_api.Common.{
  ℕ, zero, suc, ◌+◌, Bytes, Bool, Option, none, some, List, [], ◌∷◌, ◌++◌, length, get_elem?, set,
  replicate, min, drop, strncpy_into, c_str,
}
use bkk_api.Types.{BkkApiStatus, Arrival, zero_arrival}

abbrev pub bkk_uds_max_stop_id_len : ℕ
bkk_uds_max_stop_id_len = 64

abbrev pub bkk_uds_max_arrivals : ℕ
bkk_uds_max_arrivals = 16

abbrev pub bkk_uds_max_key_len : ℕ
bkk_uds_max_key_len = 256

-- `sizeof(bkk_uds_request_t)`: two arrays of `char`, with nothing between them.
abbrev pub request_size : ℕ
request_size = bkk_uds_max_stop_id_len + bkk_uds_max_key_len

-- A request is the bytes of its object. A read of a text goes on to the first zero byte, also past
-- the end of its array, and has no meaning (`none`) where the object ends before one.
abbrev pub stop_id_of : Bytes → Option Bytes
stop_id_of request = c_str request

abbrev pub api_key_of : Bytes → Option Bytes
api_key_of request = c_str (drop bkk_uds_max_stop_id_len request)

-- `bkk_uds_request_t request = { 0 }` and the two calls of `strncpy` in the client.
unfoldable pub client_request : Bytes → Bytes → Bytes
client_request stop_id key =
    strncpy_into (replicate bkk_uds_max_stop_id_len 0) stop_id 63
    ++ strncpy_into (replicate bkk_uds_max_key_len 0) key 255

pub record Response : Type 0 where
  pub status : BkkApiStatus
  pub number_of_arrivals : ℕ
  pub arrivals : List Arrival

-- The loop `response.arrivals[i] = arrivals[i]`, from `i` on, `left` rounds.
unfoldable pub copy_arrivals : ℕ → ℕ → List Arrival → List Arrival → List Arrival
copy_arrivals zero i source target = target
copy_arrivals (suc left) i source target = elim (get_elem? source i) [
  | none ↦ copy_arrivals left (suc i) source target
  | some a ↦ copy_arrivals left (suc i) source (set target i a)
]

-- The response for a status and some arrivals, in a zeroed object.
unfoldable pub make_response : BkkApiStatus → List Arrival → Response
make_response status arrivals =
    let num_arrivals = min (length arrivals) bkk_uds_max_arrivals in
    record {
      status = status;
      number_of_arrivals = num_arrivals;
      arrivals =
          copy_arrivals num_arrivals 0 arrivals (replicate bkk_uds_max_arrivals zero_arrival);
    }
