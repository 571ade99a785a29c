-- ===== src/Api/Fetch.antt =====
-- What a fetch returns: the status of every outcome of a request, and the arrivals that come with it
-- (bkk_uds_server/bkk_api.cpp).
use bkk_api.Common.{
  ◌≤◌, ◌<◌, Bytes, Bool-cases, true, false, not, ltb, leb, ◌==◌, ◌||◌, if◌then◌else◌, inl, inr,
  List, [], ◌∷◌, ◌++◌, ◌≡◌, ◌≢◌, ◌↔◌, ◌⊎◌, refl, sym, ◌∙◌, arith, cell, Ptr,
}
use mathlib.Core.List.{append_assoc, append-nil, flatten}
use bkk_api.Types.{
  BkkApiStatus, ok, missing_api_key, curl_init_failed, curl_perform_failed, invalid_api_key,
  http_error, Arrival,
}
use bkk_api.ResponseParser.{ArrivalsParseStatus, success, parse_arrivals_response}
use bkk_api.ResponseParser.External.{Json, Platform}
use bkk_api.ResponseParser.Status.{
  IsSuccess, IsFull, parse_arrivals_response-IsSuccess, parse_arrivals_response_cell,
}
use bkk_api.Api.{
  Curl, Performed, Params, write_all, request_url, status_of_answer, make_request,
  get_arrivals_for_stop, is_successful_parse_status, parse_answer, content,
  get_arrivals_for_station,
}

write_all-flatten : (s : Bytes) (l : List Bytes) → write_all s l ≡ s ++ flatten l
unfolding write_all flatten
write_all-flatten s [] = sym (append-nil s)
write_all-flatten s (c ∷ l) = write_all-flatten (s ++ c) l ∙ append_assoc s c (flatten l)

-- What a request reports, tested in the order of the code.
pub data Answered (curl : Curl) (key : Bytes) (answer : Performed) (old : Bytes)
    (r : BkkApiStatus × Ptr Bytes) : Type 0 where
  no_key : key ≡ [] → r ≡ (missing_api_key, cell old) → Answered curl key answer old r
  no_handle :
      key ≢ []
      → curl.init ≡ false
      → r ≡ (curl_init_failed, cell [])
      → Answered curl key answer old r
  failed :
      key ≢ []
      → curl.init ≡ true
      → answer.is_ok ≡ false
      → r.0 ≡ curl_perform_failed
      → Answered curl key answer old r
  refused :
      key ≢ []
      → curl.init ≡ true
      → answer.is_ok ≡ true
      → answer.http_code ≡ 401
      → r.0 ≡ invalid_api_key
      → Answered curl key answer old r
  wrong_code :
      key ≢ []
      → curl.init ≡ true
      → answer.is_ok ≡ true
      → answer.http_code ≢ 401
      → (answer.http_code < 200) ⊎ (300 ≤ answer.http_code)
      → r.0 ≡ http_error
      → Answered curl key answer old r
  answered :
      key ≢ []
      → curl.init ≡ true
      → answer.is_ok ≡ true
      → 200 ≤ answer.http_code
      → answer.http_code < 300
      → r ≡ (ok, cell (flatten answer.chunks))
      → Answered curl key answer old r

-- A request with somewhere to put its text: without a key nothing is sent and the text stays; each
-- failure of curl and each code outside 200 to 299 has its status; and a request that succeeds leaves
-- all pieces of the answer, in order, and nothing of what the text held before.
pub make_request-Answered :
    (curl : Curl) (endpoint key : Bytes) (params : Params) (old : Bytes)
    → Answered curl key
        (curl.perform (request_url endpoint key params))
        old
        (make_request curl endpoint key params (cell old))
unfolding make_request status_of_answer
make_request-Answered curl endpoint [] params old = no_key refl refl
make_request-Answered curl endpoint (k ∷ key) params old =
    go (curl.perform (request_url endpoint (k ∷ key) params))
  where
    result : Performed → BkkApiStatus × Ptr Bytes
    result answer =
        if not curl.init
        then (curl_init_failed, cell [])
        else (status_of_answer answer, cell (write_all [] answer.chunks))

    some_key : ◌≢◌ {A = Bytes} (k ∷ key) []
    some_key = λ e. ground arith

    go : (answer : Performed) → Answered curl (k ∷ key) answer old (result answer)
    go answer = elim (Bool-cases curl.init) [
      | inr i ↦ no_handle some_key i (rw i)
      | inl i ↦ elim (Bool-cases answer.is_ok) [
        | inr o ↦ failed some_key i o (rw (i, o))
        | inl o ↦ elim (Bool-cases (answer.http_code == 401)) [
          | inl c ↦ refused some_key i o (ground arith) (rw (i, o, c))
          | inr c ↦ elim (Bool-cases (ltb answer.http_code 200 || leb 300 answer.http_code)) [
            | inl w ↦ wrong_code some_key i o (ground arith) (ground arith) (rw (i, o, c, w))
            | inr w ↦
                answered some_key i o (ground arith) (ground arith)
                  (rw (i, o, c, w, write_all-flatten [] answer.chunks))
          ]
        ]
      ]
    ]

is_successful_parse_status-IsSuccess :
    (s : ArrivalsParseStatus) → (is_successful_parse_status s ≡ true) ↔ IsSuccess s
unfolding is_successful_parse_status
is_successful_parse_status-IsSuccess success = ground arith
is_successful_parse_status-IsSuccess _ = ground arith

empty_of_not_full : (l : List Arrival) → ¬ IsFull (cell l) → cell l ≡ cell []
empty_of_not_full [] n = refl
empty_of_not_full (a ∷ rest) n = absurd (n (a, rest, refl))

-- A fetch that succeeds has arrivals, and one that fails leaves none.
pub data Fetched (r : BkkApiStatus × Ptr (List Arrival)) : Type 0 where
  full : (a : Arrival) (rest : List Arrival) → r ≡ (ok, cell (a ∷ rest)) → Fetched r
  none_left : r.0 ≢ ok → r.1 ≡ cell [] → Fetched r

module _ (j : Json) (pl : Platform j) where
  parse_ok_Fetched : (response : Ptr Bytes) → Fetched (parse_answer j pl (ok, response) (cell []))
  unfolding parse_answer
  parse_ok_Fetched response =
      let p = parse_arrivals_response j pl (content response) (cell []) in
      let (l, filled) = parse_arrivals_response_cell j pl (content response) [] in
      elim (Bool-cases (is_successful_parse_status p.status)) [
        | inl h ↦
            let (a, rest, e) =
              (parse_arrivals_response-IsSuccess j pl (content response) (cell [])).0
                ((is_successful_parse_status-IsSuccess p.status).0 h) in
            full a rest (rw (h, e))
        | inr h ↦ none_left (rw h (λ e. ground arith)) (
            rw h (
              filled
              ∙ empty_of_not_full l λ full.
                let said = (is_successful_parse_status-IsSuccess p.status).1 (
                  (parse_arrivals_response-IsSuccess j pl (content response) (cell [])).1
                    (rw filled full)) in
                cc (sym h ∙ said)))
      ]

  parse_answer-Fetched : (r : BkkApiStatus × Ptr Bytes) → Fetched (parse_answer j pl r (cell []))
  parse_answer-Fetched (ok, response) = parse_ok_Fetched response
  parse_answer-Fetched (status, response) =
      none_left (unfold parse_answer in λ e. ground arith) (unfold parse_answer in refl)

  -- A fetch into a vector ends in one of two ways, whatever the vector held: with the status `Ok` and at
  -- least one arrival, or with another status and an empty vector. So a stop with no departure to
  -- come is reported as a failure, never as an empty success.
  pub get_arrivals_for_station-Fetched :
      (curl : Curl) (stop_id api_key : Bytes) (old : List Arrival)
      → Fetched (get_arrivals_for_station j pl curl stop_id api_key (cell old))
  unfolding get_arrivals_for_station
  get_arrivals_for_station-Fetched curl stop_id api_key old =
      parse_answer-Fetched (get_arrivals_for_stop curl stop_id api_key (cell []))
