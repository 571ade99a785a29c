-- ===== src/UdsClient/Query.antt =====
-- What a query returns, and a query to the server itself (bkk_uds_client/bkk_uds_client.c).
use bkk_api.Common.{
  Bytes, true, Bool-cases, ◌==◌, Option, none, some, Option-cases, List, [], ◌∷◌, Ptr, null, cell,
  length, ◌≡◌, refl, sym, ap, subst, ◌∙◌, inl, inr, arith,
}
use bkk_api.ResponseParser.External.{Json, Platform}
use bkk_api.Cache.{UdsCache}
use bkk_api.Api.{Curl}
use bkk_api.Protocol.{request_size, api_key_of, client_request, Response}
use bkk_api.Protocol.Request.{client_request_read}
use bkk_api.ThreadPool.{Event, spawns, sends, closes, Times, Handled, handle_client}
use bkk_api.ThreadPool.Replies.{
  Served, nothing, too_short, answered, answered_stale, overrun, recv_request_whole,
  handle_client_total, handle_client-Served,
}
use bkk_api.UdsClient.{
  client_ok, Received, whole, other_size, Kernel, Queried, receive, send_bkk_uds_query,
}

-- A query that ended well: its request went out whole, a whole response came in, and the caller has it.
pub data IsAnswered (k : Kernel) (q : Queried) : Ptr Bytes → Ptr Response → Type 0 where
  is_answered :
      {request : Bytes} {old r : Response}
      → k.send request ≡ some request_size
      → k.recv request old ≡ whole r
      → q.response ≡ cell r
      → IsAnswered k q (cell request) (cell old)

-- Each descriptor is closed, and success is an answer.
pub record IsBalanced (k : Kernel) (request : Ptr Bytes) (response : Ptr Response) (q : Queried)
    : Type 0 where
  pub balance : q.closed ≡ q.opened
  pub success : q.status ≡ client_ok → IsAnswered k q request response

receive-IsBalanced :
    (k : Kernel) (request : Bytes) (old : Response) (got : Received)
    → k.send request ≡ some request_size
    → k.recv request old ≡ got
    → IsBalanced k (cell request) (cell old) (receive got)
unfolding receive
receive-IsBalanced k request old (whole r) s e = record {
  balance = refl;
  success = λ c. is_answered s e refl;
}
receive-IsBalanced k request old (other_size r) s e = record { balance = refl; success = λ c. cc }

query_received :
    (k : Kernel) (request : Bytes) (old : Response)
    → k.is_open ≡ true
    → k.is_connected ≡ true
    → k.send request ≡ some request_size
    → send_bkk_uds_query k (cell request) (cell old) ≡ receive (k.recv request old)
unfolding send_bkk_uds_query
query_received k request old open' connected sent = rw (open', connected, sent) refl

-- However the calls on the socket end, a query closes each descriptor that it opens, exactly once; and it
-- reports success only if its whole request was sent and a whole response received, which the caller
-- then has.
pub send_bkk_uds_query-IsBalanced :
    (k : Kernel) (request : Ptr Bytes) (response : Ptr Response)
    → IsBalanced k request response (send_bkk_uds_query k request response)
unfolding send_bkk_uds_query
send_bkk_uds_query-IsBalanced k null response = record { balance = refl; success = λ c. cc }
send_bkk_uds_query-IsBalanced k (cell request) null = record { balance = refl; success = λ c. cc }
send_bkk_uds_query-IsBalanced k (cell request) (cell old) = elim (Bool-cases k.is_open) [
  | inr closed ↦ rw closed (record { balance = refl; success = λ c. cc })
  | inl open' ↦ elim (Bool-cases k.is_connected) [
    | inr refused ↦ rw (open', refused) (record { balance = refl; success = λ c. cc })
    | inl connected ↦ elim (Option-cases (k.send request)) [
      | inl failed ↦ rw (open', connected, failed) (record { balance = refl; success = λ c. cc })
      | inr (n, s) ↦ elim (Bool-cases (n == request_size)) [
        | inr short ↦ rw (open', connected, s, short) (record { balance = refl; success = λ c. cc })
        | inl all ↦
            let sent : k.send request ≡ some request_size = ground (arith, s, all) in
            subst (IsBalanced k (cell request) (cell old))
              (sym (query_received k request old open' connected sent))
              (receive-IsBalanced k request old (k.recv request old) sent refl)
      ]
    ]
  ]
]

-- The response that a client's end of the connection delivers; `none` is the end of the connection.
abbrev pub delivered : List Event → Option Response
delivered [] = none
delivered (spawns request ∷ events) = delivered events
delivered (sends r ∷ events) = some r
delivered (closes ∷ events) = none

abbrev replied : Option Handled → Option Response
replied none = none
replied (some h) = delivered h.events

abbrev to_received : Option Response → Response → Received
to_received none old = other_size old
to_received (some r) old = whole r

abbrev reply : Option Handled → Response → Received
reply result old = to_received (replied result) old

delivered-Served :
    {m : Bytes} {c : UdsCache} {h : Handled}
    → length m ≡ request_size
    → Served (some m) c (some h)
    → (r : Response) × (delivered h.events ≡ some r)
delivered-Served size (nothing e q) = absurd (ground arith)
delivered-Served size (too_short n e short q) = absurd (ground (arith, size))
delivered-Served size (answered n r c' e long q) = (r, ap replied q)
delivered-Served size (answered_stale n r e long o q) = (r, ap replied q)
delivered-Served size (overrun n e long u q) = absurd (ground arith)

module _ (j : Json) (pl : Platform j) where
  -- A socket with the server at its other end, which handles the request with a cache at some times.
  abbrev pub served_by : Curl → UdsCache → Times → Kernel
  served_by curl c times = record {
    is_open = true;
    is_connected = true;
    send = λ request. some (length request);
    recv = λ request old. reply (handle_client j pl curl (some request) c times) old;
  }

  -- A client that asks the server for any stop, with any key, gets the response that the server sends for
  -- its request, whatever is in the cache and whatever the fetch comes to: the server handles the
  -- request, and neither side sees a message of a wrong size.
  pub query_answered :
      (curl : Curl) (c : UdsCache) (times : Times) (stop_id key : Bytes) (old : Response)
      → let request = client_request stop_id key in
        (h : Handled) × (r : Response) × (handle_client j pl curl (some request) c times ≡ some h)
        × (delivered h.events ≡ some r)
        × (send_bkk_uds_query (served_by curl c times) (cell request) (cell old)
            ≡ record { status = client_ok; response = cell r; opened = 1; closed = 1 })
  unfolding receive
  query_answered curl c times stop_id key old =
      let (size, s, key_read) = client_request_read stop_id key in
      let received =
        ap api_key_of (recv_request_whole (client_request stop_id key) size) ∙ key_read in
      let (h, e) = handle_client_total j pl curl (client_request stop_id key) c times received in
      let (r, d) = delivered-Served size (
        subst (Served (some (client_request stop_id key)) c) e
          (handle_client-Served j pl curl (some (client_request stop_id key)) c times)) in
      let k = served_by curl c times in
      let got : k.recv (client_request stop_id key) old ≡ whole r =
        ap (λ x. reply x old) e ∙ ap (λ x. to_received x old) d in
      (
        h,
        r,
        e,
        d,
        query_received k (client_request stop_id key) old refl refl (ap some size) ∙ ap receive got,
      )
