-- ===== src/Tests/Queries.antt =====
-- Queries of the client library, to a socket that fails and to the server.
use bkk_api.Common.{[], Bytes, bytes, true, some, ◌≡◌, cell, length}
use bkk_api.Types.{ok}
use bkk_api.Protocol.{client_request, Response, make_response}
use bkk_api.ThreadPool.{Handled, handle_client}
use bkk_api.UdsClient.{client_ok, other_size, Kernel, send_bkk_uds_query}
use bkk_api.UdsClient.Query
use bkk_api.Tests.Sample.{sample_json, sample_platform, sample_curl}
use bkk_api.Tests.Clients.{start, first}

abbrev empty_response : Response
empty_response = make_response ok []

abbrev request : Bytes
request = client_request (bytes "F02262") (bytes "k1")

-- The server closes the connection without an answer.
abbrev hung_up : Kernel
hung_up = record {
  is_open = true;
  is_connected = true;
  send = λ m. some (length m);
  recv = λ m old. other_size old;
}

send_bkk_uds_query-IsBalanced_example :
    Query.IsBalanced hung_up
      (cell request)
      (cell empty_response)
      (send_bkk_uds_query hung_up (cell request) (cell empty_response))
send_bkk_uds_query-IsBalanced_example =
    Query.send_bkk_uds_query-IsBalanced hung_up (cell request) (cell empty_response)

query_answered_example :
    (h : Handled) × (r : Response) × (handle_client sample_json sample_platform sample_curl
        (some request)
        start
        first
      ≡ some h)
    × (Query.delivered h.events ≡ some r)
    × (send_bkk_uds_query
          (Query.served_by sample_json sample_platform sample_curl start first)
          (cell request)
          (cell empty_response)
        ≡ record { status = client_ok; response = cell r; opened = 1; closed = 1 })
query_answered_example =
    Query.query_answered sample_json sample_platform sample_curl start first (bytes "F02262")
      (bytes "k1") empty_response
