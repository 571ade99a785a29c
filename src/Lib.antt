-- ===== src/Lib.antt =====
-- The server of Budapest's departure times, and the client library beside it.
--
-- A client program connects to a UNIX domain socket and sends a request object: a stop id and an API
-- key. The server hands each connection to a pool of threads. The thread that takes it receives the
-- request, looks the stop up in a cache shared by all threads, and answers from it if the entry is
-- fresh. If the entry is stale it answers from it too, and starts a detached thread that refreshes
-- it. On a miss it fetches the departures over HTTP with libcurl, parses the JSON answer with cJSON,
-- stores what it got, and answers. Clients find stop ids in a static table of all stops.
--
-- Which file models which part:
--
-- - Types: bkk_uds/bkk_api_types.h and bkk_api_arrival.h, the enumerations, the arrival and the names
--   that are printed.
-- - StopList: bkk_uds/bkk_stop_list.h, all 6137 rows, in StopList/Part00 to Part40; StopList/Order says
--   what the order of the ids gives. StopUtils: bkk_uds/bkk_stop_utils.c, lookups by id, name and
--   index (StopUtils/Find), the substring search and the listing (StopUtils/Substring).
-- - ResponseParser: bkk_uds_server/bkk_response_parser.cpp. A JSON tree and the calls of cJSON are the
--   record Json, doubles and the local time the record Platform (ResponseParser/External). The for loop
--   over the stop times is stop_times_loop, which ResponseParser/Loop compares with a list. ResponseParser/Status
--   has the outcomes, ResponseParser/Fields the arrays of an arrival, ResponseParser/Origin where each arrival
--   comes from.
-- - Cache: bkk_uds_server/bkk_cache.cpp, class UdsCache. The map is an association list. Each critical
--   section under the mutex is a function, so that Cache/History can order those of several threads at
--   will; Cache/Reads says what a read sees after a store, Cache/Size how the cache grows.
-- - Api: bkk_uds_server/bkk_api.cpp, the address of a request (Api/Url) and a fetch (Api/Fetch). What
--   libcurl does is the record Curl: whether it starts, and what it makes of an address.
-- - Protocol: bkk_uds/bkk_uds_protocol.h. A request is its 320 bytes, since a client is free to send
--   any; Protocol/Request ties the client's writing of it (test/test_main.c) to the server's reading.
-- - ThreadPool: bkk_uds_server/bkk_thread_pool.cpp, handle_client and fresh_fetch_and_update_cache.
--   The packet that a client sends and the times that are read are arguments; what is sent, started and closed is a
--   list of events. A packet longer than a request is cut to its size, as recv does.
--   ThreadPool/Handle has what serving keeps, ThreadPool/Replies what a client gets, and ThreadPool/Refresh
--   what a stale hit leads to. The pool itself, its queue, its workers, its notifications and its
--   destructor, is a step relation (ThreadPool/Workers);
--   ThreadPool/Sums counts over the workers, ThreadPool/Steady has what every step keeps,
--   ThreadPool/Queue and ThreadPool/Wakeups what every run guarantees.
-- - ArgParser: bkk_uds_server/bkk_arg_parser.cpp, over the documented behaviour of getopt and strtol
--   (Common/Libc).
-- - ApiKey: read_api_key_from_file in bkk_uds/bkk_stop_utils.c. What fopen, ftell, fread and malloc deliver are
--   arguments; ApiKey/Trim says what is read.
-- - UdsClient: bkk_uds_client/bkk_uds_client.c. The calls on the socket are the record Kernel; UdsClient/Query
--   also puts the server at the other end.
-- - Common: the names of the library that the rest uses, arrays of bytes, pointers that may be NULL, and
--   the association list. Tests: runs on concrete inputs.
--
-- Numbers and bounds. Texts are lists of bytes. A C array is the list of its cells, of its exact size. A
-- read past the end of an array gives none, so a theorem that a function returns some result says that it
-- stays inside. Loops over arrays are recursion on the number of steps left, which is the bound that
-- the code computes; nothing runs on fuel but the printing of decimal numbers for the tests of the argument
-- parser, with one step more than the number, which has fewer digits. Times are nanoseconds.
--
-- Not modelled: log lines and time measurements; exceptions of the C++ library (failed allocations);
-- the server's start and its accept loop (bkk_uds_server/main.cpp). The return of a handler
-- is a step of the pool that may happen; nothing is said of when, since recv has no timeout. The
-- detached threads of a refresh are not joined by the pool, and stand outside it.
pub mod Common
pub mod Types
pub mod ResponseParser
pub mod Cache
pub mod ArgParser
pub mod Api
pub mod ApiKey
pub mod ThreadPool
pub mod Protocol
pub mod StopList
pub mod StopUtils
pub mod UdsClient
pub mod Tests
