-- ===== src/ThreadPool/Replies.antt =====
-- When a client is answered, with what, and what the answer costs
-- (bkk_uds_server/bkk_thread_pool.cpp).
use bkk_api.Common.{
  ℕ, zero, suc, ◌+◌, ◌≤◌, ◌<◌, Bytes, Bool-cases, ◌==◌, Option, none, some, Option-cases, List, [],
  ◌∷◌, length, length-take, take, take_of_length-le, drop, All, c_str, cell, ◌≡◌, ◌≢◌, inl, inr,
  refl, sym, ◌∙◌, ap, arith,
}
use bkk_api.Types.{ok, Arrival}
use bkk_api.ResponseParser.External.{Json, Platform}
use bkk_api.Cache.{
  UdsCache, CacheEntry, CacheState, hit_fresh, hit_stale, miss, get_element, put_element, seconds,
}
use bkk_api.Cache.Reads.{IsValid, get_element-put_element}
use bkk_api.Api.{Curl, get_arrivals_for_station}
use bkk_api.Protocol.{request_size, stop_id_of, api_key_of, Response, make_response}
use bkk_api.ThreadPool.{
  spawns, sends, closes, Times, no_entry, Handled, store_fetched, fresh_fetch_and_update_cache,
  answer_client, recv_request, handle_received, handle_client,
}

-- A text that ends behind a front part ends in the whole.
c_str-drop :
    (n : ℕ) (m : Bytes) {k : Bytes} → c_str (drop n m) ≡ some k → (t : Bytes) × (c_str m ≡ some t)
unfolding c_str
c_str-drop zero m {k} e = (k, e)
c_str-drop (suc n) [] e = cc
c_str-drop (suc n) (b ∷ m) {k} e =
    let (t, ih) = c_str-drop n m {k = k} e in
    elim (Bool-cases (b == 0)) [ inl z ↦ ([], rw z) | inr z ↦ (b ∷ t, rw (z, ih)) ]

c_str_unterminated : (m : Bytes) → All (λ b. b ≢ 0) m → c_str m ≡ none
unfolding c_str
c_str_unterminated [] h = refl
c_str_unterminated (b ∷ m) (nz, h) = ground (arith, c_str_unterminated m h)

-- A request whose stop id has no end in it has a key without one.
key_unterminated : (request : Bytes) → stop_id_of request ≡ none → api_key_of request ≡ none
key_unterminated request u = elim (Option-cases (api_key_of request)) [
  | inl k ↦ k
  | inr (key, k) ↦ let (t, s) = c_str-drop 64 request k in cc (sym s ∙ u)
]

-- What is left of a call that only closes the connection.
abbrev pub cut_off : UdsCache → Handled
cut_off c = record { cache = c; events = closes ∷ [] }

-- A packet that fits is received whole.
pub recv_request_whole : (m : Bytes) → length m ≡ request_size → recv_request m ≡ m
recv_request_whole m e = take_of_length-le request_size m (omega (arith, e))

-- All that can happen to a client: nothing arrives, or too little, and it is cut off; or the front of its
-- packet is taken for a request. Then it gets a response, with a refresh started for it if that is
-- stale, or, if the key has no end in the request, the texts may be read past its end (`none`). The
-- connection is closed once, at the end.
pub data Served (packet : Option Bytes) (c : UdsCache) (result : Option Handled) : Type 0 where
  nothing : packet ≡ none → result ≡ some (cut_off c) → Served packet c result
  too_short :
      (m : Bytes)
      → packet ≡ some m
      → length m < request_size
      → result ≡ some (cut_off c)
      → Served packet c result
  answered :
      (m : Bytes) (r : Response) (c' : UdsCache)
      → packet ≡ some m
      → request_size ≤ length m
      → result ≡ some (record { cache = c'; events = sends r ∷ closes ∷ [] })
      → Served packet c result
  answered_stale :
      (m : Bytes) (r : Response)
      → packet ≡ some m
      → request_size ≤ length m
      → r.status ≡ ok
      → result
        ≡ some (record { cache = c; events = spawns (take request_size m) ∷ sends r ∷ closes ∷ [] })
      → Served packet c result
  overrun :
      (m : Bytes)
      → packet ≡ some m
      → request_size ≤ length m
      → api_key_of (take request_size m) ≡ none
      → result ≡ none
      → Served packet c result

module _ (j : Json) (pl : Platform j) where
  -- A refresh for a request whose stop id has an end fails to return only if the key has none.
  refresh_none :
      (curl : Curl) (request : Bytes) (c : UdsCache) (times : Times) {stop_id : Bytes}
      → stop_id_of request ≡ some stop_id
      → fresh_fetch_and_update_cache j pl curl request c times ≡ none
      → api_key_of request ≡ none
  unfolding fresh_fetch_and_update_cache
  refresh_none curl request c times s f = elim (Option-cases (api_key_of request)) [
    | inl k ↦ k
    | inr (key, k) ↦ cc (rw (k, s, fresh_fetch_and_update_cache) at f)
  ]

  answer_client-Served :
      (curl : Curl) (m : Bytes) (c : UdsCache) (times : Times) (entry : CacheEntry)
      (state : CacheState) {stop_id : Bytes}
      → request_size ≤ length m
      → stop_id_of (take request_size m) ≡ some stop_id
      → Served (some m) c (answer_client j pl curl (take request_size m) c times (state, entry))
  unfolding answer_client make_response
  answer_client-Served curl m c times entry hit_fresh size s =
      answered m (make_response ok entry.arrivals) c refl size refl
  answer_client-Served curl m c times entry hit_stale size s =
      answered_stale m (make_response ok entry.arrivals) refl size refl refl
  answer_client-Served curl m c times entry miss size s =
      elim (Option-cases (fresh_fetch_and_update_cache j pl curl (take request_size m) c times)) [
        | inl f ↦
            overrun m refl size (refresh_none curl (take request_size m) c times s f)
              (rw (f, answer_client))
        | inr (r, f) ↦
            answered m (make_response r.status r.arrivals) r.cache refl size (rw (f, answer_client))
      ]

  pub handle_client-Served :
      (curl : Curl) (packet : Option Bytes) (c : UdsCache) (times : Times)
      → Served packet c (handle_client j pl curl packet c times)
  unfolding handle_client handle_received
  handle_client-Served curl none c times = nothing refl refl
  handle_client-Served curl (some m) c times =
      elim (Bool-cases (length (take request_size m) == request_size)) [
        | inr bad ↦
            too_short m refl (ground (arith, length-take request_size m))
              (rw (bad, handle_received))
        | inl size ↦
            let long : request_size ≤ length m = ground (arith, length-take request_size m) in
            elim (Option-cases (stop_id_of (take request_size m))) [
              | inl u ↦
                  overrun m refl long (key_unterminated (take request_size m) u)
                    (rw (size, u, handle_received))
              | inr (stop_id, u) ↦
                  let got = get_element c stop_id no_entry times.looked in
                  rw (size, u, handle_received)
                    (answer_client-Served curl m c times got.1 got.0 long u)
            ]
      ]

  pub fetch_lem :
      (curl : Curl) (request : Bytes) (c : UdsCache) (times : Times) {key stop_id : Bytes}
      → api_key_of request ≡ some key
      → stop_id_of request ≡ some stop_id
      → fresh_fetch_and_update_cache j pl curl request c times
        ≡ some (
            store_fetched j pl c stop_id times
              (get_arrivals_for_station j pl curl stop_id key (cell [])))
  unfolding fresh_fetch_and_update_cache
  fetch_lem curl request c times k s = rw (k, s, fresh_fetch_and_update_cache)

  answer_client_total :
      (curl : Curl) (request : Bytes) (c : UdsCache) (times : Times) (entry : CacheEntry)
      (state : CacheState) {key stop_id : Bytes}
      → api_key_of request ≡ some key
      → stop_id_of request ≡ some stop_id
      → (h : Handled) × (answer_client j pl curl request c times (state, entry) ≡ some h)
  unfolding answer_client
  answer_client_total curl request c times entry hit_fresh k s = (_, refl)
  answer_client_total curl request c times entry hit_stale k s = (_, refl)
  answer_client_total curl request c times entry miss {key} {stop_id} k s =
      let r =
        store_fetched j pl c stop_id times
          (get_arrivals_for_station j pl curl stop_id key (cell [])) in
      (
        record {
          cache = r.cache;
          events = sends (make_response r.status r.arrivals) ∷ closes ∷ [];
        },
        rw (fetch_lem curl request c times k s, answer_client),
      )

  -- A packet whose front, the size of a request object, has an end of the key in it is handled, whatever
  -- else it holds, and no text is read past the object.
  pub handle_client_total :
      (curl : Curl) (packet : Bytes) (c : UdsCache) (times : Times) {key : Bytes}
      → api_key_of (recv_request packet) ≡ some key
      → (h : Handled) × (handle_client j pl curl (some packet) c times ≡ some h)
  unfolding handle_client handle_received
  handle_client_total curl packet c times k =
      let request = recv_request packet in
      let (stop_id, s) = c_str-drop 64 request k in
      elim (Bool-cases (length request == request_size)) [
        | inr bad ↦ (cut_off c, rw bad)
        | inl size ↦
            let got = get_element c stop_id no_entry times.looked in
            let (h, e) = answer_client_total curl request c times got.1 got.0 k s in
            (h, rw (size, s, handle_received) e)
      ]

  -- A request of the right size without a zero byte makes the server read past the object: the handler
  -- takes its texts for terminated, and checks only the size.
  pub handle_client_unterminated :
      (curl : Curl) (request : Bytes) (c : UdsCache) (times : Times)
      → length request ≡ request_size
      → All (λ b. b ≢ 0) request
      → handle_client j pl curl (some request) c times ≡ none
  unfolding handle_client handle_received
  handle_client_unterminated curl request c times size nz =
      rw (recv_request_whole request size, size, c_str_unterminated request nz)

  pub handle_client_whole :
      (curl : Curl) (m : Bytes) (c : UdsCache) (times : Times)
      → length m ≡ request_size
      → handle_client j pl curl (some m) c times ≡ handle_received j pl curl m c times
  unfolding handle_client
  handle_client_whole curl m c times e =
      ap (λ r. handle_received j pl curl r c times) (recv_request_whole m e)

  -- What a successful fetch for a miss leaves in the cache.
  fetched_first :
      (curl : Curl) (request : Bytes) (c : UdsCache) (t : Times) (got : CacheState × CacheEntry)
      {stop_id key : Bytes} {l : List Arrival} {h : Handled}
      → got.0 ≡ miss
      → stop_id_of request ≡ some stop_id
      → api_key_of request ≡ some key
      → get_arrivals_for_station j pl curl stop_id key (cell []) ≡ (ok, cell l)
      → answer_client j pl curl request c t got ≡ some h
      → h.cache ≡ put_element c stop_id (record { arrivals = l; timestamp = t.stored }) t.swept
  unfolding answer_client fresh_fetch_and_update_cache store_fetched
  fetched_first curl request c t (hit_fresh, entry) m i k f e = absurd (ground arith)
  fetched_first curl request c t (hit_stale, entry) m i k f e = absurd (ground arith)
  fetched_first curl request c t (miss, entry) m i k f e =
      let made = rw (k, i, f, answer_client) at e in ground (arith, made)

  pub fresh_hit :
      (c : UdsCache) (stop_id : Bytes) (e : CacheEntry) (swept now : ℕ)
      → IsValid c
      → c.cache_freshness_seconds ≤ c.cache_staleness_seconds
      → swept ≤ now
      → now < e.timestamp + seconds c.cache_freshness_seconds
      → get_element (put_element c stop_id e swept) stop_id no_entry now ≡ (hit_fresh, e)
  fresh_hit c stop_id e swept now v le later young =
      elim (get_element-put_element c stop_id e no_entry swept now v later le) [
        | inl (_, r) ↦ r
        | inr (inl (old, _, r)) ↦ absurd (omega arith)
        | inr (inr (old, _, r)) ↦ absurd (omega arith)
      ]

  -- After a client's miss was answered by a successful fetch, another client that asks for the same
  -- stop within the freshness window gets the same arrivals, whatever its key is and whatever the
  -- server would answer it: nothing is requested, and the cache stays as it is.
  pub handle_client_second :
      (curl other : Curl) (first second : Bytes) (c : UdsCache) (t u : Times) {stop_id key : Bytes}
      {l : List Arrival} {h : Handled}
      → IsValid c
      → c.cache_freshness_seconds ≤ c.cache_staleness_seconds
      → length first ≡ request_size
      → stop_id_of first ≡ some stop_id
      → api_key_of first ≡ some key
      → (get_element c stop_id no_entry t.looked).0 ≡ miss
      → get_arrivals_for_station j pl curl stop_id key (cell []) ≡ (ok, cell l)
      → handle_client j pl curl (some first) c t ≡ some h
      → length second ≡ request_size
      → stop_id_of second ≡ some stop_id
      → t.swept ≤ u.looked
      → u.looked < t.stored + seconds c.cache_freshness_seconds
      → handle_client j pl other (some second) h.cache u
        ≡ some (record { cache = h.cache; events = sends (make_response ok l) ∷ closes ∷ [] })
  unfolding handle_received
  handle_client_second curl other first second c t u {stop_id} {key} {l} {h} v le s1 i1 k1 m f e s2
        i2 later fresh =
      let entry : CacheEntry = record { arrivals = l; timestamp = t.stored } in
      let whole : handle_received j pl curl first c t ≡ some h =
        sym (handle_client_whole curl first c t s1) ∙ e in
      let kept =
        fetched_first curl first c t (get_element c stop_id no_entry t.looked) m i1 k1 f
          (rw (s1, i1, handle_received) at whole) in
      let read : get_element h.cache stop_id no_entry u.looked ≡ (hit_fresh, entry) =
        rw kept (fresh_hit c stop_id entry t.swept u.looked v le later fresh) in
      handle_client_whole other second h.cache u s2
      ∙ rw (s2, i2, handle_received, read) (unfold answer_client in refl)
