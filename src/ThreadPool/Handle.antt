-- ===== src/ThreadPool/Handle.antt =====
-- What a client gets, and what becomes of the cache (bkk_uds_server/bkk_thread_pool.cpp).
use bkk_api.Common.{
  ℕ, ◌≤◌, Bytes, Bool-cases, ◌==◌, Option, none, some, Option-cases, List, [], ◌∷◌, length, All,
  Ptr, cell, ◌≡◌, ◌≢◌, ◌⊎◌, inl, inr, refl, sym, ◌∙◌, subst, arith,
}
use bkk_api.Common.Assoc.{lookup, insert, All-lookup, erase_if-All_of, insert-All}
use bkk_api.Types.{BkkApiStatus, ok, Arrival}
use bkk_api.ResponseParser.External.{Json, Platform}
use bkk_api.Cache.{
  UdsCache, CacheEntry, CacheState, hit_fresh, hit_stale, miss, get_element, put_element,
  is_expired,
}
use bkk_api.Cache.Reads.{IsValid, put_element-IsValid, get_element_present, get_element_absent}
use bkk_api.Api.{Curl, get_arrivals_for_station}
use bkk_api.Api.Fetch.{Fetched, full, none_left, get_arrivals_for_station-Fetched}
use bkk_api.Protocol.{request_size, stop_id_of, api_key_of, Response, make_response}
use bkk_api.Protocol.Request.{make_response_lem}
use bkk_api.ThreadPool.{
  Event, sends, closes, Times, no_entry, Handled, Refreshed, store_fetched,
  fresh_fetch_and_update_cache, answer_client, recv_request, handle_received, handle_client,
  refresh_in_background,
}

-- A cache that holds arrivals in every entry, and one entry at most for a stop.
pub record IsGood (c : UdsCache) : Type 0 where
  pub valid : IsValid c
  pub full : All (λ e. e.1.arrivals ≢ []) c.cache

put_element-IsGood :
    (c : UdsCache) (k : Bytes) (e : CacheEntry) (now : ℕ)
    → e.arrivals ≢ []
    → IsGood c
    → IsGood (put_element c k e now)
put_element-IsGood c k e now n g = record {
  valid = (put_element-IsValid c k e now g.valid).0;
  full =
      unfold put_element in
      erase_if-All_of (λ x. x.1.arrivals ≢ []) (is_expired c.cache_staleness_seconds now)
        (insert k e c.cache) (insert-All (λ x. x.1.arrivals ≢ []) k e c.cache n g.full);
}

-- An entry that is answered is an entry of the cache.
get_element_full :
    (c : UdsCache) (k : Bytes) (now : ℕ)
    → IsGood c
    → ((get_element c k no_entry now).0 ≡ miss) ⊎ ((get_element c k no_entry now).1.arrivals ≢ [])
get_element_full c k now g = elim (Option-cases (lookup k c.cache)) [
  | inl h ↦ inl (rw (get_element_absent c k no_entry now h))
  | inr (e, h) ↦ elim (get_element_present c k e no_entry now h) [
    | inl (_, r) ↦ inr (rw r (All-lookup (λ x. x.arrivals ≢ []) k c.cache g.full h))
    | inr (inl (_, _, r)) ↦ inr (rw r (All-lookup (λ x. x.arrivals ≢ []) k c.cache g.full h))
    | inr (inr (_, _, r)) ↦ inl (rw r)
  ]
]

-- The response among the events.
pub reply : List Event → Option Response
reply [] = none
reply (sends r ∷ rest) = some r
reply (_ ∷ rest) = reply rest

-- A response that is `Ok` has from one to sixteen arrivals.
abbrev pub IsHonestResponse : Response → Type 0
IsHonestResponse r = (r.status ≢ ok) ⊎ ((1 ≤ r.number_of_arrivals) × (r.number_of_arrivals ≤ 16))

-- The same of the response among the events, if one is sent.
abbrev pub IsHonestReply : Option Response → Type 0
IsHonestReply none = Unit
IsHonestReply (some r) = IsHonestResponse r

make_response-IsHonestResponse :
    (status : BkkApiStatus) (l : List Arrival)
    → (status ≡ ok → l ≢ [])
    → IsHonestResponse (make_response status l)
make_response-IsHonestResponse status [] n =
    inl λ said. n (sym (make_response_lem status []).0 ∙ said) refl
make_response-IsHonestResponse status (a ∷ l) n =
    let (_, e, _) = make_response_lem status (a ∷ l) in inr (omega arith, omega arith)

-- What a good handling leaves: a good cache, and an honest response if there is one.
pub record IsSound (h : Handled) : Type 0 where
  pub cache : IsGood h.cache
  pub honest : IsHonestReply (reply h.events)

module _ (j : Json) (pl : Platform j) where
  -- A fetch that fails changes nothing.
  store_fetched_failed :
      (c : UdsCache) (stop_id : Bytes) (times : Times) (status : BkkApiStatus)
      (out : Ptr (List Arrival))
      → status ≢ ok
      → store_fetched j pl c stop_id times (status, out)
        ≡ record { status = status; cache = c; arrivals = [] }
  unfolding store_fetched
  store_fetched_failed c stop_id times ok out n = absurd (n refl)
  store_fetched_failed c stop_id times _ out n = refl

  -- A fetch leaves a good cache, and succeeds only with arrivals.
  abbrev IsHonest : Refreshed j pl → Type 0
  IsHonest s = IsGood s.cache × (s.status ≡ ok → s.arrivals ≢ [])

  store_fetched-IsHonest :
      (c : UdsCache) (stop_id : Bytes) (times : Times) (r : BkkApiStatus × Ptr (List Arrival))
      → Fetched r
      → IsGood c
      → IsHonest (store_fetched j pl c stop_id times r)
  store_fetched-IsHonest c stop_id times r (full a rest e) g = rw e (
      unfold store_fetched in
      (put_element-IsGood c stop_id _ times.swept (λ x. ground arith) g, λ _ x. ground arith))
  store_fetched-IsHonest c stop_id times (status, out) (none_left n e) g =
      rw (store_fetched_failed c stop_id times status out n) (g, λ h. absurd (n h))

  refresh-IsHonest :
      (curl : Curl) (request : Bytes) (c : UdsCache) (times : Times) {s : Refreshed j pl}
      → fresh_fetch_and_update_cache j pl curl request c times ≡ some s
      → IsGood c
      → IsHonest s
  unfolding fresh_fetch_and_update_cache
  refresh-IsHonest curl request c times {s} e g = elim (Option-cases (api_key_of request)) [
    | inl h ↦ cc (rw (h, fresh_fetch_and_update_cache) at e)
    | inr (key, h) ↦ elim (Option-cases (stop_id_of request)) [
      | inl h' ↦ cc (rw (h, h', fresh_fetch_and_update_cache) at e)
      | inr (stop_id, h') ↦
          let r = get_arrivals_for_station j pl curl stop_id key (cell []) in
          let made : store_fetched j pl c stop_id times r ≡ s =
            cc (rw (h, h', fresh_fetch_and_update_cache) at e) in
          subst IsHonest made (
            store_fetched-IsHonest c stop_id times r
              (get_arrivals_for_station-Fetched j pl curl stop_id key []) g)
    ]
  ]

  answer_hit :
      (curl : Curl) (request : Bytes) (c : UdsCache) (times : Times) (entry : CacheEntry)
      (state : CacheState) {h : Handled}
      → state ≢ miss
      → answer_client j pl curl request c times (state, entry) ≡ some h
      → (h.cache ≡ c) × (reply h.events ≡ some (make_response ok entry.arrivals))
  unfolding answer_client reply
  answer_hit curl request c times entry hit_fresh n e = ground arith
  answer_hit curl request c times entry hit_stale n e = ground arith
  answer_hit curl request c times entry miss n e = absurd (n refl)

  answer_miss :
      (curl : Curl) (request : Bytes) (c : UdsCache) (times : Times) (entry : CacheEntry)
      {h : Handled}
      → answer_client j pl curl request c times (miss, entry) ≡ some h
      → (s : Refreshed j pl) × (fresh_fetch_and_update_cache j pl curl request c times ≡ some s)
        × (h.cache ≡ s.cache)
        × (reply h.events ≡ some (make_response s.status s.arrivals))
  unfolding answer_client reply
  answer_miss curl request c times entry {h} e =
      elim (Option-cases (fresh_fetch_and_update_cache j pl curl request c times)) [
        | inl f ↦ cc (rw (f, answer_client) at e)
        | inr (s, f) ↦
            let made = rw (f, answer_client) at e in
            (s, f, ground (arith, made), ground (arith, made))
      ]

  from_reply :
      (h : Handled) (status : BkkApiStatus) (l : List Arrival)
      → IsGood h.cache
      → reply h.events ≡ some (make_response status l)
      → (status ≡ ok → l ≢ [])
      → IsSound h
  from_reply h status l g sent n = record {
    cache = g;
    honest = rw sent (make_response-IsHonestResponse status l n);
  }

  from_hit :
      (c : UdsCache) (h : Handled) (l : List Arrival)
      → IsGood c
      → l ≢ []
      → (h.cache ≡ c) × (reply h.events ≡ some (make_response ok l))
      → IsSound h
  from_hit c h l g n (same, sent) = from_reply h ok l (subst IsGood (sym same) g) sent (λ _. n)

  answer_client-IsSound :
      (curl : Curl) (request : Bytes) (c : UdsCache) (times : Times) (entry : CacheEntry)
      (state : CacheState) {h : Handled}
      → IsGood c
      → (state ≡ miss) ⊎ (entry.arrivals ≢ [])
      → answer_client j pl curl request c times (state, entry) ≡ some h
      → IsSound h
  answer_client-IsSound curl request c times entry miss {h} g p e =
      let (s, fetched, same, sent) = answer_miss curl request c times entry e in
      let (good, n) = refresh-IsHonest curl request c times fetched g in
      from_reply h s.status s.arrivals (subst IsGood (sym same) good) sent n
  answer_client-IsSound curl request c times entry _ {h} g (inl m) e = absurd (ground arith)
  answer_client-IsSound curl request c times entry hit_fresh {h} g (inr n) e =
      from_hit c h entry.arrivals g n
        (answer_hit curl request c times entry hit_fresh (λ x. ground arith) e)
  answer_client-IsSound curl request c times entry hit_stale {h} g (inr n) e =
      from_hit c h entry.arrivals g n
        (answer_hit curl request c times entry hit_stale (λ x. ground arith) e)

  handled_bad :
      (c : UdsCache) (h : Handled)
      → IsGood c
      → ◌≡◌ {A = Option Handled} (some (record { cache = c; events = closes ∷ [] })) (some h)
      → IsSound h
  unfolding reply
  handled_bad c h g e = record {
    cache = (let same : c ≡ h.cache = ground arith in subst IsGood same g);
    honest = (let sent : h.events ≡ closes ∷ [] = ground arith in rw (sent, reply) tt);
  }

  handle_received-IsSound :
      (curl : Curl) (request : Bytes) (c : UdsCache) (times : Times) {h : Handled}
      → IsGood c
      → handle_received j pl curl request c times ≡ some h
      → IsSound h
  unfolding handle_received
  handle_received-IsSound curl request c times {h} g e =
      elim (Bool-cases (length request == request_size)) [
        | inr bad ↦ handled_bad c h g (rw (bad, handle_received) at e)
        | inl size ↦ elim (Option-cases (stop_id_of request)) [
          | inl u ↦ cc (rw (size, u, handle_received) at e)
          | inr (stop_id, u) ↦
              let got = get_element c stop_id no_entry times.looked in
              answer_client-IsSound curl request c times got.1 got.0 g
                (get_element_full c stop_id times.looked g) (rw (size, u, handle_received) at e)
        ]
      ]

  -- Serving a client keeps the cache good: one entry for a stop, none without arrivals. And whatever
  -- the cache, the server and the client send, a response with the status `Ok` announces at least one
  -- arrival and at most sixteen.
  pub handle_client-IsSound :
      (curl : Curl) (received : Option Bytes) (c : UdsCache) (times : Times) {h : Handled}
      → IsGood c
      → handle_client j pl curl received c times ≡ some h
      → IsSound h
  unfolding handle_client
  handle_client-IsSound curl none c times {h} g e = handled_bad c h g e
  handle_client-IsSound curl (some packet) c times {h} g e =
      handle_received-IsSound curl (recv_request packet) c times g e

  -- A background refresh keeps the cache good.
  pub refresh_in_background-IsGood :
      (curl : Curl) (request : Bytes) (c : UdsCache) (times : Times) {d : UdsCache}
      → IsGood c
      → refresh_in_background j pl curl request c times ≡ some d
      → IsGood d
  unfolding refresh_in_background
  refresh_in_background-IsGood curl request c times {d} g e =
      elim (Option-cases (fresh_fetch_and_update_cache j pl curl request c times)) [
        | inl f ↦ cc (rw (f, refresh_in_background) at e)
        | inr (s, f) ↦
            let made : s.cache ≡ d = cc (rw (f, refresh_in_background) at e) in
            subst IsGood made (refresh-IsHonest curl request c times f g).0
      ]
