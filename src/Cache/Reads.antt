-- ===== src/Cache/Reads.antt =====
-- What the cache answers after a store (bkk_uds_server/bkk_cache.cpp).
use bkk_api.Common.{
  ℕ, ◌+◌, ◌≤◌, ◌<◌, Bytes, str_eq, str_eq_refl, ltb, leb→le, ◌∙◌, if◌then◌else◌, true, false,
  Bool-cases, Option, none, some, All, ◌≡◌, refl, ◌⊎◌, inl, inr, arith,
}
use bkk_api.Common.Assoc.{
  lookup, insert, Distinct, unless, lookup-insert, insert-Distinct, lookup-erase_if,
  erase_if-Distinct, erase_if-All,
}
use bkk_api.Cache.{
  CacheEntry, CacheState, hit_fresh, hit_stale, miss, CacheConfig, UdsCache, seconds, make_cache,
  assign, is_expired, remove_stale_entries, put_element, classify, get_element,
}

-- No stop id has two entries.
abbrev pub IsValid : UdsCache → Type 0
IsValid c = Distinct c.cache

-- Every entry was within its staleness window at some time.
abbrev pub IsSwept : UdsCache → ℕ → Type 0
IsSwept c now = All (λ e. is_expired c.cache_staleness_seconds now e.1 ≡ false) c.cache

pub make_cache-IsValid : (config : Option CacheConfig) → IsValid (make_cache config)
unfolding make_cache
make_cache-IsValid none = tt
make_cache-IsValid (some config) = tt

pub assign-IsValid :
    (c : UdsCache) (k : Bytes) (e : CacheEntry) → IsValid c → IsValid (assign c k e)
unfolding assign
assign-IsValid c k e v = insert-Distinct k e c.cache v

pub remove_stale_entries-IsValid :
    (c : UdsCache) (now : ℕ) → IsValid c → IsValid (remove_stale_entries c now)
unfolding remove_stale_entries
remove_stale_entries-IsValid c now v = erase_if-Distinct _ c.cache v

-- Storing an entry keeps one entry for each stop, leaves no entry that has outlived the staleness
-- window, and keeps the configuration.
pub put_element-IsValid :
    (c : UdsCache) (k : Bytes) (e : CacheEntry) (now : ℕ)
    → IsValid c
    → let c' = put_element c k e now in
      IsValid c'
      × IsSwept c' now
      × (c'.cache_freshness_seconds ≡ c.cache_freshness_seconds)
      × (c'.cache_staleness_seconds ≡ c.cache_staleness_seconds)
      × (c'.max_cache_size ≡ c.max_cache_size)
unfolding put_element
put_element-IsValid c k e now v = (
  remove_stale_entries-IsValid (assign c k e) now (assign-IsValid c k e v),
  erase_if-All _ (insert k e c.cache),
  refl,
  refl,
  refl,
)

-- After a store every stop has the entry that it had, the stored one for its own stop, unless that
-- entry has outlived the staleness window by the time of the sweep: then it has none.
pub lookup-put_element :
    (c : UdsCache) (k q : Bytes) (e : CacheEntry) (now : ℕ)
    → IsValid c
    → lookup q (put_element c k e now).cache
      ≡ unless
          (is_expired c.cache_staleness_seconds now)
          (if str_eq k q then some e else lookup q c.cache)
unfolding put_element
lookup-put_element c k q e now v = rw (
  lookup-erase_if (is_expired c.cache_staleness_seconds now) q (insert k e c.cache)
      (insert-Distinct k e c.cache v),
  lookup-insert k q e c.cache,
)

-- The answer for an entry: fresh within the freshness window, stale from there to the end of the
-- staleness window, and a miss from then on, which leaves the caller's entry alone.
abbrev pub Classified : UdsCache → ℕ → CacheEntry → CacheEntry → CacheState × CacheEntry → Type 0
Classified c now e old result =
    ((now < e.timestamp + seconds c.cache_freshness_seconds) × (result ≡ (hit_fresh, e)))
    ⊎ ((e.timestamp + seconds c.cache_freshness_seconds ≤ now)
        × (now < e.timestamp + seconds c.cache_staleness_seconds)
        × (result ≡ (hit_stale, e)))
    ⊎ ((e.timestamp + seconds c.cache_freshness_seconds ≤ now)
        × (e.timestamp + seconds c.cache_staleness_seconds ≤ now)
        × (result ≡ (miss, old)))

classify-Classified :
    (c : UdsCache) (now : ℕ) (e old : CacheEntry) → Classified c now e old (classify c now e old)
unfolding classify
classify-Classified c now e old =
    elim (Bool-cases (ltb now (e.timestamp + seconds c.cache_freshness_seconds))) [
      | inl f ↦ inl (ground arith, rw f)
      | inr f ↦ elim (Bool-cases (ltb now (e.timestamp + seconds c.cache_staleness_seconds))) [
        | inl s ↦ inr (inl (ground arith, ground arith, rw (f, s)))
        | inr s ↦ inr (inr (ground arith, ground arith, rw (f, s)))
      ]
    ]

-- An entry that the sweep of an earlier time would remove is a miss.
pub Classified-expired :
    (c : UdsCache) (swept now : ℕ) (e old : CacheEntry)
    → is_expired c.cache_staleness_seconds swept e ≡ true
    → swept ≤ now
    → c.cache_freshness_seconds ≤ c.cache_staleness_seconds
    → Classified c now e old (miss, old)
Classified-expired c swept now e old h later ordered =
    let out : e.timestamp + seconds c.cache_staleness_seconds ≤ swept = leb→le _ _ h in
    inr (inr (omega arith, omega arith, refl))

pub get_element_absent :
    (c : UdsCache) (k : Bytes) (old : CacheEntry) (now : ℕ)
    → lookup k c.cache ≡ none
    → get_element c k old now ≡ (miss, old)
unfolding get_element
get_element_absent c k old now h = rw (h, get_element)

pub get_element_present :
    (c : UdsCache) (k : Bytes) (e old : CacheEntry) (now : ℕ)
    → lookup k c.cache ≡ some e
    → Classified c now e old (get_element c k old now)
unfolding get_element
get_element_present c k e old now h = rw (h, get_element) (classify-Classified c now e old)

-- A read after a store of the same stop, with the sweep of the store no later than the read, answers by
-- the age of the stored entry: fresh within the freshness window, stale from there to the end of the
-- staleness window, and a miss from then on, which leaves the caller's entry alone.
pub get_element-put_element :
    (c : UdsCache) (k : Bytes) (e old : CacheEntry) (swept now : ℕ)
    → IsValid c
    → swept ≤ now
    → c.cache_freshness_seconds ≤ c.cache_staleness_seconds
    → Classified c now e old (get_element (put_element c k e swept) k old now)
unfolding put_element
get_element-put_element c k e old swept now v later ordered =
    elim (Bool-cases (is_expired c.cache_staleness_seconds swept e)) [
      | inl x ↦
          let gone : lookup k (put_element c k e swept).cache ≡ none =
            lookup-put_element c k k e swept v ∙ rw (str_eq_refl k, x) in
          rw (get_element_absent (put_element c k e swept) k old now gone)
            (Classified-expired c swept now e old x later ordered)
      | inr x ↦
          let kept : lookup k (put_element c k e swept).cache ≡ some e =
            lookup-put_element c k k e swept v ∙ rw (str_eq_refl k, x) in
          get_element_present (put_element c k e swept) k e old now kept
    ]
