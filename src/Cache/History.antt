-- ===== src/Cache/History.antt =====
-- The cache against an ideal one that forgets nothing, over any interleaving of the critical sections
-- of `put_element` (bkk_uds_server/bkk_cache.cpp).
use bkk_api.Common.{
  ℕ, ◌≤◌, Bytes, str_eq, if◌then◌else◌, true, Bool-cases, Option, none, some, List, [], ◌∷◌, ◌≡◌,
  refl, ◌⊎◌, inl, inr, arith,
}
use bkk_api.Common.Assoc.{lookup, unless, lookup-insert, lookup-erase_if}
use bkk_api.Cache.{
  CacheEntry, CacheState, miss, UdsCache, is_expired, assign, remove_stale_entries, get_element,
}
use bkk_api.Cache.Reads.{
  IsValid, assign-IsValid, remove_stale_entries-IsValid, Classified, Classified-expired,
  get_element_absent, get_element_present,
}

-- One critical section: a store, or a sweep with the time that it reads.
pub data Section : Type 0 where
  stores : Bytes → CacheEntry → Section
  sweeps : ℕ → Section

-- The sections that threads have run on a cache, the latest first. A store and the sweep of the same
-- `put_element` need not be neighbours.
pub run : UdsCache → List Section → UdsCache
run c [] = c
run c (stores k e ∷ earlier) = assign (run c earlier) k e
run c (sweeps now ∷ earlier) = remove_stale_entries (run c earlier) now

-- The ideal cache: the latest entry stored for a stop.
pub latest : Bytes → List Section → Option CacheEntry
latest q [] = none
latest q (stores k e ∷ earlier) = if str_eq k q then some e else latest q earlier
latest q (sweeps now ∷ earlier) = latest q earlier

-- No sweep ran later than a time.
abbrev pub SweptBy : ℕ → List Section → Type 0
SweptBy now [] = Unit
SweptBy now (stores k e ∷ earlier) = SweptBy now earlier
SweptBy now (sweeps t ∷ earlier) = (t ≤ now) × SweptBy now earlier

-- The answer of the ideal cache.
abbrev pub Answers :
    UdsCache → ℕ → CacheEntry → Option CacheEntry → CacheState × CacheEntry → Type 0
Answers c now old none result = result ≡ (miss, old)
Answers c now old (some e) result = Classified c now e old result

pub run-IsValid : (c : UdsCache) (h : List Section) → IsValid c → IsValid (run c h)
unfolding run
run-IsValid c [] v = v
run-IsValid c (stores k e ∷ h) v = assign-IsValid (run c h) k e (run-IsValid c h v)
run-IsValid c (sweeps t ∷ h) v = remove_stale_entries-IsValid (run c h) t (run-IsValid c h v)

-- The configuration never changes.
run_config :
    (c : UdsCache) (h : List Section)
    → ((run c h).cache_freshness_seconds ≡ c.cache_freshness_seconds)
      × ((run c h).cache_staleness_seconds ≡ c.cache_staleness_seconds)
unfolding run assign remove_stale_entries
run_config c [] = (refl, refl)
run_config c (stores k e ∷ h) = run_config c h
run_config c (sweeps t ∷ h) = run_config c h

-- The entry of a stop, against the latest one stored: the same, or gone because it had expired.
abbrev Entry : UdsCache → ℕ → Option CacheEntry → Option CacheEntry → Type 0
Entry c now found none = found ≡ none
Entry c now found (some e) =
    (found ≡ some e)
    ⊎ ((found ≡ none) × (t : ℕ) × (t ≤ now) × (is_expired c.cache_staleness_seconds t e ≡ true))

Entry-unless :
    (c : UdsCache) (now t : ℕ) (found o : Option CacheEntry)
    → t ≤ now
    → Entry c now found o
    → Entry c now (unless (is_expired c.cache_staleness_seconds t) found) o
Entry-unless c now t found none le h = rw h
Entry-unless c now t found (some e) le (inr (gone, u, u_le, x)) = inr (rw gone, u, u_le, x)
Entry-unless c now t found (some e) le (inl here) =
    elim (Bool-cases (is_expired c.cache_staleness_seconds t e)) [
      | inl x ↦ inr (rw (here, x), t, le, x)
      | inr x ↦ inl (rw (here, x))
    ]

run-Entry :
    (c : UdsCache) (q : Bytes) (now : ℕ) (h : List Section)
    → IsValid c
    → c.cache ≡ []
    → SweptBy now h
    → Entry c now (lookup q (run c h).cache) (latest q h)
unfolding run latest assign remove_stale_entries lookup
run-Entry c q now [] v e s = rw (e, lookup)
run-Entry c q now (stores k x ∷ h) v e s = elim (Bool-cases (str_eq k q)) [
  | inl same ↦ rw (lookup-insert k q x (run c h).cache, same) (inl refl)
  | inr other ↦ rw (lookup-insert k q x (run c h).cache, other) (run-Entry c q now h v e s)
]
run-Entry c q now (sweeps t ∷ h) v e (le, s) =
    rw
      (
        lookup-erase_if (is_expired (run c h).cache_staleness_seconds t) q (run c h).cache
            (run-IsValid c h v),
        (run_config c h).1,
      )
      (Entry-unless c now t (lookup q (run c h).cache) (latest q h) le (run-Entry c q now h v e s))

Classified-config :
    (c d : UdsCache) (now : ℕ) (e old : CacheEntry) (r : CacheState × CacheEntry)
    → d.cache_freshness_seconds ≡ c.cache_freshness_seconds
    → d.cache_staleness_seconds ≡ c.cache_staleness_seconds
    → Classified d now e old r
    → Classified c now e old r
Classified-config c d now e old r f s (inl (a, h)) = inl (omega arith, h)
Classified-config c d now e old r f s (inr (inl (a, b, h))) =
    inr (inl (omega arith, omega arith, h))
Classified-config c d now e old r f s (inr (inr (a, b, h))) =
    inr (inr (omega arith, omega arith, h))

Entry-Answers :
    (c d : UdsCache) (q : Bytes) (now : ℕ) (old : CacheEntry) (o : Option CacheEntry)
    → d.cache_freshness_seconds ≡ c.cache_freshness_seconds
    → d.cache_staleness_seconds ≡ c.cache_staleness_seconds
    → c.cache_freshness_seconds ≤ c.cache_staleness_seconds
    → Entry c now (lookup q d.cache) o
    → Answers c now old o (get_element d q old now)
Entry-Answers c d q now old none f s le h = get_element_absent d q old now h
Entry-Answers c d q now old (some e) f s le (inl h) =
    Classified-config c d now e old _ f s (get_element_present d q e old now h)
Entry-Answers c d q now old (some e) f s le (inr (h, t, t_le, x)) =
    rw (get_element_absent d q old now h) (Classified-expired c t now e old x t_le le)

-- Whatever sections the threads have run on an empty cache, in whatever order, a read that comes no
-- earlier than any sweep answers as a cache would that never removes anything: by the age of the entry
-- last stored for the stop, or with a miss if none was. So the sweeps are not observable, and no entry
-- is ever answered for another stop, nor an overwritten one.
pub get_element-run :
    (c : UdsCache) (h : List Section) (q : Bytes) (old : CacheEntry) (now : ℕ)
    → c.cache ≡ []
    → c.cache_freshness_seconds ≤ c.cache_staleness_seconds
    → SweptBy now h
    → Answers c now old (latest q h) (get_element (run c h) q old now)
get_element-run c h q old now e le s =
    let (f, st) = run_config c h in
    Entry-Answers c (run c h) q now old (latest q h) f st le (run-Entry c q now h (rw e tt) e s)
