-- ===== src/Cache/Size.antt =====
-- How many entries the cache holds (bkk_uds_server/bkk_cache.cpp).
use bkk_api.Common.{
  ℕ, suc, ◌<◌, ◌≤◌, Bytes, false, none, List, [], ◌∷◌, length, ◌≡◌, refl, ◌≢◌, arith, ap, ◌∙◌,
  str_eq_ne, replicate, length-replicate, zero,
}
use bkk_api.Common.Assoc.{lookup, insert, insert-All, erase_if_none, length-insert_new}
use bkk_api.Cache.{CacheEntry, UdsCache, is_expired, put_element}
use bkk_api.Cache.Reads.{IsValid, IsSwept, put_element-IsValid, lookup-put_element}

-- One `put_element` for each stop, with entries of one time, swept at one time.
pub put_all : UdsCache → CacheEntry → ℕ → List Bytes → UdsCache
put_all c e now [] = c
put_all c e now (k ∷ keys) = put_element (put_all c e now keys) k e now

-- No stop twice.
abbrev pub AllNew : Bytes → List Bytes → Type 0
AllNew k [] = Unit
AllNew k (j ∷ keys) = (j ≢ k) × AllNew k keys

abbrev pub AllDistinct : List Bytes → Type 0
AllDistinct [] = Unit
AllDistinct (k ∷ keys) = AllNew k keys × AllDistinct keys

-- Storing an entry for a new stop, while no entry has outlived its window, adds one, whatever the
-- limit says.
length-put_element_new :
    (c : UdsCache) (k : Bytes) (e : CacheEntry) (now : ℕ)
    → lookup k c.cache ≡ none
    → is_expired c.cache_staleness_seconds now e ≡ false
    → IsSwept c now
    → length (put_element c k e now).cache ≡ suc (length c.cache)
unfolding put_element
length-put_element_new c k e now new young swept =
    rw
      (erase_if_none (is_expired c.cache_staleness_seconds now) (insert k e c.cache) (
        insert-All (λ x. is_expired c.cache_staleness_seconds now x.1 ≡ false) k e c.cache young
          swept))
      (length-insert_new k e c.cache new)

-- Stop ids of 0 to n - 1 letters.
words : ℕ → List Bytes
words zero = []
words (suc n) = replicate n b'A' ∷ words n

length-words : (n : ℕ) → length (words n) ≡ n
unfolding words
length-words zero = refl
length-words (suc n) = ap suc (length-words n)

words-AllNew : (n m : ℕ) → m ≤ n → AllNew (replicate n b'A') (words m)
unfolding words
words-AllNew n zero h = tt
words-AllNew n (suc m) h = (
  λ same. absurd (
      omega
        (arith, ap length same, length-replicate {A = ℕ} m b'A', length-replicate {A = ℕ} n b'A')),
  words-AllNew n m (omega arith),
)

words-AllDistinct : (n : ℕ) → AllDistinct (words n)
unfolding words
words-AllDistinct zero = tt
words-AllDistinct (suc n) = (words-AllNew n n (omega arith), words-AllDistinct n)

module _ (c : UdsCache) (e : CacheEntry) (now : ℕ) (empty : c.cache ≡ [])
    (young : is_expired c.cache_staleness_seconds now e ≡ false) where
  record Filled (keys : List Bytes) (d : UdsCache) : Type 0 where
    valid : IsValid d
    swept : IsSwept d now
    window : d.cache_staleness_seconds ≡ c.cache_staleness_seconds
    size : length d.cache ≡ length keys
    others : (q : Bytes) → AllNew q keys → lookup q d.cache ≡ none

  put_all-Filled : (keys : List Bytes) → AllDistinct keys → Filled keys (put_all c e now keys)
  unfolding put_all lookup
  put_all-Filled [] d = record {
    valid = rw empty tt;
    swept = rw empty tt;
    window = refl;
    size = rw empty;
    others = λ q n. rw (empty, lookup);
  }
  put_all-Filled (k ∷ keys) (new, d) =
      let before = put_all c e now keys in
      let f = put_all-Filled keys d in
      let young' : is_expired before.cache_staleness_seconds now e ≡ false = rw f.window young in
      let (valid, swept, _, window, _) = put_element-IsValid before k e now f.valid in
      record {
        valid = valid;
        swept = swept;
        window = window ∙ f.window;
        size =
            length-put_element_new before k e now (f.others k new) young' f.swept ∙ ap suc f.size;
        others = λ q (other, rest).
            lookup-put_element before k q e now f.valid ∙ rw (str_eq_ne k q other, f.others q rest);
      }

  -- As many entries as stops were stored, with no regard to `max_cache_size`: nothing is removed to
  -- make room, as long as no entry outlives its window.
  pub length-put_all :
      (keys : List Bytes) → AllDistinct keys → length (put_all c e now keys).cache ≡ length keys
  length-put_all keys d = (put_all-Filled keys d).size

  -- Whatever the configured limit, there are stops whose entries together exceed it: the limit is
  -- never applied.
  pub put_all_exceeds :
      (keys : List Bytes) × AllDistinct keys
      × (c.max_cache_size < length (put_all c e now keys).cache)
  put_all_exceeds =
      let keys = words (suc c.max_cache_size) in
      let d = words-AllDistinct (suc c.max_cache_size) in
      (keys, d, omega (arith, length-put_all keys d, length-words (suc c.max_cache_size)))
