-- ===== src/ThreadPool/Sums.antt =====
-- Counts over the workers of the pool (bkk_uds_server/bkk_thread_pool.cpp).
use bkk_api.Common.{
  map, ℕ, zero, suc, ◌+◌, ◌≡◌, refl, ap, ◌==◌, if◌then◌else◌, some, List, [], ◌∷◌, ◌++◌, length,
  replicate, set, get_elem?, All, arith,
}
use bkk_api.ThreadPool.Workers.{Worker, ready, asleep, handling, gone, rouse, total}

-- How often a descriptor stands in a list.
abbrev pub count : ℕ → List ℕ → ℕ
count fd [] = 0
count fd (x ∷ l) = (if x == fd then 1 else 0) + count fd l

pub count-append : (fd : ℕ) (l r : List ℕ) → count fd (l ++ r) ≡ count fd l + count fd r
count-append fd [] r = omega arith
count-append fd (x ∷ l) r = omega (arith, count-append fd l r)

pub total-set :
    (f : Worker → ℕ) (ws : List Worker) (i : ℕ) (new : Worker) {old : Worker}
    → get_elem? ws i ≡ some old
    → total f (set ws i new) + f old ≡ total f ws + f new
total-set f [] i new e = cc
total-set f (w ∷ ws) zero new e = ground (arith, e)
total-set f (w ∷ ws) (suc i) new e = omega (arith, total-set f ws i new e)

-- Is the worker busy with a descriptor, and has its thread ended?
abbrev pub holds : ℕ → Worker → ℕ
holds fd ready = 0
holds fd asleep = 0
holds fd (handling x) = if x == fd then 1 else 0
holds fd gone = 0

abbrev pub ended : Worker → ℕ
ended ready = 0
ended asleep = 0
ended (handling x) = 0
ended gone = 1

pub total-replicate_zero : (f : Worker → ℕ) (n : ℕ) → f ready ≡ 0 → total f (replicate n ready) ≡ 0
total-replicate_zero f zero e = refl
total-replicate_zero f (suc n) e = omega (arith, total-replicate_zero f n e)

-- Waking the sleepers changes no sum that does not tell them from the ready workers.
pub total-map-rouse :
    (f : Worker → ℕ) (ws : List Worker) → f asleep ≡ f ready → total f (map rouse ws) ≡ total f ws
total-map-rouse f [] e = refl
total-map-rouse f (ready ∷ ws) e = omega (arith, total-map-rouse f ws e)
total-map-rouse f (asleep ∷ ws) e = omega (arith, e, total-map-rouse f ws e)
total-map-rouse f (handling fd ∷ ws) e = omega (arith, total-map-rouse f ws e)
total-map-rouse f (gone ∷ ws) e = omega (arith, total-map-rouse f ws e)

pub length-map-rouse : (ws : List Worker) → length (map rouse ws) ≡ length ws
length-map-rouse [] = refl
length-map-rouse (w ∷ ws) = ap suc (length-map-rouse ws)

pub total_of_All-gone :
    (ws : List Worker) (fd : ℕ)
    → All (λ w. w ≡ gone) ws
    → (total ended ws ≡ length ws) × (total (holds fd) ws ≡ 0)
total_of_All-gone [] fd all_gone = (refl, refl)
total_of_All-gone (w ∷ ws) fd (e, rest) =
    let (all_ended, none_holds) = total_of_All-gone ws fd rest in
    (rw e (omega (arith, all_ended)), rw e (omega (arith, none_holds)))
