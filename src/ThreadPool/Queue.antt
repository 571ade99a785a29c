-- ===== src/ThreadPool/Queue.antt =====
-- What the queue of the pool guarantees, on every run of submits, workers and the destructor
-- (bkk_uds_server/bkk_thread_pool.cpp).
use bkk_api.Common.{ℕ, ◌+◌, ◌<◌, ◌≡◌, ap, ◌∙◌, List, ◌++◌, All, inl, inr, arith}
use mathlib.Core.List.{append-nil}
use bkk_api.ThreadPool.Workers.{gone, Pool, total, Run}
use bkk_api.ThreadPool.Sums.{count, holds, total_of_All-gone}
use bkk_api.ThreadPool.Steady.{Run-IsSteady}

-- On every run, the tasks that were taken are the first ones that were submitted, in their order, and the
-- rest still wait in the queue, in order too. Each task taken was handled or is in a worker's hands,
-- as often as it was taken.
pub Run-IsFifo :
    {n : ℕ} (fd : ℕ) {submitted taken done : List ℕ} {p : Pool}
    → Run n submitted taken done p
    → (submitted ≡ taken ++ p.task_queue)
      × (count fd taken ≡ count fd done + total (holds fd) p.workers)
Run-IsFifo fd r = let inv = Run-IsSteady fd r in (inv.in_order, inv.kept)

-- When the destructor has joined all threads of a pool that has some, every connection that was
-- submitted has been handled, as often as it was submitted: none is dropped, and none handled twice.
pub joined_handled :
    {n : ℕ} (fd : ℕ) {submitted taken done : List ℕ} {p : Pool}
    → Run n submitted taken done p
    → 0 < n
    → All (λ w. w ≡ gone) p.workers
    → (submitted ≡ taken) × (count fd done ≡ count fd submitted)
joined_handled fd {submitted = s} {taken = t} {p = p} r some_worker all_gone =
    let inv = Run-IsSteady fd r in
    let (all_ended, none_holds) = total_of_All-gone p.workers fd all_gone in
    elim inv.leaves_last [
      | inl none_left ↦ absurd (omega (arith, none_left, all_ended, inv.size))
      | inr (stopped, empty) ↦
          let same : s ≡ t = inv.in_order ∙ ap (λ l. t ++ l) empty ∙ append-nil t in
          (same, rw same (omega (arith, inv.kept, none_holds)))
    ]
