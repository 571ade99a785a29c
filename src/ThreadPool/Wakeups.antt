-- ===== src/ThreadPool/Wakeups.antt =====
-- That no notification of the pool is missed (bkk_uds_server/bkk_thread_pool.cpp).
use bkk_api.Common.{
  map, ℕ, ◌+◌, ◌≡◌, refl, sym, ap, ◌∙◌, Bool, true, false, some, List, [], ◌∷◌, length,
  length-append, ◌≤◌, ◌≢◌, set, get_elem?, ◌⊎◌, inl, inr, arith,
}
use bkk_api.ThreadPool.Workers.{
  Worker, ready, asleep, handling, gone, Owner, outside, notifying, stopping, joining, Pool,
  make_pool, submit, notify_one, take_task, wake, finish, stop_workers, rouse, notify_all, total,
  Run, starts, submits, notifies, notifies_none, wakes, wakes_spuriously, finishes, stops,
  notifies_all,
}
use bkk_api.ThreadPool.Sums.{total-set, total-replicate_zero}
use bkk_api.ThreadPool.Workers.{sleeps}
use bkk_api.ThreadPool.Steady.{Run-IsSteady, has_stopped}

-- Is a worker at the test of the wait, and is a `notify_one` still to come?
abbrev pub is_ready : Worker → ℕ
is_ready ready = 1
is_ready asleep = 0
is_ready (handling fd) = 0
is_ready gone = 0

abbrev pub due : Owner → ℕ
due outside = 0
due notifying = 1
due stopping = 0
due joining = 0

-- No worker sleeps; or there are at least as many workers at the test of the wait as tasks in the queue,
-- but for one that `submit` has still to notify of, and the joins have not begun.
abbrev pub IsAwake : Pool → Type 0
IsAwake p =
    (total sleeps p.workers ≡ 0)
    ⊎ ((length p.task_queue ≤ total is_ready p.workers + due p.owner) × (p.owner ≢ joining))

-- A sleeper gets ready.
roused-IsAwake :
    (p : Pool) (i : ℕ) (o : Owner)
    → IsAwake p
    → get_elem? p.workers i ≡ some asleep
    → due p.owner ≤ due o + 1
    → ((p.owner ≢ joining) → o ≢ joining)
    → IsAwake (record p { workers = set p.workers i ready; owner = o })
roused-IsAwake p i o (inl none_sleeps) at d stay =
    absurd (omega (arith, none_sleeps, total-set sleeps p.workers i ready at))
roused-IsAwake p i o (inr (enough, n)) at d stay =
    inr (omega (arith, enough, d, total-set is_ready p.workers i ready at), stay n)

take_task-IsAwake :
    (p : Pool) (i : ℕ) (stop : Bool) (queue : List ℕ)
    → p.stop ≡ stop
    → p.task_queue ≡ queue
    → p.stop ≡ has_stopped p.owner
    → IsAwake p
    → get_elem? p.workers i ≡ some ready
    → IsAwake (take_task p i stop queue).0
unfolding take_task
take_task-IsAwake p i stop (x ∷ rest) es eq flag (inl none_sleeps) at =
    inl (omega (arith, none_sleeps, total-set sleeps p.workers i (handling x) at))
take_task-IsAwake p i stop (x ∷ rest) es eq flag (inr (enough, n)) at =
    inr (omega (arith, enough, ap length eq, total-set is_ready p.workers i (handling x) at), n)
take_task-IsAwake p i true [] es eq flag (inl none_sleeps) at =
    inl (omega (arith, none_sleeps, total-set sleeps p.workers i gone at))
take_task-IsAwake p i true [] es eq flag (inr (enough, n)) at = inr (rw eq (omega arith), n)
take_task-IsAwake p i false [] es eq flag awake at =
    inr (rw eq (omega arith), λ o. cc (sym es ∙ flag ∙ ap has_stopped o))

total-sleeps-map-rouse : (ws : List Worker) → total sleeps (map rouse ws) ≡ 0
total-sleeps-map-rouse [] = refl
total-sleeps-map-rouse (ready ∷ ws) = omega (arith, total-sleeps-map-rouse ws)
total-sleeps-map-rouse (asleep ∷ ws) = omega (arith, total-sleeps-map-rouse ws)
total-sleeps-map-rouse (handling fd ∷ ws) = omega (arith, total-sleeps-map-rouse ws)
total-sleeps-map-rouse (gone ∷ ws) = omega (arith, total-sleeps-map-rouse ws)

-- No wake-up is lost. After every step of every run, either no worker sleeps, or the joins of the
-- destructor have not begun and there are at least as many workers at the test of the wait as tasks in
-- the queue, one less only while `submit` has still to notify. So no task waits for a worker that
-- sleeps through it, and once the destructor has notified all, none of its joins waits for one that
-- sleeps.
pub no_lost_wakeup :
    {n : ℕ} {submitted taken done : List ℕ} {p : Pool} → Run n submitted taken done p → IsAwake p
unfolding make_pool submit notify_one wake finish stop_workers notify_all
no_lost_wakeup {n} starts = inl (total-replicate_zero sleeps n refl)
no_lost_wakeup (submits {p = p} x r o) = elim (no_lost_wakeup r) [
  | inl none_sleeps ↦ inl none_sleeps
  | inr (enough, n) ↦
      inr (omega (arith, enough, ap due o, length-append p.task_queue (x ∷ [])), λ e. ground arith)
]
no_lost_wakeup (notifies {p = p} i r o at) =
    roused-IsAwake p i outside (no_lost_wakeup r) at (omega (arith, ap due o)) (λ n e. ground arith)
no_lost_wakeup (notifies_none r o z) = inl z
no_lost_wakeup (wakes {p = p} i r at) =
    take_task-IsAwake p i p.stop p.task_queue refl refl (Run-IsSteady 0 r).flag (no_lost_wakeup r)
      at
no_lost_wakeup (wakes_spuriously {p = p} i r at) =
    roused-IsAwake p i p.owner (no_lost_wakeup r) at (omega arith) (λ n. n)
no_lost_wakeup (finishes {p = p} i x r at) = elim (no_lost_wakeup r) [
  | inl none_sleeps ↦ inl (omega (arith, none_sleeps, total-set sleeps p.workers i ready at))
  | inr (enough, n) ↦ inr (omega (arith, enough, total-set is_ready p.workers i ready at), n)
]
no_lost_wakeup (stops r o) = elim (no_lost_wakeup r) [
  | inl none_sleeps ↦ inl none_sleeps
  | inr (enough, n) ↦ inr (omega (arith, enough, ap due o), λ e. ground arith)
]
no_lost_wakeup (notifies_all {p = p} r o) = inl (total-sleeps-map-rouse p.workers)
