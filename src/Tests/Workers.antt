-- ===== src/Tests/Workers.antt =====
-- Runs of the pool with one worker.
use bkk_api.Common.{ℕ, ◌+◌, ◌≡◌, refl, true, false, List, [], ◌∷◌, arith}
use bkk_api.ThreadPool.Workers.{
  ready, gone, outside, joining, Pool, make_pool, submit, notify_one, take_task, wake, finish,
  stop_workers, notify_all, total, Run, starts, submits, notifies, notifies_none, wakes, finishes,
  stops, notifies_all,
}
use bkk_api.ThreadPool.Sums
use bkk_api.ThreadPool.Queue
use bkk_api.ThreadPool.Wakeups

abbrev two : List ℕ
two = 7 ∷ 8 ∷ []

abbrev nothing : List ℕ
nothing = []

abbrev one_gone : Pool
one_gone = record { workers = gone ∷ []; task_queue = []; stop = true; owner = joining }

-- Two clients, one worker: the second one is still in the queue when the destructor begins.
two_served : Run 1 two two two one_gone
unfolding make_pool submit wake take_task finish stop_workers notify_all
two_served =
    let one = wakes 0 (notifies_none (submits 7 starts refl) refl refl) refl in
    let stopped = notifies_all (stops (notifies_none (submits 8 one refl) refl refl) refl) refl in
    wakes 0 (finishes 0 8 (wakes 0 (finishes 0 7 stopped refl) refl) refl) refl

Run-IsFifo_example :
    (two ≡ two) × (Sums.count 8 two ≡ Sums.count 8 two + total (Sums.holds 8) (gone ∷ []))
Run-IsFifo_example = Queue.Run-IsFifo 8 two_served

joined_handled_example : (two ≡ two) × (Sums.count 7 two ≡ Sums.count 7 two)
joined_handled_example = Queue.joined_handled 7 two_served (omega arith) (refl, tt)

abbrev woken : Pool
woken = record { workers = ready ∷ []; task_queue = 7 ∷ []; stop = false; owner = outside }

-- The worker goes to sleep before the client comes.
slept : Run 1 (7 ∷ []) nothing nothing woken
unfolding make_pool submit notify_one wake take_task
slept = notifies 0 (submits 7 (wakes 0 starts refl) refl) refl refl

no_lost_wakeup_example : Wakeups.IsAwake woken
no_lost_wakeup_example = Wakeups.no_lost_wakeup slept
