-- ===== src/ThreadPool/Workers.antt =====
-- The queue of the pool and its workers (bkk_uds_server/bkk_thread_pool.cpp): the constructor, `submit`,
-- `thread_function` and the destructor, as steps of a state.
--
-- A task is the descriptor of its client. Each critical section under `queue_mutex` is one step, each
-- call that notifies the condition variable is one of its own, and so is the return of
-- `handle_client`, which a worker runs outside the mutex. The steps say what may happen: a handler
-- that blocks in `recv`, which has no timeout, is a worker whose return never comes.
use bkk_api.Common.{
  ℕ, ◌≡◌, Bool, true, false, some, List, [], ◌∷◌, ◌++◌, map, replicate, set, get_elem?, ◌+◌,
}

-- Where `thread_function` stands: at the lock and the test of the wait, at the start of the loop or
-- woken in `cv.wait`; asleep in `cv.wait`; in `handle_client`; or returned.
pub data Worker : Type 0 where
  ready asleep : Worker
  handling : ℕ → Worker
  gone : Worker

-- Where the thread that owns the pool stands: outside its functions; in `submit` behind the critical
-- section, before `cv.notify_one`; in the destructor behind its critical section, before
-- `cv.notify_all`; or behind that, in the joins.
pub data Owner : Type 0 where
  outside notifying stopping joining : Owner

pub record Pool : Type 0 where
  pub workers : List Worker
  pub task_queue : List ℕ
  pub stop : Bool
  pub owner : Owner

unfoldable pub make_pool : ℕ → Pool
make_pool num_threads = record {
  workers = replicate num_threads ready;
  task_queue = [];
  stop = false;
  owner = outside;
}

-- The critical section of `submit`.
unfoldable pub submit : Pool → ℕ → Pool
submit p client_fd = record p { task_queue = p.task_queue ++ client_fd ∷ []; owner = notifying }

-- `cv.notify_one` wakes a worker that sleeps, whichever it is.
unfoldable pub notify_one : Pool → ℕ → Pool
notify_one p i = record p { workers = set p.workers i ready; owner = outside }

-- If none sleeps, it has no effect.
abbrev pub notify_none : Pool → Pool
notify_none p = record p { owner = outside }

-- The critical section of a worker, and the task that it takes: with nothing to do it goes to sleep.
unfoldable pub take_task : Pool → ℕ → Bool → List ℕ → Pool × List ℕ
take_task p i stop (client_fd ∷ rest) =
    (record p { workers = set p.workers i (handling client_fd); task_queue = rest }, client_fd ∷ [])
take_task p i true [] = (record p { workers = set p.workers i gone }, [])
take_task p i false [] = (record p { workers = set p.workers i asleep }, [])

unfoldable pub wake : Pool → ℕ → Pool × List ℕ
unfolding take_task
wake p i = take_task p i p.stop p.task_queue

-- `handle_client` returns, and the loop goes on.
unfoldable pub finish : Pool → ℕ → Pool
finish p i = record p { workers = set p.workers i ready }

-- The critical section of the destructor.
unfoldable pub stop_workers : Pool → Pool
stop_workers p = record p { stop = true; owner = stopping }

abbrev pub rouse : Worker → Worker
rouse asleep = ready
rouse ready = ready
rouse (handling fd) = handling fd
rouse gone = gone

-- `cv.notify_all`.
unfoldable pub notify_all : Pool → Pool
notify_all p = record p { workers = map rouse p.workers; owner = joining }

-- A sum over the workers, and how many of them sleep.
abbrev pub total : (Worker → ℕ) → List Worker → ℕ
total f [] = 0
total f (w ∷ ws) = f w + total f ws

abbrev pub sleeps : Worker → ℕ
sleeps ready = 0
sleeps asleep = 1
sleeps (handling fd) = 0
sleeps gone = 0

-- A run of a pool with `n` workers: the tasks submitted, those taken and those handled, each in order,
-- and the pool. One thread owns the pool: it submits, notifies, and destroys the pool, one after
-- the other. A worker that sleeps may also wake without a notification.
pub data Run (n : ℕ) : List ℕ → List ℕ → List ℕ → Pool → Type 0 where
  starts : Run n [] [] [] (make_pool n)
  submits :
      {submitted taken done : List ℕ} {p : Pool} (fd : ℕ)
      → Run n submitted taken done p
      → p.owner ≡ outside
      → Run n (submitted ++ fd ∷ []) taken done (submit p fd)
  notifies :
      {submitted taken done : List ℕ} {p : Pool} (i : ℕ)
      → Run n submitted taken done p
      → p.owner ≡ notifying
      → get_elem? p.workers i ≡ some asleep
      → Run n submitted taken done (notify_one p i)
  notifies_none :
      {submitted taken done : List ℕ} {p : Pool}
      → Run n submitted taken done p
      → p.owner ≡ notifying
      → total sleeps p.workers ≡ 0
      → Run n submitted taken done (notify_none p)
  wakes :
      {submitted taken done : List ℕ} {p : Pool} (i : ℕ)
      → Run n submitted taken done p
      → get_elem? p.workers i ≡ some ready
      → Run n submitted (taken ++ (wake p i).1) done (wake p i).0
  wakes_spuriously :
      {submitted taken done : List ℕ} {p : Pool} (i : ℕ)
      → Run n submitted taken done p
      → get_elem? p.workers i ≡ some asleep
      → Run n submitted taken done (record p { workers = set p.workers i ready })
  finishes :
      {submitted taken done : List ℕ} {p : Pool} (i fd : ℕ)
      → Run n submitted taken done p
      → get_elem? p.workers i ≡ some (handling fd)
      → Run n submitted taken (done ++ fd ∷ []) (finish p i)
  stops :
      {submitted taken done : List ℕ} {p : Pool}
      → Run n submitted taken done p
      → p.owner ≡ outside
      → Run n submitted taken done (stop_workers p)
  notifies_all :
      {submitted taken done : List ℕ} {p : Pool}
      → Run n submitted taken done p
      → p.owner ≡ stopping
      → Run n submitted taken done (notify_all p)
