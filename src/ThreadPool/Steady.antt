-- ===== src/ThreadPool/Steady.antt =====
-- What holds of the queue and the workers after every step (bkk_uds_server/bkk_thread_pool.cpp).
use bkk_api.Common.{
  ℕ, ◌+◌, ◌≡◌, refl, sym, ap, ◌∙◌, Bool, true, false, some, List, [], ◌∷◌, ◌++◌, length, length-set,
  length-replicate, set, get_elem?, ◌⊎◌, inl, inr, arith,
}
use mathlib.Core.List.{append_assoc, append-nil}
use bkk_api.ThreadPool.Workers.{
  Worker, ready, asleep, handling, gone, Owner, outside, notifying, stopping, joining, Pool,
  make_pool, submit, notify_one, take_task, wake, finish, stop_workers, notify_all, total, Run,
  starts, submits, notifies, notifies_none, wakes, wakes_spuriously, finishes, stops, notifies_all,
}
use bkk_api.ThreadPool.Sums.{
  count, count-append, total-set, holds, ended, total-replicate_zero, total-map-rouse,
  length-map-rouse,
}

-- Has the destructor passed its critical section?
abbrev pub has_stopped : Owner → Bool
has_stopped outside = false
has_stopped notifying = false
has_stopped stopping = true
has_stopped joining = true

-- What holds of the pool after every step.
pub record IsSteady (n : ℕ) (fd : ℕ) (submitted taken done : List ℕ) (p : Pool) : Type 0 where
  pub size : length p.workers ≡ n
  pub in_order : submitted ≡ taken ++ p.task_queue
  pub kept : count fd taken ≡ count fd done + total (holds fd) p.workers
  pub flag : p.stop ≡ has_stopped p.owner
  pub leaves_last : (total ended p.workers ≡ 0) ⊎ ((p.stop ≡ true) × (p.task_queue ≡ []))

-- A worker goes from one place to another where it has no task and has not ended either.
moved-IsSteady :
    {n fd : ℕ} {submitted taken done : List ℕ} {p : Pool} (i : ℕ) (old new : Worker) (o : Owner)
    → IsSteady n fd submitted taken done p
    → get_elem? p.workers i ≡ some old
    → holds fd old ≡ holds fd new
    → ended old ≡ ended new
    → p.stop ≡ has_stopped o
    → IsSteady n fd submitted taken done (record p { workers = set p.workers i new; owner = o })
moved-IsSteady {fd = fd} {p = p} i old new o inv at same_hold same_end flag = record {
  size = length-set p.workers i new ∙ inv.size;
  in_order = inv.in_order;
  kept = omega (arith, inv.kept, same_hold, total-set (holds fd) p.workers i new at);
  flag = flag;
  leaves_last = elim inv.leaves_last [
    | inl none_left ↦ inl (omega (arith, none_left, same_end, total-set ended p.workers i new at))
    | inr last ↦ inr last
  ];
}

take_task-IsSteady :
    (n fd i : ℕ) (submitted taken done : List ℕ) (p : Pool) (stop : Bool) (queue : List ℕ)
    → p.stop ≡ stop
    → p.task_queue ≡ queue
    → IsSteady n fd submitted taken done p
    → get_elem? p.workers i ≡ some ready
    → IsSteady n fd submitted
        (taken ++ (take_task p i stop queue).1)
        done
        (take_task p i stop queue).0
unfolding take_task
take_task-IsSteady n fd i submitted taken done p stop (x ∷ rest) es eq inv at = record {
  size = length-set p.workers i (handling x) ∙ inv.size;
  in_order = inv.in_order ∙ ap (λ l. taken ++ l) eq ∙ sym (append_assoc taken (x ∷ []) rest);
  kept = omega (
    arith,
    inv.kept,
    count-append fd taken (x ∷ []),
    total-set (holds fd) p.workers i (handling x) at,
  );
  flag = inv.flag;
  leaves_last = elim inv.leaves_last [
    | inl none_left ↦ inl (omega (arith, none_left, total-set ended p.workers i (handling x) at))
    | inr (s, empty) ↦ cc
  ];
}
take_task-IsSteady n fd i submitted taken done p true [] es eq inv at = record {
  size = length-set p.workers i gone ∙ inv.size;
  in_order = rw (append-nil taken) inv.in_order;
  kept = rw (append-nil taken) (omega (arith, inv.kept, total-set (holds fd) p.workers i gone at));
  flag = inv.flag;
  leaves_last = inr (es, eq);
}
take_task-IsSteady n fd i submitted taken done p false [] es eq inv at =
    rw (append-nil taken) (moved-IsSteady i ready asleep p.owner inv at refl refl inv.flag)

pub Run-IsSteady :
    {n : ℕ} (fd : ℕ) {submitted taken done : List ℕ} {p : Pool}
    → Run n submitted taken done p
    → IsSteady n fd submitted taken done p
unfolding make_pool submit notify_one wake finish stop_workers notify_all
Run-IsSteady {n} fd starts = record {
  size = length-replicate n ready;
  in_order = refl;
  kept = omega (arith, total-replicate_zero (holds fd) n refl);
  flag = refl;
  leaves_last = inl (total-replicate_zero ended n refl);
}
Run-IsSteady fd (submits {taken = t} {p = p} x r o) =
    let inv = Run-IsSteady fd r in
    record {
      size = inv.size;
      in_order = ap (λ l. l ++ x ∷ []) inv.in_order ∙ append_assoc t p.task_queue (x ∷ []);
      kept = inv.kept;
      flag = inv.flag ∙ ap has_stopped o;
      leaves_last = elim inv.leaves_last [
        | inl none_left ↦ inl none_left
        | inr (stopped, empty) ↦ cc (sym stopped ∙ inv.flag ∙ ap has_stopped o)
      ];
    }
Run-IsSteady fd (notifies i r o at) =
    let inv = Run-IsSteady fd r in
    moved-IsSteady i asleep ready outside inv at refl refl (inv.flag ∙ ap has_stopped o)
Run-IsSteady fd (notifies_none r o z) =
    let inv = Run-IsSteady fd r in
    record {
      size = inv.size;
      in_order = inv.in_order;
      kept = inv.kept;
      flag = inv.flag ∙ ap has_stopped o;
      leaves_last = inv.leaves_last;
    }
Run-IsSteady {n} fd (wakes {submitted = s} {taken = t} {done = d} {p = p} i r at) =
    take_task-IsSteady n fd i s t d p p.stop p.task_queue refl refl (Run-IsSteady fd r) at
Run-IsSteady fd (wakes_spuriously {p = p} i r at) =
    let inv = Run-IsSteady fd r in moved-IsSteady i asleep ready p.owner inv at refl refl inv.flag
Run-IsSteady fd (finishes {done = d} {p = p} i x r at) =
    let inv = Run-IsSteady fd r in
    record {
      size = length-set p.workers i ready ∙ inv.size;
      in_order = inv.in_order;
      kept =
          omega (
            arith,
            inv.kept,
            count-append fd d (x ∷ []),
            total-set (holds fd) p.workers i ready at,
          );
      flag = inv.flag;
      leaves_last = elim inv.leaves_last [
        | inl none_left ↦ inl (omega (arith, none_left, total-set ended p.workers i ready at))
        | inr last ↦ inr last
      ];
    }
Run-IsSteady fd (stops {p = p} r o) =
    let inv = Run-IsSteady fd r in
    record {
      size = inv.size;
      in_order = inv.in_order;
      kept = inv.kept;
      flag = refl;
      leaves_last = elim inv.leaves_last [
        | inl none_left ↦ inl none_left
        | inr (stopped, empty) ↦ inr (refl, empty)
      ];
    }
Run-IsSteady fd (notifies_all {p = p} r o) =
    let inv = Run-IsSteady fd r in
    record {
      size = length-map-rouse p.workers ∙ inv.size;
      in_order = inv.in_order;
      kept = omega (arith, inv.kept, total-map-rouse (holds fd) p.workers refl);
      flag = inv.flag ∙ ap has_stopped o;
      leaves_last = elim inv.leaves_last [
        | inl none_left ↦ inl (total-map-rouse ended p.workers refl ∙ none_left)
        | inr last ↦ inr last
      ];
    }
