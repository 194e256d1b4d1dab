-- ===== src/TaskQueue/Ordered.antt =====
-- The pool with a queue for each thread, `OrderedThreadPool` of
-- server/src/base/concurrency/OrderedThreadPool.h. `submit` and the turns of `workerLoop` are steps, in any
-- order; a task that throws is caught, so what it does is left out.
use dpush.Base.{ℕ, ◌%◌, List, [], ◌∷◌, ◌++◌, Bool, true, false, ℕ_discrete, update}
use dpush.TaskQueue.{TaskQueue, Popped, waits, ended, popped, new_queue, pushback, popfront, cancel}

-- The queues, the tasks that were submitted and accepted, and those that each worker has begun; the
-- latter two are in order.
pub record OrderedThreadPool (T : Type 0) : Type 0 where
  pub tasks_list : ℕ → TaskQueue T
  pub submitted : List T
  pub begun : ℕ → List T

abbrev pub new_pool : {T : Type 0} → OrderedThreadPool T
new_pool = record { tasks_list = λ i. new_queue; submitted = []; begun = λ i. [] }

pub data Event (K A : Type 0) : Type 0 where
  submits : K → A → Event K A
  turns : ℕ → Event K A
  cancels : ℕ → Event K A

module _ {T : Type 0} where
  abbrev pub set_queue : ℕ → TaskQueue T → OrderedThreadPool T → OrderedThreadPool T
  set_queue i q p = record p { tasks_list = update ℕ_discrete p.tasks_list i q }

  -- What submit does with the answer of pushback: the future is given back in both cases.
  abbrev pub after_push : ℕ → T → Bool × TaskQueue T → OrderedThreadPool T → OrderedThreadPool T
  after_push i task (false, q) p = p
  after_push i task (true, q) p = record (set_queue i q p) { submitted = p.submitted ++ task ∷ [] }

  abbrev pub after_pop : ℕ → Popped T → OrderedThreadPool T → OrderedThreadPool T
  after_pop i waits p = p
  after_pop i ended p = p
  after_pop i (popped task q) p = record (set_queue i q p) {
    begun = update ℕ_discrete p.begun i (p.begun i ++ task ∷ []);
  }

  -- A turn of workerLoop: it waits, ends, or takes a task and calls it.
  unfoldable pub worker_loop : ℕ → OrderedThreadPool T → OrderedThreadPool T
  unfolding popfront
  worker_loop i p = after_pop i (popfront (p.tasks_list i)) p

module _ {K : Type 0} (hash : K → ℕ) (threadnum : ℕ) where
  abbrev pub index_of : K → ℕ
  index_of key = hash key % threadnum

module _ {K A : Type 0} (hash : K → ℕ) (threadnum : ℕ) where
  unfoldable pub submit : K → A → OrderedThreadPool (K × A) → OrderedThreadPool (K × A)
  unfolding pushback
  submit key task p =
      after_push (index_of hash threadnum key) (key, task)
        (pushback (key, task) (p.tasks_list (index_of hash threadnum key))) p

  unfoldable pub step : Event K A → OrderedThreadPool (K × A) → OrderedThreadPool (K × A)
  unfolding submit worker_loop cancel
  step (submits key task) p = submit key task p
  step (turns i) p = worker_loop i p
  step (cancels i) p = set_queue i (cancel (p.tasks_list i)) p

  unfoldable pub run : List (Event K A) → OrderedThreadPool (K × A) → OrderedThreadPool (K × A)
  unfolding step
  run [] p = p
  run (e ∷ es) p = run es (step e p)
