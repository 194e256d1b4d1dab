-- ===== src/TaskQueue/Drained.antt =====
-- What becomes of the tasks of a queue when the pool is destroyed.
use dpush.Base.{
  ℕ, ◌≡◌, refl, sym, ap, ◌∙◌, List, [], ◌∷◌, ◌++◌, false, length, replicate, update, update_self,
  ℕ_discrete, append-nil, append_assoc, subst,
}
use dpush.TaskQueue.{TaskQueue, ended, popped, popfront, contents}
use dpush.TaskQueue.Fifo.{popfront-ended, popfront-some}
use dpush.TaskQueue.Ordered.{OrderedThreadPool, turns, after_pop, worker_loop, step, run}

worker_loop-popped :
    {T : Type 0} (i : ℕ) (p : OrderedThreadPool T) (task : T) (q : TaskQueue T)
    → popfront (p.tasks_list i) ≡ popped task q
    → worker_loop i p ≡ after_pop i (popped task q) p
unfolding worker_loop
worker_loop-popped i p task q e = ap (λ r. after_pop i r p) e

module _ {K A : Type 0} (hash : K → ℕ) (threadnum i : ℕ) where
  all_begun :
      (tasks : List (K × A)) (p : OrderedThreadPool (K × A))
      → contents (p.tasks_list i) ≡ tasks
      → (p.tasks_list i).is_blocking ≡ false
      → ((run hash threadnum (replicate (length tasks) (turns i)) p).begun i ≡ p.begun i ++ tasks)
        × (popfront ((run hash threadnum (replicate (length tasks) (turns i)) p).tasks_list i)
            ≡ ended)
  unfolding run step
  all_begun [] p e closed = (sym (append-nil (p.begun i)), popfront-ended (p.tasks_list i) e closed)
  all_begun (task ∷ tasks) p e closed =
      let (q, (taken, (left, same))) = popfront-some (p.tasks_list i) task tasks e in
      let p' = after_pop i (popped task q) p in
      let queue : update ℕ_discrete p.tasks_list i q i ≡ q =
        update_self ℕ_discrete p.tasks_list i q in
      let rest =
        all_begun tasks p' (ap contents queue ∙ left)
          (ap (λ (r : TaskQueue (K × A)). r.is_blocking) queue ∙ (same ∙ closed)) in
      subst
        (λ v.
          ((run hash threadnum (replicate (length tasks) (turns i)) v).begun i
            ≡ p.begun i ++ task ∷ tasks)
          × (popfront ((run hash threadnum (replicate (length tasks) (turns i)) v).tasks_list i)
              ≡ ended))
        (sym (worker_loop-popped i p task q taken))
        (
          rest.0
              ∙ (ap (λ l. l ++ tasks) (update_self ℕ_discrete p.begun i (p.begun i ++ task ∷ []))
                  ∙ append_assoc (p.begun i) (task ∷ []) tasks),
          rest.1,
        )

  -- Once the queue of a worker has been cancelled, as the destructor of the pool does, the worker begins
  -- every task that stands in it, in order, in as many turns as there are tasks, without waiting, and its
  -- next call of popfront returns false, which ends its loop.
  pub run-drained :
      (p : OrderedThreadPool (K × A))
      → (p.tasks_list i).is_blocking ≡ false
      → ((run hash threadnum (replicate (length (contents (p.tasks_list i))) (turns i)) p).begun i
          ≡ p.begun i ++ contents (p.tasks_list i))
        × (popfront (
              (run hash threadnum
                  (replicate (length (contents (p.tasks_list i))) (turns i))
                  p).tasks_list
                i)
            ≡ ended)
  run-drained p closed = all_begun (contents (p.tasks_list i)) p refl closed
