-- ===== src/TaskQueue/Fifo.antt =====
-- A queue of two lists is one queue, in the order of the pushes.
use dpush.Base.{
  ◌≡◌, refl, sym, ap, ◌∙◌, ◌⊎◌, inl, inr, List, [], ◌∷◌, ◌++◌, false, append-nil, arith, List-cases,
}
use dpush.TaskQueue.{
  TaskQueue, Popped, waits, ended, popped, swap_queue, popfront, try_pop, contents,
}

module _ {A : Type 0} where
  pub Popped-cases :
      (r : Popped A)
      → (r ≡ waits) ⊎ ((r ≡ ended) ⊎ ((task : A) × ((q : TaskQueue A) × (r ≡ popped task q))))
  Popped-cases waits = inl refl
  Popped-cases ended = inr (inl refl)
  Popped-cases (popped task q) = inr (inr (task, (q, refl)))

  swap_queue-popped :
      (q : TaskQueue A) (task : A) (q' : TaskQueue A)
      → swap_queue q ≡ popped task q'
      → q.producer ≡ task ∷ contents q'
  unfolding swap_queue
  swap_queue-popped q task q' e = ground (arith, e, append-nil q'.consumer)

  -- What popfront takes is the first task.
  pub popfront-popped :
      (q : TaskQueue A) (task : A) (q' : TaskQueue A)
      → popfront q ≡ popped task q'
      → contents q ≡ task ∷ contents q'
  unfolding popfront swap_queue
  popfront-popped q task q' e = ground (arith, e, append-nil q'.consumer)

  try_pop-popped :
      (q : TaskQueue A) (task : A) (q' : TaskQueue A)
      → try_pop q ≡ popped task q'
      → contents q ≡ task ∷ contents q'
  unfolding try_pop
  try_pop-popped q task q' e = ground (arith, e, append-nil q'.consumer)

  append-eq_nil : (xs ys : List A) → xs ++ ys ≡ [] → (xs ≡ []) × (ys ≡ [])
  append-eq_nil [] ys e = (refl, e)
  append-eq_nil (x ∷ xs) ys e = cc e

  pub popfront-ended :
      (q : TaskQueue A) → contents q ≡ [] → q.is_blocking ≡ false → popfront q ≡ ended
  unfolding popfront swap_queue
  popfront-ended q e closed =
      let parts = append-eq_nil q.consumer q.producer e in ground (arith, parts.0, parts.1, closed)

  -- A queue with a task gives its first one at once.
  pub popfront-some :
      (q : TaskQueue A) (task : A) (tasks : List A)
      → contents q ≡ task ∷ tasks
      → (q' : TaskQueue A) × ((popfront q ≡ popped task q')
          × ((contents q' ≡ tasks) × (q'.is_blocking ≡ q.is_blocking)))
  unfolding popfront swap_queue
  popfront-some q task tasks e = elim (List-cases q.consumer) [
    | inl none_left ↦
        let front : q.producer ≡ task ∷ tasks = ap (λ c. c ++ q.producer) (sym none_left) ∙ e in
        (
          record { consumer = tasks; producer = []; is_blocking = q.is_blocking },
          (ground (arith, none_left, front), (append-nil tasks, refl)),
        )
    | inr (first, (others, there)) ↦
        let both : first ∷ (others ++ q.producer) ≡ task ∷ tasks =
          ap (λ c. c ++ q.producer) (sym there) ∙ e in
        (
          record { consumer = others; producer = q.producer; is_blocking = q.is_blocking },
          (ground (arith, there, both), (ground (arith, both), refl)),
        )
  ]
