-- ===== src/TaskQueue/Order.antt =====
-- The order in which the pool begins the tasks of a key.
use dpush.Base.{
  ℕ, ◌<◌, ◌≡◌, ◌≢◌, refl, sym, ap, subst, ◌∙◌, List, [], ◌∷◌, ◌++◌, Bool, true, false, ite, if_pos,
  if_neg, ℕ_discrete, ◌==◌, if◌then◌else◌, update, update_self, update_ne, arith, append_assoc,
  Bool-cases, inl, inr, append-nil,
}
use dpush.TaskQueue.Fifo.{Popped-cases, popfront-popped}
use dpush.TaskQueue.{TaskQueue, pushback, popfront, cancel, contents}
use dpush.TaskQueue.Ordered.{
  OrderedThreadPool, new_pool, Event, submits, turns, cancels, set_queue, worker_loop, index_of,
  submit, step, run,
}

nothing_more : {T : Type 0} (b : Bool) (xs : List T) → xs ≡ xs ++ (if b then [] else [])
nothing_more true xs = sym (append-nil xs)
nothing_more false xs = sym (append-nil xs)

front_nil : {T : Type 0} (xs ys : List T) → [] ≡ xs ++ ys → xs ≡ []
front_nil [] ys e = refl
front_nil (x ∷ xs) ys e = cc e

module _ {K A : Type 0} (hash : K → ℕ) (threadnum : ℕ) where
  -- The tasks that go to one queue.
  abbrev of_index : ℕ → List (K × A) → List (K × A)
  of_index i [] = []
  of_index i ((key, task) ∷ tasks) =
      let rest = of_index i tasks in
      if index_of hash threadnum key == i then (key, task) ∷ rest else rest

  abbrev IsFifo : ℕ → OrderedThreadPool (K × A) → Type 0
  IsFifo i p = of_index i p.submitted ≡ p.begun i ++ contents (p.tasks_list i)

  of_index-snoc :
      (i : ℕ) (tasks : List (K × A)) (key : K) (task : A)
      → of_index i (tasks ++ (key, task) ∷ [])
        ≡ of_index i tasks ++ (if index_of hash threadnum key == i then (key, task) ∷ [] else [])
  of_index-snoc i [] key task = ground arith
  of_index-snoc i ((other, first) ∷ tasks) key task = ground (arith, of_index-snoc i tasks key task)

  -- A step at queue j, seen from queue i, by what it does to the two ends of the queue.
  moved-IsFifo :
      (i j : ℕ) (p : OrderedThreadPool (K × A)) (q : TaskQueue (K × A)) (now : List (K × A))
      (begun : ℕ → List (K × A)) (news : List (K × A))
      → of_index i now ≡ of_index i p.submitted ++ (if j == i then news else [])
      → begun j ++ contents q ≡ (p.begun j ++ contents (p.tasks_list j)) ++ news
      → ((k : ℕ) → j ≢ k → begun k ≡ p.begun k)
      → IsFifo i p
      → IsFifo i (record {
        tasks_list = update ℕ_discrete p.tasks_list j q;
        submitted = now;
        begun = begun;
      })
  moved-IsFifo i j p q now begun news into out others h = elim (ℕ_discrete j i) [
    | yes same ↦
        let here : (j == i) ≡ true = ground (arith, same) in
        let queue : update ℕ_discrete p.tasks_list j q i ≡ q =
          subst (λ k. update ℕ_discrete p.tasks_list j q k ≡ q) same
            (update_self ℕ_discrete p.tasks_list j q) in
        let end : begun i ++ contents q ≡ (p.begun i ++ contents (p.tasks_list i)) ++ news =
          subst (λ k. begun k ++ contents q ≡ (p.begun k ++ contents (p.tasks_list k)) ++ news) same
            out in
        into
        ∙ (ap (λ b. of_index i p.submitted ++ (if b then news else [])) here
            ∙ (ap (λ l. l ++ news) h
                ∙ (sym end ∙ ap (λ (r : TaskQueue (K × A)). begun i ++ contents r) (sym queue))))
    | no other ↦
        let here : (j == i) ≡ false = ground (arith, other) in
        let queue : update ℕ_discrete p.tasks_list j q i ≡ p.tasks_list i =
          update_ne ℕ_discrete p.tasks_list j i q other in
        into
        ∙ (ap (λ b. of_index i p.submitted ++ (if b then news else [])) here
            ∙ (append-nil (of_index i p.submitted)
                ∙ (h
                    ∙ (ap (λ l. l ++ contents (p.tasks_list i)) (sym (others i other))
                        ∙ ap (λ (r : TaskQueue (K × A)). begun i ++ contents r) (sym queue)))))
  ]

  submit-IsFifo :
      (i : ℕ) (key : K) (task : A) (p : OrderedThreadPool (K × A))
      → IsFifo i p
      → IsFifo i (submit hash threadnum key task p)
  unfolding submit pushback
  submit-IsFifo i key task p h =
      let j = index_of hash threadnum key in
      let q = p.tasks_list j in
      elim (Bool-cases q.is_blocking) [
        | inr e ↦ rw (e, submit) h
        | inl e ↦
            rw (e, submit)
              (moved-IsFifo i j p
                (record {
                  consumer = q.consumer;
                  producer = q.producer ++ (key, task) ∷ [];
                  is_blocking = true;
                })
                (p.submitted ++ (key, task) ∷ []) p.begun ((key, task) ∷ [])
                (of_index-snoc i p.submitted key task)
                (ap (λ l. p.begun j ++ l)
                    (sym (append_assoc q.consumer q.producer ((key, task) ∷ [])))
                  ∙ sym (append_assoc (p.begun j) (contents q) ((key, task) ∷ [])))
                (λ k other. refl) h)
      ]

  worker_loop-IsFifo :
      (i j : ℕ) (p : OrderedThreadPool (K × A)) → IsFifo i p → IsFifo i (worker_loop j p)
  unfolding worker_loop
  worker_loop-IsFifo i j p h = elim (Popped-cases (popfront (p.tasks_list j))) [
    | inl e ↦ rw (worker_loop, e) h
    | inr (inl e) ↦ rw (worker_loop, e) h
    | inr (inr (task, (q, e))) ↦
        rw (worker_loop, e)
          (moved-IsFifo i j p q p.submitted (update ℕ_discrete p.begun j (p.begun j ++ task ∷ []))
            [] (nothing_more (j == i) (of_index i p.submitted))
            (ap (λ l. l ++ contents q) (update_self ℕ_discrete p.begun j (p.begun j ++ task ∷ []))
              ∙ (append_assoc (p.begun j) (task ∷ []) (contents q)
                  ∙ (ap (λ l. p.begun j ++ l) (sym (popfront-popped (p.tasks_list j) task q e))
                      ∙ sym (append-nil (p.begun j ++ contents (p.tasks_list j))))))
            (λ k other. update_ne ℕ_discrete p.begun j k (p.begun j ++ task ∷ []) other) h)
  ]

  cancel-IsFifo :
      (i j : ℕ) (p : OrderedThreadPool (K × A))
      → IsFifo i p
      → IsFifo i (set_queue j (cancel (p.tasks_list j)) p)
  unfolding cancel
  cancel-IsFifo i j p h =
      moved-IsFifo i j p (cancel (p.tasks_list j)) p.submitted p.begun []
        (nothing_more (j == i) (of_index i p.submitted))
        (sym (append-nil (p.begun j ++ contents (p.tasks_list j)))) (λ k other. refl) h

  run-IsFifo :
      (i : ℕ) (es : List (Event K A)) (p : OrderedThreadPool (K × A))
      → IsFifo i p
      → IsFifo i (run hash threadnum es p)
  unfolding run step
  run-IsFifo i [] p h = h
  run-IsFifo i (submits key task ∷ es) p h =
      run-IsFifo i es (submit hash threadnum key task p) (submit-IsFifo i key task p h)
  run-IsFifo i (turns j ∷ es) p h = run-IsFifo i es (worker_loop j p) (worker_loop-IsFifo i j p h)
  run-IsFifo i (cancels j ∷ es) p h =
      run-IsFifo i es (set_queue j (cancel (p.tasks_list j)) p) (cancel-IsFifo i j p h)

module _ {K A : Type 0} (dec : Discrete K) where
  -- The tasks of one key.
  abbrev pub of_key : K → List (K × A) → List (K × A)
  of_key key [] = []
  of_key key ((other, task) ∷ tasks) =
      let rest = of_key key tasks in ite (dec other key) ((other, task) ∷ rest) rest

  of_key-append :
      (key : K) (xs ys : List (K × A)) → of_key key (xs ++ ys) ≡ of_key key xs ++ of_key key ys
  of_key-append key [] ys = refl
  of_key-append key ((other, task) ∷ xs) ys = elim (dec other key) [
    | yes same ↦
        rw (if_pos _ same, if_pos _ same) (ap (λ l. (other, task) ∷ l) (of_key-append key xs ys))
    | no differs ↦ rw (if_neg _ differs, if_neg _ differs) (of_key-append key xs ys)
  ]

  of_key-of_index :
      (hash : K → ℕ) (threadnum i : ℕ) (key : K) (tasks : List (K × A))
      → of_key key (of_index hash threadnum i tasks)
        ≡ (if index_of hash threadnum key == i then of_key key tasks else [])
  of_key-of_index hash threadnum i key [] = ground arith
  of_key-of_index hash threadnum i key ((other, task) ∷ tasks) =
      let rest = of_key-of_index hash threadnum i key tasks in
      elim (dec other key) [
        | yes same ↦ ground (arith, rest, same, ap (index_of hash threadnum) same)
        | no differs ↦ ground (arith, rest, differs)
      ]

  -- What queue i says of a key.
  key-IsFifo :
      (hash : K → ℕ) (threadnum i : ℕ) (es : List (Event K A)) (key : K)
      → (if index_of hash threadnum key == i
          then of_key key (run hash threadnum es new_pool).submitted
          else [])
        ≡ of_key key ((run hash threadnum es new_pool).begun i)
          ++ of_key key (contents ((run hash threadnum es new_pool).tasks_list i))
  key-IsFifo hash threadnum i es key =
      let p : OrderedThreadPool (K × A) = run hash threadnum es new_pool in
      sym (of_key-of_index hash threadnum i key p.submitted)
      ∙ (ap (of_key key) (run-IsFifo hash threadnum i es new_pool refl)
          ∙ of_key-append key (p.begun i) (contents (p.tasks_list i)))

  -- Over any calls of submit, turns of the workers and cancels, in any order, and for every key: its
  -- tasks go to one queue of the pool, whose worker has begun the first of those that were accepted, in
  -- the order in which they were submitted, while the others stand in the queue in that order; no
  -- other worker has begun a task of the key.
  pub run-ordered :
      (hash : K → ℕ) (threadnum : ℕ) (es : List (Event K A)) (key : K)
      → 0 < threadnum
      → (index_of hash threadnum key < threadnum)
        × ((of_key key (run hash threadnum es new_pool).submitted
              ≡ of_key key ((run hash threadnum es new_pool).begun (index_of hash threadnum key))
                ++ of_key key (
                    contents
                      ((run hash threadnum es new_pool).tasks_list (index_of hash threadnum key))))
            × ((j : ℕ)
                → index_of hash threadnum key ≢ j
                → of_key key ((run hash threadnum es new_pool).begun j) ≡ []))
  run-ordered hash threadnum es key some_thread =
      let i = index_of hash threadnum key in
      let same : (i == i) ≡ true = ground arith in
      let keys = of_key key (run hash threadnum es new_pool).submitted in
      (
        grind arith,
        (
          sym (ap (λ b. if b then keys else []) same) ∙ key-IsFifo hash threadnum i es key,
          λ j other.
              let differs : (i == j) ≡ false = ground (arith, other) in
              front_nil (of_key key ((run hash threadnum es new_pool).begun j))
                (of_key key (contents ((run hash threadnum es new_pool).tasks_list j)))
                (sym (ap (λ b. if b then keys else []) differs)
                  ∙ key-IsFifo hash threadnum j es key),
        ),
      )
