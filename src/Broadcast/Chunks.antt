-- ===== src/Broadcast/Chunks.antt =====
-- The chunks of a message, one functor of the loop after another.
use dpush.Base.{
  ℕ, zero, suc, ◌+◌, ◌-◌, ◌*◌, ◌^◌, ◌<◌, ◌≤◌, ◌≡◌, refl, sym, ap, ◌∙◌, dec_lt, List, [], ◌∷◌, ◌++◌,
  Bool, true, false, Text, ltb, length, take, drop, min, arith, append_assoc, take_all,
  take-append-drop, length-take, length-drop,
}
use dpush.Broadcast.{BroadcastTask, Uring, submit, send_targets, send_chunk, send_up_to, run_queued}
use dpush.Broadcast.Reset.{AreReset}
use dpush.Broadcast.Starts.{
  deliveries, deliveries-append, to_each, to_each-append, send_targets-Started,
}

drop-nil : {A : Type 0} (n : ℕ) → drop {A = A} n [] ≡ []
drop-nil zero = refl
drop-nil (suc n) = refl

drop-drop : {A : Type 0} (m n : ℕ) (xs : List A) → drop n (drop m xs) ≡ drop (m + n) xs
drop-drop zero n xs = ap (λ k. drop k xs) (omega arith)
drop-drop (suc m) n [] = drop-nil n ∙ sym (drop-nil (suc m + n))
drop-drop (suc m) n (x ∷ xs) =
    let one_more : suc (m + n) ≡ suc m + n = omega arith in
    drop-drop m n xs ∙ ap (λ (k : ℕ). drop k (x ∷ xs)) one_more

-- The loop runs its queued functors.
unfoldable pub drain : (ℕ → Bool) → ℕ → Uring → Uring
drain connected zero u = u
drain connected (suc k) u = drain connected k (run_queued connected u)

-- Nothing waits to be submitted or to be run.
pub record IsQuiet (u : Uring) : Type 0 where
  pub nothing_taken : u.taken ≡ []
  pub nothing_queued : u.queued ≡ []
  pub are_reset : AreReset u

module _ (connected : ℕ → Bool) (message : Text) (some_bytes : 0 < length message)
    (short : length message < 2 ^ 64) where
  chunk_submitted :
      (conns : List ℕ) (u : Uring)
      → length conns ≤ u.room
      → IsQuiet u
      → deliveries (submit (send_targets connected message conns u)).submitted
        ≡ deliveries u.submitted ++ to_each connected message conns
  unfolding submit
  chunk_submitted conns u room quiet =
      let u' = send_targets connected message conns u in
      let started =
        send_targets-Started connected message some_bytes short conns u room quiet.are_reset in
      let new : deliveries u'.taken ≡ to_each connected message conns =
        started.started
        ∙ ap (λ sqes. deliveries sqes ++ to_each connected message conns) quiet.nothing_taken in
      deliveries-append u'.submitted u'.taken
      ∙ (ap (λ sqes. deliveries sqes ++ deliveries u'.taken) started.submitted
          ∙ ap (λ l. deliveries u.submitted ++ l) new)

  run_queued-one :
      (task : BroadcastTask) (u : Uring)
      → u.queued ≡ task ∷ []
      → run_queued connected u ≡ send_chunk connected task (record u { queued = [] })
  unfolding run_queued
  run_queued-one task u e = rw (e, run_queued) refl

  unfoldable pub task_at : List ℕ → ℕ → BroadcastTask
  task_at targets current_size = record {
    targets = targets;
    message = message;
    current_size = current_size;
  }

  -- A task of one chunk.
  send_chunk-last :
      (targets : List ℕ) (c : ℕ) (u : Uring)
      → length targets ≤ c + 300
      → send_chunk connected (task_at targets c) u
        ≡ submit (send_targets connected message (drop c targets) u)
  unfolding send_chunk task_at
  send_chunk-last targets c u few =
      let end : min (c + 300) (length targets) ≡ length targets = omega (arith, few) in
      let no_more : ltb (length targets) (length targets) ≡ false = ground arith in
      ap (λ n. send_up_to connected n (task_at targets c) u) end
      ∙ rw (send_up_to, no_more)
          (ap (λ conns. submit (send_targets connected message conns u))
            (take_all (length targets - c) (drop c targets) (omega (arith, length-drop c targets))))

  -- The first chunk of a task, and the turn of its functor.
  send_chunk-more :
      (targets : List ℕ) (c : ℕ) (u : Uring)
      → c + 300 < length targets
      → IsQuiet u
      → length (take 300 (drop c targets)) ≤ u.room
      → run_queued connected (send_chunk connected (task_at targets c) u)
        ≡ send_chunk connected
            (task_at targets (c + 300))
            (record (submit (send_targets connected message (take 300 (drop c targets)) u)) {
              queued = [];
            })
  unfolding send_chunk task_at
  send_chunk-more targets c u many quiet room =
      let conns = take 300 (drop c targets) in
      let u' = submit (send_targets connected message conns u) in
      let end : min (c + 300) (length targets) ≡ c + 300 = omega (arith, many) in
      let more : ltb (c + 300) (length targets) ≡ true = ground (arith, many) in
      let size : c + 300 - c ≡ 300 = omega arith in
      let queue : (send_targets connected message conns u).queued ≡ [] =
        (send_targets-Started connected message some_bytes short conns u room
          quiet.are_reset).queued
        ∙ quiet.nothing_queued in
      let task = task_at targets (c + 300) in
      let first : send_chunk connected (task_at targets c) u
          ≡ record u' { queued = u'.queued ++ task ∷ [] } =
        ap (λ n. send_up_to connected n (task_at targets c) u) end
        ∙ rw (send_up_to, more, size) refl in
      ap (run_queued connected) first
      ∙ run_queued-one task (record u' { queued = u'.queued ++ task ∷ [] })
          (ap (λ tasks. tasks ++ task ∷ []) queue)

  pub drain-idle : (k : ℕ) (u : Uring) → u.queued ≡ [] → drain connected k u ≡ u
  unfolding drain run_queued
  drain-idle zero u e = refl
  drain-idle (suc k) u e =
      let idle : run_queued connected u ≡ u =
        rw (e, run_queued) (ap (λ tasks. record u { queued = tasks }) e) in
      ap (drain connected k) idle ∙ drain-idle k u e

  to_each-split :
      (n : ℕ) (conns : List ℕ)
      → to_each connected message (take n conns) ++ to_each connected message (drop n conns)
        ≡ to_each connected message conns
  to_each-split n conns =
      sym (to_each-append connected message (take n conns) (drop n conns))
      ∙ ap (to_each connected message) (take-append-drop n conns)

  -- The chunk before those of which `rest` speaks.
  next_chunk :
      (k : ℕ) (targets : List ℕ) (c : ℕ) (u : Uring)
      → c + 300 < length targets
      → length (drop c targets) ≤ u.room
      → IsQuiet u
      → ((v : Uring)
          → length (drop (c + 300) targets) ≤ v.room
          → IsQuiet v
          → deliveries
              (drain connected k (send_chunk connected (task_at targets (c + 300)) v)).submitted
            ≡ deliveries v.submitted ++ to_each connected message (drop (c + 300) targets))
      → deliveries
          (drain connected k
            (run_queued connected (send_chunk connected (task_at targets c) u))).submitted
        ≡ deliveries u.submitted ++ to_each connected message (drop c targets)
  unfolding submit
  next_chunk k targets c u many room quiet rest =
      let all = drop c targets in
      let conns = take 300 all in
      let sent = submit (send_targets connected message conns u) in
      let fits : length conns ≤ u.room = omega (arith, length-take 300 all, room) in
      let v = record sent { queued = [] } in
      let started =
        send_targets-Started connected message some_bytes short conns u fits quiet.are_reset in
      let left : length (drop (c + 300) targets) ≤ v.room = omega (
        arith,
        room,
        started.room_left,
        length-take 300 all,
        length-drop (c + 300) targets,
        length-drop c targets,
      ) in
      let is_quiet : IsQuiet v = record {
        nothing_taken = refl;
        nothing_queued = refl;
        are_reset = started.are_reset;
      } in
      ap (λ w. deliveries (drain connected k w).submitted)
        (send_chunk-more targets c u many quiet fits)
      ∙ (rest v left is_quiet
          ∙ (ap (λ l. l ++ to_each connected message (drop (c + 300) targets))
                (chunk_submitted conns u fits quiet)
              ∙ (append_assoc (deliveries u.submitted) (to_each connected message conns)
                    (to_each connected message (drop (c + 300) targets))
                  ∙ ap (λ l. deliveries u.submitted ++ l)
                      (ap (λ l. to_each connected message conns ++ to_each connected message l)
                          (sym (drop-drop c 300 targets))
                        ∙ to_each-split 300 all))))

  pub send_chunk-all :
      (k : ℕ) (targets : List ℕ) (c : ℕ) (u : Uring)
      → length targets ≤ c + 300 * suc k
      → length (drop c targets) ≤ u.room
      → IsQuiet u
      → deliveries (drain connected k (send_chunk connected (task_at targets c) u)).submitted
        ≡ deliveries u.submitted ++ to_each connected message (drop c targets)
  unfolding drain submit
  send_chunk-all zero targets c u enough room quiet = elim (dec_lt (c + 300) (length targets)) [
    | no few ↦
        let conns = drop c targets in
        let u' = submit (send_targets connected message conns u) in
        let idle : u'.queued ≡ [] =
          (send_targets-Started connected message some_bytes short conns u room
            quiet.are_reset).queued
          ∙ quiet.nothing_queued in
        ap (λ v. deliveries (drain connected zero v).submitted)
          (send_chunk-last targets c u (omega (arith, few)))
        ∙ (ap (λ v. deliveries v.submitted) (drain-idle zero u' idle)
            ∙ chunk_submitted conns u room quiet)
    | yes many ↦ absurd (omega (arith, many, enough))
  ]
  send_chunk-all (suc k) targets c u enough room quiet = elim (dec_lt (c + 300) (length targets)) [
    | no few ↦
        let conns = drop c targets in
        let u' = submit (send_targets connected message conns u) in
        let idle : u'.queued ≡ [] =
          (send_targets-Started connected message some_bytes short conns u room
            quiet.are_reset).queued
          ∙ quiet.nothing_queued in
        ap (λ v. deliveries (drain connected (suc k) v).submitted)
          (send_chunk-last targets c u (omega (arith, few)))
        ∙ (ap (λ v. deliveries v.submitted) (drain-idle (suc k) u' idle)
            ∙ chunk_submitted conns u room quiet)
    | yes many ↦ next_chunk k targets c u many room quiet (λ v left is_quiet.
        send_chunk-all k targets (c + 300) v (omega (arith, enough)) left is_quiet)
  ]
