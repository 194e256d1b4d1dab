-- ===== src/Broadcast/Cleaned.antt =====
-- The free list over the tasks of a loop and what the kernel does between them.
use dpush.Base.{
  ℕ, zero, suc, ◌+◌, ◌-◌, ◌<◌, ◌≤◌, ℤ, pos, negsuc, ◌≡◌, ◌≢◌, refl, ap, ◌∙◌, List, [], ◌∷◌, Option,
  Bool, Text, ltb, length, take, drop, count, arith, Bool-cases, Option-cases, List-cases,
  Nat-cases, inl, inr, ℕ_discrete, update_ne, min, get_elem?,
}
use dpush.Broadcast.{
  PendingWrite, prepared, unprepared, Cqe, BroadcastTask, Uring, set_write, new_write, get, release,
  submit, send_remain, send_of, send_schedul, fill, start_write, send_targets, send_up_to,
  send_chunk, run_queued, broadcast_in_loop, existing, handle_cqe, for_each_cqe, flush_loop,
  flush_backlog, handle_cqes, take_sqe, new_uring,
}
use dpush.Broadcast.Events.{
  Event, broadcasts, runs_queued, handles, frees, completes, completes_unprepared, complete, step,
  run, completed, AllSucceed,
}
use dpush.Broadcast.Places.{handle_cqe-Adds, for_each_cqe-Adds}
use dpush.Broadcast.Runs.{
  init_pool-count, IsPlaced, IsPlacedBut, get-IsPlacedBut, start_write-IsPlaced, step-IsPlaced,
}
use dpush.Broadcast.Reset.{AreReset}
use dpush.Broadcast.Clean.{
  IsClean, InHand, release-IsClean, send_schedul-IsClean, set_write-IsClean, handle_cqe-IsClean,
}

module _ (q : ℕ) where
  get-IsClean : (u : Uring) → IsClean q u → (get u).0 ≢ q → IsClean q (get u).1
  unfolding get
  get-IsClean u h = elim (List-cases u.free_list) [
    | inl e ↦
        rw (e, get)
          (λ other.
            let its = update_ne ℕ_discrete u.writes u.made q new_write other in
            record {
              free = λ there. absurd (ground (arith, e, there));
              used = λ none_there low.
                  ap (λ (w : PendingWrite). w.in_use) its
                  ∙ h.used (ap (count q) e) (omega (arith, low, other));
            })
    | inr (p, (ps, e)) ↦
        rw (e, get)
          (λ other. record {
            free = λ there. h.free (ground (arith, ap (count q) e, there));
            used = λ none_there low. h.used (ground (arith, ap (count q) e, none_there, other)) low;
          })
  ]

  start_write-IsClean :
      (connected : ℕ → Bool) (message : Text) (conn : ℕ) (u : Uring)
      → IsPlaced q u
      → IsClean q u
      → IsClean q (start_write connected message conn (get u))
  start_write-IsClean connected message conn u placed h =
      let p = (get u).0 in
      let u' = (get u).1 in
      let rest : IsPlacedBut q p u' = get-IsPlacedBut q u placed in
      let hand : InHand q p u' =
        λ same. (ground (arith, rest.0, same), ground (arith, rest.0, same)) in
      let w = fill connected message conn (u'.writes p) in
      send_schedul-IsClean q connected p (set_write p w u') hand
        (set_write-IsClean q p w u' hand (λ same. refl) (get-IsClean u h))

  send_targets-IsClean :
      (connected : ℕ → Bool) (message : Text) (conns : List ℕ) (u : Uring)
      → IsPlaced q u
      → IsClean q u
      → IsClean q (send_targets connected message conns u)
  unfolding send_targets
  send_targets-IsClean connected message [] u placed h = h
  send_targets-IsClean connected message (conn ∷ conns) u placed h =
      send_targets-IsClean connected message conns (start_write connected message conn (get u))
        (start_write-IsPlaced q connected message conn u placed)
        (start_write-IsClean connected message conn u placed h)

  send_chunk-IsClean :
      (connected : ℕ → Bool) (task : BroadcastTask) (u : Uring)
      → IsPlaced q u
      → IsClean q u
      → IsClean q (send_chunk connected task u)
  unfolding send_chunk send_up_to submit
  send_chunk-IsClean connected task u placed h =
      let end_idx = min (task.current_size + 300) (length task.targets) in
      let chunk = take (end_idx - task.current_size) (drop task.current_size task.targets) in
      let sent = send_targets-IsClean connected task.message chunk u placed h in
      elim (Bool-cases (ltb end_idx (length task.targets))) [
        | inl e ↦ rw e (record { free = sent.free; used = sent.used })
        | inr e ↦ rw e (record { free = sent.free; used = sent.used })
      ]

  run_queued-IsClean :
      (connected : ℕ → Bool) (u : Uring)
      → IsPlaced q u
      → IsClean q u
      → IsClean q (run_queued connected u)
  unfolding run_queued
  run_queued-IsClean connected u placed h = elim (List-cases u.queued) [
    | inl e ↦ rw (e, run_queued) h
    | inr (task, (tasks, e)) ↦
        rw (e, run_queued)
          (send_chunk-IsClean connected task (record u { queued = tasks }) placed
            (record { free = h.free; used = h.used }))
  ]

  broadcast_in_loop-IsClean :
      (connected : ℕ → Bool) (conns : List (Option ℕ)) (message : Text) (u : Uring)
      → IsPlaced q u
      → IsClean q u
      → IsClean q (broadcast_in_loop connected conns message u)
  unfolding broadcast_in_loop
  broadcast_in_loop-IsClean connected [] message u placed h = h
  broadcast_in_loop-IsClean connected (conn ∷ conns) message u placed h =
      send_chunk-IsClean connected
        (record { targets = existing (conn ∷ conns); message = message; current_size = 0 }) u placed
        h

  complete-IsClean : (i : ℕ) (res : ℤ) (u : Uring) → IsClean q u → IsClean q (complete i res u)
  unfolding complete
  complete-IsClean i res u h = elim (Option-cases (get_elem? u.submitted i)) [
    | inl e ↦ rw (e, complete) h
    | inr (unprepared, e) ↦ rw (e, complete) h
    | inr (prepared send, e) ↦ rw (e, complete) (record { free = h.free; used = h.used })
  ]

  released-made : (p : ℕ) (u : Uring) → (release p u).made ≡ u.made
  unfolding release
  released-made p u = refl

  -- What happens to another write leaves this one where it is.
  release-free : (p : ℕ) (u : Uring) → p ≢ q → count q (release p u).free_list ≡ count q u.free_list
  unfolding release
  release-free p u other = ground (arith, other)

  send_schedul-free :
      (connected : ℕ → Bool) (p : ℕ) (u : Uring)
      → p ≢ q
      → count q (send_schedul connected p u).free_list ≡ count q u.free_list
  unfolding send_schedul send_remain submit
  send_schedul-free connected p u other = elim (Option-cases (send_of connected p (u.writes p))) [
    | inl e ↦ rw (e, send_schedul) (release-free p u other)
    | inr (send, e) ↦ elim (Bool-cases (ltb 0 send.remain)) [
      | inr f ↦ rw (e, send_schedul, f) (release-free p u other)
      | inl f ↦ elim (Nat-cases u.room) [
        | inl g ↦ rw (e, send_schedul, f, send_remain, g) refl
        | inr (room, g) ↦ rw (e, send_schedul, f, send_remain, g) refl
      ]
    ]
  ]

  handle_cqe-free :
      (connected : ℕ → Bool) (p : ℕ) (res : ℤ) (u : Uring)
      → p ≢ q
      → count q (handle_cqe connected (record { write = p; res = res }) u).1.free_list
        ≡ count q u.free_list
  unfolding handle_cqe
  handle_cqe-free connected p (negsuc n) u other = release-free p u other
  handle_cqe-free connected p (pos zero) u other = release-free p u other
  handle_cqe-free connected p (pos (suc n)) u other =
      let w = u.writes p in
      send_schedul-free connected p (set_write p (record w { offset = w.offset + suc n }) u) other

  -- The write stands at most once in a list, and then in no free list.
  abbrev IsApart : List ℕ → Uring → Type 0
  IsApart ps u = (count q ps ≤ 1) × (0 < count q ps → (count q u.free_list ≡ 0) × (q < u.made))

  IsApart-head : (p : ℕ) (ps : List ℕ) (u : Uring) → IsApart (p ∷ ps) u → InHand q p u
  IsApart-head p ps u a same = a.1 (ground (arith, same))

  IsApart-tail :
      (p : ℕ) (ps : List ℕ) (u u' : Uring)
      → IsApart (p ∷ ps) u
      → (p ≢ q → count q u'.free_list ≡ count q u.free_list)
      → u'.made ≡ u.made
      → IsApart ps u'
  IsApart-tail p ps u u' a stays made =
      let once : count q ps ≤ 1 = omega (arith, a.0) in
      (
        once,
        λ there.
            let other : p ≢ q = λ same. ground (arith, a.0, there, same) in
            let (gone, low) = a.1 (omega (arith, there)) in
            (stays other ∙ gone, omega (arith, low, made)),
      )

  for_each_cqe-IsClean :
      (connected : ℕ → Bool) (cqes : List Cqe) (u : Uring)
      → IsApart (completed cqes) u
      → IsClean q u
      → IsClean q (for_each_cqe connected cqes u).1
  unfolding for_each_cqe
  for_each_cqe-IsClean connected [] u a h = h
  for_each_cqe-IsClean connected (cqe ∷ cqes) u a h =
      let p = cqe.write in
      let u' = (handle_cqe connected cqe u).1 in
      for_each_cqe-IsClean connected cqes u'
        (IsApart-tail p (completed cqes) u u' a (handle_cqe-free connected p cqe.res u)
          (handle_cqe-Adds q connected p cqe.res u).made)
        (handle_cqe-IsClean q connected p cqe.res u (IsApart-head p (completed cqes) u a) h)

  flush_loop-IsClean :
      (connected : ℕ → Bool) (ps : List ℕ) (u : Uring)
      → IsApart ps u
      → IsClean q u
      → IsClean q (flush_loop connected ps u).1
  unfolding flush_loop
  flush_loop-IsClean connected [] u a h = record { free = h.free; used = h.used }
  flush_loop-IsClean connected (p ∷ ps) u a h = elim (Nat-cases u.room) [
    | inl e ↦ rw (e, flush_loop) (record { free = h.free; used = h.used })
    | inr (room, e) ↦ elim (Option-cases (send_of connected p (u.writes p))) [
      | inl f ↦
          let u1 = take_sqe unprepared room u in
          rw (e, flush_loop, f)
            (flush_loop-IsClean connected ps (release p u1)
              (IsApart-tail p ps u (release p u1) a (release-free p u1) (released-made p u1))
              (release-IsClean q p u1 (IsApart-head p ps u a)
                (record { free = h.free; used = h.used })))
      | inr (send, f) ↦
          let u1 = take_sqe (prepared send) room u in
          rw (e, flush_loop, f)
            (flush_loop-IsClean connected ps u1 (IsApart-tail p ps u u1 a (λ other. refl) refl)
              (record { free = h.free; used = h.used }))
    ]
  ]

  handle_cqes-IsClean :
      (connected : ℕ → Bool) (u : Uring)
      → IsPlaced q u
      → IsClean q u
      → IsClean q (handle_cqes connected u)
  unfolding handle_cqes flush_backlog submit
  handle_cqes-IsClean connected u placed h =
      let done = for_each_cqe connected u.completions u in
      let all = for_each_cqe-Adds q connected u.completions u in
      let same : count q (completed done.1.completions) ≡ count q (completed u.completions) =
        ap (λ cqes. count q (completed cqes)) all.completions in
      let clean =
        for_each_cqe-IsClean connected u.completions u
          (
            ground (arith, placed.0),
            λ there. (ground (arith, placed.0, there), ground (arith, placed.0, there)),
          )
          h in
      let u' : Uring = record (done.1) { completions = drop done.0 done.1.completions } in
      let flushed =
        flush_loop-IsClean connected u'.backlog u'
          (
            ground (arith, placed.0, all.placed, same),
            λ there. (
              ground (arith, placed.0, all.placed, same, there),
              ground (arith, placed.0, all.placed, same, all.made, there),
            ),
          )
          (record { free = clean.free; used = clean.used }) in
      elim (Bool-cases (ltb 0 (flush_loop connected u'.backlog u').0)) [
        | inl e ↦ rw e (record { free = flushed.free; used = flushed.used })
        | inr e ↦ rw e flushed
      ]

  step-IsClean :
      (e : Event) (es : List Event) (u : Uring)
      → AllSucceed (e ∷ es)
      → IsPlaced q u
      → IsClean q u
      → IsClean q (step e u)
  unfolding step
  step-IsClean (broadcasts connected conns message) es u all placed h =
      broadcast_in_loop-IsClean connected conns message u placed h
  step-IsClean (runs_queued connected) es u all placed h = run_queued-IsClean connected u placed h
  step-IsClean (handles connected) es u all placed h = handle_cqes-IsClean connected u placed h
  step-IsClean (frees n) es u all placed h = record { free = h.free; used = h.used }
  step-IsClean (completes i res) es u all placed h = complete-IsClean i res u h
  step-IsClean (completes_unprepared i p res) es u all placed h = absurd (cc all)

  run-IsClean :
      (es : List Event) (u : Uring)
      → AllSucceed es
      → IsPlaced q u
      → IsClean q u
      → IsClean q (run es u)
  unfolding run
  run-IsClean [] u all placed h = h
  run-IsClean (e ∷ es) u all placed h =
      let next = step-IsPlaced q e es u all placed in
      run-IsClean es (step e u) next.1 next.0 (step-IsClean e es u all placed h)

-- In a ring that started new, what lies in the free list has been reset.
pub run-AreReset :
    (pool_size entries : ℕ) (es : List Event)
    → AllSucceed es
    → AreReset (run es (new_uring pool_size entries))
run-AreReset pool_size entries es all q there =
    let start = new_uring pool_size entries in
    let clean : IsClean q start = record {
      free = λ some_there. refl;
      used =
          λ none_there low. absurd (ground (arith, none_there, low, init_pool-count q pool_size));
    } in
    (run-IsClean q es start all (omega (arith, init_pool-count q pool_size), tt) clean).free there
