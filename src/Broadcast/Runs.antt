-- ===== src/Broadcast/Runs.antt =====
-- Over any events without a failure, every write of a ring stands in one place.
use dpush.Base.{
  ℕ, ◌-◌, take, min, zero, suc, ◌+◌, ℤ, ◌≡◌, refl, sym, ap, ◌∙◌, subst, List, [], ◌∷◌, ◌++◌, Option,
  Bool, true, Text, ltb, if◌then◌else◌, length, get_elem?, drop, count, arith, Bool-cases,
  Option-cases, inl, inr, List-cases,
}
use dpush.Broadcast.{
  prepared, unprepared, Cqe, BroadcastTask, Uring, set_write, get, submit, fill, start_write,
  send_targets, send_up_to, send_chunk, run_queued, broadcast_in_loop, existing, handle_cqes,
  init_pool, new_uring,
}
use dpush.Broadcast.Events.{
  Event, broadcasts, runs_queued, handles, frees, completes, completes_unprepared, complete, step,
  run, completed, places, sends, AllSent, failures, AllSucceed,
}
use dpush.Broadcast.Places.{
  one_if, writes_of-append, remove_at-count, completed-snoc, send_schedul-Adds, handle_cqes-left,
  handle_cqes-made,
}

pub AllSent-failures : (cqes : List Cqe) → AllSent cqes → failures cqes ≡ 0
unfolding failures
AllSent-failures [] all = refl
AllSent-failures (cqe ∷ cqes) all = ground (arith, all.0, AllSent-failures cqes all.1)

pub drop_all : (cqes : List Cqe) → drop (length cqes) cqes ≡ []
drop_all [] = refl
drop_all (cqe ∷ cqes) = drop_all cqes

module _ (q : ℕ) where
  -- Every write that was made stands in one place, and no completion is a failure.
  abbrev pub IsPlaced : Uring → Type 0
  IsPlaced u = (places q u ≡ (if ltb q u.made then 1 else 0)) × AllSent u.completions

  -- The same, for all but the write in hand.
  abbrev pub IsPlacedBut : ℕ → Uring → Type 0
  IsPlacedBut p u =
      (places q u + one_if p q ≡ (if ltb q u.made then 1 else 0)) × AllSent u.completions

  pub get-IsPlacedBut : (u : Uring) → IsPlaced u → IsPlacedBut (get u).0 (get u).1
  unfolding get
  get-IsPlacedBut u h = elim (List-cases u.free_list) [
    | inl e ↦ rw e (ground (arith, ap (count q) e), h.1)
    | inr (p, (ps, e)) ↦ rw e (ground (arith, ap (count q) e), h.1)
  ]

  pub start_write-IsPlaced :
      (connected : ℕ → Bool) (message : Text) (conn : ℕ) (u : Uring)
      → IsPlaced u
      → IsPlaced (start_write connected message conn (get u))
  start_write-IsPlaced connected message conn u h =
      let in_hand : IsPlacedBut (get u).0 (get u).1 = get-IsPlacedBut u h in
      let added = send_schedul-Adds q connected (get u).0 (
        set_write (get u).0 (fill connected message conn ((get u).1.writes (get u).0)) (get u).1) in
      (
        ground (arith, in_hand.0, added.placed, added.made),
        subst AllSent (sym added.completions) in_hand.1,
      )

  pub send_targets-IsPlaced :
      (connected : ℕ → Bool) (message : Text) (conns : List ℕ) (u : Uring)
      → IsPlaced u
      → IsPlaced (send_targets connected message conns u)
  unfolding send_targets
  send_targets-IsPlaced connected message [] u h = h
  send_targets-IsPlaced connected message (conn ∷ conns) u h =
      send_targets-IsPlaced connected message conns (start_write connected message conn (get u))
        (start_write-IsPlaced connected message conn u h)

  submit-IsPlaced : (u : Uring) → IsPlaced u → IsPlaced (submit u)
  unfolding submit
  submit-IsPlaced u h = (omega (arith, h.0, writes_of-append q u.submitted u.taken), h.1)

  -- A chunk's task goes to the end of the queue, which is no place of a write.
  send_chunk-IsPlaced :
      (connected : ℕ → Bool) (task : BroadcastTask) (u : Uring)
      → IsPlaced u
      → IsPlaced (send_chunk connected task u)
  unfolding send_chunk send_up_to
  send_chunk-IsPlaced connected task u h =
      let end_idx = min (task.current_size + 300) (length task.targets) in
      let chunk = take (end_idx - task.current_size) (drop task.current_size task.targets) in
      let u' = send_targets connected task.message chunk u in
      let sent = submit-IsPlaced u' (send_targets-IsPlaced connected task.message chunk u h) in
      elim (Bool-cases (ltb end_idx (length task.targets))) [
        | inl e ↦ rw e sent
        | inr e ↦ rw e sent
      ]

  run_queued-IsPlaced :
      (connected : ℕ → Bool) (u : Uring) → IsPlaced u → IsPlaced (run_queued connected u)
  unfolding run_queued
  run_queued-IsPlaced connected u h = elim (List-cases u.queued) [
    | inl e ↦ rw (e, run_queued) h
    | inr (task, (tasks, e)) ↦
        rw (e, run_queued) (send_chunk-IsPlaced connected task (record u { queued = tasks }) h)
  ]

  broadcast_in_loop-IsPlaced :
      (connected : ℕ → Bool) (conns : List (Option ℕ)) (message : Text) (u : Uring)
      → IsPlaced u
      → IsPlaced (broadcast_in_loop connected conns message u)
  unfolding broadcast_in_loop
  broadcast_in_loop-IsPlaced connected [] message u h = h
  broadcast_in_loop-IsPlaced connected (conn ∷ conns) message u h =
      send_chunk-IsPlaced connected
        (record { targets = existing (conn ∷ conns); message = message; current_size = 0 }) u h

  AllSent-snoc :
      (cqes : List Cqe) (p : ℕ) (res : ℤ)
      → AllSent cqes
      → sends res ≡ true
      → AllSent (cqes ++ record { write = p; res = res } ∷ [])
  AllSent-snoc [] p res all sent = (sent, tt)
  AllSent-snoc (cqe ∷ cqes) p res all sent = (all.0, AllSent-snoc cqes p res all.1 sent)

  complete-IsPlaced :
      (i : ℕ) (res : ℤ) (u : Uring) → sends res ≡ true → IsPlaced u → IsPlaced (complete i res u)
  unfolding complete
  complete-IsPlaced i res u sent h = elim (Option-cases (get_elem? u.submitted i)) [
    | inl e ↦ rw (e, complete) h
    | inr (unprepared, e) ↦ rw (e, complete) h
    | inr (prepared send, e) ↦
        rw (e, complete)
          (
            omega (
              arith,
              h.0,
              remove_at-count q i u.submitted send e,
              completed-snoc q u.completions (record { write = send.write; res = res }),
            ),
            AllSent-snoc u.completions send.write res h.1 sent,
          )
  ]

  handle_cqes-IsPlaced :
      (connected : ℕ → Bool) (u : Uring) → IsPlaced u → IsPlaced (handle_cqes connected u)
  handle_cqes-IsPlaced connected u h =
      let none_failed = AllSent-failures u.completions h.1 in
      let left : (handle_cqes connected u).completions ≡ [] =
        (handle_cqes-left connected u).0
        ∙ (ap (λ (n : ℕ). drop n u.completions) (omega (arith, none_failed))
            ∙ drop_all u.completions) in
      let same = (handle_cqes-left connected u).1 q in
      let nothing : count q (completed (handle_cqes connected u).completions) ≡ 0 =
        ap (λ l. count q (completed l)) left in
      (
        ground (arith, h.0, same, nothing, handle_cqes-made connected u),
        subst AllSent (sym left) tt,
      )

  pub step-IsPlaced :
      (e : Event) (es : List Event) (u : Uring)
      → AllSucceed (e ∷ es)
      → IsPlaced u
      → IsPlaced (step e u) × AllSucceed es
  unfolding step
  step-IsPlaced (broadcasts connected conns message) es u all h =
      (broadcast_in_loop-IsPlaced connected conns message u h, all)
  step-IsPlaced (runs_queued connected) es u all h = (run_queued-IsPlaced connected u h, all)
  step-IsPlaced (handles connected) es u all h = (handle_cqes-IsPlaced connected u h, all)
  step-IsPlaced (frees n) es u all h = (h, all)
  step-IsPlaced (completes_unprepared i p res) es u all h = absurd (cc all)
  step-IsPlaced (completes i res) es u all h = (complete-IsPlaced i res u all.0 h, all.1)

  run-IsPlaced : (es : List Event) (u : Uring) → AllSucceed es → IsPlaced u → IsPlaced (run es u)
  unfolding run
  run-IsPlaced [] u all h = h
  run-IsPlaced (e ∷ es) u all h =
      let next = step-IsPlaced e es u all h in run-IsPlaced es (step e u) next.1 next.0

  pub init_pool-count : (n : ℕ) → count q (init_pool n) ≡ (if ltb q n then 1 else 0)
  unfolding init_pool
  init_pool-count zero = ground arith
  init_pool-count (suc n) = ground (arith, init_pool-count n)

-- Over any events in which no completion is a failure and none is of an entry that was submitted without
-- being filled, of a loop whose pool and ring had any size, every PendingWrite that was made stands in exactly one place: the free list, an entry that was taken or
-- submitted, the backlog or a completion.
pub run-placed :
    (pool_size entries : ℕ) (es : List Event) (p : ℕ)
    → AllSucceed es
    → places p (run es (new_uring pool_size entries))
      ≡ (if ltb p (run es (new_uring pool_size entries)).made then 1 else 0)
run-placed pool_size entries es p all =
    (run-IsPlaced p es (new_uring pool_size entries) all
      (omega (arith, init_pool-count p pool_size), tt)).0
