-- ===== src/Tests/TaskQueue.antt =====
-- Tasks of three keys on a pool of two threads.
use dpush.Base.{
  ℕ, ◌<◌, ◌≡◌, ◌≢◌, refl, List, [], ◌∷◌, ◌++◌, false, arith, length, replicate, ℕ_discrete,
}
use dpush.TaskQueue.{pushback, push_back, swap_queue, popfront, try_pop, cancel, ended, contents}
use dpush.TaskQueue.Ordered.{
  OrderedThreadPool, new_pool, Event, submits, turns, cancels, worker_loop, index_of, submit, step,
  run,
}
use dpush.TaskQueue.Order.{of_key, run-ordered}
use dpush.TaskQueue.Drained.{run-drained}

program : Unit {0}
unfolding ℕ_discrete pushback push_back swap_queue popfront try_pop cancel worker_loop submit step
    run
program = tt

abbrev hash : ℕ → ℕ
hash key = key

-- Key 4 goes to the first queue, 5 and 7 to the second.
abbrev events : List (Event ℕ ℕ)
events =
    submits 4 40
    ∷ submits 5 50
    ∷ turns 1
    ∷ submits 7 70
    ∷ submits 5 51
    ∷ turns 1
    ∷ turns 0
    ∷ turns 0
    ∷ cancels 1
    ∷ submits 5 52
    ∷ []

abbrev after : OrderedThreadPool (ℕ × ℕ)
after = run hash 2 events new_pool

begun_so_far :
    (after.begun 1 ≡ (5, 50) ∷ (7, 70) ∷ [])
    × (after.begun 0 ≡ (4, 40) ∷ [])
    × (contents (after.tasks_list 1) ≡ (5, 51) ∷ [])
unfolding program
begun_so_far = (refl, refl, refl)

run-ordered_example :
    (index_of hash 2 5 < 2)
    × ((of_key ℕ_discrete 5 after.submitted
          ≡ of_key ℕ_discrete 5 (after.begun (index_of hash 2 5))
            ++ of_key ℕ_discrete 5 (contents (after.tasks_list (index_of hash 2 5))))
        × ((j : ℕ) → index_of hash 2 5 ≢ j → of_key ℕ_discrete 5 (after.begun j) ≡ []))
run-ordered_example = run-ordered ℕ_discrete hash 2 events 5 (omega arith)

cancelled : (after.tasks_list 1).is_blocking ≡ false
unfolding program
cancelled = refl

run-drained_example :
    ((run hash 2 (replicate (length (contents (after.tasks_list 1))) (turns 1)) after).begun 1
      ≡ after.begun 1 ++ contents (after.tasks_list 1))
    × (popfront (
          (run hash 2
              (replicate (length (contents (after.tasks_list 1))) (turns 1))
              after).tasks_list
            1)
        ≡ ended)
run-drained_example = run-drained hash 2 1 after cancelled
