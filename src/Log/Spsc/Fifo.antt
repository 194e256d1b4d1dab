-- ===== src/Log/Spsc/Fifo.antt =====
-- The ring of the log is a queue under every interleaving of its two threads.

use dpush.Base.{
  ℕ, suc, ◌+◌, ◌≤◌, ◌<◌, ◌≡◌, refl, List, [], ◌∷◌, Option, some, length, take, map, arith,
}
use dpush.Log.Spsc.{
  Ring, Producer, calls, constructs, publishes, Consumer, asks, takes, releases, Threads, Turn,
  producer_with, consumer_on, at_start, produce, consume, run,
}
use dpush.Log.Spsc.Invariant.{InOrder, IsFifo, threads, at_start-IsFifo, calls-IsFifo, asks-IsFifo}
use dpush.Log.Spsc.Steps.{constructs-IsFifo, publishes-IsFifo, takes-IsFifo, releases-IsFifo}

module _ {A : Type 0} (capacity : ℕ) where
  produce-IsFifo :
      (p : Producer A) (x : A) (ring : Ring A) (c : Consumer A) (enqueued : List A)
      (dequeued : List (Option A))
      → IsFifo capacity (threads ring p c enqueued dequeued)
      → IsFifo capacity (produce capacity p x (threads ring p c enqueued dequeued))
  produce-IsFifo calls x ring c enqueued dequeued h =
      calls-IsFifo capacity x ring c enqueued dequeued h
  produce-IsFifo (constructs y) x ring c enqueued dequeued h =
      constructs-IsFifo capacity y x ring c enqueued dequeued h
  produce-IsFifo (publishes y) x ring c enqueued dequeued h =
      publishes-IsFifo capacity y x ring c enqueued dequeued h

  consume-IsFifo :
      (c : Consumer A) (ring : Ring A) (p : Producer A) (enqueued : List A)
      (dequeued : List (Option A))
      → IsFifo capacity (threads ring p c enqueued dequeued)
      → IsFifo capacity (consume capacity c (threads ring p c enqueued dequeued))
  consume-IsFifo asks ring p enqueued dequeued h = asks-IsFifo capacity ring p enqueued dequeued h
  consume-IsFifo takes ring p enqueued dequeued h = takes-IsFifo capacity ring p enqueued dequeued h
  consume-IsFifo (releases v) ring p enqueued dequeued h =
      releases-IsFifo capacity v ring p enqueued dequeued h

  pub run-IsFifo :
      (turns : List (Turn A)) (t : Threads A)
      → IsFifo capacity t
      → IsFifo capacity (run capacity turns t)
  unfolding run
  run-IsFifo [] t h = h
  run-IsFifo (producer_with x ∷ turns) t h =
      run-IsFifo turns (produce capacity t.producer x t)
        (produce-IsFifo t.producer x t.ring t.consumer t.enqueued t.dequeued h)
  run-IsFifo (consumer_on ∷ turns) t h =
      run-IsFifo turns (consume capacity t.consumer t)
        (consume-IsFifo t.consumer t.ring t.producer t.enqueued t.dequeued h)

  tail-InOrder :
      (v : Option A) (dequeued : List (Option A)) (e : A) (enqueued : List A)
      → InOrder capacity (v ∷ dequeued) (e ∷ enqueued)
      → InOrder capacity dequeued enqueued
  tail-InOrder v dequeued e enqueued h k below = h (suc k) (omega (arith, below))

  InOrder-front :
      (dequeued : List (Option A)) (enqueued : List A)
      → length dequeued ≤ length enqueued
      → InOrder capacity dequeued enqueued
      → dequeued ≡ map some (take (length dequeued) enqueued)
  InOrder-front [] enqueued low h = refl
  InOrder-front (v ∷ dequeued) [] low h = absurd (omega (arith, low))
  InOrder-front (v ∷ dequeued) (e ∷ enqueued) low h =
      let rest =
        InOrder-front dequeued enqueued (omega (arith, low))
          (tail-InOrder v dequeued e enqueued h) in
      let head : some v ≡ some (some e) = h 0 (omega arith) in ground (arith, rest, head)

  -- Under every interleaving of the steps of the two threads on a ring with a capacity above 0,
  -- the calls of dequeue have returned exactly the first elements enqueued, each once, in the
  -- order of the calls of enqueue and never from a slot without an element, and fewer than the
  -- capacity stand in the ring.
  pub run-fifo :
      (turns : List (Turn A))
      → 0 < capacity
      → ((run capacity turns at_start).dequeued
          ≡ map some (
              take
                (length (run capacity turns at_start).dequeued)
                (run capacity turns at_start).enqueued))
        × ((length (run capacity turns at_start).dequeued
              ≤ length (run capacity turns at_start).enqueued)
            × (length (run capacity turns at_start).enqueued
                < length (run capacity turns at_start).dequeued + capacity))
  run-fifo turns some_room =
      let t : Threads A = run capacity turns at_start in
      let h : IsFifo capacity t = run-IsFifo turns at_start (at_start-IsFifo capacity some_room) in
      let low : length t.dequeued ≤ length t.enqueued = omega (arith, h.wc_above, h.wc_below) in
      (InOrder-front t.dequeued t.enqueued low h.in_order, (low, omega (arith, h.near, h.rc_below)))
