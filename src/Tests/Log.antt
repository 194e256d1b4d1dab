-- ===== src/Tests/Log.antt =====
-- Two threads on a ring of two places, and two rounds of the thread that writes the log.
use dpush.Base.{
  ℕ, ◌+◌, ◌<◌, ◌≤◌, ◌≡◌, refl, List, [], ◌∷◌, ◌++◌, map, take, length, some, arith, ℕ_discrete,
}
use dpush.Log.Spsc.{
  Threads, Turn, producer_with, consumer_on, at_start, has_room, load_r_idx, has_element,
  load_w_idx, produce, consume, run,
}
use dpush.Log.Spsc.Fifo.{run-fifo}
use dpush.Log.Worker.{
  LogWorker, Entry, put_entry, put_entries, visit_rings, end_round, backend_round, register_thread,
}
use dpush.Log.Worker.Rounds.{bytes, fresh, write_round, write_round-stale}
use dpush.Log.Worker.Written.{turn_entries, round-first}

program : Unit {0}
unfolding ℕ_discrete has_room load_r_idx has_element load_w_idx produce consume run put_entry
    put_entries visit_rings end_round backend_round register_thread
program = tt

-- 5 is enqueued, 6 finds the ring full until 5 is out
abbrev turns : List (Turn ℕ)
turns =
    producer_with 5
    ∷ consumer_on
    ∷ producer_with 5
    ∷ producer_with 5
    ∷ producer_with 6
    ∷ consumer_on
    ∷ consumer_on
    ∷ producer_with 6
    ∷ consumer_on
    ∷ producer_with 6
    ∷ producer_with 6
    ∷ producer_with 6
    ∷ []

abbrev ran : Threads ℕ
ran = run 2 turns at_start

out : (ran.dequeued ≡ some 5 ∷ []) × (ran.enqueued ≡ 5 ∷ 6 ∷ [])
unfolding program
out = (refl, refl)

run-fifo_example :
    (ran.dequeued ≡ map some (take (length ran.dequeued) ran.enqueued))
    × ((length ran.dequeued ≤ length ran.enqueued)
        × (length ran.enqueued < length ran.dequeued + 2))
run-fifo_example = run-fifo 2 turns (omega arith)

abbrev two_rings : LogWorker
two_rings = record {
  rings = ((1 ∷ 2 ∷ []) ∷ []) ∷ ((3 ∷ []) ∷ (4 ∷ []) ∷ []) ∷ [];
  round_robin_idx = 1;
  backend = fresh;
}

-- a buffer of three bytes runs full
first_round : (backend_round 3 two_rings).backend.written ≡ 3 ∷ 4 ∷ 1 ∷ 2 ∷ []
unfolding program
first_round = refl

registered : (register_thread two_rings).rings ≡ two_rings.rings ++ [] ∷ []
unfolding program
registered = refl

round-first_example :
    (backend_round 3 two_rings).backend.written ≡ bytes (turn_entries two_rings 2 0)
round-first_example = round-first 3 two_rings (omega arith) refl

abbrev first_entries : List Entry
first_entries = (1 ∷ 2 ∷ []) ∷ []

abbrev more_entries : List Entry
more_entries = (3 ∷ []) ∷ []

-- 3 is never written, and 1 twice
written_twice :
    (write_round 9 more_entries (write_round 9 first_entries fresh)).written ≡ 1 ∷ 2 ∷ 1 ∷ []
unfolding program
written_twice = refl

write_round-stale_example :
    (write_round 9 more_entries (write_round 9 first_entries fresh)).written
    ≡ bytes first_entries ++ take 1 (bytes first_entries ++ bytes more_entries)
write_round-stale_example =
    write_round-stale 9 first_entries more_entries (omega arith) (omega arith) (omega arith)
