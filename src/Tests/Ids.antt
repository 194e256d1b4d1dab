-- ===== src/Tests/Ids.antt =====
-- Calls of an id generator within one millisecond, over a clock that goes back, and of two generators.
use dpush.Base.{ℕ, ◌+◌, ◌≡◌, ◌≢◌, refl, List, [], ◌∷◌, none, some, arith}
use dpush.Snowflake.{Worker, epoch, issued, next_id, new_worker, issue, id_of, til_next_millis}
use dpush.Snowflake.Order.{IsWorker, ids, IncreaseFrom, AllTimes, ids-IncreaseFrom, next_id-ne}

program : Unit {0}
unfolding next_id new_worker issue id_of til_next_millis
program = tt

abbrev one : Worker
one = record { worker_id = 1; sequence = 0; last_timestamp = none }

abbrev two : Worker
two = record { worker_id = 2; sequence = 0; last_timestamp = none }

abbrev full : Worker
full = record { worker_id = 1; sequence = 4095; last_timestamp = some (epoch + 5) }

made : new_worker 1 ≡ some one
unfolding program
made = refl

one-IsWorker : IsWorker one
one-IsWorker = record { worker_small = omega arith; sequence_small = omega arith; last_time = tt }

two-IsWorker : IsWorker two
two-IsWorker = record { worker_small = omega arith; sequence_small = omega arith; last_time = tt }

abbrev calls : List (List ℕ)
calls = ((epoch + 5) ∷ []) ∷ ((epoch + 5) ∷ []) ∷ ((epoch + 3) ∷ []) ∷ ((epoch + 6) ∷ []) ∷ []

calls-AllTimes : AllTimes calls
calls-AllTimes = (
  ((omega arith, omega arith), tt),
  (
    ((omega arith, omega arith), tt),
    (((omega arith, omega arith), tt), (((omega arith, omega arith), tt), tt)),
  ),
)

given : ids calls one ≡ 20975616 ∷ 20975617 ∷ 25169920 ∷ []
unfolding program
given = refl

ids-IncreaseFrom_example : IncreaseFrom 0 (ids calls one)
ids-IncreaseFrom_example = ids-IncreaseFrom calls one one-IsWorker calls-AllTimes

-- 2 ^ 42 milliseconds past the epoch the shift has lost the time.
repeated : id_of (epoch + 4398046511109) 1 0 ≡ id_of (epoch + 5) 1 0
unfolding program
repeated = refl

first_of_one :
    next_id ((epoch + 5) ∷ []) one
    ≡ issued 20975616 (record one { last_timestamp = some (epoch + 5) })
unfolding program
first_of_one = refl

first_of_two :
    next_id ((epoch + 5) ∷ []) two
    ≡ issued 20979712 (record two { last_timestamp = some (epoch + 5) })
unfolding program
first_of_two = refl

workers_differ : one.worker_id ≢ two.worker_id
workers_differ e = omega arith

next_id-ne_example : ◌≢◌ {A = ℕ} 20975616 20979712
next_id-ne_example =
    next_id-ne one two (record one { last_timestamp = some (epoch + 5) })
      (record two { last_timestamp = some (epoch + 5) }) ((epoch + 5) ∷ []) ((epoch + 5) ∷ [])
      20975616 20979712 one-IsWorker two-IsWorker ((omega arith, omega arith), tt)
      ((omega arith, omega arith), tt) workers_differ first_of_one first_of_two
