-- ===== src/Snowflake.antt =====
-- The ids of messages: `SnowflakeIdWorker` of server/src/base/utils/SnowflakeIdWorker.h.
--
-- A call takes the readings of the system clock that it makes, in order, in milliseconds since 1970;
-- it holds the worker's lock from end to end. The clock stands past the worker's epoch. An id is
-- the 64 bits of its int64_t, so those below 2 ^ 63 are not negative. The three fields of an id have no
-- bit in common, since a worker id is below 2 ^ 10 and a sequence number below 2 ^ 12, so `|` is written
-- as a sum.
pub mod Order
use dpush.Base.{
  ℕ, ◌+◌, ◌-◌, ◌*◌, ◌%◌, ◌^◌, List, [], ◌∷◌, Option, none, some, ltb, leb, ◌==◌, if◌then◌else◌,
}

-- twepoch_
abbrev pub epoch : ℕ
epoch = 1704067200000

pub record Worker : Type 0 where
  pub worker_id : ℕ
  pub sequence : ℕ
  -- none is the -1 that no clock shows
  pub last_timestamp : Option ℕ

-- SnowflakeIdWorker::SnowflakeIdWorker; `none` is its exception
unfoldable pub new_worker : ℕ → Option Worker
new_worker id =
    if leb id 1023
    then some (record { worker_id = id; sequence = 0; last_timestamp = none })
    else none

-- What a call does: an id, the exception of a clock that went back, or it still reads the clock.
pub data Issue : Type 0 where
  issued : ℕ → Worker → Issue
  clock_moved_backwards : Worker → Issue
  still_waiting : Issue

-- tilNextMillis
unfoldable pub til_next_millis : ℕ → List ℕ → Option ℕ
til_next_millis last [] = none
til_next_millis last (t ∷ ts) =
    let later = til_next_millis last ts in if leb t last then later else some t

unfoldable pub id_of : ℕ → ℕ → ℕ → ℕ
id_of timestamp worker_id sequence =
    (timestamp - epoch) * 2 ^ 22 % 2 ^ 64 + worker_id * 2 ^ 12 + sequence

-- lastTimestamp_ = timestamp, and the id
unfoldable pub issue : ℕ → ℕ → Worker → Issue
issue timestamp sequence w =
    issued (id_of timestamp w.worker_id sequence)
      (record w { sequence = sequence; last_timestamp = some timestamp })

-- nextId
unfoldable pub next_id : List ℕ → Worker → Issue
next_id [] w = still_waiting
next_id (timestamp ∷ readings) w = elim w.last_timestamp [
  | none ↦ issue timestamp 0 w
  | some last ↦
      if ltb timestamp last
      then clock_moved_backwards w
      else if last == timestamp
      then (if (w.sequence + 1) % 4096 == 0
          then elim (til_next_millis last readings) [
            | none ↦ still_waiting
            | some later ↦ issue later 0 w
          ]
          else issue timestamp ((w.sequence + 1) % 4096) w)
      else issue timestamp 0 w
]
