-- ===== src/TaskQueue.antt =====
-- The queues of two lists between threads: `Orderedblockqueue` of
-- server/src/base/concurrency/OrderedThreadPool.h, `blockqueue` of ComputeThreadPool.h beside it, and
-- `BlockQueue` of server/src/db/mysql/BlockQueue.h.
--
-- A call that changes `producer` holds its mutex, and `consumer` is touched by one thread at a time, so a
-- call is one step; `waits` is a call that goes on when another thread has pushed or cancelled.
pub mod Fifo
pub mod Drained
pub mod Ordered
pub mod Order
use dpush.Base.{◌≡◌, List, [], ◌∷◌, ◌++◌, Bool, true, false, if◌then◌else◌}

pub record TaskQueue (A : Type 0) : Type 0 where
  pub consumer : List A
  pub producer : List A
  pub is_blocking : Bool

-- What popfront answers: it waits, returns false, or returns true with the task.
pub data Popped (A : Type 0) : Type 0 where
  waits : Popped A
  ended : Popped A
  popped : A → TaskQueue A → Popped A

module _ {A : Type 0} where
  abbrev pub new_queue : TaskQueue A
  new_queue = record { consumer = []; producer = []; is_blocking = true }

  -- pushback, of the queues of the thread pools
  unfoldable pub pushback : A → TaskQueue A → Bool × TaskQueue A
  pushback task q =
      if q.is_blocking then (true, record q { producer = q.producer ++ task ∷ [] }) else (false, q)

  -- BlockQueue::push_back
  unfoldable pub push_back : A → TaskQueue A → TaskQueue A
  push_back task q = record q { producer = q.producer ++ task ∷ [] }

  -- SwapQueue, for an empty consumer, and the taking of the front.
  unfoldable pub swap_queue : TaskQueue A → Popped A
  swap_queue q = elim (q.producer) [
    | [] ↦ if q.is_blocking then waits else ended
    | task ∷ tasks ↦ popped task (record q { consumer = tasks; producer = [] })
  ]

  -- popfront, and pop_front of BlockQueue
  unfoldable pub popfront : TaskQueue A → Popped A
  unfolding swap_queue
  popfront q = elim (q.consumer) [
    | [] ↦ swap_queue q
    | task ∷ tasks ↦ popped task (record q { consumer = tasks })
  ]

  -- BlockQueue::try_pop, which does not wait
  unfoldable pub try_pop : TaskQueue A → Popped A
  try_pop q = elim (q.consumer) [
    | task ∷ tasks ↦ popped task (record q { consumer = tasks })
    | [] ↦ elim (q.producer) [
      | [] ↦ ended
      | task ∷ tasks ↦ popped task (record q { consumer = tasks; producer = [] })
    ]
  ]

  unfoldable pub cancel : TaskQueue A → TaskQueue A
  cancel q = record q { is_blocking = false }

  -- The tasks that stand in a queue, in order.
  abbrev pub contents : TaskQueue A → List A
  contents q = q.consumer ++ q.producer
