-- ===== src/Broadcast.antt =====
-- The sending of a room's message by an io loop, `ThreadLocalUring` and `PendingWritePool` of
-- server/src/services/Gateway/server/iouring.h, and the callback that starts it, from the constructor
-- of GatewayPubSubManager in server/src/services/Gateway/server/GatewayPubSubManager.cc.
--
-- A PendingWrite is numbered when it is made. The free list is written as a sequence, which the linked
-- list is while nothing is released twice. liburing is written by what its calls are documented to do:
-- `io_uring_get_sqe` gives an entry while there is room, the kernel sees an entry when it is submitted,
-- and an entry that was taken and not filled keeps what the slot held. A message has less than 2 ^ 64
-- bytes.
pub mod Events
pub mod Places
pub mod Runs
pub mod Reset
pub mod Starts
pub mod Chunks
pub mod Clean
pub mod Cleaned
pub mod Members
use dpush.Base.{
  ℕ, zero, suc, ◌+◌, ◌-◌, ◌%◌, ◌^◌, ℤ, pos, negsuc, List, [], ◌∷◌, ◌++◌, Option, none, some, Bool,
  true, false, ℕ_discrete, Text, update, ltb, leb, ◌==◌, if◌then◌else◌, length, take, drop, min,
  map,
}
use dpush.Frame.{build_frame}
use dpush.PubSub.{room_of_channel}
use dpush.Rooms.{Loop}

pub record PendingWrite : Type 0 where
  pub message : Option Text
  pub offset : ℕ
  pub conn : Option ℕ
  pub in_use : Bool

abbrev pub new_write : PendingWrite
new_write = record { message = none; offset = 0; conn = none; in_use = false }

-- What io_uring_prep_send is given: the connection, the place of the first byte in the message and the
-- number of bytes; and the write, from io_uring_sqe_set_data.
pub record Send : Type 0 where
  pub write : ℕ
  pub to : ℕ
  pub message : Text
  pub first : ℕ
  pub remain : ℕ

pub data Sqe : Type 0 where
  prepared : Send → Sqe
  unprepared : Sqe

pub record Cqe : Type 0 where
  pub write : ℕ
  pub res : ℤ

-- BroadcastTask; `current_size` counts the targets that are done.
pub record BroadcastTask : Type 0 where
  pub targets : List ℕ
  pub message : Text
  pub current_size : ℕ

-- One loop's ring, pool and queued tasks; `room` is the number of entries that can still be taken.
pub record Uring : Type 0 where
  pub free_list : List ℕ
  pub made : ℕ
  pub writes : ℕ → PendingWrite
  pub room : ℕ
  pub taken : List Sqe
  pub submitted : List Sqe
  pub completions : List Cqe
  pub backlog : List ℕ
  pub queued : List BroadcastTask

abbrev pub set_write : ℕ → PendingWrite → Uring → Uring
set_write p w u = record u { writes = update ℕ_discrete u.writes p w }

-- initPool
unfoldable pub init_pool : ℕ → List ℕ
init_pool zero = []
init_pool (suc n) = n ∷ init_pool n

abbrev pub new_uring : ℕ → ℕ → Uring
new_uring pool_size entries = record {
  free_list = init_pool pool_size;
  made = pool_size;
  writes = λ p. new_write;
  room = entries;
  taken = [];
  submitted = [];
  completions = [];
  backlog = [];
  queued = [];
}

unfoldable pub get : Uring → ℕ × Uring
get u = elim (u.free_list) [
  | [] ↦ (u.made, set_write u.made new_write (record u { made = u.made + 1 }))
  | p ∷ ps ↦ (p, record u { free_list = ps })
]

unfoldable pub reset : PendingWrite → PendingWrite
reset w = if w.in_use then new_write else w

unfoldable pub release : ℕ → Uring → Uring
unfolding reset
release p u = set_write p (reset (u.writes p)) (record u { free_list = p ∷ u.free_list })

unfoldable pub submit : Uring → Uring
submit u = record u { submitted = u.submitted ++ u.taken; taken = [] }

-- pw->data_->size() - pw->offset_, over size_t
abbrev pub remain_of : Text → PendingWrite → ℕ
remain_of message w = (length message + 2 ^ 64 - w.offset) % 2 ^ 64

-- Takes an entry, which `prepare` fills.
abbrev pub take_sqe : Sqe → ℕ → Uring → Uring
take_sqe sqe room u = record u { room = room; taken = u.taken ++ sqe ∷ [] }

-- The bytes that remain go to the connection, or the write waits in the backlog.
unfoldable pub send_remain : Send → Uring → Uring
unfolding submit
send_remain send u = elim (u.room) [
  | zero ↦ submit (record u { backlog = u.backlog ++ send.write ∷ [] })
  | suc room ↦ take_sqe (prepared send) room u
]

-- The sessions whose connection still exists.
unfoldable pub existing : List (Option ℕ) → List ℕ
existing [] = []
existing (none ∷ conns) = existing conns
existing (some conn ∷ conns) = conn ∷ existing conns

module _ (connected : ℕ → Bool) where
  -- What is left to be sent of a write that has a message and a connection that is up.
  unfoldable pub send_of : ℕ → PendingWrite → Option Send
  send_of p w = elim (w.message) [
    | none ↦ none
    | some message ↦ elim (w.conn) [
      | none ↦ none
      | some conn ↦
          if connected conn
          then some (record {
            write = p;
            to = conn;
            message = message;
            first = w.offset;
            remain = remain_of message w;
          })
          else none
    ]
  ]

  unfoldable pub send_schedul : ℕ → Uring → Uring
  unfolding send_of release send_remain
  send_schedul p u = elim (send_of p (u.writes p)) [
    | none ↦ release p u
    | some send ↦ if ltb 0 send.remain then send_remain send u else release p u
  ]

  abbrev pub fill : Text → ℕ → PendingWrite → PendingWrite
  fill message conn w = record w { message = some message; conn = some conn; in_use = true }

  -- The body of the loop of sendChunk, for a write that the pool gave.
  abbrev pub start_write : Text → ℕ → ℕ × Uring → Uring
  start_write message conn (p, u) = send_schedul p (set_write p (fill message conn (u.writes p)) u)

  unfoldable pub send_targets : Text → List ℕ → Uring → Uring
  unfolding get send_schedul
  send_targets message [] u = u
  send_targets message (conn ∷ conns) u =
      send_targets message conns (start_write message conn (get u))

  -- sendChunk, where `end_idx` is known.
  unfoldable pub send_up_to : ℕ → BroadcastTask → Uring → Uring
  unfolding send_targets submit
  send_up_to end_idx task u =
      let chunk = take (end_idx - task.current_size) (drop task.current_size task.targets) in
      let u' = submit (send_targets task.message chunk u) in
      if ltb end_idx (length task.targets)
      then record u' { queued = u'.queued ++ record task { current_size = end_idx } ∷ [] }
      else u'

  unfoldable pub send_chunk : BroadcastTask → Uring → Uring
  unfolding send_up_to
  send_chunk task u = send_up_to (min (task.current_size + 300) (length task.targets)) task u

  -- The loop's next functor.
  unfoldable pub run_queued : Uring → Uring
  unfolding send_chunk
  run_queued u = elim (u.queued) [
    | [] ↦ u
    | task ∷ tasks ↦ send_chunk task (record u { queued = tasks })
  ]

  unfoldable pub broadcast_in_loop : List (Option ℕ) → Text → Uring → Uring
  unfolding existing send_chunk
  broadcast_in_loop [] message u = u
  broadcast_in_loop (conn ∷ conns) message u =
      send_chunk (record { targets = existing (conn ∷ conns); message = message; current_size = 0 })
        u

  -- A completion that sent some bytes.
  abbrev pub advance : ℕ → ℕ → Uring → Uring
  advance p res u =
      let w = u.writes p in send_schedul p (set_write p (record w { offset = w.offset + res }) u)

  -- The body of io_uring_for_each_cqe, with what it adds to `count`.
  unfoldable pub handle_cqe : Cqe → Uring → ℕ × Uring
  unfolding release send_schedul
  handle_cqe cqe u = elim cqe.res [
    | negsuc n ↦ (0, release cqe.write u)
    | pos zero ↦ (0, release cqe.write u)
    | pos (suc n) ↦ (1, advance cqe.write (suc n) u)
  ]

  unfoldable pub for_each_cqe : List Cqe → Uring → ℕ × Uring
  unfolding handle_cqe
  for_each_cqe [] u = (0, u)
  for_each_cqe (cqe ∷ cqes) u =
      let (one, u') = handle_cqe cqe u in
      let (count, u'') = for_each_cqe cqes u' in (one + count, u'')

  -- The loop of flush_backlog, with `processed`. The entry is taken before the write is looked at.
  unfoldable pub flush_loop : List ℕ → Uring → ℕ × Uring
  unfolding send_of release
  flush_loop [] u = (0, record u { backlog = [] })
  flush_loop (p ∷ ps) u = elim (u.room) [
    | zero ↦ (0, record u { backlog = p ∷ ps })
    | suc room ↦ elim (send_of p (u.writes p)) [
      | none ↦ flush_loop ps (release p (take_sqe unprepared room u))
      | some send ↦
          let (processed, u') = flush_loop ps (take_sqe (prepared send) room u) in
          (processed + 1, u')
    ]
  ]

  unfoldable pub flush_backlog : Uring → Uring
  unfolding flush_loop submit
  flush_backlog u =
      let (processed, u') = flush_loop u.backlog u in if ltb 0 processed then submit u' else u'

  -- handleCqes: io_uring_cq_advance frees `count` completions from the front.
  unfoldable pub handle_cqes : Uring → Uring
  unfolding for_each_cqe flush_backlog
  handle_cqes u =
      let (count, u') = for_each_cqe u.completions u in
      flush_backlog (record u' { completions = drop count u'.completions })

  -- The callback of on_message, for one loop: `conn_of` is WsSession::conn.
  unfoldable pub on_published : (ℕ → Option ℕ) → Text → Text → Loop → Uring → Uring
  unfolding room_of_channel broadcast_in_loop
  on_published conn_of channel msg l u = elim (l.rooms (room_of_channel channel)) [
    | none ↦ u
    | some sessions ↦ broadcast_in_loop (map conn_of sessions) (build_frame msg 2) u
  ]
