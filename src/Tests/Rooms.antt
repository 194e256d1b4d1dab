-- ===== src/Tests/Rooms.antt =====
-- Two loops, three sessions and one room.
use dpush.Base.{
  ℕ, pos, ◌≡◌, ◌≢◌, refl, List, [], ◌∷◌, none, some, Bool, true, false, ite, arith, Text, text_dec,
  ◌&&◌, not, ◌↔◌, ℕ_discrete, incr, get_elem?, ℤ_dec, contains, decr,
}
use mathlib.Core.Option
use dpush.PubSub.{
  PubSub, channel_key, consume_round, no_fault, room_of_channel, subscribe_room_safe,
  unsubscribe_room_safe, take_pending,
}
use dpush.PubSub.Channels.{channel_key-injective}
use dpush.PubSub.Calls.{subscribe, run, room, wanted}
use dpush.PubSub.Flush.{IsSynced, subscribed-run}
use dpush.Rooms.{
  Loop, subscribe_session, close_session, members, leave_rooms, leave_room, take_out, back,
  pop_back, set_room_index, join_room, index_of, assign, erase_conn,
}
use dpush.Rooms.Gateway.{
  Gateway, Event, Task, runs, consumes, joins, closes, history, IsCounted, history-IsCounted,
  advance, perform,
}
use dpush.Rooms.Counts.{occupied, count_value}
use dpush.Rooms.Index.{IsIndexed}
use dpush.Rooms.Leave.{IsIn}
use dpush.Rooms.Once.{no_sessions, after_tasks, JoinOnce, close_session-after_tasks}
use dpush.Tests.Instances.{set_subscriber}

program : Unit {0}
unfolding subscribe_session close_session leave_rooms leave_room take_out back pop_back
    set_room_index join_room index_of assign erase_conn text_dec ℕ_discrete ℤ_dec incr decr contains
    subscribe_room_safe unsubscribe_room_safe run advance perform history occupied count_value
    take_pending
program = tt

abbrev lobby : Text
lobby = 108 ∷ 111 ∷ []

abbrev empty_loop : Loop
empty_loop = record { conns = λ u. none; rooms = λ r. none; joined_rooms = λ s. [] }

abbrev idle : PubSub
idle = record {
  global_room_ref_count = λ r. none;
  pending_sub_channels = [];
  pending_unsub_channels = [];
}

abbrev start : Gateway
start = record { loops = empty_loop ∷ empty_loop ∷ []; shared = idle }

abbrev events : List Event
events =
    runs 0 (joins 7 lobby)
    ∷ runs 0 (joins 8 lobby)
    ∷ consumes
    ∷ runs 1 (joins 9 lobby)
    ∷ runs 0 (closes (pos 1) 7)
    ∷ []

-- the first loop keeps session 8, at the place of session 7
members_after :
    Option.map (λ (l : Loop). members l lobby) (get_elem? (history events start).loops 0)
    ≡ some (8 ∷ [])
unfolding program
members_after = refl

-- both loops hold the room
count_after : (history events start).shared.global_room_ref_count lobby ≡ some (pos 2)
unfolding program
count_after = refl

start-IsCounted : IsCounted start
unfolding occupied count_value
start-IsCounted = record {
  tight = ((λ r e. cc e), ((λ r e. cc e), tt));
  positive = λ r. refl;
  counted = λ r. refl;
}

history-IsCounted_example : IsCounted (history events start)
history-IsCounted_example = history-IsCounted events start start-IsCounted

-- Session 8 leaves, before session 7 does.
abbrev tasks : List Task
tasks = joins 7 lobby ∷ joins 8 lobby ∷ joins 9 lobby ∷ closes (pos 2) 8 ∷ []

tasks-JoinOnce : JoinOnce tasks no_sessions
unfolding program
tasks-JoinOnce = (refl, (refl, (refl, tt)))

members_left : members (close_session (pos 1) 7 (after_tasks tasks no_sessions)).0 lobby ≡ 9 ∷ []
unfolding program
members_left = refl

close_session-after_tasks_example :
    IsIndexed (close_session (pos 1) 7 (after_tasks tasks no_sessions)).0
    × ((r : Text) → ¬ IsIn (close_session (pos 1) 7 (after_tasks tasks no_sessions)).0 7 r)
    × ((s : ℕ) (r : Text)
        → 7 ≢ s
        → IsIn (close_session (pos 1) 7 (after_tasks tasks no_sessions)).0 s r
          ↔ IsIn (after_tasks tasks no_sessions) s r)
close_session-after_tasks_example = close_session-after_tasks tasks (pos 1) 7 tasks-JoinOnce

its_room : room_of_channel (channel_key lobby) ≡ lobby
unfolding program room_of_channel
its_room = refl

abbrev one_room : PubSub
one_room = record idle { global_room_ref_count = λ r. ite (text_dec lobby r) (some (pos 1)) none }

abbrev its_channel : Text → Bool
its_channel c = ite (text_dec (channel_key lobby) c) true false

one_room-IsSynced : IsSynced set_subscriber one_room its_channel
one_room-IsSynced = record {
  no_sub = refl;
  no_unsub = refl;
  positive = λ r. ground arith;
  agrees = λ r. ground (arith, channel_key-injective lobby r);
}

subscribed-run_example :
    (consume_round set_subscriber no_fault (run (subscribe lobby ∷ []) one_room) its_channel).1
      (channel_key lobby)
    ≡ wanted (room (run (subscribe lobby ∷ []) one_room) lobby)
      && not (
          (room (run (subscribe lobby ∷ []) one_room) lobby).sub_pending
          && (room (run (subscribe lobby ∷ []) one_room) lobby).unsub_pending)
subscribed-run_example =
    subscribed-run set_subscriber (subscribe lobby ∷ []) one_room its_channel lobby
      one_room-IsSynced

lobby_once : one_room.global_room_ref_count lobby ≡ some (pos 1)
unfolding text_dec
lobby_once = refl
