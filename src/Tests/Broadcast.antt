-- ===== src/Tests/Broadcast.antt =====
-- A room of three members in a loop whose ring has few entries.
use dpush.Base.{
  ℕ, ◌+◌, ◌-◌, ◌<◌, ◌≤◌, ◌^◌, pos, negsuc, ◌≡◌, refl, List, [], ◌∷◌, ◌++◌, Option, none, some, Bool,
  not, ◌==◌, ltb, codes, if◌then◌else◌, length, drop, map, count, arith, ℕ_discrete,
}
use dpush.Frame.{build_frame, length_field}
use dpush.PubSub.{channel_key, room_of_channel}
use dpush.Rooms.{Loop}
use dpush.Broadcast.{
  Uring, new_uring, init_pool, get, reset, release, submit, send_remain, send_of, send_schedul,
  send_targets, send_up_to, send_chunk, run_queued, existing, broadcast_in_loop, handle_cqe,
  for_each_cqe, flush_loop, flush_backlog, handle_cqes, on_published,
}
use dpush.Broadcast.Events.{
  Event, broadcasts, handles, frees, completes, complete, step, run, AllSucceed, places, completed,
  failures,
}
use dpush.Broadcast.Places.{handle_cqes-left}
use dpush.Broadcast.Runs.{run-placed}
use dpush.Broadcast.Starts.{deliveries, to_each}
use dpush.Broadcast.Chunks.{drain}
use dpush.Broadcast.Members.{on_published-members}

program : Unit {0}
unfolding ℕ_discrete length_field init_pool get reset release submit send_remain send_of
    send_schedul send_targets send_up_to send_chunk run_queued existing broadcast_in_loop handle_cqe
    for_each_cqe flush_loop flush_backlog handle_cqes on_published complete step run failures drain
    room_of_channel channel_key build_frame
program = tt

-- Connection 9 is down.
abbrev up : ℕ → Bool
up conn = not (conn == 9)

abbrev conns : List (Option ℕ)
conns = some 7 ∷ none ∷ some 9 ∷ some 8 ∷ []

abbrev halves : List Event
halves =
    broadcasts up conns (codes "ab") ∷ completes 1 (pos 2) ∷ completes 0 (pos 1) ∷ handles up ∷ []

-- One of the two writes is whole, and the other goes on with its second byte.
half_sent : (run halves (new_uring 3 2)).free_list ≡ 1 ∷ 0 ∷ []
unfolding program
half_sent = refl

-- The write of connection 8 waits in the backlog of a ring with one entry, and goes out later.
backlog_waits :
    ((run (broadcasts up conns (codes "ab") ∷ []) (new_uring 3 1)).backlog ≡ 1 ∷ [])
    × ((run
          (broadcasts up conns (codes "ab") ∷ frees 2 ∷ completes 0 (pos 2) ∷ handles up ∷ [])
          (new_uring 3 1)).backlog
        ≡ [])
unfolding program
backlog_waits = (refl, refl)

run-placed_example :
    places 2 (run halves (new_uring 3 2))
    ≡ (if ltb 2 (run halves (new_uring 3 2)).made then 1 else 0)
run-placed_example = run-placed 3 2 halves 2 (refl, (refl, tt))

-- The first write fails and the second is sent.
abbrev one_fails : Uring
one_fails =
    run (broadcasts up conns (codes "ab") ∷ completes 0 (negsuc 31) ∷ completes 0 (pos 2) ∷ [])
      (new_uring 3 2)

-- The completion that was sent is handled a second time, and its write is given back twice.
given_back_twice : (handle_cqes up (handle_cqes up one_fails)).free_list ≡ 1 ∷ 1 ∷ 2 ∷ 0 ∷ []
unfolding program
given_back_twice = refl

handle_cqes-left_example :
    ((handle_cqes up one_fails).completions
      ≡ drop (length one_fails.completions - failures one_fails.completions) one_fails.completions)
    × ((p : ℕ)
        → places p (handle_cqes up one_fails)
          ≡ places p one_fails + count p (completed (handle_cqes up one_fails).completions))
handle_cqes-left_example = handle_cqes-left up one_fails

abbrev lobby : Loop
lobby = record { conns = λ u. none; rooms = λ r. some (1 ∷ 2 ∷ 3 ∷ []); joined_rooms = λ s. [] }

abbrev conn_of : ℕ → Option ℕ
conn_of session = some (session + 6)

frame_short : length (build_frame (codes "hi") 2) < 2 ^ 64
unfolding program
frame_short = omega arith

-- Two writes have been used and given back before.
abbrev used : List Event
used =
    broadcasts up conns (codes "ab")
    ∷ completes 1 (pos 2)
    ∷ completes 0 (pos 2)
    ∷ handles up
    ∷ frees 4
    ∷ []

used-AllSucceed : AllSucceed used
used-AllSucceed = (refl, (refl, tt))

abbrev reused : Uring
reused = run used (new_uring 3 2)

nothing_taken : reused.taken ≡ []
unfolding program
nothing_taken = refl

nothing_queued : reused.queued ≡ []
unfolding program
nothing_queued = refl

enough_room : 3 ≤ reused.room
unfolding program
enough_room = omega arith

on_published-members_example :
    deliveries
      (drain up 0
        (on_published up conn_of (channel_key (codes "7")) (codes "hi") lobby reused)).submitted
    ≡ deliveries reused.submitted
      ++ to_each up (build_frame (codes "hi") 2) (existing (map conn_of (1 ∷ 2 ∷ 3 ∷ [])))
on_published-members_example =
    on_published-members up conn_of (codes "7") (codes "hi") lobby (1 ∷ 2 ∷ 3 ∷ []) reused 0 3 2
      used used-AllSucceed refl nothing_taken nothing_queued refl frame_short enough_room
      (omega arith)
