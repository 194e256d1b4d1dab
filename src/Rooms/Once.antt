-- ===== src/Rooms/Once.antt =====
-- The sessions of a loop that starts empty, over any tasks in which nobody joins a room again.
use dpush.Base.{ℕ, ℤ, ◌≡◌, ◌≢◌, ◌↔◌, List, [], ◌∷◌, none, Text}
use dpush.Rooms.{Loop, index_of, close_session}
use dpush.Rooms.Index.{IsIndexed, index_in, subscribe_session-IsIndexed}
use dpush.Rooms.Leave.{IsIn, close_session_lem}
use dpush.Rooms.Gateway.{Task, joins, closes, perform}

abbrev pub no_sessions : Loop
no_sessions = record { conns = λ u. none; rooms = λ r. none; joined_rooms = λ s. [] }

abbrev pub after_tasks : List Task → Loop → Loop
after_tasks [] l = l
after_tasks (task ∷ tasks) l = after_tasks tasks (perform task l).0

-- A session that joins a room has no entry for it in its map, as before its first join.
abbrev pub JoinOnce : List Task → Loop → Type 0
JoinOnce [] l = Unit {0}
JoinOnce (joins session r ∷ tasks) l =
    (index_in l session r ≡ none) × JoinOnce tasks (perform (joins session r) l).0
JoinOnce (closes userid session ∷ tasks) l = JoinOnce tasks (perform (closes userid session) l).0

after_tasks-IsIndexed :
    (tasks : List Task) (l : Loop)
    → JoinOnce tasks l
    → IsIndexed l
    → IsIndexed (after_tasks tasks l)
unfolding perform
after_tasks-IsIndexed [] l once h = h
after_tasks-IsIndexed (joins session r ∷ tasks) l once h =
    after_tasks-IsIndexed tasks (perform (joins session r) l).0 once.1
      (subscribe_session-IsIndexed session r l once.0 h)
after_tasks-IsIndexed (closes userid session ∷ tasks) l once h =
    after_tasks-IsIndexed tasks (perform (closes userid session) l).0 once
      (close_session_lem userid session l h).0

no_sessions-IsIndexed : IsIndexed no_sessions
unfolding index_of
no_sessions-IsIndexed = record { placed = λ r i s e. cc e; present = λ r i s e. cc e }

-- After any joins and closes of sessions in a loop that had none, in which no session joins a room for
-- which its map has an entry: when a session closes it stands in no room of the loop any more, every other
-- session stands in the rooms in which it stood, and the map of every session again names the places at
-- which it stands and no others.
pub close_session-after_tasks :
    (tasks : List Task) (userid : ℤ) (session : ℕ)
    → JoinOnce tasks no_sessions
    → IsIndexed (close_session userid session (after_tasks tasks no_sessions)).0
      × ((r : Text)
          → ¬ IsIn (close_session userid session (after_tasks tasks no_sessions)).0 session r)
      × ((s : ℕ) (r : Text)
          → session ≢ s
          → IsIn (close_session userid session (after_tasks tasks no_sessions)).0 s r
            ↔ IsIn (after_tasks tasks no_sessions) s r)
close_session-after_tasks tasks userid session once =
    close_session_lem userid session (after_tasks tasks no_sessions)
      (after_tasks-IsIndexed tasks no_sessions once no_sessions-IsIndexed)
