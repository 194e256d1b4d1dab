-- ===== src/Delivery.antt =====
-- Messages to one user, over the io loops of a gateway: `GatewayGrpcServer::DosendSingleMsg` and
-- `SendSingleMsgAwaiter` of server/src/services/Gateway/server/grpcServer.cc, and what `wsServer::onUpgrade`
-- of wsServer.cc beside it and its close callback do to the map of users to loops,
-- `GatewayServer::user_Eventloop_` of GatewayServer.cc.
--
-- A session is a number, its user and its loop are those of the section. A call of sendSingleMsg reads the
-- map under its lock and queues a functor for the loop; onUpgrade and the close callback run in the loop
-- of the session, where runInLoop calls at once. Each of these is one step.
pub mod Owners
pub mod Messages
pub mod Served
pub mod Forgotten
use dpush.Base.{
  ℕ, ℤ, ℤ_dec, ℕ_discrete, List, [], ◌∷◌, ◌++◌, Option, none, some, Bool, Text, update,
  if◌then◌else◌,
}
use dpush.Rooms.{Loop, close_session}

-- The map of users to loops, the loops, their queued functors, and what was sent to which session.
pub record Delivery : Type 0 where
  pub user_event_loop : ℤ → Option ℕ
  pub loops : ℕ → Loop
  pub queued : ℕ → List (ℤ × Text)
  pub sent : List (ℕ × Text)

abbrev pub new_loop : Loop
new_loop = record { conns = λ u. none; rooms = λ r. none; joined_rooms = λ s. [] }

abbrev pub at_start : Delivery
at_start = record {
  user_event_loop = λ u. none;
  loops = λ i. new_loop;
  queued = λ i. [];
  sent = [];
}

abbrev pub set_loop : ℕ → Loop → Delivery → Delivery
set_loop i l d = record d { loops = update ℕ_discrete d.loops i l }

abbrev pub set_queue : ℕ → List (ℤ × Text) → Delivery → Delivery
set_queue i q d = record d { queued = update ℕ_discrete d.queued i q }

-- DosendSingleMsg; the answer is the same whether there is a loop or not.
unfoldable pub send_single_msg : ℤ → Text → Delivery → Delivery
send_single_msg user_id message d = elim (d.user_event_loop user_id) [
  | none ↦ d
  | some i ↦ set_queue i (d.queued i ++ (user_id, message) ∷ []) d
]

-- The functor of SendSingleMsgAwaiter
unfoldable pub send_to_user : ℕ → ℤ → Text → Delivery → Delivery
send_to_user i user_id message d = elim ((d.loops i).conns user_id) [
  | none ↦ d
  | some session ↦ record d { sent = d.sent ++ (session, message) ∷ [] }
]

-- The next functor of a loop.
unfoldable pub run_queued : ℕ → Delivery → Delivery
unfolding send_to_user
run_queued i d = elim (d.queued i) [
  | [] ↦ d
  | (user_id, message) ∷ q ↦ send_to_user i user_id message (set_queue i q d)
]

pub data Event : Type 0 where
  upgrades : ℕ → Event
  closes : ℕ → Event
  requests : ℤ → Text → Event
  runs : ℕ → Event

module _ (userid : ℕ → ℤ) (loop_of : ℕ → ℕ) where
  -- onUpgrade
  unfoldable pub on_upgrade : ℕ → Delivery → Delivery
  on_upgrade session d =
      let i = loop_of session in
      let l = d.loops i in
      set_loop i (record l { conns = update ℤ_dec l.conns (userid session) (some session) })
        (record d { user_event_loop = update ℤ_dec d.user_event_loop (userid session) (some i) })

  -- The close callback, of a session whose connection is up.
  unfoldable pub on_close : ℕ → Delivery → Delivery
  unfolding close_session
  on_close session d =
      let i = loop_of session in
      set_loop i (close_session (userid session) session (d.loops i)).0
        (record d { user_event_loop = update ℤ_dec d.user_event_loop (userid session) none })

  unfoldable pub step : Event → Delivery → Delivery
  unfolding on_upgrade on_close send_single_msg run_queued
  step (upgrades session) d = on_upgrade session d
  step (closes session) d = on_close session d
  step (requests user_id message) d = send_single_msg user_id message d
  step (runs i) d = run_queued i d

  unfoldable pub run : List Event → Delivery → Delivery
  unfolding step
  run [] d = d
  run (e ∷ es) d = run es (step e d)
