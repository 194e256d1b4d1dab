-- ===== src/Rooms.antt =====
-- The members of the rooms in one io loop of the gateway: `WsSession::SubscribeSession`, `joinRoom`,
-- `setRoomIndex` and `getRoom_index` of
-- server/src/services/Gateway/server/websocketSession.cc, and the close callback that
-- `wsServer::onUpgrade` of server/src/services/Gateway/server/wsServer.cc installs.
--
-- A session is named by a number, its address; `joined_rooms` holds the map `joinedRooms_` of every
-- session, so that two places that hold one session see one map. A task of a loop runs from end to
-- end; `Notice` lists the calls that it makes to GatewayPubSubManager, in order. A std::size_t that
-- becomes an int is below 2^31.
pub mod Swap
pub mod Index
pub mod Leave
pub mod Counts
pub mod Gateway
pub mod Once
use dpush.Base.{
  ℕ, ℤ_dec, ◌-◌, ℤ, pos, negsuc, ◌≡◌, List, [], ◌∷◌, ◌++◌, Option, none, some, Bool, true, false,
  ite, ℕ_discrete, Text, text_dec, update, if◌then◌else◌, length, set, get_elem?, take, ltb, ◌==◌,
  map,
}
use dpush.PubSub.Calls.{Call, subscribe, unsubscribe}

-- joinedRooms_: the entries in the order in which they are visited.
abbrev pub Joined : Type 0
Joined = List (Text × ℤ)

unfoldable pub index_of : Text → Joined → Option ℤ
index_of r [] = none
index_of r ((q, n) ∷ m) = ite (text_dec q r) (some n) (index_of r m)

unfoldable pub assign : Text → ℤ → Joined → Joined
assign r n [] = (r, n) ∷ []
assign r n ((q, k) ∷ m) = ite (text_dec q r) ((q, n) ∷ m) ((q, k) ∷ assign r n m)

-- WsSession::setRoomIndex
unfoldable pub set_room_index : Text → ℤ → Joined → Joined
set_room_index r n m = elim (index_of r m) [ none ↦ m | some _ ↦ assign r n m ]

-- WsSession::joinRoom
unfoldable pub join_room : Text → ℤ → Joined → Joined
join_room r n m = elim (index_of r m) [ none ↦ assign r n m | some _ ↦ m ]

-- LocalWebsockConnhash, LocalWebsockConnRoomhash, and the sessions of the loop.
pub record Loop : Type 0 where
  pub conns : ℤ → Option ℕ
  pub rooms : Text → Option (List ℕ)
  pub joined_rooms : ℕ → Joined

abbrev pub members : Loop → Text → List ℕ
members l r = elim (l.rooms r) [ none ↦ [] | some m ↦ m ]

abbrev pub joined_update : (ℕ → Joined) → ℕ → Joined → ℕ → Joined
joined_update = update ℕ_discrete

-- The task of SubscribeSession: the new state, and whether SubscribeRoomSafe is called.
unfoldable pub subscribe_session : ℕ → Text → Loop → Loop × List Call
subscribe_session session r l =
    let room = members l r in
    (
      record l {
        rooms = update text_dec l.rooms r (some (room ++ session ∷ []));
        joined_rooms =
            joined_update l.joined_rooms session
              (join_room r (pos (length room)) (l.joined_rooms session));
      },
      elim room [ [] ↦ subscribe r ∷ [] | _ ∷ _ ↦ [] ],
    )

-- conns.back(), conns.pop_back()
unfoldable pub back : List ℕ → Option ℕ
back [] = none
back (x ∷ []) = some x
back (x ∷ y ∷ ys) = back (y ∷ ys)

unfoldable pub pop_back : List ℕ → List ℕ
pop_back [] = []
pop_back (x ∷ []) = []
pop_back (x ∷ y ∷ ys) = x ∷ pop_back (y ∷ ys)

-- if(room_index >= 0 && room_index < conns.size()) { … }: the last member moves to the index, its
-- map is told so, and the leaver's index becomes -1.
unfoldable pub take_out : ℕ → Text → ℤ → List ℕ → (ℕ → Joined) → List ℕ × (ℕ → Joined)
take_out session r (negsuc n) room joined = (room, joined)
take_out session r (pos n) room joined = elim (back room) [
  | none ↦ (room, joined)
  | some last ↦
      if ltb n (length room)
      then (let moved = joined_update joined last (set_room_index r (pos n) (joined last)) in
          (
            pop_back (set room n last),
            joined_update moved session (set_room_index r (negsuc 0) (moved session)),
          ))
      else (room, joined)
]

-- The body of the loop over the joined rooms.
unfoldable pub leave_room : ℕ → Text → ℤ → Loop → Loop × List Call
leave_room session r index l = elim (l.rooms r) [
  | none ↦ (l, [])
  | some room ↦
      let (room', joined) = take_out session r index room l.joined_rooms in
      elim room' [
        | [] ↦ (
          record l { rooms = update text_dec l.rooms r none; joined_rooms = joined },
          unsubscribe r ∷ [],
        )
        | x ∷ xs ↦ (
          record l { rooms = update text_dec l.rooms r (some (x ∷ xs)); joined_rooms = joined },
          [],
        )
      ]
]

-- The loop over getjoinedRooms(). Its body changes values of the map and no keys, so the keys are
-- those at the start and the index is read when its turn comes.
unfoldable pub leave_rooms : ℕ → List Text → Loop → Loop × List Call
leave_rooms session [] l = (l, [])
leave_rooms session (r ∷ rs) l = elim (index_of r (l.joined_rooms session)) [
  | none ↦ leave_rooms session rs l
  | some index ↦
      let (l', calls) = leave_room session r index l in
      let (l'', more) = leave_rooms session rs l' in (l'', calls ++ more)
]

-- LocalWebsockConnhash loses the user if it holds this session.
unfoldable pub erase_conn : ℤ → ℕ → Loop → Loop
erase_conn userid session l =
    let own : Bool = elim (l.conns userid) [ none ↦ false | some other ↦ other == session ] in
    if own then record l { conns = update ℤ_dec l.conns userid none } else l

-- The task that the close callback runs in the session's loop.
unfoldable pub close_session : ℤ → ℕ → Loop → Loop × List Call
close_session userid session l =
    leave_rooms session (map (λ e. e.0) (l.joined_rooms session)) (erase_conn userid session l)
