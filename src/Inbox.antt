-- ===== src/Inbox.antt =====
-- The messages of a client on their way out of the gateway: `wsServer::dispatchEvent` of
-- server/src/services/Gateway/server/wsServer.cc, the callbacks of its calls, and the Kafka producer of
-- producer.cc beside it with the acknowledgements that its delivery reports make.
--
-- What a flatbuffer holds is `payload_of`, since its reader is generated; the frames of acknowledgements
-- and pongs are named by what they are about. `accepts` says whether librdkafka takes a message.
pub mod Sent
pub mod Acks
use dpush.Base.{
  ℕ, zero, suc, ◌^◌, ℤ, pos, negsuc, List, [], ◌∷◌, ◌++◌, Option, none, some, Bool, true, false,
  Text, codes, c_str, skip_spaces, text_eq, length, get_elem?, update, ℕ_discrete, leb, ◌==◌,
  if◌then◌else◌,
}
use dpush.Http.Context.{digits_value}
use dpush.Frame.{build_frame}
use dpush.Chat.Keys.{ChatType, kafka_key}

-- The payloads that the switch names, with the fields that are read.
pub data Payload : Type 0 where
  client_message : Text → ChatType → Text → Payload
  request_room_history : Payload
  pull_missing_message : Payload
  batch_pull_message : ℕ → Payload
  signaling_from_client : Text → Text → Payload
  signaling_from_client_join : Text → Text → Text → Payload
  ping : ℤ → Payload
  other : Payload

-- KafkaDeliveryContext
pub record Context : Type 0 where
  pub conn : ℕ
  pub msg_id : Text

-- The arguments of a call of produce; the key is what stands before its first zero.
pub record Produced : Type 0 where
  pub data_ : Text
  pub key : Text
  pub key_len : ℕ
  pub userid : ℤ
  pub username : Text
  pub ctx : Context

pub record Session : Type 0 where
  pub conn : ℕ
  pub userid : ℤ
  pub username : Text

-- The calls of other services, with what their callbacks need.
pub data Request : Type 0 where
  client_message_async : Text → Request
  bath_pull_message_async : Text → Request
  is_sub_session_async : Text → Request
  pull_message_async : ℤ → Text → Text → Request

pub data Action : Type 0 where
  sends : Text → Action
  produces : Produced → Action
  asks : Request → Action
  subscribes : Text → Action
  on_message_ping : ℤ → Action

-- How a message leaves the loop: to the next one, by return, or by an exception of std::stol.
pub data Next : Type 0 where
  goes_on returns throws : Next

-- std::stol; none where it throws.
unfoldable pub stol_digits : Bool → Text → Option ℤ
stol_digits negative xs =
    let (n, digits) = digits_value 0 0 xs in
    if digits == 0
    then none
    else if negative
    then (if leb n (2 ^ 63) then some (elim n [ zero ↦ pos zero | suc k ↦ negsuc k ]) else none)
    else if leb (2 ^ 63) n
    then none
    else some (pos n)

unfoldable pub stol_sign : Text → Option ℤ
stol_sign [] = none
stol_sign (x ∷ xs) =
    if x == b'-'
    then stol_digits true xs
    else if x == b'+'
    then stol_digits false xs
    else stol_digits false (x ∷ xs)

unfoldable pub stol : Text → Option ℤ
stol xs = stol_sign (skip_spaces xs)

-- A client's message, for the producer.
abbrev pub produced : Session → Text → Text → Text → Produced
produced session message client_message_id key = record {
  data_ = message;
  key = c_str key;
  key_len = length key;
  userid = session.userid;
  username = session.username;
  ctx = record { conn = session.conn; msg_id = c_str client_message_id };
}

-- The switch of dispatchEvent
unfoldable pub on_payload : Session → Text → Payload → List Action × Next
unfolding kafka_key text_eq stol
on_payload session message (client_message target_id chat_type client_message_id) =
    elim (kafka_key chat_type target_id session.userid) [
      | none ↦ ([], returns)
      | some key ↦ (produces (produced session message client_message_id key) ∷ [], goes_on)
    ]
on_payload session message request_room_history =
    (asks (client_message_async message) ∷ [], goes_on)
on_payload session message pull_missing_message =
    (asks (client_message_async message) ∷ [], goes_on)
on_payload session message (batch_pull_message rooms) =
    if rooms == 0
    then (sends (build_frame [] 2) ∷ [], goes_on)
    else (asks (bath_pull_message_async message) ∷ [], goes_on)
on_payload session message (signaling_from_client action room_id) =
    if text_eq action (codes "subscribe_room")
    then (asks (is_sub_session_async room_id) ∷ [], goes_on)
    else ([], goes_on)
on_payload session message (signaling_from_client_join action room_id room_name) =
    if text_eq action (codes "join_room")
    then elim (stol room_id) [
      | none ↦ ([], throws)
      | some roomid ↦ (asks (pull_message_async roomid room_name room_id) ∷ [], goes_on)
    ]
    else ([], goes_on)
on_payload session message (ping ts) = (on_message_ping ts ∷ [], goes_on)
on_payload session message other = ([], goes_on)

-- The callbacks that dispatchEvent gives to its calls.
unfoldable pub on_reply : Request → Text → List Action
on_reply (client_message_async message) msg = sends (build_frame msg 2) ∷ []
on_reply (bath_pull_message_async message) msg = sends (build_frame msg 2) ∷ []
on_reply (is_sub_session_async room_id) msg = sends (build_frame msg 2) ∷ subscribes room_id ∷ []
on_reply (pull_message_async roomid room_name room_id) msg =
    sends (build_frame msg 2) ∷ subscribes room_id ∷ []

-- The gateway's side of the producer: the messages that librdkafka has not reported, those that it did
-- not take, whose contexts nobody deletes, the connections that are not gone, and the acknowledgements.
pub record Outbox : Type 0 where
  pub in_flight : List Context
  pub refused : List Context
  pub alive : ℕ → Bool
  pub acks : List (Context × Text)

abbrev pub at_start : Outbox
at_start = record { in_flight = []; refused = []; alive = λ k. true; acks = [] }

pub data Event : Type 0 where
  receives : Session → List Text → Event
  reports : ℕ → Bool → Event
  closes : ℕ → Event

abbrev pub remove_at : ℕ → List Context → List Context
remove_at i [] = []
remove_at zero (c ∷ cs) = cs
remove_at (suc i) (c ∷ cs) = c ∷ remove_at i cs

-- dr_cb
unfoldable pub dr_cb : Bool → Context → Outbox → Outbox
dr_cb success ctx s =
    if s.alive ctx.conn
    then record s {
      acks = s.acks ++ (ctx, if success then codes "SUCCESS" else codes "FAILED") ∷ [];
    }
    else s

-- A delivery report for one of the messages in flight.
unfoldable pub report : ℕ → Bool → Outbox → Outbox
unfolding dr_cb
report i success s = elim (get_elem? s.in_flight i) [
  | none ↦ s
  | some ctx ↦ dr_cb success ctx (record s { in_flight = remove_at i s.in_flight })
]

-- The actions of a message, and those of the messages behind it unless it ends the loop.
abbrev pub and_then : List Action → Next → List Action × Next → List Action × Next
and_then actions goes_on rest = (actions ++ rest.0, rest.1)
and_then actions returns rest = (actions, returns)
and_then actions throws rest = (actions, throws)

-- dispatchEvent
unfoldable pub dispatch_event : (Text → Payload) → Session → List Text → List Action × Next
unfolding on_payload
dispatch_event payload_of session [] = ([], goes_on)
dispatch_event payload_of session (message ∷ messages) =
    let this = on_payload session message (payload_of message) in
    and_then this.0 this.1 (dispatch_event payload_of session messages)

module _ (accepts : List Context → Produced → Bool) where
  -- kafkaProducer::produce, whose result dispatchEvent does not look at.
  unfoldable pub produce : Produced → Outbox → Outbox
  produce p s =
      if accepts s.in_flight p
      then record s { in_flight = s.in_flight ++ p.ctx ∷ [] }
      else record s { refused = s.refused ++ p.ctx ∷ [] }

  -- What the actions of a list do to the producer.
  unfoldable pub perform : List Action → Outbox → Outbox
  unfolding produce
  perform [] s = s
  perform (produces p ∷ actions) s = perform actions (produce p s)
  perform (sends frame ∷ actions) s = perform actions s
  perform (asks request ∷ actions) s = perform actions s
  perform (subscribes room_id ∷ actions) s = perform actions s
  perform (on_message_ping ts ∷ actions) s = perform actions s

module _ (payload_of : Text → Payload) (accepts : List Context → Produced → Bool) where
  unfoldable pub step : Event → Outbox → Outbox
  unfolding dispatch_event perform report
  step (receives session messages) s =
      perform accepts (dispatch_event payload_of session messages).0 s
  step (reports i success) s = report i success s
  step (closes k) s = record s { alive = update ℕ_discrete s.alive k false }

  unfoldable pub run : List Event → Outbox → Outbox
  unfolding step
  run [] s = s
  run (e ∷ es) s = run es (step e s)
