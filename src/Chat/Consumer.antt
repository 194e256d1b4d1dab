-- ===== src/Chat/Consumer.antt =====
-- `KafkaConsumer::process_message` of server/src/services/Logic/server/KafkaConsumer.cc with the script
-- `lua_script` of KafkaConsumer.h, which Redis runs as one step.
--
-- flatbuffers is given: a message is its payload's fields, and `encode` writes the message for the
-- receivers. librdkafka answers `offset_stored`. The calls that leave the service are the result's
-- `executed`, the commands of a pipeline that has replied, and `sent`, the calls of sendSingleMsgAsync.
-- A call of evalsha that throws ends the process and has no step here.
pub mod Again
pub mod Ids
pub mod Order
use dpush.Base.{
  ℕ, zero, suc, ◌+◌, ◌^◌, ℤ, pos, List, [], ◌∷◌, ◌++◌, Option, none, some, Bool, true, false, ◌==◌,
  Text, text_eq, codes, c_str, if◌then◌else◌,
}
use dpush.Handshake.{Stoi, number, no_number, too_large, stoi}
use dpush.PubSub.{channel_key}
use dpush.Chat.Keys.{
  ChatType, group, single, unnamed, from_chars, user_route_gateway_key, message_persist_key,
  message_persist_msg_id, client_msg_id_key, message_seq_id_key,
}
use dpush.Chat.Redis.{Command, xadd, publish, get, Redis}

pub record ClientMessage : Type 0 where
  pub client_message_id : Text
  pub target_id : Text
  pub chat_type : ChatType
  pub content : Text

pub record KafkaMessage : Type 0 where
  pub key : Option Text
  pub payload : ClientMessage
  pub headers : Option (List (Text × Text))

pub record ServerMessage : Type 0 where
  pub userid : Option ℤ
  pub username : Text
  pub content : Text
  pub server_message_id : ℕ
  pub client_message_id : Text
  pub timestamp : ℕ
  pub chat_type : ChatType
  pub session_id : Text

-- What becomes of a message. Its offset is stored in the first case only.
pub data Fate : Type 0 where
  stored : Fate
  store_failed : Fate
  no_header : Fate
  stoi_thrown : Fate
  duplicate : Fate
  bad_target : Fate
  pipeline_failed : Fate

pub record Step (S : Type 0) : Type 0 where
  pub outcome : Fate
  pub executed : List Command
  pub sent : List (Text × (Option ℤ × Text))
  pub redis : S

-- The user that the headers name: the last of each name counts, and a user id that is no number
-- throws. Without a user id the source leaves the variable unset.
pub record Sender : Type 0 where
  pub userid : Option ℤ
  pub userid_str : Text
  pub username : Text

unfoldable pub read_headers : List (Text × Text) → Sender → Option Sender
read_headers [] u = some u
read_headers ((key, value) ∷ headers) u =
    let named = read_headers headers (record u { username = value }) in
    let other = read_headers headers u in
    if text_eq key (codes "userid")
    then elim (stoi value) [
      | number n ↦ read_headers headers (record u { userid = some n; userid_str = value })
      | no_number ↦ none
      | too_large ↦ none
    ]
    else if text_eq key (codes "username")
    then named
    else other

abbrev pub kafka_key_of : KafkaMessage → Text
kafka_key_of m = elim (m.key) [ none ↦ [] | some k ↦ k ]

abbrev pub reply_at : ℕ → List (Option Text) → Text
reply_at i [] = []
reply_at zero (r ∷ rs) = elim r [ none ↦ [] | some text ↦ text ]
reply_at (suc i) (r ∷ rs) = reply_at i rs

-- sendSingleMsgAsync, where the route key named a gateway
abbrev pub send_to : Text → Option ℤ → Text → List (Text × (Option ℤ × Text))
send_to [] userid message = []
send_to (x ∷ gateway) userid message = (x ∷ gateway, (userid, message)) ∷ []

-- returned_msgids.back()
abbrev pub last_id : ℕ → List ℕ → ℕ
last_id id [] = id
last_id id (next ∷ ids) = last_id next ids

module _ {S : Type 0} (redis : Redis S) where
  -- The loop of the script.
  unfoldable pub take_ids : ℕ → Text → S → List ℕ × S
  take_ids zero seq_key s = ([], s)
  take_ids (suc msg_count) seq_key s =
      let (id, counted) = redis.incr seq_key s in
      let rest = take_ids msg_count seq_key counted in (id ∷ rest.0, rest.1)

  unfoldable pub lua_script : Text → Text → Text → ℕ → S → List ℕ × S
  lua_script dedup_key seq_key client_msg_id msg_count s =
      let (added, after) = redis.sadd dedup_key client_msg_id s in
      let ids = take_ids msg_count seq_key after in if added then ids else ([], after)

  module _ (encode : ServerMessage → Text) where
    -- The pipeline, and the calls behind it. `persist` is its XADD.
    unfoldable pub deliver : ChatType → Bool → Command → Text → Text → Text → Sender → S → Step S
    deliver group offset_stored persist message kafka_key target_id user s =
        let commands = persist ∷ publish (channel_key kafka_key) message ∷ [] in
        let (replies, after) = redis.exec commands s in
        elim replies [
          | none ↦ record { outcome = pipeline_failed; executed = []; sent = []; redis = after }
          | some _ ↦ record {
            outcome = if offset_stored then stored else store_failed;
            executed = commands;
            sent = [];
            redis = after;
          }
        ]
    deliver single offset_stored persist message kafka_key target_id user s =
        let commands =
          persist
          ∷ get (user_route_gateway_key user.userid_str)
          ∷ get (user_route_gateway_key target_id)
          ∷ [] in
        let (replies, after) = redis.exec commands s in
        elim replies [
          | none ↦ record { outcome = pipeline_failed; executed = []; sent = []; redis = after }
          | some rs ↦ elim (from_chars (2 ^ 31) target_id) [
            | none ↦ record { outcome = bad_target; executed = commands; sent = []; redis = after }
            | some target_user_id ↦ record {
              outcome = if offset_stored then stored else store_failed;
              executed = commands;
              sent =
                  send_to (reply_at 1 rs) user.userid message
                  ++ send_to (reply_at 2 rs) (some (pos target_user_id)) message;
              redis = after;
            }
          ]
        ]
    deliver unnamed offset_stored persist message kafka_key target_id user s = record {
      outcome = if offset_stored then stored else store_failed;
      executed = [];
      sent = [];
      redis = s;
    }

    -- What follows the script: a message that has got an id is built and delivered.
    unfoldable pub after_script : ℕ → Bool → KafkaMessage → Sender → List ℕ → S → Step S
    after_script now offset_stored m user [] s = record {
      outcome = duplicate;
      executed = [];
      sent = [];
      redis = s;
    }
    after_script now offset_stored m user (id ∷ ids) s =
        let key = kafka_key_of m in
        let message = encode (record {
          userid = user.userid;
          username = user.username;
          content = c_str (m.payload).content;
          server_message_id = id;
          client_message_id = c_str (m.payload).client_message_id;
          timestamp = now;
          chat_type = (m.payload).chat_type;
          session_id = key;
        }) in
        deliver (m.payload).chat_type offset_stored
          (xadd (message_persist_key key) (message_persist_msg_id (last_id id ids)) message) message
          key (m.payload).target_id user s

    unfoldable pub process_message : ℕ → Bool → KafkaMessage → S → Step S
    process_message now offset_stored m s = elim (m.headers) [
      | none ↦ record { outcome = no_header; executed = []; sent = []; redis = s }
      | some headers ↦
          elim (read_headers headers (record { userid = none; userid_str = []; username = [] })) [
            | none ↦ record { outcome = stoi_thrown; executed = []; sent = []; redis = s }
            | some user ↦
                let key = kafka_key_of m in
                let (ids, after) =
                  lua_script (client_msg_id_key key) (message_seq_id_key key)
                    (m.payload).client_message_id 1 s in
                after_script now offset_stored m user ids after
          ]
    ]
