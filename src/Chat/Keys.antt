-- ===== src/Chat/Keys.antt =====
-- The names of things that the services share: the Redis keys of
-- server/src/base/constants/RedisKey.cc, and the Kafka key of a message from `wsServer::dispatchEvent`
-- of server/src/services/Gateway/server/wsServer.cc.
use dpush.Base.{
  ℕ, ◌^◌, ℤ, pos, negsuc, [], ◌∷◌, ◌++◌, Option, none, some, ◌==◌, leb, min, max, Text, codes,
  if◌then◌else◌,
}
use dpush.Http.Context.{digits_value}
use dpush.Http.Response.{decimal}
use dpush.Handshake.{int_text}

abbrev pub user_route_gateway_key : Text → Text
user_route_gateway_key uid = codes "{route:uid:" ++ uid ++ codes "}"

abbrev pub message_persist_key : Text → Text
message_persist_key session_id = codes "{" ++ session_id ++ codes "}"

abbrev pub message_persist_msg_id : ℕ → Text
message_persist_msg_id msg_id = decimal msg_id ++ codes "-0"

abbrev pub client_msg_id_key : Text → Text
client_msg_id_key session_id = codes "client_msg_set:{" ++ session_id ++ codes "}"

abbrev pub message_seq_id_key : Text → Text
message_seq_id_key session_id = codes "room_seq:{" ++ session_id ++ codes "}"

-- ChatApp::ChatType, with the numbers that the enumeration does not name.
pub data ChatType : Type 0 where
  group : ChatType
  single : ChatType
  unnamed : ChatType

-- std::from_chars into a signed integer below `limit`: none where it fails or the result is negative.
unfoldable pub from_chars_digits : ℕ → Text → Option ℕ
from_chars_digits limit xs =
    let (n, digits) = digits_value 0 0 xs in
    if digits == 0 then none else if leb limit n then none else some n

unfoldable pub from_chars : ℕ → Text → Option ℕ
from_chars limit [] = none
from_chars limit (x ∷ xs) =
    if x == b'-'
    then elim (from_chars_digits limit xs) [
      | none ↦ none
      | some n ↦ if n == 0 then some 0 else none
    ]
    else from_chars_digits limit (x ∷ xs)

-- std::min and std::max of the user ids, one of them not negative, with a dash between them.
abbrev pub pair_key : ℕ → ℤ → Text
pair_key target (pos own) = decimal (min target own) ++ codes "-" ++ decimal (max target own)
pair_key target (negsuc own) = int_text (negsuc own) ++ codes "-" ++ decimal target

-- The Kafka key of a client's message; none where the target of a single chat is no user id.
unfoldable pub kafka_key : ChatType → Text → ℤ → Option Text
kafka_key group target_id own_user_id = some target_id
kafka_key single target_id own_user_id = elim (from_chars (2 ^ 63) target_id) [
  | none ↦ none
  | some target_user_id ↦ some (pair_key target_user_id own_user_id)
]
kafka_key unnamed target_id own_user_id = some []
