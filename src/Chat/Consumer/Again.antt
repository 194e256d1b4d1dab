-- ===== src/Chat/Consumer/Again.antt =====
-- A message that the consumer has seen before.
use dpush.Base.{
  ℕ, zero, suc, ◌≡◌, refl, ap, ap₂, ◌∙◌, List, [], ◌∷◌, none, some, Bool, true, false, not, Text,
  inl, inr, Option-cases, Bool-cases, arith,
}
use dpush.Chat.Keys.{
  ChatType, group, single, unnamed, user_route_gateway_key, client_msg_id_key, message_seq_id_key,
}
use dpush.PubSub.{channel_key}
use dpush.Chat.Redis.{Command, publish, get, Redis}
use dpush.Chat.Consumer.{
  KafkaMessage, ServerMessage, duplicate, Sender, read_headers, kafka_key_of, take_ids, lua_script,
  deliver, after_script, process_message,
}

abbrev pub no_user : Sender
no_user = record { userid = none; userid_str = []; username = [] }

-- A message with headers, whose user id is a number where it has one.
pub record IsReadable (m : KafkaMessage) : Type 0 where
  pub all_headers : List (Text × Text)
  pub user : Sender
  pub has_headers : m.headers ≡ some all_headers
  pub reads : read_headers all_headers no_user ≡ some user

module _ {S : Type 0} (redis : Redis S) (encode : ServerMessage → Text) where
  -- Successive messages: the time, whether the offset is stored, and the message.
  abbrev pub run : List (ℕ × (Bool × KafkaMessage)) → S → S
  run [] s = s
  run ((now, (ok, m)) ∷ ms) s = run ms (process_message redis encode now ok m s).redis

  abbrev pub script : KafkaMessage → S → List ℕ × S
  script m s =
      lua_script redis (client_msg_id_key (kafka_key_of m)) (message_seq_id_key (kafka_key_of m))
        (m.payload).client_message_id 1 s

  pub process_message-readable :
      (now : ℕ) (ok : Bool) (m : KafkaMessage) (s : S) (h : IsReadable m)
      → process_message redis encode now ok m s
        ≡ after_script redis encode now ok m h.user (script m s).0 (script m s).1
  unfolding process_message after_script
  process_message-readable now ok m s h = rw (h.has_headers, h.reads, process_message) refl

  deliver-keeps :
      (c : ChatType) (ok : Bool) (persist : Command) (message key target : Text) (user : Sender)
      (s : S) (j n : Text)
      → redis.is_member j n (deliver redis encode c ok persist message key target user s).redis
        ≡ redis.is_member j n s
  unfolding deliver
  deliver-keeps group ok persist message key target user s j n =
      let commands = persist ∷ publish (channel_key key) message ∷ [] in
      ground (arith, redis.exec_keeps commands j n s)
  deliver-keeps single ok persist message key target user s j n =
      let commands =
        persist
        ∷ get (user_route_gateway_key user.userid_str)
        ∷ get (user_route_gateway_key target)
        ∷ [] in
      ground (arith, redis.exec_keeps commands j n s)
  deliver-keeps unnamed ok persist message key target user s j n = refl

  after_script-keeps :
      (now : ℕ) (ok : Bool) (m : KafkaMessage) (user : Sender) (ids : List ℕ) (s : S) (j n : Text)
      → redis.is_member j n (after_script redis encode now ok m user ids s).redis
        ≡ redis.is_member j n s
  unfolding after_script
  after_script-keeps now ok m user [] s j n = refl
  after_script-keeps now ok m user (id ∷ ids) s j n =
      deliver-keeps (m.payload).chat_type ok _ _ (kafka_key_of m) (m.payload).target_id user s j n

  take_ids-keeps :
      (count : ℕ) (k : Text) (s : S) (j n : Text)
      → redis.is_member j n (take_ids redis count k s).1 ≡ redis.is_member j n s
  unfolding take_ids
  take_ids-keeps zero k s j n = refl
  take_ids-keeps (suc count) k s j n =
      take_ids-keeps count k (redis.incr k s).1 j n ∙ redis.incr_keeps k j n s

  lua_script-keeps :
      (k q id : Text) (count : ℕ) (s : S) (j n : Text)
      → redis.is_member j n s ≡ true
      → redis.is_member j n (lua_script redis k q id count s).1 ≡ true
  unfolding lua_script
  lua_script-keeps k q id count s j n h =
      let kept = redis.sadd_keeps k id j n s h in
      elim (Bool-cases (redis.sadd k id s).0) [
        | inl e ↦ rw e (take_ids-keeps count q (redis.sadd k id s).1 j n ∙ kept)
        | inr e ↦ rw e kept
      ]

  lua_script-marks :
      (k q id : Text) (count : ℕ) (s : S)
      → redis.is_member k id (lua_script redis k q id count s).1 ≡ true
  unfolding lua_script
  lua_script-marks k q id count s =
      let marked = redis.sadd_member k id s in
      elim (Bool-cases (redis.sadd k id s).0) [
        | inl e ↦ rw e (take_ids-keeps count q (redis.sadd k id s).1 k id ∙ marked)
        | inr e ↦ rw e marked
      ]

  lua_script-seen :
      (k q id : Text) (count : ℕ) (s : S)
      → redis.is_member k id s ≡ true
      → (lua_script redis k q id count s).0 ≡ []
  unfolding lua_script
  lua_script-seen k q id count s h =
      let old : (redis.sadd k id s).0 ≡ false = redis.sadd_new k id s ∙ ap not h in rw old refl

  process_message-keeps :
      (now : ℕ) (ok : Bool) (m : KafkaMessage) (s : S) (j n : Text)
      → redis.is_member j n s ≡ true
      → redis.is_member j n (process_message redis encode now ok m s).redis ≡ true
  unfolding process_message
  process_message-keeps now ok m s j n h = elim (Option-cases m.headers) [
    | inl e ↦ rw (e, process_message) h
    | inr (headers, e) ↦ elim (Option-cases (read_headers headers no_user)) [
      | inl f ↦ rw (e, f, process_message) h
      | inr (user, f) ↦
          let readable : IsReadable m = record {
            all_headers = headers;
            user = user;
            has_headers = e;
            reads = f;
          } in
          ap (λ p. redis.is_member j n p.redis) (process_message-readable now ok m s readable)
          ∙ after_script-keeps now ok m user (script m s).0 (script m s).1 j n
          ∙ lua_script-keeps _ _ _ 1 s j n h
    ]
  ]

  run-keeps :
      (ms : List (ℕ × (Bool × KafkaMessage))) (s : S) (j n : Text)
      → redis.is_member j n s ≡ true
      → redis.is_member j n (run ms s) ≡ true
  run-keeps [] s j n h = h
  run-keeps ((now, (ok, m)) ∷ ms) s j n h =
      run-keeps ms (process_message redis encode now ok m s).redis j n
        (process_message-keeps now ok m s j n h)

  -- Once a readable message has been processed, whatever its outcome, every later message of the same
  -- session with the same client id is answered as a duplicate, after any messages between: nothing is
  -- stored, published or sent, and its offset is not stored.
  pub process_message-again :
      (now later : ℕ) (ok fine : Bool) (m again : KafkaMessage)
      (between : List (ℕ × (Bool × KafkaMessage))) (s : S)
      → IsReadable m
      → IsReadable again
      → kafka_key_of again ≡ kafka_key_of m
      → again.payload.client_message_id ≡ m.payload.client_message_id
      → process_message redis encode later fine again
          (run between (process_message redis encode now ok m s).redis)
        ≡ record {
          outcome = duplicate;
          executed = [];
          sent = [];
          redis = (script again (run between (process_message redis encode now ok m s).redis)).1;
        }
  unfolding after_script
  process_message-again now later ok fine m again between s h g same_session same_id =
      let key = client_msg_id_key (kafka_key_of m) in
      let id = (m.payload).client_message_id in
      let after = (process_message redis encode now ok m s).redis in
      let marked : redis.is_member key id after ≡ true =
        ap (λ p. redis.is_member key id p.redis) (process_message-readable now ok m s h)
        ∙ after_script-keeps now ok m h.user (script m s).0 (script m s).1 key id
        ∙ lua_script-marks key (message_seq_id_key (kafka_key_of m)) id 1 s in
      let still = run-keeps between after key id marked in
      let seen : (script again (run between after)).0 ≡ [] =
        lua_script-seen (client_msg_id_key (kafka_key_of again))
          (message_seq_id_key (kafka_key_of again)) (again.payload).client_message_id 1
          (run between after)
          (ap₂ (λ k i. redis.is_member (client_msg_id_key k) i (run between after)) same_session
              same_id
            ∙ still) in
      process_message-readable later fine again (run between after) g
      ∙ ap
          (λ ids.
            after_script redis encode later fine again g.user ids
              (script again (run between after)).1)
          seen
