-- ===== src/Chat/Consumer/Order.antt =====
-- The ids under which the messages of a session are stored.
use dpush.Base.{
  ℕ, ◌+◌, ◌<◌, ◌≤◌, ◌≡◌, ◌≢◌, ◌⊎◌, refl, sym, ap, ap₂, subst, ◌∙◌, List, [], ◌∷◌, ◌++◌, map, Bool,
  Text, text_dec, inl, inr, Option-cases, Bool-cases, arith,
}
use dpush.Chat.Keys.{
  ChatType, group, single, unnamed, user_route_gateway_key, client_msg_id_key, message_seq_id_key,
  message_persist_key, message_persist_msg_id,
}
use dpush.PubSub.{channel_key}
use dpush.Chat.Redis.{Command, xadd, publish, get, Redis}
use dpush.Chat.Consumer.{
  KafkaMessage, ServerMessage, Step, Sender, read_headers, kafka_key_of, take_ids, lua_script,
  deliver, after_script, process_message,
}
use dpush.Chat.Consumer.Again.{no_user, IsReadable, script, process_message-readable}
use dpush.Chat.Consumer.Ids.{
  ids_stored, IncreaseFrom, IncreaseFrom-low, ids_stored-append, message_seq_id_key-injective,
  message_persist_key-injective,
}

module _ {S : Type 0} (redis : Redis S) (encode : ServerMessage → Text) where
  deliver-counter :
      (c : ChatType) (ok : Bool) (persist : Command) (message key target : Text) (user : Sender)
      (s : S) (j : Text)
      → redis.counter j (deliver redis encode c ok persist message key target user s).redis
        ≡ redis.counter j s
  unfolding deliver
  deliver-counter group ok persist message key target user s j =
      let commands = persist ∷ publish (channel_key key) message ∷ [] in
      ground (arith, redis.exec_counter commands j s)
  deliver-counter single ok persist message key target user s j =
      let commands =
        persist
        ∷ get (user_route_gateway_key user.userid_str)
        ∷ get (user_route_gateway_key target)
        ∷ [] in
      ground (arith, redis.exec_counter commands j s)
  deliver-counter unnamed ok persist message key target user s j = refl

  deliver-other :
      (c : ChatType) (ok : Bool) (j id payload message key target : Text) (user : Sender) (s : S)
      (k : Text)
      → j ≢ k
      → ids_stored k
          (deliver redis encode c ok (xadd j id payload) message key target user s).executed
        ≡ []
  unfolding deliver
  deliver-other group ok j id payload message key target user s k other = ground (arith, other)
  deliver-other single ok j id payload message key target user s k other = ground (arith, other)
  deliver-other unnamed ok j id payload message key target user s k other = refl

  deliver-own :
      (c : ChatType) (ok : Bool) (j id payload message key target : Text) (user : Sender) (s : S)
      → (ids_stored j
            (deliver redis encode c ok (xadd j id payload) message key target user s).executed
          ≡ [])
        ⊎ (ids_stored j
              (deliver redis encode c ok (xadd j id payload) message key target user s).executed
            ≡ id ∷ [])
  unfolding deliver
  deliver-own group ok j id payload message key target user s = ground arith
  deliver-own single ok j id payload message key target user s = ground arith
  deliver-own unnamed ok j id payload message key target user s = inl refl

  lua_script-other :
      (k q id : Text) (s : S) (j : Text)
      → q ≢ j
      → redis.counter j (lua_script redis k q id 1 s).1 ≡ redis.counter j s
  unfolding lua_script take_ids
  lua_script-other k q id s j other =
      ground
        (arith, redis.sadd_counter k id j s, redis.incr_counter q j (redis.sadd k id s).1, other)

  lua_script-own :
      (k q id : Text) (s : S)
      → (((lua_script redis k q id 1 s).0 ≡ [])
          × (redis.counter q (lua_script redis k q id 1 s).1 ≡ redis.counter q s))
        ⊎ (((lua_script redis k q id 1 s).0 ≡ (redis.counter q s + 1) ∷ [])
            × (redis.counter q (lua_script redis k q id 1 s).1 ≡ redis.counter q s + 1))
  unfolding lua_script take_ids
  lua_script-own k q id s = elim (Bool-cases (redis.sadd k id s).0) [
    | inl e ↦ inr (
      ground (arith, e, redis.sadd_counter k id q s, redis.incr_reply q (redis.sadd k id s).1),
      ground (arith, e, redis.sadd_counter k id q s, redis.incr_counter q q (redis.sadd k id s).1),
    )
    | inr e ↦ inl (ground (arith, e), ground (arith, e, redis.sadd_counter k id q s))
  ]

  -- A step that stores nothing of the session, or one message under the next number of its counter.
  abbrev pub Follows : Text → S → Step S → Type 0
  Follows session s p =
      (redis.counter (message_seq_id_key session) s
        ≤ redis.counter (message_seq_id_key session) p.redis)
      × ((ids_stored (message_persist_key session) p.executed ≡ [])
          ⊎ ((ids_stored (message_persist_key session) p.executed
                ≡ message_persist_msg_id (redis.counter (message_seq_id_key session) p.redis) ∷ [])
              × (redis.counter (message_seq_id_key session) s
                  < redis.counter (message_seq_id_key session) p.redis)))

  after_script-other :
      (session : Text) (now : ℕ) (ok : Bool) (m : KafkaMessage) (user : Sender) (ids : List ℕ)
      (s after : S)
      → message_persist_key (kafka_key_of m) ≢ message_persist_key session
      → redis.counter (message_seq_id_key session) after
        ≡ redis.counter (message_seq_id_key session) s
      → Follows session s (after_script redis encode now ok m user ids after)
  unfolding after_script
  after_script-other session now ok m user [] s after other e = (omega (arith, e), inl refl)
  after_script-other session now ok m user (id ∷ ids) s after other e = (
    omega (
      arith,
      e,
      deliver-counter (m.payload).chat_type ok _ _ (kafka_key_of m) (m.payload).target_id user after
          (message_seq_id_key session),
    ),
    inl (
        deliver-other (m.payload).chat_type ok _ _ _ _ (kafka_key_of m) (m.payload).target_id user
          after (message_persist_key session) other),
  )

  after_script-none :
      (session : Text) (now : ℕ) (ok : Bool) (m : KafkaMessage) (user : Sender) (s after : S)
      → redis.counter (message_seq_id_key session) after
        ≡ redis.counter (message_seq_id_key session) s
      → Follows session s (after_script redis encode now ok m user [] after)
  unfolding after_script
  after_script-none session now ok m user s after e = (omega (arith, e), inl refl)

  after_script-own :
      (now : ℕ) (ok : Bool) (m : KafkaMessage) (user : Sender) (id : ℕ) (s after : S)
      → id ≡ redis.counter (message_seq_id_key (kafka_key_of m)) s + 1
      → redis.counter (message_seq_id_key (kafka_key_of m)) after
        ≡ redis.counter (message_seq_id_key (kafka_key_of m)) s + 1
      → Follows (kafka_key_of m) s (after_script redis encode now ok m user (id ∷ []) after)
  unfolding after_script
  after_script-own now ok m user id s after fresh e =
      let q = message_seq_id_key (kafka_key_of m) in
      let same =
        deliver-counter (m.payload).chat_type ok _ _ (kafka_key_of m) (m.payload).target_id user
          after q in
      let its : id
          ≡ redis.counter q (after_script redis encode now ok m user (id ∷ []) after).redis =
        fresh ∙ sym (same ∙ e) in
      (
        omega (arith, same, e),
        elim (deliver-own (m.payload).chat_type ok _ _ _ _ (kafka_key_of m) (m.payload).target_id
            user after) [
              | inl f ↦ inl f
              | inr f ↦
                  inr (f ∙ ap (λ n. message_persist_msg_id n ∷ []) its, omega (arith, same, e))
            ],
      )

  process_message-Follows :
      (session : Text) (now : ℕ) (ok : Bool) (m : KafkaMessage) (s : S)
      → IsReadable m
      → Follows session s (process_message redis encode now ok m s)
  process_message-Follows session now ok m s h =
      let key = kafka_key_of m in
      let k = client_msg_id_key key in
      let q = message_seq_id_key key in
      let id = (m.payload).client_message_id in
      let at_end = λ (p : Step S). Follows session s p in
      subst at_end (sym (process_message-readable redis encode now ok m s h))
        (elim (text_dec key session) [
          | yes same ↦
              subst
                (λ x. Follows x s (
                  after_script redis encode now ok m h.user (script redis encode m s).0
                    (script redis encode m s).1))
                same
                (elim (lua_script-own k q id s) [
                  | inl (nothing, kept) ↦
                      subst
                        (λ ids. Follows key s (
                          after_script redis encode now ok m h.user ids
                            (script redis encode m s).1))
                        (sym nothing)
                        (after_script-none key now ok m h.user s (script redis encode m s).1 kept)
                  | inr (one, counted) ↦
                      subst
                        (λ ids. Follows key s (
                          after_script redis encode now ok m h.user ids
                            (script redis encode m s).1))
                        (sym one)
                        (after_script-own now ok m h.user (redis.counter q s + 1) s
                          (script redis encode m s).1 refl counted)
                ])
          | no other ↦
              after_script-other session now ok m h.user (script redis encode m s).0 s
                (script redis encode m s).1
                (λ e. other (message_persist_key-injective key session e))
                (lua_script-other k q id s (message_seq_id_key session)
                  (λ e. other (message_seq_id_key-injective key session e)))
        ])

  process_message-all :
      (session : Text) (now : ℕ) (ok : Bool) (m : KafkaMessage) (s : S)
      → Follows session s (process_message redis encode now ok m s)
  unfolding process_message
  process_message-all session now ok m s = elim (Option-cases m.headers) [
    | inl e ↦ rw (e, process_message) (omega arith, inl refl)
    | inr (headers, e) ↦ elim (Option-cases (read_headers headers no_user)) [
      | inl f ↦ rw (e, f, process_message) (omega arith, inl refl)
      | inr (user, f) ↦
          process_message-Follows session now ok m s
            (record { all_headers = headers; user = user; has_headers = e; reads = f })
    ]
  ]

  -- The commands that successive messages give.
  abbrev pub commands_of : List (ℕ × (Bool × KafkaMessage)) → S → List Command
  commands_of [] s = []
  commands_of ((now, (ok, m)) ∷ ms) s =
      (process_message redis encode now ok m s).executed
      ++ commands_of ms (process_message redis encode now ok m s).redis

  -- Whatever messages arrive, of whatever sessions and with whatever failures, the ids of the entries
  -- added to the stream of a session are numbers that increase strictly, and from the session's counter.
  pub commands_of-increase :
      (session : Text) (ms : List (ℕ × (Bool × KafkaMessage))) (s : S)
      → (ns : List ℕ) × ((ids_stored (message_persist_key session) (commands_of ms s)
            ≡ map message_persist_msg_id ns)
          × IncreaseFrom (redis.counter (message_seq_id_key session) s) ns)
  commands_of-increase session [] s = ([], (refl, tt))
  commands_of-increase session ((now, (ok, m)) ∷ ms) s =
      let p = process_message redis encode now ok m s in
      let k = message_persist_key session in
      let (grows, adds) = process_message-all session now ok m s in
      let (ns, (those, rising)) = commands_of-increase session ms p.redis in
      let both = ids_stored-append k p.executed (commands_of ms p.redis) in
      elim adds [
        | inl nothing ↦
            (ns, (both ∙ ap₂ (λ x y. x ++ y) nothing those, IncreaseFrom-low _ _ ns grows rising))
        | inr (one, above) ↦ (
          redis.counter (message_seq_id_key session) p.redis ∷ ns,
          (both ∙ ap₂ (λ x y. x ++ y) one those, (above, rising)),
        )
      ]
