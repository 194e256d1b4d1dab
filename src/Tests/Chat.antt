-- ===== src/Tests/Chat.antt =====
-- A single chat of the users 7 and 42, over a Redis of this file that keeps its sets and counters.
use dpush.Base.{
  c_str, ℕ, ◌+◌, ◌≡◌, ◌↔◌, refl, sym, ap, ◌∙◌, pos, List, [], ◌∷◌, map, none, some, Bool, true,
  false, not, ◌&&◌, ◌||◌, Text, text_eq, text_eq_refl, text_dec, ite, if_pos, if_neg, update, codes,
  arith, if◌then◌else◌, min, max, ℕ_discrete, skip_spaces,
}
use dpush.Http.Response.{decimal, decimal_digits}
use dpush.Http.Context.{digits_value}
use dpush.PubSub.{channel_key}
use dpush.Handshake.{stoi, stoi_sign, stoi_digits}
use dpush.Chat.Keys.{
  group, single, kafka_key, from_chars, from_chars_digits, message_persist_key,
  message_persist_msg_id,
}
use dpush.Chat.Pairs.{kafka_key-pairs}
use dpush.Chat.Redis.{Redis}
use dpush.Chat.Consumer.{
  KafkaMessage, ServerMessage, stored, duplicate, pipeline_failed, Step, read_headers, take_ids,
  lua_script, deliver, after_script, process_message,
}
use dpush.Chat.Consumer.Again.{IsReadable, script, process_message-again}
use dpush.Chat.Consumer.Ids.{ids_stored, IncreaseFrom}
use dpush.Chat.Consumer.Order.{commands_of, commands_of-increase}

program : Unit {0}
unfolding text_dec ℕ_discrete text_eq kafka_key from_chars from_chars_digits digits_value
    decimal_digits stoi stoi_sign stoi_digits skip_spaces read_headers c_str take_ids lua_script
    deliver after_script process_message channel_key
program = tt

record Store : Type 0 where
  members : Text → Text → Bool
  counters : Text → ℕ

counts :
    (k j : Text) (s : Store)
    → update text_dec s.counters k (s.counters k + 1) j
      ≡ ite (text_dec k j) (s.counters j + 1) (s.counters j)
counts k j s = elim (text_dec k j) [
  | yes same ↦
      if_pos (text_dec k j) same _ _
      ∙ ap (λ x. s.counters x + 1) same
      ∙ sym (if_pos (text_dec k j) same _ _)
  | no other ↦ if_neg (text_dec k j) other _ _ ∙ sym (if_neg (text_dec k j) other _ _)
]

keeps :
    (k m j n : Text) (s : Store)
    → s.members j n ≡ true
    → s.members j n || text_eq k j && text_eq m n ≡ true
keeps k m j n s h = ground (arith, h)

marks : (k m : Text) (s : Store) → s.members k m || text_eq k k && text_eq m m ≡ true
marks k m s = ground (arith, text_eq_refl k, text_eq_refl m)

-- `works` is whether a pipeline gets its replies; every user is on one gateway.
abbrev memory : Bool → Redis Store
memory works = record {
  sadd = λ k m s. (
    not (s.members k m),
    record s { members = λ j n. s.members j n || text_eq k j && text_eq m n },
  );
  incr = λ k s.
      (s.counters k + 1, record s { counters = update text_dec s.counters k (s.counters k + 1) });
  exec = λ cs s. (if works then some (map (λ c. some (codes "gateway")) cs) else none, s);
  is_member = λ k m s. s.members k m;
  counter = λ k s. s.counters k;
  sadd_new = λ k m s. refl;
  sadd_member = marks;
  sadd_keeps = keeps;
  sadd_counter = λ k m j s. refl;
  incr_reply = λ k s. refl;
  incr_counter = counts;
  incr_keeps = λ k j n s. refl;
  exec_keeps = λ cs j n s. refl;
  exec_counter = λ cs j s. refl;
}

abbrev start : Store
start = record { members = λ k m. false; counters = λ k. 0 }

abbrev from_7 : KafkaMessage
from_7 = record {
  key = some (codes "7-42");
  payload = record {
    client_message_id = codes "c1";
    target_id = codes "42";
    chat_type = single;
    content = codes "hi";
  };
  headers = some ((codes "userid", codes "7") ∷ (codes "username", codes "ann") ∷ []);
}

from_7-IsReadable : IsReadable from_7
unfolding program
from_7-IsReadable = record {
  all_headers = (codes "userid", codes "7") ∷ (codes "username", codes "ann") ∷ [];
  user = record { userid = some (pos 7); userid_str = codes "7"; username = codes "ann" };
  has_headers = refl;
  reads = refl;
}

abbrev text_of : ServerMessage → Text
text_of m = m.content

abbrev failing : Step Store
failing = process_message (memory false) text_of 100 true from_7 start

abbrev working : Step Store
working = process_message (memory true) text_of 100 true from_7 start

delivered :
    (working.outcome ≡ stored)
    × (working.sent
        ≡ (codes "gateway", (some (pos 7), codes "hi"))
          ∷ (codes "gateway", (some (pos 42), codes "hi"))
          ∷ [])
unfolding program
delivered = (refl, refl)

-- the pipeline fails, and the message is lost when Kafka delivers it again
lost :
    (failing.outcome ≡ pipeline_failed)
    × ((process_message (memory true) text_of 100 true from_7 failing.redis).outcome ≡ duplicate)
unfolding program
lost = (refl, refl)

kafka_key-pairs_example :
    (kafka_key single (decimal 42) (pos 7) ≡ kafka_key single (decimal 7) (pos 42))
    ↔ ((min 42 7 ≡ min 7 42) × (max 42 7 ≡ max 7 42))
kafka_key-pairs_example =
    kafka_key-pairs 7 42 42 7 (omega arith) (omega arith) (omega arith) (omega arith)

its_key : kafka_key single (codes "42") (pos 7) ≡ some (codes "7-42")
unfolding program
its_key = refl

-- the group with that name has the key of the single chat
shared : kafka_key group (codes "7-42") (pos 9) ≡ some (codes "7-42")
unfolding program
shared = refl

process_message-again_example :
    process_message (memory false) text_of 100 true from_7 failing.redis ≡ record {
      outcome = duplicate;
      executed = [];
      sent = [];
      redis = (script (memory false) text_of from_7 failing.redis).1;
    }
process_message-again_example =
    process_message-again (memory false) text_of 100 100 true true from_7 from_7 [] start
      from_7-IsReadable from_7-IsReadable refl refl

commands_of-increase_example :
    (ns : List ℕ) × ((ids_stored
          (message_persist_key (codes "7-42"))
          (commands_of (memory true) text_of ((100, (true, from_7)) ∷ []) start)
        ≡ map message_persist_msg_id ns)
      × IncreaseFrom 0 ns)
commands_of-increase_example =
    commands_of-increase (memory true) text_of (codes "7-42") ((100, (true, from_7)) ∷ []) start
