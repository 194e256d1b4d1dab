-- ===== src/Chat/History.antt =====
-- The history of a session, from server/src/services/Logic/server/LogicGrpcServer.cc: the awaiters
-- `GetHistoryMessageAwaiter`, `clearCursorsAwaiter` and `PullMessageAwaiter`, each one task of the
-- thread pool.
--
-- Redis is the interface `Streams`. The id n-0 of an entry stands as the number n; the exclusive bound
-- of a range is `some n`, and `+` is none. flatbuffers is given as `decode`, which reads an entry's field.
-- The two tasks of a request, the one that reads the cursor and the one that moves it, are one step
-- here: a second request of the same user between them would get the same page.
pub mod Entries
pub mod Pages
use dpush.Base.{
  c_str, ℕ, zero, suc, ◌<◌, ◌≡◌, ℤ, pos, negsuc, List, [], ◌∷◌, ◌++◌, Option, none, some, Bool,
  true, false, not, ltb, take, length, Text, text_dec, ite, if◌then◌else◌, map,
}
use dpush.Chat.Keys.{message_persist_key}
use dpush.Handshake.{int_text}

-- An entry of a stream, with the values of its fields.
pub record StreamEntry : Type 0 where
  pub id : ℕ
  pub fields : List Text

-- The entries below an id.
abbrev pub older : Option ℕ → List StreamEntry → List StreamEntry
older none entries = entries
older (some n) [] = []
older (some n) (e ∷ entries) =
    let rest = older (some n) entries in if ltb e.id n then e ∷ rest else rest

-- The entries above an id.
abbrev pub newer : ℕ → List StreamEntry → List StreamEntry
newer n [] = []
newer n (e ∷ entries) = let rest = newer n entries in if ltb n e.id then e ∷ rest else rest

abbrev pub reverse : List StreamEntry → List StreamEntry
reverse [] = []
reverse (e ∷ entries) = reverse entries ++ e ∷ []

-- Streams and hashes. `entries` are those of a stream, the newest first.
pub record Streams (S : Type 0) : Type 0 where
  pub xrevrange : Text → Option ℕ → ℕ → S → List StreamEntry
  pub xrange : Text → ℕ → ℕ → S → List StreamEntry
  pub hset : Text → Text → ℕ → S → S
  pub del : Text → S → S
  pub hget : Text → Text → S → Option ℕ
  pub entries : Text → S → List StreamEntry
  pub xrevrange_answer :
      (key : Text) (below : Option ℕ) (count : ℕ) (s : S)
      → xrevrange key below count s ≡ take count (older below (entries key s))
  pub xrange_answer :
      (key : Text) (above count : ℕ) (s : S)
      → xrange key above count s ≡ take count (newer above (reverse (entries key s)))
  pub hset_hget : (key field : Text) (n : ℕ) (s : S) → hget key field (hset key field n s) ≡ some n
  pub hset_entries :
      (key field : Text) (n : ℕ) (s : S) (stream : Text)
      → entries stream (hset key field n s) ≡ entries stream s
  pub del_hget : (key field : Text) (s : S) → hget key field (del key s) ≡ none

-- What the messages of a session are read as.
pub record StoredMessage : Type 0 where
  pub content : Text
  pub timestamp : ℕ
  pub user_id : ℤ
  pub username : Text

pub record Message : Type 0 where
  pub id : ℕ
  pub stored : StoredMessage

pub record MessageBatch : Type 0 where
  pub messages : List Message
  pub has_more : Bool

module _ (decode : Text → StoredMessage) where
  abbrev pub fields_messages : ℕ → List Text → List Message
  fields_messages id [] = []
  fields_messages id (field ∷ fields) =
      let m = decode field in
      record {
        id = id;
        stored = record m { content = c_str m.content; username = c_str m.username };
      }
      ∷ fields_messages id fields

  abbrev pub messages_of : List StreamEntry → List Message
  messages_of [] = []
  messages_of (e ∷ entries) = fields_messages e.id e.fields ++ messages_of entries

-- messages.back().first
abbrev pub last_entry : StreamEntry → List StreamEntry → ℕ
last_entry e [] = e.id
last_entry e (next ∷ entries) = last_entry next entries

module _ {S : Type 0} (streams : Streams S) where
  -- The cursor of the user moves to the last entry of a range.
  unfoldable pub move_cursor : Text → Text → List StreamEntry → S → S
  move_cursor userid roomid [] s = s
  move_cursor userid roomid (e ∷ entries) s = streams.hset userid roomid (last_entry e entries) s

  -- GetHistoryMessageAwaiter, behind GetUserCursors
  unfoldable pub get_history_message :
      (Text → StoredMessage) → Text → Text → ℕ → S → MessageBatch × S
  get_history_message decode userid roomid messagecount s =
      let messages =
        streams.xrevrange (message_persist_key roomid) (streams.hget userid roomid s) messagecount
          s in
      (
        record {
          messages = messages_of decode messages;
          has_more = if ltb (length messages) messagecount then false else true;
        },
        move_cursor userid roomid messages s,
      )

  -- clearCursorsAwaiter
  unfoldable pub clear_cursors : ℤ → S → S
  clear_cursors userid s = streams.del (int_text userid) s

  -- PullMessageAwaiter
  unfoldable pub pull_message : Text → ℤ → S → List StreamEntry
  pull_message room_id (pos message_id) s =
      streams.xrange (message_persist_key room_id) message_id 50 s
  pull_message room_id (negsuc n) s = streams.xrevrange (message_persist_key room_id) none 50 s
