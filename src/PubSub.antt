-- ===== src/PubSub.antt =====
-- The Redis subscriptions of a gateway process: `SubscribeRoomSafe`, `UnSubscribeRoomSafe`, the
-- round of `ConsumLoop` and the channel names, from
-- server/src/services/Gateway/server/GatewayPubSubManager.{h,cc} and
-- server/src/base/constants/RedisKey.cc.
--
-- The two calls hold `channel_mtx_` from end to end, so each is one step. redis++'s Subscriber is
-- an interface; a call of it may throw. A count is below 2^31, since a loop holds one at most.
pub mod Channels
pub mod Calls
pub mod Flush
use dpush.Base.{
  ℕ, ℤ, pos, incr, decr, is_zero, is_one, ◌≡◌, List, [], ◌∷◌, ◌++◌, Option, none, some, Bool, true,
  false, ite, ◌||◌, not, Text, text_dec, update, contains, if◌then◌else◌, drop,
}
use dpush.Buffer.{starts_with}

-- "room:"
abbrev pub prefix : Text
prefix = b'r' ∷ b'o' ∷ b'o' ∷ b'm' ∷ b':' ∷ []

-- RedisKey::GatewaySubRoomChannelKey
unfoldable pub channel_key : Text → Text
channel_key session_id = prefix ++ session_id

-- The room of a message in the callback of on_message.
unfoldable pub room_of_channel : Text → Text
unfolding starts_with
room_of_channel channel = if starts_with prefix channel then drop 5 channel else channel

-- The static members that `channel_mtx_` guards.
pub record PubSub : Type 0 where
  pub global_room_ref_count : Text → Option ℤ
  pub pending_sub_channels : List Text
  pub pending_unsub_channels : List Text

-- operator[] makes a missing entry 0
abbrev pub count_or_zero : Option ℤ → ℤ
count_or_zero none = pos 0
count_or_zero (some n) = n

unfoldable pub subscribe_room_safe : Text → PubSub → PubSub
unfolding channel_key incr
subscribe_room_safe roomid s =
    let n = incr (count_or_zero (s.global_room_ref_count roomid)) in
    record {
      global_room_ref_count = update text_dec s.global_room_ref_count roomid (some n);
      pending_sub_channels =
          if is_one n
          then s.pending_sub_channels ++ channel_key roomid ∷ []
          else s.pending_sub_channels;
      pending_unsub_channels = s.pending_unsub_channels;
    }

unfoldable pub unsubscribe_room_safe : Text → PubSub → PubSub
unfolding channel_key decr
unsubscribe_room_safe roomid s = elim (s.global_room_ref_count roomid) [
  | none ↦ s
  | some n ↦
      if is_zero (decr n)
      then record s {
        global_room_ref_count = update text_dec s.global_room_ref_count roomid none;
        pending_unsub_channels = s.pending_unsub_channels ++ channel_key roomid ∷ [];
      }
      else record s {
        global_room_ref_count = update text_dec s.global_room_ref_count roomid (some (decr n));
      }
]

-- sw::redis::Subscriber: its channels, and what a call that does not throw makes of them.
pub record Subscriber : Type 1 where
  pub Sub : Type 0
  pub subscribed : Sub → Text → Bool
  pub subscribe : List Text → Sub → Sub
  pub unsubscribe : List Text → Sub → Sub
  pub subscribed-subscribe :
      (cs : List Text) (s : Sub) (c : Text)
      → subscribed (subscribe cs s) c ≡ contains text_dec c cs || subscribed s c
  pub subscribed-unsubscribe :
      (cs : List Text) (s : Sub) (c : Text)
      → subscribed (unsubscribe cs s) c ≡ (if contains text_dec c cs then false else subscribed s c)

-- Which call of a round throws; a call that throws leaves the subscriber as it was.
pub data Fault : Type 0 where
  no_fault subscribe_throws unsubscribe_throws : Fault

-- The block of ConsumLoop under the lock: what is left when both lists are moved out.
unfoldable pub take_pending : PubSub → PubSub
take_pending s = record s { pending_sub_channels = []; pending_unsub_channels = [] }

module _ (redis : Subscriber) where
  open redis use {Sub, subscribe, unsubscribe}

  abbrev pub subscribe_some : List Text → Sub → Sub
  subscribe_some [] c = c
  subscribe_some (x ∷ xs) c = subscribe (x ∷ xs) c

  abbrev pub unsubscribe_some : List Text → Sub → Sub
  unsubscribe_some [] c = c
  unsubscribe_some (x ∷ xs) c = unsubscribe (x ∷ xs) c

  -- One round of ConsumLoop up to `consume`: both lists are moved out under the lock, then the
  -- channels are subscribed, then unsubscribed. An exception ends the round.
  unfoldable pub consume_round : Fault → PubSub → Sub → PubSub × Sub
  consume_round fault s c =
      let rest = take_pending s in
      elim fault [
        | no_fault ↦ (
          rest,
          unsubscribe_some s.pending_unsub_channels (subscribe_some s.pending_sub_channels c),
        )
        | subscribe_throws ↦ (rest, c)
        | unsubscribe_throws ↦ (rest, subscribe_some s.pending_sub_channels c)
      ]
