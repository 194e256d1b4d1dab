-- ===== src/PubSub/Flush.antt =====
-- Whether the channels that Redis sends are those of the rooms that have members.
use dpush.Base.{
  pos, ◌≡◌, refl, List, [], ◌∷◌, some, false, ◌||◌, ◌&&◌, not, Text, text_dec, contains,
  if◌then◌else◌, ◌∙◌, ap,
}
use dpush.PubSub.{
  PubSub, channel_key, Subscriber, no_fault, consume_round, subscribe_some, unsubscribe_some,
}
use dpush.PubSub.Calls.{
  room, wanted, Call, subscribe, unsubscribe, run, IsPositive, Tracks, Tells, run-Tracks, settled,
  told, room-rejoin,
}

module _ (redis : Subscriber) where
  open redis use {Sub, subscribed, subscribed-subscribe, subscribed-unsubscribe}

  -- Nothing is pending, every entry is positive, and Redis sends the channels of the wanted rooms.
  pub record IsSynced (s : PubSub) (c : Sub) : Type 0 where
    pub no_sub : s.pending_sub_channels ≡ []
    pub no_unsub : s.pending_unsub_channels ≡ []
    pub positive : (r : Text) → IsPositive (s.global_room_ref_count r)
    pub agrees : (r : Text) → subscribed c (channel_key r) ≡ wanted (room s r)

  IsSynced-Tracks :
      (s : PubSub) (c : Sub) (r : Text) → IsSynced s c → Tracks (wanted (room s r)) (room s r)
  unfolding Tracks Tells contains
  IsSynced-Tracks s c r sync = rw (sync.no_sub, sync.no_unsub) (sync.positive r, refl)

  subscribed-subscribe_some :
      (cs : List Text) (c : Sub) (ch : Text)
      → subscribed (subscribe_some redis cs c) ch ≡ contains text_dec ch cs || subscribed c ch
  unfolding contains
  subscribed-subscribe_some [] c ch = refl
  subscribed-subscribe_some (x ∷ xs) c ch = subscribed-subscribe (x ∷ xs) c ch

  subscribed-unsubscribe_some :
      (cs : List Text) (c : Sub) (ch : Text)
      → subscribed (unsubscribe_some redis cs c) ch
        ≡ (if contains text_dec ch cs then false else subscribed c ch)
  unfolding contains
  subscribed-unsubscribe_some [] c ch = refl
  subscribed-unsubscribe_some (x ∷ xs) c ch = subscribed-unsubscribe (x ∷ xs) c ch

  subscribed-consume_round :
      (s : PubSub) (c : Sub) (r : Text)
      → subscribed (consume_round redis no_fault s c).1 (channel_key r) ≡ (
          if (room s r).unsub_pending
          then false
          else (room s r).sub_pending || subscribed c (channel_key r))
  unfolding consume_round
  subscribed-consume_round s c r =
      let after = subscribe_some redis s.pending_sub_channels c in
      rw (
        subscribed-unsubscribe_some s.pending_unsub_channels after (channel_key r),
        subscribed-subscribe_some s.pending_sub_channels c (channel_key r),
      )

  -- After any calls from a synced state, the next round, if no command of it throws, leaves a room's
  -- channel subscribed exactly if the room is wanted and its channel was not in both lists. Synced: nothing
  -- is pending, every count is positive, and Redis sends the channels of the wanted rooms.
  pub subscribed-run :
      (calls : List Call) (s : PubSub) (c : Sub) (r : Text)
      → IsSynced s c
      → let m = room (run calls s) r in
        subscribed (consume_round redis no_fault (run calls s) c).1 (channel_key r)
        ≡ wanted m && not (m.sub_pending && m.unsub_pending)
  subscribed-run calls s c r sync =
      let m = room (run calls s) r in
      let before = wanted (room s r) in
      subscribed-consume_round (run calls s) c r
      ∙ ap (λ b. if m.unsub_pending then false else m.sub_pending || b) (sync.agrees r)
      ∙ settled m.sub_pending m.unsub_pending before (wanted m)
          (told m before (run-Tracks calls s r before (IsSynced-Tracks s c r sync)))

  -- A room that the last loop leaves and a loop joins again between two rounds is wanted and not
  -- subscribed after the round, as long as no loop calls again.
  rejoin_loses :
      (s : PubSub) (c : Sub) (r : Text)
      → IsSynced s c
      → s.global_room_ref_count r ≡ some (pos 1)
      → let s' = run (unsubscribe r ∷ subscribe r ∷ []) s in
        (s'.global_room_ref_count r ≡ some (pos 1))
        × (subscribed (consume_round redis no_fault s' c).1 (channel_key r) ≡ false)
  rejoin_loses s c r sync one =
      let now = room-rejoin s r one in
      let s' = run (unsubscribe r ∷ subscribe r ∷ []) s in
      (
        ap (λ m. m.count) now,
        subscribed-consume_round s' c r
            ∙ ap
                (λ m.
                  if m.unsub_pending then false else m.sub_pending || subscribed c (channel_key r))
                now,
      )
