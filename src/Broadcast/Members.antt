-- ===== src/Broadcast/Members.antt =====
-- A message that is published to a room goes to the room's members in a loop.
use dpush.Base.{
  ℕ, suc, ◌*◌, ◌^◌, ◌<◌, ◌≤◌, ◌≡◌, refl, sym, ap, subst, ◌∙◌, List, [], ◌∷◌, ◌++◌, Option, none,
  some, Bool, Text, length, arith, map, append-nil, length-map,
}
use dpush.Broadcast.{Uring, existing, broadcast_in_loop, on_published, new_uring}
use dpush.Broadcast.Starts.{deliveries, to_each}
use dpush.Frame.{build_frame}
use dpush.PubSub.{channel_key, room_of_channel}
use dpush.Rooms.{Loop}
use dpush.Broadcast.Reset.{AreReset}
use dpush.Broadcast.Events.{Event, run, AllSucceed}
use dpush.Broadcast.Cleaned.{run-AreReset}
use dpush.Broadcast.Chunks.{drain, IsQuiet, task_at, drain-idle, send_chunk-all}

room_of_channel-channel_key : (roomid : Text) → room_of_channel (channel_key roomid) ≡ roomid
unfolding room_of_channel channel_key
room_of_channel-channel_key roomid = refl

length-existing : (conns : List (Option ℕ)) → length (existing conns) ≤ length conns
unfolding existing
length-existing [] = omega arith
length-existing (none ∷ conns) = omega (arith, length-existing conns)
length-existing (some conn ∷ conns) = omega (arith, length-existing conns)

broadcast_in_loop-all :
    (connected : ℕ → Bool) (message : Text)
    → 0 < length message
    → length message < 2 ^ 64
    → (k : ℕ) (conns : List (Option ℕ)) (u : Uring) → length conns ≤ 300 * suc k
    → length conns ≤ u.room
    → IsQuiet u
    → deliveries (drain connected k (broadcast_in_loop connected conns message u)).submitted
      ≡ deliveries u.submitted ++ to_each connected message (existing conns)
unfolding broadcast_in_loop existing task_at
broadcast_in_loop-all connected message some_bytes short k [] u few room quiet =
    ap (λ v. deliveries v.submitted)
      (drain-idle connected message some_bytes short k u quiet.nothing_queued)
    ∙ sym (append-nil (deliveries u.submitted))
broadcast_in_loop-all connected message some_bytes short k (conn ∷ conns) u few room quiet =
    let fewer = length-existing (conn ∷ conns) in
    send_chunk-all connected message some_bytes short k (existing (conn ∷ conns)) 0 u
      (omega (arith, few, fewer)) (omega (arith, room, fewer)) quiet

frame_some : (msg : Text) → 0 < length (build_frame msg 2)
unfolding build_frame
frame_some msg = omega arith

-- A message that is published on the channel of a room, of whose members a loop has some, and no more
-- than its ring has room for, where the ring started new and has had any events, none of them a completion
-- that is a failure or of an entry that was not filled, and where no entry waits to be submitted and no
-- functor to be run: once the loop has run the functors that it queues, the ring has been given the whole frame once for each member whose connection is up,
-- in their order, and nothing more.
pub on_published-members :
    (connected : ℕ → Bool) (conn_of : ℕ → Option ℕ) (roomid msg : Text) (l : Loop)
    (sessions : List ℕ) (u : Uring) (k pool_size entries : ℕ) (es : List Event)
    → AllSucceed es
    → u ≡ run es (new_uring pool_size entries)
    → u.taken ≡ []
    → u.queued ≡ []
    → l.rooms roomid ≡ some sessions
    → length (build_frame msg 2) < 2 ^ 64
    → length sessions ≤ u.room
    → length sessions ≤ 300 * suc k
    → deliveries
        (drain connected k (on_published connected conn_of (channel_key roomid) msg l u)).submitted
      ≡ deliveries u.submitted
        ++ to_each connected (build_frame msg 2) (existing (map conn_of sessions))
unfolding on_published
on_published-members connected conn_of roomid msg l sessions u k pool_size entries es all reached
      taken queued e short room few =
    let quiet : IsQuiet u = record {
      nothing_taken = taken;
      nothing_queued = queued;
      are_reset = subst AreReset (sym reached) (run-AreReset pool_size entries es all);
    } in
    let frame = build_frame msg 2 in
    let conns = map conn_of sessions in
    let called : on_published connected conn_of (channel_key roomid) msg l u
        ≡ broadcast_in_loop connected conns frame u =
      rw (on_published, room_of_channel-channel_key roomid, e) refl in
    ap (λ v. deliveries (drain connected k v).submitted) called
    ∙ broadcast_in_loop-all connected frame (frame_some msg) short k conns u
        (omega (arith, few, length-map sessions conn_of))
        (omega (arith, room, length-map sessions conn_of)) quiet
