-- ===== src/PubSub/Calls.antt =====
-- What calls of SubscribeRoomSafe and UnSubscribeRoomSafe do to the count and the lists of one room.
use dpush.Base.{
  ℤ, pos, zero, suc, negsuc, incr, decr, is_zero, is_one, ◌≡◌, ◌≢◌, refl, List, [], ◌∷◌, Option,
  none, some, Bool, true, false, ite, ◌||◌, ◌&&◌, not, Text, text_dec, contains, if◌then◌else◌,
  arith, if_pos, if_neg, ◌∙◌, ap,
}
use dpush.PubSub.{PubSub, channel_key, subscribe_room_safe, unsubscribe_room_safe, count_or_zero}
use dpush.PubSub.Channels.{contains-channel_key}

-- What the shared state holds of one room: its count, and whether its channel is in the lists.
pub record Room : Type 0 where
  pub count : Option ℤ
  pub sub_pending : Bool
  pub unsub_pending : Bool

abbrev pub room : PubSub → Text → Room
room s r = record {
  count = s.global_room_ref_count r;
  sub_pending = contains text_dec (channel_key r) s.pending_sub_channels;
  unsub_pending = contains text_dec (channel_key r) s.pending_unsub_channels;
}

-- A room is wanted while it has an entry.
abbrev pub wanted : Room → Bool
wanted m = elim m.count [ none ↦ false | some n ↦ true ]

pub data Call : Type 0 where
  subscribe unsubscribe : Text → Call

abbrev pub step : Call → PubSub → PubSub
step (subscribe r) s = subscribe_room_safe r s
step (unsubscribe r) s = unsubscribe_room_safe r s

unfoldable pub run : List Call → PubSub → PubSub
run [] s = s
run (c ∷ calls) s = run calls (step c s)

-- The calls seen from one room.
join : Room → Room
join m = record {
  count = some (incr (count_or_zero m.count));
  sub_pending = if is_one (incr (count_or_zero m.count)) then true else m.sub_pending;
  unsub_pending = m.unsub_pending;
}

leave : Room → Room
leave m = elim m.count [
  | none ↦ m
  | some n ↦
      if is_zero (decr n)
      then record m { count = none; unsub_pending = true }
      else record m { count = some (decr n) }
]

seen : Call → Text → Room → Room
seen (subscribe q) r m = ite (text_dec q r) (join m) m
seen (unsubscribe q) r m = ite (text_dec q r) (leave m) m

seen-subscribe_other :
    (s : PubSub) (q r : Text) → q ≢ r → room (subscribe_room_safe q s) r ≡ room s r
unfolding subscribe_room_safe
seen-subscribe_other s q r h = ground (arith, contains-channel_key r q s.pending_sub_channels)

seen-subscribe_self : (s : PubSub) (r : Text) → room (subscribe_room_safe r s) r ≡ join (room s r)
unfolding subscribe_room_safe join
seen-subscribe_self s r = ground (arith, contains-channel_key r r s.pending_sub_channels)

seen-unsubscribe_other :
    (s : PubSub) (q r : Text) → q ≢ r → room (unsubscribe_room_safe q s) r ≡ room s r
unfolding unsubscribe_room_safe
seen-unsubscribe_other s q r h = ground (arith, contains-channel_key r q s.pending_unsub_channels)

seen-unsubscribe_self :
    (s : PubSub) (r : Text) → room (unsubscribe_room_safe r s) r ≡ leave (room s r)
unfolding unsubscribe_room_safe leave
seen-unsubscribe_self s r = ground (arith, contains-channel_key r r s.pending_unsub_channels)

room-step : (c : Call) (s : PubSub) (r : Text) → room (step c s) r ≡ seen c r (room s r)
unfolding seen
room-step (subscribe q) s r = elim (text_dec q r) [
  | yes same ↦ rw (if_pos _ same, same) (seen-subscribe_self s r)
  | no other ↦ rw (if_neg _ other) (seen-subscribe_other s q r other)
]
room-step (unsubscribe q) s r = elim (text_dec q r) [
  | yes same ↦ rw (if_pos _ same, same) (seen-unsubscribe_self s r)
  | no other ↦ rw (if_neg _ other) (seen-unsubscribe_other s q r other)
]

-- What the lists tell of a room that was wanted (`before`) when they were empty.
unfoldable pub Tells : Bool → Bool → Bool → Bool → Type 0
Tells false false before now = now ≡ before
Tells true false before now = (before ≡ false) × (now ≡ true)
Tells false true before now = (before ≡ true) × (now ≡ false)
Tells true true before now = Unit {0}

-- Every entry counts at least one loop.
abbrev pub is_positive : Option ℤ → Bool
is_positive none = true
is_positive (some (pos zero)) = false
is_positive (some (pos (suc n))) = true
is_positive (some (negsuc n)) = false

abbrev pub IsPositive : Option ℤ → Type 0
IsPositive o = is_positive o ≡ true

unfoldable pub Tracks : Bool → Room → Type 0
Tracks before m = IsPositive m.count × Tells m.sub_pending m.unsub_pending before (wanted m)

join-Tracks :
    (count : Option ℤ) (sub unsub before : Bool)
    → Tracks before (record { count = count; sub_pending = sub; unsub_pending = unsub })
    → Tracks before (join (record { count = count; sub_pending = sub; unsub_pending = unsub }))
unfolding Tracks Tells join incr
join-Tracks none false false before (p, t) = (refl, ground arith)
join-Tracks none false true before (p, t) = (refl, tt)
join-Tracks none true false before (p, t) = (refl, ground arith)
join-Tracks none true true before (p, t) = (refl, tt)
join-Tracks (some (pos zero)) sub unsub before (p, t) = absurd (cc p)
join-Tracks (some (negsuc n)) sub unsub before (p, t) = absurd (cc p)
join-Tracks (some (pos (suc n))) sub unsub before (p, t) = (refl, t)

leave-Tracks :
    (count : Option ℤ) (sub unsub before : Bool)
    → Tracks before (record { count = count; sub_pending = sub; unsub_pending = unsub })
    → Tracks before (leave (record { count = count; sub_pending = sub; unsub_pending = unsub }))
unfolding Tracks Tells leave decr
leave-Tracks none sub unsub before t = t
leave-Tracks (some (pos zero)) sub unsub before (p, t) = absurd (cc p)
leave-Tracks (some (negsuc n)) sub unsub before (p, t) = absurd (cc p)
leave-Tracks (some (pos (suc (suc n)))) sub unsub before (p, t) = (refl, t)
leave-Tracks (some (pos (suc zero))) false false before (p, t) = (refl, ground arith)
leave-Tracks (some (pos (suc zero))) false true before (p, t) = (refl, ground arith)
leave-Tracks (some (pos (suc zero))) true false before (p, t) = (refl, tt)
leave-Tracks (some (pos (suc zero))) true true before (p, t) = (refl, tt)

seen-Tracks :
    (c : Call) (r : Text) (before : Bool) (m : Room) → Tracks before m → Tracks before (seen c r m)
unfolding seen
seen-Tracks (subscribe q) r before m t = elim (text_dec q r) [
  | yes same ↦ rw (if_pos _ same) (join-Tracks m.count m.sub_pending m.unsub_pending before t)
  | no other ↦ rw (if_neg _ other) t
]
seen-Tracks (unsubscribe q) r before m t = elim (text_dec q r) [
  | yes same ↦ rw (if_pos _ same) (leave-Tracks m.count m.sub_pending m.unsub_pending before t)
  | no other ↦ rw (if_neg _ other) t
]

pub run-Tracks :
    (calls : List Call) (s : PubSub) (r : Text) (before : Bool)
    → Tracks before (room s r)
    → Tracks before (room (run calls s) r)
unfolding run
run-Tracks [] s r before t = t
run-Tracks (c ∷ calls) s r before t =
    run-Tracks calls (step c s) r before
      (rw (room-step c s r) (seen-Tracks c r before (room s r) t))

pub room-rejoin :
    (s : PubSub) (r : Text)
    → s.global_room_ref_count r ≡ some (pos 1)
    → room (run (unsubscribe r ∷ subscribe r ∷ []) s) r
      ≡ record { count = some (pos 1); sub_pending = true; unsub_pending = true }
unfolding run seen join leave incr decr
room-rejoin s r one =
    room-step (subscribe r) (step (unsubscribe r) s) r
    ∙ ap (seen (subscribe r) r) (room-step (unsubscribe r) s r)
    ∙ ground arith

pub settled :
    (sub unsub before now : Bool)
    → Tells sub unsub before now
    → (if unsub then false else sub || before) ≡ now && not (sub && unsub)
unfolding Tells
settled false false before now t = ground arith
settled false true before now t = ground arith
settled true false before now t = ground arith
settled true true before now t = ground arith

pub told :
    (m : Room) (before : Bool)
    → Tracks before m
    → Tells m.sub_pending m.unsub_pending before (wanted m)
unfolding Tracks
told m before t = t.1
