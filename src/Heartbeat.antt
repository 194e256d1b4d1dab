-- ===== src/Heartbeat.antt =====
-- The wheel of an io loop that closes silent sessions,
-- server/src/services/Gateway/server/heartbeatManager.cc.
--
-- A session has one entry at most: its context keeps a weak pointer to it, and the buckets of the wheel
-- own it. So an entry is named by its session, and it dies, closing the session, when the last bucket
-- that holds it is emptied. The number of buckets, 100 in the source, is the parameter `size`.
pub mod Waits
pub mod Silence
use dpush.Base.{
  ℕ, zero, suc, ◌+◌, ◌-◌, ◌%◌, List, [], ◌∷◌, Bool, true, false, not, ◌&&◌, ◌||◌, ◌==◌,
  if◌then◌else◌,
}

-- wheel_ and current_index_: which sessions have their entry in which bucket.
pub record Wheel : Type 0 where
  pub holds : ℕ → ℕ → Bool
  pub current_index : ℕ

abbrev pub new_wheel : Wheel
new_wheel = record { holds = λ bucket session. false; current_index = 0 }

-- Whether one of the first buckets holds the entry of a session.
unfoldable pub held : ℕ → (ℕ → ℕ → Bool) → ℕ → Bool
held zero holds session = false
held (suc n) holds session = holds n session || held n holds session

pub data Event : Type 0 where
  tick : Event
  ping : ℕ → Event

module _ (size : ℕ) where
  -- onTimerTick: the wheel, and the sessions that are closed.
  unfoldable pub on_timer_tick : Wheel → Wheel × (ℕ → Bool)
  on_timer_tick w =
      let index = (w.current_index + 1) % size in
      let emptied : ℕ → ℕ → Bool =
        λ bucket session. if bucket == index then false else w.holds bucket session in
      (
        record { holds = emptied; current_index = index },
        λ session. w.holds index session && not (held size emptied session),
      )

  -- onMessagePing
  unfoldable pub on_message_ping : ℕ → Wheel → Wheel
  on_message_ping session w =
      let newest_idx = (w.current_index + size - 1) % size in
      record w {
        holds = λ bucket other.
            if bucket == newest_idx && other == session then true else w.holds bucket other;
      }

  -- Whether a session is closed in a run of events.
  unfoldable pub is_closed : ℕ → List Event → Wheel → Bool
  is_closed session [] w = false
  is_closed session (tick ∷ events) w =
      let (after, closes) = on_timer_tick w in closes session || is_closed session events after
  is_closed session (ping other ∷ events) w = is_closed session events (on_message_ping other w)
