-- ===== src/Heartbeat/Silence.antt =====
-- When a session that has pinged is closed.
use native.Mathlib.Nat.{mod-lt, mod-eq_of_lt}
use dpush.Base.{
  ℕ, ◌+◌, ◌-◌, ◌%◌, ◌<◌, ◌≤◌, ◌≡◌, ◌≢◌, refl, sym, ap, ◌∙◌, List, [], ◌∷◌, false, leb, arith,
}
use dpush.Base.Wrap.{mod_apart}
use dpush.Heartbeat.{Wheel, new_wheel, on_timer_tick, on_message_ping, Event, tick, ping, is_closed}
use dpush.Heartbeat.Waits.{ticks, IsSilent, Waits, is_closed-Waits}

-- The bucket of the current index is empty.
abbrev pub IsTurned : ℕ → Wheel → Type 0
IsTurned size w =
    (w.current_index < size) × ((session : ℕ) → w.holds w.current_index session ≡ false)

module _ (size : ℕ) (some_buckets : 2 ≤ size) where
  -- The wheel after some events.
  abbrev pub turned : List Event → Wheel → Wheel
  turned [] w = w
  turned (tick ∷ events) w = turned events (on_timer_tick size w).0
  turned (ping session ∷ events) w = turned events (on_message_ping size session w)

  newest-ne : (i : ℕ) → i < size → (i + size - 1) % size ≢ i
  newest-ne i low e =
      mod_apart size i (i + size - 1) (omega (arith, some_buckets)) (omega (arith, some_buckets))
        (mod-eq_of_lt low ∙ sym e)

  on_timer_tick-IsTurned : (w : Wheel) → IsTurned size (on_timer_tick size w).0
  unfolding on_timer_tick
  on_timer_tick-IsTurned w =
      (mod-lt (w.current_index + 1) (omega (arith, some_buckets)), λ session. ground arith)

  on_message_ping-IsTurned :
      (session : ℕ) (w : Wheel) → IsTurned size w → IsTurned size (on_message_ping size session w)
  unfolding on_message_ping
  on_message_ping-IsTurned session w (low, empty) =
      (low, λ other. ground (arith, newest-ne w.current_index low, empty other))

  turned-IsTurned :
      (events : List Event) (w : Wheel) → IsTurned size w → IsTurned size (turned events w)
  turned-IsTurned [] w h = h
  turned-IsTurned (tick ∷ events) w h =
      turned-IsTurned events (on_timer_tick size w).0 (on_timer_tick-IsTurned w)
  turned-IsTurned (ping session ∷ events) w h =
      turned-IsTurned events (on_message_ping size session w) (on_message_ping-IsTurned session w h)

  on_message_ping-Waits :
      (session : ℕ) (w : Wheel)
      → IsTurned size w
      → Waits size session w.current_index 0 (on_message_ping size session w)
  unfolding on_message_ping
  on_message_ping-Waits session w (low, empty) =
      let whole : w.current_index + 0 ≡ w.current_index = omega arith in
      let here : (w.current_index + 0) % size ≡ w.current_index =
        ap (λ i. i % size) whole ∙ mod-eq_of_lt low in
      let shift : w.current_index + (size - 1) ≡ w.current_index + size - 1 =
        omega (arith, some_buckets) in
      let newest : (w.current_index + (size - 1)) % size ≡ (w.current_index + size - 1) % size =
        ap (λ i. i % size) shift in
      record {
        at = sym here;
        newest = ground (arith, newest);
        passed = λ j bound.
            let same : j ≡ 0 = omega (arith, bound) in
            let there : (w.current_index + j) % size ≡ w.current_index =
              ap (λ i. (w.current_index + i) % size) same ∙ here in
            ground (arith, there, newest-ne w.current_index low, empty session);
      }

  -- On a wheel of two buckets or more, after any events, a session that pings and then no more is
  -- closed in a run exactly if the run has at least one tick less than there are buckets,
  -- whatever other sessions do.
  pub is_closed-ticks :
      (before events : List Event) (session : ℕ)
      → IsSilent session events
      → is_closed size session events (on_message_ping size session (turned before new_wheel))
        ≡ leb (size - 1) (ticks events)
  is_closed-ticks before events session silent =
      let w = turned before new_wheel in
      let h = turned-IsTurned before new_wheel (omega (arith, some_buckets), λ other. refl) in
      is_closed-Waits size session w.current_index events 0 (on_message_ping size session w) h.0
        (omega (arith, some_buckets)) silent (on_message_ping-Waits session w h)
      ∙ ap (leb (size - 1)) (omega arith)
