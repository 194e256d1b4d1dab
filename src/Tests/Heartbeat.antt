-- ===== src/Tests/Heartbeat.antt =====
-- A wheel of four buckets with two sessions.
use dpush.Base.{◌-◌, ◌≤◌, ◌≡◌, refl, List, [], ◌∷◌, true, false, leb, arith}
use dpush.Heartbeat.{Event, tick, ping, new_wheel, held, on_timer_tick, on_message_ping, is_closed}
use dpush.Heartbeat.Waits.{ticks}
use dpush.Heartbeat.Silence.{turned, is_closed-ticks}

program : Unit {0}
unfolding held on_timer_tick on_message_ping is_closed
program = tt

abbrev before : List Event
before = ping 1 ∷ tick ∷ ping 2 ∷ tick ∷ []

abbrev later : List Event
later = tick ∷ ping 2 ∷ tick ∷ tick ∷ ping 2 ∷ []

-- the third tick closes the session 1, and 2 goes on pinging
closed : is_closed 4 1 (tick ∷ tick ∷ tick ∷ []) (on_message_ping 4 1 new_wheel) ≡ true
unfolding program
closed = refl

kept : is_closed 4 2 later (on_message_ping 4 2 new_wheel) ≡ false
unfolding program
kept = refl

some_buckets : 2 ≤ 4
some_buckets = omega arith

is_closed-ticks_example :
    is_closed 4 1 later (on_message_ping 4 1 (turned 4 some_buckets before new_wheel))
    ≡ leb (4 - 1) (ticks later)
is_closed-ticks_example =
    is_closed-ticks 4 some_buckets before later 1
      ((λ e. omega (arith, e)), ((λ e. omega (arith, e)), tt))
