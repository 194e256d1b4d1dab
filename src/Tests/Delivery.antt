-- ===== src/Tests/Delivery.antt =====
-- Two users on two loops, and a user with two connections.
use dpush.Base.{
  ℕ, ℤ, ℤ_dec, ℕ_discrete, pos, ◌%◌, ◌≡◌, ◌≢◌, refl, List, [], ◌∷◌, ◌++◌, some, codes, arith,
}
use dpush.Rooms.{erase_conn, leave_rooms, close_session}
use dpush.Delivery.{
  Delivery, at_start, send_single_msg, send_to_user, run_queued, on_upgrade, on_close, Event,
  upgrades, requests, runs, step, run,
}
use dpush.Delivery.Messages.{to_session, for_user, asked}
use dpush.Delivery.Served.{run-served}
use dpush.Delivery.Forgotten.{on_close-forgets}

program : Unit {0}
unfolding ℤ_dec ℕ_discrete erase_conn leave_rooms close_session send_single_msg send_to_user
    run_queued on_upgrade on_close step run
program = tt

-- Sessions 11 and 31 are of user 1, session 12 of user 2; the odd ones are in loop 1.
abbrev userid : ℕ → ℤ
userid s = pos (s % 10)

abbrev loop_of : ℕ → ℕ
loop_of s = s % 2

abbrev before : List Event
before = upgrades 12 ∷ requests (pos 1) (codes "lost") ∷ []

abbrev later : List Event
later =
    requests (pos 1) (codes "a")
    ∷ requests (pos 2) (codes "b")
    ∷ runs 1
    ∷ requests (pos 1) (codes "c")
    ∷ runs 0
    ∷ []

abbrev upgraded : Delivery
upgraded = on_upgrade userid loop_of 11 (run userid loop_of before at_start)

one_sent : (run userid loop_of later upgraded).sent ≡ (11, codes "a") ∷ (12, codes "b") ∷ []
unfolding program
one_sent = refl

run-served_example :
    to_session 11 (run userid loop_of later upgraded).sent
      ++ for_user (userid 11) ((run userid loop_of later upgraded).queued (loop_of 11))
    ≡ (to_session 11 (run userid loop_of before at_start).sent
        ++ for_user (userid 11) ((run userid loop_of before at_start).queued (loop_of 11)))
      ++ asked (userid 11) later
run-served_example = run-served userid loop_of 11 before later tt

abbrev closed : Delivery
closed =
    on_close userid loop_of 11
      (on_upgrade userid loop_of 31 (on_upgrade userid loop_of 11 at_start))

others : ◌≢◌ {A = ℕ} 11 31
others e = ground (arith, e)

on_close-forgets_example :
    (send_single_msg (userid 31) (codes "a") closed ≡ closed)
    × ((closed.loops (loop_of 31)).conns (userid 31) ≡ some 31)
on_close-forgets_example = on_close-forgets userid loop_of 31 11 (codes "a") at_start refl others
