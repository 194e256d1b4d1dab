-- ===== src/Delivery/Owners.antt =====
-- A loop holds under each user a session of that user, and of its own.
use dpush.Base.{
  ℕ, ℤ, ℤ_dec, ℕ_discrete, ◌≡◌, ◌≢◌, refl, sym, ap, ◌∙◌, subst, List, [], ◌∷◌, none, some, ◌⊎◌,
  false, ◌==◌, Text, update, update_self, update_ne, arith, map, Option-cases, Bool-cases,
  List-cases, inl, inr,
}
use dpush.Rooms.{Loop, index_of, leave_room, leave_rooms, erase_conn, close_session, take_out}
use dpush.Delivery.{
  Delivery, at_start, set_loop, set_queue, send_single_msg, send_to_user, run_queued, on_upgrade,
  on_close, Event, upgrades, closes, requests, runs, step, run,
}

leave_room-conns :
    (session : ℕ) (r : Text) (index : ℤ) (l : Loop)
    → (leave_room session r index l).0.conns ≡ l.conns
unfolding leave_room
leave_room-conns session r index l = elim (Option-cases (l.rooms r)) [
  | inl e ↦ rw (e, leave_room) refl
  | inr (room, e) ↦ elim (List-cases (take_out session r index room l.joined_rooms).0) [
    | inl f ↦ rw (e, leave_room, f) refl
    | inr (x, (xs, f)) ↦ rw (e, leave_room, f) refl
  ]
]

leave_rooms-conns :
    (session : ℕ) (rs : List Text) (l : Loop) → (leave_rooms session rs l).0.conns ≡ l.conns
unfolding leave_rooms
leave_rooms-conns session [] l = refl
leave_rooms-conns session (r ∷ rs) l = elim (Option-cases (index_of r (l.joined_rooms session))) [
  | inl e ↦ rw (e, leave_rooms) (leave_rooms-conns session rs l)
  | inr (index, e) ↦
      rw (e, leave_rooms)
        (leave_rooms-conns session rs (leave_room session r index l).0
          ∙ leave_room-conns session r index l)
]

erase_conn-or :
    (u : ℤ) (session : ℕ) (l : Loop)
    → (erase_conn u session l ≡ l)
      ⊎ (erase_conn u session l ≡ record l { conns = update ℤ_dec l.conns u none })
unfolding erase_conn
erase_conn-or u session l = elim (Option-cases (l.conns u)) [
  | inl e ↦ inl (rw (e, erase_conn) refl)
  | inr (other, e) ↦ elim (Bool-cases (other == session)) [
    | inl f ↦ inr (rw (e, erase_conn, f) refl)
    | inr f ↦ inl (rw (e, erase_conn, f) refl)
  ]
]

erase_conn-some :
    (u : ℤ) (session : ℕ) (l : Loop) (v : ℤ) (t : ℕ)
    → (erase_conn u session l).conns v ≡ some t
    → l.conns v ≡ some t
erase_conn-some u session l v t e = elim (erase_conn-or u session l) [
  | inl same ↦ sym (ap (λ (m : Loop). m.conns v) same) ∙ e
  | inr erased ↦
      let now : update ℤ_dec l.conns u none v ≡ some t =
        sym (ap (λ (m : Loop). m.conns v) erased) ∙ e in
      elim (ℤ_dec u v) [
        | yes here ↦
            let gone : update ℤ_dec l.conns u none v ≡ none =
              subst (λ w. update ℤ_dec l.conns u none w ≡ none) here
                (update_self ℤ_dec l.conns u none) in
            absurd (cc (now, gone))
        | no other ↦ sym (update_ne ℤ_dec l.conns u v none other) ∙ now
      ]
]

erase_conn_ne :
    (u : ℤ) (session : ℕ) (l : Loop) (v : ℤ) → u ≢ v → (erase_conn u session l).conns v ≡ l.conns v
erase_conn_ne u session l v other = elim (erase_conn-or u session l) [
  | inl same ↦ ap (λ (m : Loop). m.conns v) same
  | inr erased ↦ ap (λ (m : Loop). m.conns v) erased ∙ update_ne ℤ_dec l.conns u v none other
]

-- A session that closes leaves the entry of another session of the user.
erase_conn_other :
    (u : ℤ) (session : ℕ) (l : Loop) (v : ℤ) (t : ℕ)
    → session ≢ t
    → l.conns v ≡ some t
    → (erase_conn u session l).conns v ≡ some t
unfolding erase_conn
erase_conn_other u session l v t other e = elim (ℤ_dec u v) [
  | yes same ↦
      let held : l.conns u ≡ some t = ap l.conns same ∙ e in
      let not_own : (t == session) ≡ false = ground (arith, other) in
      let kept : erase_conn u session l ≡ l = rw (held, erase_conn, not_own) refl in
      ap (λ (m : Loop). m.conns v) kept ∙ e
  | no differs ↦ erase_conn_ne u session l v differs ∙ e
]

pub close_session_other :
    (u : ℤ) (session : ℕ) (l : Loop) (v : ℤ) (t : ℕ)
    → session ≢ t
    → l.conns v ≡ some t
    → (close_session u session l).0.conns v ≡ some t
unfolding close_session
close_session_other u session l v t other e =
    ap (λ c. c v)
      (leave_rooms-conns session (map (λ j. j.0) (l.joined_rooms session)) (erase_conn u session l))
    ∙ erase_conn_other u session l v t other e

pub close_session_ne :
    (u : ℤ) (session : ℕ) (l : Loop) (v : ℤ)
    → u ≢ v
    → (close_session u session l).0.conns v ≡ l.conns v
unfolding close_session
close_session_ne u session l v other =
    ap (λ c. c v)
      (leave_rooms-conns session (map (λ e. e.0) (l.joined_rooms session)) (erase_conn u session l))
    ∙ erase_conn_ne u session l v other

close_session-some :
    (u : ℤ) (session : ℕ) (l : Loop) (v : ℤ) (t : ℕ)
    → (close_session u session l).0.conns v ≡ some t
    → l.conns v ≡ some t
unfolding close_session
close_session-some u session l v t e = erase_conn-some u session l v t (
    sym (
      ap (λ c. c v)
        (leave_rooms-conns session (map (λ j. j.0) (l.joined_rooms session))
          (erase_conn u session l)))
    ∙ e)

-- A request and its functor change no loop.
pub send_single_msg-loops :
    (u : ℤ) (m : Text) (d : Delivery) → (send_single_msg u m d).loops ≡ d.loops
unfolding send_single_msg
send_single_msg-loops u m d = elim (Option-cases (d.user_event_loop u)) [
  | inl e ↦ rw (e, send_single_msg) refl
  | inr (i, e) ↦ rw (e, send_single_msg) refl
]

send_to_user-loops :
    (i : ℕ) (u : ℤ) (m : Text) (d : Delivery) → (send_to_user i u m d).loops ≡ d.loops
unfolding send_to_user
send_to_user-loops i u m d = elim (Option-cases ((d.loops i).conns u)) [
  | inl e ↦ rw (e, send_to_user) refl
  | inr (t, e) ↦ rw (e, send_to_user) refl
]

pub run_queued-loops : (i : ℕ) (d : Delivery) → (run_queued i d).loops ≡ d.loops
unfolding run_queued
run_queued-loops i d = elim (List-cases (d.queued i)) [
  | inl e ↦ rw (e, run_queued) refl
  | inr ((u, m), (q, e)) ↦ rw (e, run_queued) (send_to_user-loops i u m (set_queue i q d))
]

module _ (userid : ℕ → ℤ) (loop_of : ℕ → ℕ) where
  abbrev pub IsOwned : Delivery → Type 0
  IsOwned d =
      (i : ℕ) (v : ℤ) (t : ℕ) → (d.loops i).conns v ≡ some t → (userid t ≡ v) × (loop_of t ≡ i)

  set_loop-IsOwned :
      (i : ℕ) (l : Loop) (d : Delivery)
      → ((v : ℤ) (t : ℕ) → l.conns v ≡ some t → (userid t ≡ v) × (loop_of t ≡ i))
      → IsOwned d
      → IsOwned (set_loop i l d)
  set_loop-IsOwned i l d here h j v t e = elim (ℕ_discrete i j) [
    | yes same ↦
        let now : update ℕ_discrete d.loops i l j ≡ l =
          subst (λ k. update ℕ_discrete d.loops i l k ≡ l) same
            (update_self ℕ_discrete d.loops i l) in
        let own = here v t (sym (ap (λ (m : Loop). m.conns v) now) ∙ e) in (own.0, own.1 ∙ same)
    | no other ↦
        h j v t (sym (ap (λ (m : Loop). m.conns v) (update_ne ℕ_discrete d.loops i j l other)) ∙ e)
  ]

  on_upgrade-IsOwned :
      (session : ℕ) (d : Delivery) → IsOwned d → IsOwned (on_upgrade userid loop_of session d)
  unfolding on_upgrade
  on_upgrade-IsOwned session d h =
      let i = loop_of session in
      let l = d.loops i in
      set_loop-IsOwned i (record l { conns = update ℤ_dec l.conns (userid session) (some session) })
        (record d { user_event_loop = update ℤ_dec d.user_event_loop (userid session) (some i) })
        (λ v t e. elim (ℤ_dec (userid session) v) [
          | yes same ↦
              let now : some session ≡ some t =
                sym (
                  subst (λ w. update ℤ_dec l.conns (userid session) (some session) w ≡ some session)
                    same (update_self ℤ_dec l.conns (userid session) (some session)))
                ∙ e in
              let it : session ≡ t = ground (arith, now) in
              subst (λ s. (userid s ≡ v) × (loop_of s ≡ i)) it (same, refl)
          | no other ↦
              h i v t (sym (update_ne ℤ_dec l.conns (userid session) v (some session) other) ∙ e)
        ])
        h

  on_close-IsOwned :
      (session : ℕ) (d : Delivery) → IsOwned d → IsOwned (on_close userid loop_of session d)
  unfolding on_close
  on_close-IsOwned session d h =
      let i = loop_of session in
      let l = d.loops i in
      set_loop-IsOwned i (close_session (userid session) session l).0
        (record d { user_event_loop = update ℤ_dec d.user_event_loop (userid session) none })
        (λ v t e. h i v t (close_session-some (userid session) session l v t e)) h

  pub step-IsOwned : (e : Event) (d : Delivery) → IsOwned d → IsOwned (step userid loop_of e d)
  unfolding step
  step-IsOwned (upgrades session) d h = on_upgrade-IsOwned session d h
  step-IsOwned (closes session) d h = on_close-IsOwned session d h
  step-IsOwned (requests u m) d h =
      subst
        (λ ls. (i : ℕ) (v : ℤ) (t : ℕ) → (ls i).conns v ≡ some t → (userid t ≡ v) × (loop_of t ≡ i))
        (sym (send_single_msg-loops u m d)) h
  step-IsOwned (runs i) d h =
      subst
        (λ ls. (j : ℕ) (v : ℤ) (t : ℕ) → (ls j).conns v ≡ some t → (userid t ≡ v) × (loop_of t ≡ j))
        (sym (run_queued-loops i d)) h

  pub run-IsOwned : (es : List Event) (d : Delivery) → IsOwned d → IsOwned (run userid loop_of es d)
  unfolding run
  run-IsOwned [] d h = h
  run-IsOwned (e ∷ es) d h = run-IsOwned es (step userid loop_of e d) (step-IsOwned e d h)

  pub at_start-IsOwned : IsOwned at_start
  at_start-IsOwned i v t e = cc e
