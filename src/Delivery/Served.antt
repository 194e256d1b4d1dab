-- ===== src/Delivery/Served.antt =====
-- While no session of a user comes or goes, the user's messages reach the user's last session.
use dpush.Base.{
  ℕ, ℤ, ℤ_dec, ℕ_discrete, ◌≡◌, ◌≢◌, refl, sym, ap, ◌∙◌, subst, List, [], ◌∷◌, ◌++◌, some, Text,
  update, update_self, update_ne, ite, if_pos, if_neg, append-nil, append_assoc, none, Option-cases,
  List-cases, inl, inr,
}
use dpush.Rooms.{Loop, close_session}
use dpush.Delivery.{
  Delivery, at_start, set_loop, set_queue, send_to_user, send_single_msg, run_queued, on_upgrade,
  on_close, Event, upgrades, closes, requests, runs, step, run,
}
use dpush.Delivery.Owners.{
  IsOwned, close_session_ne, send_single_msg-loops, run_queued-loops, step-IsOwned, run-IsOwned,
  at_start-IsOwned,
}
use dpush.Delivery.Messages.{
  to_session, for_user, asked, Stays, Serves, books, run_queued-books, send_single_msg-books,
}

asked-cons :
    (u v : ℤ) (m : Text) (es : List Event)
    → ite (ℤ_dec v u) (m ∷ []) [] ++ asked u es ≡ asked u (requests v m ∷ es)
asked-cons u v m es = elim (ℤ_dec v u) [
  | yes same ↦
      ap (λ l. l ++ asked u es) (if_pos (ℤ_dec v u) same (m ∷ []) [])
      ∙ sym (if_pos (ℤ_dec v u) same (m ∷ asked u es) (asked u es))
  | no other ↦
      ap (λ l. l ++ asked u es) (if_neg (ℤ_dec v u) other (m ∷ []) [])
      ∙ sym (if_neg (ℤ_dec v u) other (m ∷ asked u es) (asked u es))
]

queues :
    (v : ℤ) (m : Text) (d : Delivery) (i : ℕ)
    → d.user_event_loop v ≡ some i
    → send_single_msg v m d ≡ set_queue i (d.queued i ++ (v, m) ∷ []) d
unfolding send_single_msg
queues v m d i e = rw (e, send_single_msg) refl

send_single_msg-map :
    (v : ℤ) (m : Text) (d : Delivery) → (send_single_msg v m d).user_event_loop ≡ d.user_event_loop
unfolding send_single_msg
send_single_msg-map v m d = elim (Option-cases (d.user_event_loop v)) [
  | inl e ↦ rw (e, send_single_msg) refl
  | inr (i, e) ↦ ap (λ (w : Delivery). w.user_event_loop) (queues v m d i e)
]

send_to_user-map :
    (j : ℕ) (v : ℤ) (m : Text) (d : Delivery)
    → (send_to_user j v m d).user_event_loop ≡ d.user_event_loop
unfolding send_to_user
send_to_user-map j v m d = elim (Option-cases ((d.loops j).conns v)) [
  | inl e ↦ rw (e, send_to_user) refl
  | inr (t, e) ↦ rw (e, send_to_user) refl
]

run_queued-map : (j : ℕ) (d : Delivery) → (run_queued j d).user_event_loop ≡ d.user_event_loop
unfolding run_queued
run_queued-map j d = elim (List-cases (d.queued j)) [
  | inl e ↦ rw (e, run_queued) refl
  | inr ((v, m), (q, e)) ↦ rw (e, run_queued) (send_to_user-map j v m (set_queue j q d))
]

module _ (userid : ℕ → ℤ) (loop_of : ℕ → ℕ) (s : ℕ) where
  -- A loop whose user's entry stays, in the place of another.
  conn_kept :
      (i : ℕ) (l : Loop) (d : Delivery)
      → l.conns (userid s) ≡ (d.loops i).conns (userid s)
      → (d.loops (loop_of s)).conns (userid s) ≡ some s
      → ((set_loop i l d).loops (loop_of s)).conns (userid s) ≡ some s
  conn_kept i l d same h = elim (ℕ_discrete i (loop_of s)) [
    | yes here ↦
        let now : update ℕ_discrete d.loops i l (loop_of s) ≡ l =
          subst (λ k. update ℕ_discrete d.loops i l k ≡ l) here
            (update_self ℕ_discrete d.loops i l) in
        ap (λ (k : Loop). k.conns (userid s)) now
        ∙ (same ∙ (ap (λ k. (d.loops k).conns (userid s)) here ∙ h))
    | no other ↦
        ap (λ (k : Loop). k.conns (userid s)) (update_ne ℕ_discrete d.loops i (loop_of s) l other)
        ∙ h
  ]

  on_upgrade-Serves :
      (t : ℕ) (d : Delivery)
      → userid t ≢ userid s
      → Serves userid loop_of s d
      → Serves userid loop_of s (on_upgrade userid loop_of t d)
  unfolding on_upgrade step
  on_upgrade-Serves t d other h =
      let i = loop_of t in
      let l = d.loops i in
      record {
        loop = update_ne ℤ_dec d.user_event_loop (userid t) (userid s) (some i) other ∙ h.loop;
        conn =
            conn_kept i (record l { conns = update ℤ_dec l.conns (userid t) (some t) }) d
              (update_ne ℤ_dec l.conns (userid t) (userid s) (some t) other) h.conn;
        owned = step-IsOwned userid loop_of (upgrades t) d h.owned;
      }

  on_close-Serves :
      (t : ℕ) (d : Delivery)
      → userid t ≢ userid s
      → Serves userid loop_of s d
      → Serves userid loop_of s (on_close userid loop_of t d)
  unfolding on_close step
  on_close-Serves t d other h =
      let i = loop_of t in
      record {
        loop = update_ne ℤ_dec d.user_event_loop (userid t) (userid s) none other ∙ h.loop;
        conn =
            conn_kept i (close_session (userid t) t (d.loops i)).0 d
              (close_session_ne (userid t) t (d.loops i) (userid s) other) h.conn;
        owned = step-IsOwned userid loop_of (closes t) d h.owned;
      }

  pub upgraded-Serves :
      (d : Delivery)
      → IsOwned userid loop_of d
      → Serves userid loop_of s (on_upgrade userid loop_of s d)
  unfolding on_upgrade step
  upgraded-Serves d owned =
      let i = loop_of s in
      let l = d.loops i in
      let l' = record l { conns = update ℤ_dec l.conns (userid s) (some s) } in
      record {
        loop = update_self ℤ_dec d.user_event_loop (userid s) (some i);
        conn =
            ap (λ (k : Loop). k.conns (userid s)) (update_self ℕ_discrete d.loops i l')
            ∙ update_self ℤ_dec l.conns (userid s) (some s);
        owned = step-IsOwned userid loop_of (upgrades s) d owned;
      }

  on_upgrade-books :
      (t : ℕ) (d : Delivery)
      → books userid loop_of s (on_upgrade userid loop_of t d) ≡ books userid loop_of s d
  unfolding on_upgrade
  on_upgrade-books t d = refl

  on_close-books :
      (t : ℕ) (d : Delivery)
      → books userid loop_of s (on_close userid loop_of t d) ≡ books userid loop_of s d
  unfolding on_close
  on_close-books t d = refl

  requested-Serves :
      (v : ℤ) (m : Text) (d : Delivery)
      → Serves userid loop_of s d
      → Serves userid loop_of s (send_single_msg v m d)
  unfolding step
  requested-Serves v m d h = record {
    loop = ap (λ k. k (userid s)) (send_single_msg-map v m d) ∙ h.loop;
    conn = ap (λ ls. (ls (loop_of s)).conns (userid s)) (send_single_msg-loops v m d) ∙ h.conn;
    owned = step-IsOwned userid loop_of (requests v m) d h.owned;
  }

  run_queued-Serves :
      (j : ℕ) (d : Delivery) → Serves userid loop_of s d → Serves userid loop_of s (run_queued j d)
  unfolding step
  run_queued-Serves j d h = record {
    loop = ap (λ k. k (userid s)) (run_queued-map j d) ∙ h.loop;
    conn = ap (λ ls. (ls (loop_of s)).conns (userid s)) (run_queued-loops j d) ∙ h.conn;
    owned = step-IsOwned userid loop_of (runs j) d h.owned;
  }

  run-books :
      (es : List Event) (d : Delivery)
      → Stays userid (userid s) es
      → Serves userid loop_of s d
      → books userid loop_of s (run userid loop_of es d)
        ≡ books userid loop_of s d ++ asked (userid s) es
  unfolding run step
  run-books [] d stays h = sym (append-nil (books userid loop_of s d))
  run-books (upgrades t ∷ es) d stays h =
      run-books es (on_upgrade userid loop_of t d) stays.1 (on_upgrade-Serves t d stays.0 h)
      ∙ ap (λ b. b ++ asked (userid s) es) (on_upgrade-books t d)
  run-books (closes t ∷ es) d stays h =
      run-books es (on_close userid loop_of t d) stays.1 (on_close-Serves t d stays.0 h)
      ∙ ap (λ b. b ++ asked (userid s) es) (on_close-books t d)
  run-books (runs j ∷ es) d stays h =
      run-books es (run_queued j d) stays (run_queued-Serves j d h)
      ∙ ap (λ b. b ++ asked (userid s) es) (run_queued-books userid loop_of s j d h)
  run-books (requests v m ∷ es) d stays h =
      run-books es (send_single_msg v m d) stays (requested-Serves v m d h)
      ∙ (ap (λ b. b ++ asked (userid s) es) (send_single_msg-books userid loop_of s v m d h)
          ∙ (append_assoc (books userid loop_of s d) (ite (ℤ_dec v (userid s)) (m ∷ []) [])
                (asked (userid s) es)
              ∙ ap (λ l. books userid loop_of s d ++ l) (asked-cons (userid s) v m es)))

  -- After any events a session is upgraded, and then there are any events in which no session of its
  -- user comes or goes: what has been sent to the session and what still waits in its loop for its
  -- user are, together, what they were before and then every message that was asked for the user
  -- since, each once and in the order of the calls.
  pub run-served :
      (before es : List Event)
      → Stays userid (userid s) es
      → to_session s
            (run userid loop_of es
              (on_upgrade userid loop_of s (run userid loop_of before at_start))).sent
          ++ for_user (userid s) (
              (run userid loop_of es
                  (on_upgrade userid loop_of s (run userid loop_of before at_start))).queued
                (loop_of s))
        ≡ (to_session s (run userid loop_of before at_start).sent
            ++ for_user (userid s) ((run userid loop_of before at_start).queued (loop_of s)))
          ++ asked (userid s) es
  run-served before es stays =
      let d = run userid loop_of before at_start in
      let owned = run-IsOwned userid loop_of before at_start (at_start-IsOwned userid loop_of) in
      run-books es (on_upgrade userid loop_of s d) stays (upgraded-Serves d owned)
      ∙ ap (λ b. b ++ asked (userid s) es) (on_upgrade-books s d)
