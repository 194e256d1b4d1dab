-- ===== src/Delivery/Forgotten.antt =====
-- A user with two connections.
use dpush.Base.{
  ℕ, ℤ, ℤ_dec, ℕ_discrete, ◌≡◌, ◌≢◌, refl, ap, ◌∙◌, subst, some, none, Text, update, update_self,
  update_ne,
}
use dpush.Rooms.{Loop, close_session}
use dpush.Delivery.{Delivery, send_single_msg, on_upgrade, on_close}
use dpush.Delivery.Owners.{close_session_other}

drops : (u : ℤ) (m : Text) (d : Delivery) → d.user_event_loop u ≡ none → send_single_msg u m d ≡ d
unfolding send_single_msg
drops u m d e = rw (e, send_single_msg) refl

module _ (userid : ℕ → ℤ) (loop_of : ℕ → ℕ) (s t : ℕ) where
  upgraded :
      (d : Delivery) → ((on_upgrade userid loop_of s d).loops (loop_of s)).conns (userid s) ≡ some s
  unfolding on_upgrade
  upgraded d =
      let i = loop_of s in
      let l = d.loops i in
      let l' = record l { conns = update ℤ_dec l.conns (userid s) (some s) } in
      ap (λ (k : Loop). k.conns (userid s)) (update_self ℕ_discrete d.loops i l')
      ∙ update_self ℤ_dec l.conns (userid s) (some s)

  forgotten :
      (d : Delivery)
      → userid t ≡ userid s
      → (on_close userid loop_of t d).user_event_loop (userid s) ≡ none
  unfolding on_close
  forgotten d same =
      subst (λ u. update ℤ_dec d.user_event_loop (userid t) none u ≡ none) same
        (update_self ℤ_dec d.user_event_loop (userid t) none)

  still_there :
      (d : Delivery)
      → t ≢ s
      → (d.loops (loop_of s)).conns (userid s) ≡ some s
      → ((on_close userid loop_of t d).loops (loop_of s)).conns (userid s) ≡ some s
  unfolding on_close
  still_there d other e =
      let i = loop_of t in
      let l = (close_session (userid t) t (d.loops i)).0 in
      elim (ℕ_discrete i (loop_of s)) [
        | yes here ↦
            let now : update ℕ_discrete d.loops i l (loop_of s) ≡ l =
              subst (λ k. update ℕ_discrete d.loops i l k ≡ l) here
                (update_self ℕ_discrete d.loops i l) in
            ap (λ (k : Loop). k.conns (userid s)) now
            ∙ close_session_other (userid t) t (d.loops i) (userid s) s other
                (ap (λ k. (d.loops k).conns (userid s)) here ∙ e)
        | no elsewhere ↦
            ap (λ (k : Loop). k.conns (userid s))
              (update_ne ℕ_discrete d.loops i (loop_of s) l elsewhere)
            ∙ e
      ]

  -- Two sessions of one user: when the first of them closes, a message to the user is dropped, although
  -- the loop of the second still holds that one under the user.
  pub on_close-forgets :
      (m : Text) (d : Delivery)
      → userid t ≡ userid s
      → t ≢ s
      → (send_single_msg (userid s) m (
            on_close userid loop_of t (on_upgrade userid loop_of s (on_upgrade userid loop_of t d)))
          ≡ on_close userid loop_of t (on_upgrade userid loop_of s (on_upgrade userid loop_of t d)))
        × (((on_close userid loop_of t
                  (on_upgrade userid loop_of s (on_upgrade userid loop_of t d))).loops
                (loop_of s)).conns
              (userid s)
            ≡ some s)
  on_close-forgets m d same other =
      let d' = on_upgrade userid loop_of s (on_upgrade userid loop_of t d) in
      (
        drops (userid s) m (on_close userid loop_of t d') (forgotten d' same),
        still_there d' other (upgraded (on_upgrade userid loop_of t d)),
      )
