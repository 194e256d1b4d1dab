-- ===== src/Delivery/Messages.antt =====
-- The messages to a user on their way to the session of the user.
use dpush.Base.{
  ℕ, ℤ, ℤ_dec, ℕ_discrete, ◌≡◌, ◌≢◌, refl, sym, ap, ap₂, ◌∙◌, subst, List, [], ◌∷◌, ◌++◌, none,
  some, Text, update, update_self, update_ne, arith, ite, if_pos, if_neg, Option-cases, List-cases,
  inl, inr, append-nil, append_assoc, values_of, values_of-append,
}
use dpush.Delivery.{
  Delivery, set_queue, send_single_msg, send_to_user, run_queued, Event, upgrades, closes, requests,
  runs,
}
use dpush.Delivery.Owners.{IsOwned}

-- What was sent to a session, in order.
abbrev pub to_session : ℕ → List (ℕ × Text) → List Text
to_session = values_of ℕ_discrete

-- The messages to a user among those that wait.
abbrev pub for_user : ℤ → List (ℤ × Text) → List Text
for_user = values_of ℤ_dec

-- The messages to a user that are asked for.
abbrev pub asked : ℤ → List Event → List Text
asked u [] = []
asked u (requests v m ∷ es) = let rest = asked u es in ite (ℤ_dec v u) (m ∷ rest) rest
asked u (upgrades t ∷ es) = asked u es
asked u (closes t ∷ es) = asked u es
asked u (runs j ∷ es) = asked u es

-- No session of the user comes or goes.
abbrev pub Stays : (ℕ → ℤ) → ℤ → List Event → Type 0
Stays userid u [] = Unit {0}
Stays userid u (upgrades t ∷ es) = (userid t ≢ u) × Stays userid u es
Stays userid u (closes t ∷ es) = (userid t ≢ u) × Stays userid u es
Stays userid u (requests v m ∷ es) = Stays userid u es
Stays userid u (runs j ∷ es) = Stays userid u es

some_same : {s t : ℕ} → some t ≡ some s → t ≡ s
some_same e = ground (arith, e)

none-ne-some : {s : ℕ} → none ≢ some s
none-ne-some e = cc e

module _ (userid : ℕ → ℤ) (loop_of : ℕ → ℕ) (s : ℕ) where
  -- The message, if it waits in the loop of the session for the user of the session.
  abbrev own : ℕ → ℤ → Text → List Text
  own j v m = ite (ℕ_discrete j (loop_of s)) (ite (ℤ_dec v (userid s)) (m ∷ []) []) []

  abbrev pub pending : Delivery → List Text
  pending d = for_user (userid s) (d.queued (loop_of s))

  -- The session is the one that the user's messages go to.
  pub record Serves (d : Delivery) : Type 0 where
    pub loop : d.user_event_loop (userid s) ≡ some (loop_of s)
    pub conn : (d.loops (loop_of s)).conns (userid s) ≡ some s
    pub owned : IsOwned userid loop_of d

  abbrev pub books : Delivery → List Text
  books d = to_session s d.sent ++ pending d

  here :
      (j : ℕ) (q : List (ℤ × Text)) (d : Delivery)
      → j ≡ loop_of s
      → update ℕ_discrete d.queued j q (loop_of s) ≡ q
  here j q d same =
      subst (λ i. update ℕ_discrete d.queued j q i ≡ q) same (update_self ℕ_discrete d.queued j q)

  own-here :
      (j : ℕ) (v : ℤ) (m : Text) → j ≡ loop_of s → own j v m ≡ for_user (userid s) ((v, m) ∷ [])
  own-here j v m same =
      if_pos (ℕ_discrete j (loop_of s)) same (ite (ℤ_dec v (userid s)) (m ∷ []) []) []

  own-elsewhere : (j : ℕ) (v : ℤ) (m : Text) → j ≢ loop_of s → own j v m ≡ []
  own-elsewhere j v m other =
      if_neg (ℕ_discrete j (loop_of s)) other (ite (ℤ_dec v (userid s)) (m ∷ []) []) []

  -- A queue that grows at its end, and one that loses its front.
  pending-snoc :
      (j : ℕ) (v : ℤ) (m : Text) (d : Delivery)
      → pending (set_queue j (d.queued j ++ (v, m) ∷ []) d) ≡ pending d ++ own j v m
  pending-snoc j v m d = elim (ℕ_discrete j (loop_of s)) [
    | yes same ↦
        ap (for_user (userid s)) (here j (d.queued j ++ (v, m) ∷ []) d same)
        ∙ (values_of-append ℤ_dec (userid s) (d.queued j) ((v, m) ∷ [])
            ∙ ap₂ (λ x y. x ++ y) (ap (λ i. for_user (userid s) (d.queued i)) same)
                (sym (own-here j v m same)))
    | no other ↦
        ap (for_user (userid s))
          (update_ne ℕ_discrete d.queued j (loop_of s) (d.queued j ++ (v, m) ∷ []) other)
        ∙ (sym (append-nil (pending d))
            ∙ ap (λ l. pending d ++ l) (sym (own-elsewhere j v m other)))
  ]

  pending-front :
      (j : ℕ) (v : ℤ) (m : Text) (q : List (ℤ × Text)) (d : Delivery)
      → d.queued j ≡ (v, m) ∷ q
      → pending d ≡ own j v m ++ pending (set_queue j q d)
  pending-front j v m q d e = elim (ℕ_discrete j (loop_of s)) [
    | yes same ↦
        ap (λ i. for_user (userid s) (d.queued i)) (sym same)
        ∙ (ap (for_user (userid s)) e
            ∙ (values_of-append ℤ_dec (userid s) ((v, m) ∷ []) q
                ∙ ap₂ (λ x y. x ++ y) (sym (own-here j v m same))
                    (ap (for_user (userid s)) (sym (here j q d same)))))
    | no other ↦
        ap (for_user (userid s)) (sym (update_ne ℕ_discrete d.queued j (loop_of s) q other))
        ∙ ap (λ l. l ++ pending (set_queue j q d)) (sym (own-elsewhere j v m other))
  ]

  own-none : (j : ℕ) (v : ℤ) (m : Text) → (j ≡ loop_of s → v ≡ userid s → ⊥) → own j v m ≡ []
  own-none j v m no_own = elim (ℕ_discrete j (loop_of s)) [
    | yes same ↦ own-here j v m same ∙ if_neg (ℤ_dec v (userid s)) (no_own same) (m ∷ []) []
    | no other ↦ own-elsewhere j v m other
  ]

  own-one : (j : ℕ) (v : ℤ) (m : Text) → j ≡ loop_of s → v ≡ userid s → own j v m ≡ m ∷ []
  own-one j v m same user = own-here j v m same ∙ if_pos (ℤ_dec v (userid s)) user (m ∷ []) []

  -- Where the user's messages wait in this loop alone.
  own-user :
      (j : ℕ) (v : ℤ) (m : Text)
      → (v ≡ userid s → j ≡ loop_of s)
      → own j v m ≡ ite (ℤ_dec v (userid s)) (m ∷ []) []
  own-user j v m only = elim (ℤ_dec v (userid s)) [
    | yes user ↦ own-one j v m (only user) user ∙ sym (if_pos (ℤ_dec v (userid s)) user (m ∷ []) [])
    | no other ↦
        own-none j v m (λ i u. other u) ∙ sym (if_neg (ℤ_dec v (userid s)) other (m ∷ []) [])
  ]

  -- A message to the session that a loop holds under the message's user.
  sent_own :
      (j : ℕ) (v : ℤ) (m : Text) (t : ℕ)
      → (userid t ≡ v) × (loop_of t ≡ j)
      → (j ≡ loop_of s → v ≡ userid s → t ≡ s)
      → to_session s ((t, m) ∷ []) ≡ own j v m
  sent_own j v m t owner only = elim (ℕ_discrete t s) [
    | yes same ↦
        if_pos (ℕ_discrete t s) same (m ∷ []) []
        ∙ sym (own-one j v m (sym owner.1 ∙ ap loop_of same) (sym owner.0 ∙ ap userid same))
    | no other ↦
        if_neg (ℕ_discrete t s) other (m ∷ []) [] ∙ sym (own-none j v m (λ i u. other (only i u)))
  ]

  -- What the functor sends to the session is what waited for it.
  send_to_user-books :
      (j : ℕ) (v : ℤ) (m : Text) (d : Delivery)
      → Serves d
      → to_session s (send_to_user j v m d).sent ≡ to_session s d.sent ++ own j v m
  unfolding send_to_user
  send_to_user-books j v m d h =
      let there : j ≡ loop_of s → v ≡ userid s → (d.loops j).conns v ≡ some s =
        λ i u. ap₂ (λ k w. (d.loops k).conns w) i u ∙ h.conn in
      elim (Option-cases ((d.loops j).conns v)) [
        | inl e ↦
            rw (e, send_to_user)
              (sym (append-nil (to_session s d.sent))
                ∙ ap (λ l. to_session s d.sent ++ l)
                    (sym (own-none j v m (λ i u. none-ne-some (sym e ∙ there i u)))))
        | inr (t, e) ↦
            rw (e, send_to_user)
              (values_of-append ℕ_discrete s d.sent ((t, m) ∷ [])
                ∙ ap (λ l. to_session s d.sent ++ l)
                    (sent_own j v m t (h.owned j v t e) (λ i u. some_same (sym e ∙ there i u))))
      ]

  send_to_user-queued :
      (j : ℕ) (v : ℤ) (m : Text) (d : Delivery) → (send_to_user j v m d).queued ≡ d.queued
  unfolding send_to_user
  send_to_user-queued j v m d = elim (Option-cases ((d.loops j).conns v)) [
    | inl e ↦ rw (e, send_to_user) refl
    | inr (t, e) ↦ rw (e, send_to_user) refl
  ]

  pub run_queued-books : (j : ℕ) (d : Delivery) → Serves d → books (run_queued j d) ≡ books d
  unfolding run_queued
  run_queued-books j d h = elim (List-cases (d.queued j)) [
    | inl e ↦ rw (e, run_queued) refl
    | inr ((v, m), (q, e)) ↦
        let d' = set_queue j q d in
        let h' : Serves d' = record { loop = h.loop; conn = h.conn; owned = h.owned } in
        rw (e, run_queued)
          (ap₂ (λ x y. x ++ y) (send_to_user-books j v m d' h')
              (ap (λ (qs : ℕ → List (ℤ × Text)). for_user (userid s) (qs (loop_of s)))
                (send_to_user-queued j v m d'))
            ∙ (append_assoc (to_session s d.sent) (own j v m) (pending d')
                ∙ ap (λ l. to_session s d.sent ++ l) (sym (pending-front j v m q d e))))
  ]

  pub send_single_msg-books :
      (v : ℤ) (m : Text) (d : Delivery)
      → Serves d
      → books (send_single_msg v m d) ≡ books d ++ ite (ℤ_dec v (userid s)) (m ∷ []) []
  unfolding send_single_msg
  send_single_msg-books v m d h = elim (Option-cases (d.user_event_loop v)) [
    | inl e ↦
        rw (e, send_single_msg)
          (sym (append-nil (books d))
            ∙ ap (λ l. books d ++ l)
                (sym (
                  if_neg (ℤ_dec v (userid s))
                    (λ u. none-ne-some (sym e ∙ (ap d.user_event_loop u ∙ h.loop))) (m ∷ []) [])))
    | inr (j, e) ↦
        rw (e, send_single_msg)
          (ap (λ l. to_session s d.sent ++ l) (pending-snoc j v m d)
            ∙ (sym (append_assoc (to_session s d.sent) (pending d) (own j v m))
                ∙ ap (λ l. books d ++ l)
                    (own-user j v m (λ u. some_same (sym e ∙ (ap d.user_event_loop u ∙ h.loop))))))
  ]
