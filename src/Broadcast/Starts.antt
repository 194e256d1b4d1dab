-- ===== src/Broadcast/Starts.antt =====
-- What the writes of some targets make of a ring with enough room.
use dpush.Base.{
  ℕ, suc, ◌+◌, ◌^◌, ◌<◌, ◌≤◌, ◌≡◌, refl, sym, ap, ◌∙◌, subst, List, [], ◌∷◌, ◌++◌, none, some, Bool,
  true, Text, ltb, if◌then◌else◌, length, take, drop, arith, Bool-cases, inl, inr, Nat-cases,
  append-nil, append_assoc, take_all, length-append, ℕ_discrete, update_self,
}
use dpush.Broadcast.{
  PendingWrite, Send, Sqe, prepared, unprepared, Uring, set_write, get, release, send_remain,
  send_of, send_schedul, fill, start_write, send_targets, take_sqe,
}
use dpush.Broadcast.Reset.{AreReset, AreReset-set, release-AreReset, Given, get-Given}

-- The bytes that a filled entry asks for, and the connection that they are for.
abbrev pub deliveries : List Sqe → List (ℕ × Text)
deliveries [] = []
deliveries (unprepared ∷ sqes) = deliveries sqes
deliveries (prepared send ∷ sqes) =
    (send.to, take send.remain (drop send.first send.message)) ∷ deliveries sqes

pub deliveries-append : (xs ys : List Sqe) → deliveries (xs ++ ys) ≡ deliveries xs ++ deliveries ys
deliveries-append [] ys = refl
deliveries-append (unprepared ∷ xs) ys = deliveries-append xs ys
deliveries-append (prepared send ∷ xs) ys = rw (deliveries-append xs ys)

-- The message, once for every target whose connection is up, in their order.
abbrev pub to_each : (ℕ → Bool) → Text → List ℕ → List (ℕ × Text)
to_each connected message [] = []
to_each connected message (conn ∷ conns) =
    let rest = to_each connected message conns in
    if connected conn then (conn, message) ∷ rest else rest

pub to_each-append :
    (connected : ℕ → Bool) (message : Text) (xs ys : List ℕ)
    → to_each connected message (xs ++ ys)
      ≡ to_each connected message xs ++ to_each connected message ys
to_each-append connected message [] ys = refl
to_each-append connected message (conn ∷ xs) ys =
    ground (arith, to_each-append connected message xs ys)

module _ (connected : ℕ → Bool) (message : Text) (some_bytes : 0 < length message)
    (short : length message < 2 ^ 64) where
  -- What the writes of some targets have made of the ring.
  pub record Started (conns : List ℕ) (u u' : Uring) : Type 0 where
    pub started : deliveries u'.taken ≡ deliveries u.taken ++ to_each connected message conns
    pub are_reset : AreReset u'
    pub room_left : u.room ≤ u'.room + length conns
    pub submitted : u'.submitted ≡ u.submitted
    pub queued : u'.queued ≡ u.queued

  whole : ℕ → ℕ → Send
  whole p conn = record {
    write = p;
    to = conn;
    message = message;
    first = 0;
    remain = length message;
  }

  send_of-fill :
      (p conn : ℕ) (w : PendingWrite)
      → w.offset ≡ 0
      → send_of connected p (fill connected message conn w)
        ≡ (if connected conn then some (whole p conn) else none)
  unfolding send_of whole
  send_of-fill p conn w e = elim (Bool-cases (connected conn)) [
    | inl up ↦ rw up (ground (arith, e, short))
    | inr down ↦ rw down refl
  ]

  scheduled :
      (p conn room : ℕ) (u : Uring)
      → u.room ≡ suc room
      → send_of connected p (u.writes p) ≡ some (whole p conn)
      → send_schedul connected p u ≡ take_sqe (prepared (whole p conn)) room u
  unfolding send_schedul send_remain whole
  scheduled p conn room u e f =
      rw (f, send_schedul)
        (elim (Bool-cases (ltb 0 (length message))) [
          | inl g ↦ rw (g, send_remain, e) refl
          | inr g ↦ absurd (ground (arith, g, some_bytes))
        ])

  given_back :
      (p : ℕ) (u : Uring)
      → send_of connected p (u.writes p) ≡ none
      → send_schedul connected p u ≡ release p u
  unfolding send_schedul
  given_back p u f = rw (f, send_schedul) refl

  filled : ℕ → ℕ → Uring → Uring
  filled p conn u = set_write p (fill connected message conn (u.writes p)) u

  send_of-filled :
      (p conn : ℕ) (u : Uring)
      → (u.writes p).offset ≡ 0
      → send_of connected p ((filled p conn u).writes p)
        ≡ (if connected conn then some (whole p conn) else none)
  unfolding filled
  send_of-filled p conn u e =
      ap (send_of connected p)
        (update_self ℕ_discrete u.writes p (fill connected message conn (u.writes p)))
      ∙ send_of-fill p conn (u.writes p) e

  one_sent :
      (p conn : ℕ)
      → connected conn ≡ true
      → (now before : List Sqe) → now ≡ before
      → deliveries (now ++ prepared (whole p conn) ∷ [])
        ≡ deliveries before ++ to_each connected message (conn ∷ [])
  unfolding whole
  one_sent p conn up now before e = rw up (
      deliveries-append now (prepared (whole p conn) ∷ [])
      ∙ (ap (λ sqes. deliveries sqes ++ (conn, take (length message) message) ∷ []) e
          ∙ ap (λ bytes. deliveries before ++ (conn, bytes) ∷ [])
              (take_all (length message) message (omega arith))))

  start_write-Started :
      (p conn : ℕ) (u u' : Uring)
      → 0 < u.room
      → Given p u u'
      → Started (conn ∷ []) u (start_write connected message conn (p, u'))
  unfolding filled release
  start_write-Started p conn u u' room g =
      let u'' = filled p conn u' in
      let is_reset : AreReset u'' =
        AreReset-set p (fill connected message conn (u'.writes p)) u' g.offset g.are_reset in
      let f = send_of-filled p conn u' g.offset in
      elim (Bool-cases (connected conn)) [
        | inl up ↦ elim (Nat-cases u'.room) [
          | inl e ↦ absurd (omega (arith, e, g.room, room))
          | inr (room', e) ↦
              subst (Started (conn ∷ []) u)
                (sym (
                  scheduled p conn room' u'' e
                    (f ∙ ap (λ b. if b then some (whole p conn) else none) up)))
                (record {
                  started = one_sent p conn up u'.taken u.taken g.taken;
                  are_reset = is_reset;
                  room_left = omega (arith, e, g.room);
                  submitted = g.submitted;
                  queued = g.queued;
                })
        ]
        | inr down ↦
            let back : send_schedul connected p u'' ≡ release p u'' =
              given_back p u'' (f ∙ ap (λ b. if b then some (whole p conn) else none) down) in
            subst (Started (conn ∷ []) u) (sym back) (record {
              started =
                  ap deliveries g.taken
                  ∙ (sym (append-nil (deliveries u.taken))
                      ∙ ap (λ b. deliveries u.taken ++ (if b then (conn, message) ∷ [] else []))
                          (sym down));
              are_reset =
                  release-AreReset p u''
                    (ap (λ (v : PendingWrite). v.offset)
                        (update_self ℕ_discrete u'.writes p
                          (fill connected message conn (u'.writes p)))
                      ∙ g.offset)
                    is_reset;
              room_left = omega (arith, g.room);
              submitted = g.submitted;
              queued = g.queued;
            })
      ]

  Started-trans :
      (xs ys : List ℕ) {u u' u'' : Uring}
      → Started xs u u'
      → Started ys u' u''
      → Started (xs ++ ys) u u''
  Started-trans xs ys {u} a b = record {
    started =
        b.started
        ∙ (ap (λ l. l ++ to_each connected message ys) a.started
            ∙ (append_assoc (deliveries u.taken) (to_each connected message xs)
                  (to_each connected message ys)
                ∙ ap (λ l. deliveries u.taken ++ l)
                    (sym (to_each-append connected message xs ys))));
    are_reset = b.are_reset;
    room_left = omega (arith, a.room_left, b.room_left, length-append xs ys);
    submitted = b.submitted ∙ a.submitted;
    queued = b.queued ∙ a.queued;
  }

  pub send_targets-Started :
      (conns : List ℕ) (u : Uring)
      → length conns ≤ u.room
      → AreReset u
      → Started conns u (send_targets connected message conns u)
  unfolding send_targets
  send_targets-Started [] u room are_reset = record {
    started = sym (append-nil (deliveries u.taken));
    are_reset = are_reset;
    room_left = omega arith;
    submitted = refl;
    queued = refl;
  }
  send_targets-Started (conn ∷ conns) u room are_reset =
      let one =
        start_write-Started (get u).0 conn u (get u).1 (omega (arith, room))
          (get-Given u are_reset) in
      let u' = start_write connected message conn (get u) in
      Started-trans (conn ∷ []) conns one
        (send_targets-Started conns u' (omega (arith, room, one.room_left)) one.are_reset)
