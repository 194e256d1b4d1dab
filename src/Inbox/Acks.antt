-- ===== src/Inbox/Acks.antt =====
-- Every message of a client that stays is answered, waits for its answer, or was not taken.
use dpush.Base.{
  ℕ, ◌+◌, ◌≡◌, refl, sym, ap, ◌∙◌, List, [], ◌∷◌, ◌++◌, Bool, true, false, ◌&&◌, Text, codes,
  text_eq, get_elem?, update, update_self, update_ne, ℕ_discrete, ◌==◌, if◌then◌else◌, arith,
  Option-cases, Bool-cases, inl, inr,
}
use dpush.Inbox.{
  Payload, Context, Produced, Outbox, at_start, Event, receives, reports, closes, remove_at, dr_cb,
  report, dispatch_event, step, run,
}
use dpush.Inbox.Sent.{
  count_if, count_if-append, count_if-snoc, contexts_of, dispatch_event-contexts, total,
  perform-total, remove_at-count_if,
}

-- The messages of a connection with an id.
abbrev pub is_for : ℕ → Text → Context → Bool
is_for k id c = c.conn == k && text_eq c.msg_id id

abbrev pub ack_is_for : ℕ → Text → Context × Text → Bool
ack_is_for k id a = is_for k id a.0

dr_cb-alive : (success : Bool) (c : Context) (s : Outbox) → (dr_cb success c s).alive ≡ s.alive
unfolding dr_cb
dr_cb-alive success c s = elim (Bool-cases (s.alive c.conn)) [
  | inl e ↦ rw e refl
  | inr e ↦ rw e refl
]

report-alive : (i : ℕ) (success : Bool) (s : Outbox) → (report i success s).alive ≡ s.alive
unfolding report
report-alive i success s = elim (Option-cases (get_elem? s.in_flight i)) [
  | inl e ↦ rw (e, report) refl
  | inr (c, e) ↦
      rw (e, report) (dr_cb-alive success c (record s { in_flight = remove_at i s.in_flight }))
]

dr_cb-total :
    (k : ℕ) (id : Text) (success : Bool) (c : Context) (s : Outbox)
    → s.alive k ≡ true
    → total (is_for k id) (dr_cb success c s)
      ≡ total (is_for k id) s + (if is_for k id c then 1 else 0)
unfolding dr_cb
dr_cb-total k id success c s up = elim (Bool-cases (s.alive c.conn)) [
  | inl e ↦
      let ack = if success then codes "SUCCESS" else codes "FAILED" in
      rw e (omega (arith, count_if-snoc (ack_is_for k id) s.acks (c, ack)))
  | inr e ↦ elim (Bool-cases (is_for k id c)) [
    | inl f ↦
        let same : c.conn ≡ k = ground (arith, f) in absurd (cc (sym e ∙ ap s.alive same ∙ up))
    | inr f ↦ rw (e, f) (omega arith)
  ]
]

report-total :
    (k : ℕ) (id : Text) (i : ℕ) (success : Bool) (s : Outbox)
    → s.alive k ≡ true
    → total (is_for k id) (report i success s) ≡ total (is_for k id) s
unfolding report
report-total k id i success s up = elim (Option-cases (get_elem? s.in_flight i)) [
  | inl e ↦ rw (e, report) refl
  | inr (c, e) ↦
      let taken : Outbox = record s { in_flight = remove_at i s.in_flight } in
      let answered = dr_cb-total k id success c taken up in
      let one = remove_at-count_if (is_for k id) i s.in_flight c e in
      rw (e, report) (omega (arith, answered, one))
]

closed-alive :
    (k j : ℕ) (s : Outbox) → update ℕ_discrete s.alive j false k ≡ true → s.alive k ≡ true
closed-alive k j s up = elim (ℕ_discrete j k) [
  | yes same ↦
      let gone : update ℕ_discrete s.alive j false j ≡ false =
        update_self ℕ_discrete s.alive j false in
      absurd (cc (sym gone ∙ ap (update ℕ_discrete s.alive j false) same ∙ up))
  | no other ↦ sym (update_ne ℕ_discrete s.alive j k false other) ∙ up
]

module _ (payload_of : Text → Payload) (accepts : List Context → Produced → Bool) where
  -- The contexts of the messages of an event, of every connection.
  abbrev pub asked_by : Event → List Context
  asked_by (receives session messages) = contexts_of payload_of session.conn messages
  asked_by (reports i success) = []
  asked_by (closes k) = []

  abbrev pub asked : List Event → List Context
  asked [] = []
  asked (e ∷ es) = asked_by e ++ asked es

  module _ (k : ℕ) (id : Text) where
    step-total :
        (e : Event) (s : Outbox)
        → (step payload_of accepts e s).alive k ≡ true
        → (s.alive k ≡ true)
          × (total (is_for k id) (step payload_of accepts e s)
              ≡ total (is_for k id) s + count_if (is_for k id) (asked_by e))
    unfolding step
    step-total (receives session messages) s up =
        let actions = (dispatch_event payload_of session messages).0 in
        let done = perform-total accepts (is_for k id) actions s in
        (
          sym (ap (λ f. f k) done.1) ∙ up,
          done.0
              ∙ ap (λ cs. total (is_for k id) s + count_if (is_for k id) cs)
                  (dispatch_event-contexts payload_of session messages),
        )
    step-total (reports i success) s up =
        let before = sym (ap (λ f. f k) (report-alive i success s)) ∙ up in
        (before, omega (arith, report-total k id i success s before))
    step-total (closes j) s up = (closed-alive k j s up, omega arith)

    run-total :
        (es : List Event) (s : Outbox)
        → (run payload_of accepts es s).alive k ≡ true
        → (s.alive k ≡ true)
          × (total (is_for k id) (run payload_of accepts es s)
              ≡ total (is_for k id) s + count_if (is_for k id) (asked es))
    unfolding run
    run-total [] s up = (up, omega arith)
    run-total (e ∷ es) s up =
        let rest = run-total es (step payload_of accepts e s) up in
        let here = step-total e s rest.0 in
        (
          here.0,
          omega (arith, here.1, rest.1, count_if-append (is_for k id) (asked_by e) (asked es)),
        )

    -- However the messages of clients, the delivery reports and the ends of connections are ordered:
    -- while a connection is not gone, the messages of a client on it with a given id, in the lists that
    -- dispatchEvent was given and each list up to the first message that ends its loop, are as many as
    -- the messages with that id that wait for a report, those that the producer did not take, and the
    -- acknowledgements that were sent for the id, together.
    pub run-acks :
        (es : List Event)
        → (run payload_of accepts es at_start).alive k ≡ true
        → count_if (is_for k id) (run payload_of accepts es at_start).in_flight
            + count_if (is_for k id) (run payload_of accepts es at_start).refused
            + count_if (ack_is_for k id) (run payload_of accepts es at_start).acks
          ≡ count_if (is_for k id) (asked es)
    run-acks es up = omega (arith, (run-total es at_start up).1)
