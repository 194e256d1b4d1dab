-- ===== src/Inbox/Sent.antt =====
-- The contexts that dispatchEvent makes, and where they stand while the producer works.
use dpush.Base.{
  ℕ, zero, suc, ◌+◌, ◌^◌, ◌≡◌, refl, ap, ap₂, ◌∙◌, ◌⊎◌, List, [], ◌∷◌, ◌++◌, none, some, Bool, true,
  false, ◌&&◌, Text, codes, c_str, text_eq, get_elem?, if◌then◌else◌, arith, Option-cases,
  Bool-cases, inl, inr,
}
use dpush.Chat.Keys.{group, single, unnamed, from_chars, kafka_key}
use dpush.Inbox.{
  Payload, client_message, request_room_history, pull_missing_message, batch_pull_message,
  signaling_from_client, signaling_from_client_join, ping, other, Context, Produced, Session,
  Action, sends, produces, asks, subscribes, on_message_ping, Next, goes_on, returns, throws, stol,
  on_payload, Outbox, remove_at, and_then, dispatch_event, produce, perform,
}

-- How many elements of a list pass a test.
abbrev pub count_if : {A : Type 0} → (A → Bool) → List A → ℕ
count_if p [] = 0
count_if p (x ∷ xs) = (if p x then 1 else 0) + count_if p xs

pub count_if-append :
    {A : Type 0} (p : A → Bool) (xs ys : List A)
    → count_if p (xs ++ ys) ≡ count_if p xs + count_if p ys
count_if-append p [] ys = omega arith
count_if-append p (x ∷ xs) ys = omega (arith, count_if-append p xs ys)

pub count_if-snoc :
    {A : Type 0} (p : A → Bool) (xs : List A) (x : A)
    → count_if p (xs ++ x ∷ []) ≡ count_if p xs + (if p x then 1 else 0)
count_if-snoc p [] x = omega arith
count_if-snoc p (y ∷ xs) x = omega (arith, count_if-snoc p xs x)

-- Whether a payload ends the loop: a single chat with a target that is no user id, or a room to join
-- that is no number.
abbrev pub stops : Payload → Bool
stops (client_message target_id group client_message_id) = false
stops (client_message target_id single client_message_id) = elim (from_chars (2 ^ 63) target_id) [
  | none ↦ true
  | some n ↦ false
]
stops (client_message target_id unnamed client_message_id) = false
stops (signaling_from_client_join action room_id room_name) =
    text_eq action (codes "join_room") && elim (stol room_id) [ none ↦ true | some n ↦ false ]
stops request_room_history = false
stops pull_missing_message = false
stops (batch_pull_message rooms) = false
stops (signaling_from_client action room_id) = false
stops (ping ts) = false
stops other = false

abbrev pub context_of : ℕ → Payload → List Context
context_of conn (client_message target_id chat_type client_message_id) =
    record { conn = conn; msg_id = c_str client_message_id } ∷ []
context_of conn (signaling_from_client_join action room_id room_name) = []
context_of conn request_room_history = []
context_of conn pull_missing_message = []
context_of conn (batch_pull_message rooms) = []
context_of conn (signaling_from_client action room_id) = []
context_of conn (ping ts) = []
context_of conn other = []

-- The contexts of a list of actions.
abbrev pub contexts : List Action → List Context
contexts [] = []
contexts (produces p ∷ actions) = p.ctx ∷ contexts actions
contexts (sends frame ∷ actions) = contexts actions
contexts (asks request ∷ actions) = contexts actions
contexts (subscribes room_id ∷ actions) = contexts actions
contexts (on_message_ping ts ∷ actions) = contexts actions

contexts-append : (xs ys : List Action) → contexts (xs ++ ys) ≡ contexts xs ++ contexts ys
contexts-append [] ys = refl
contexts-append (produces p ∷ xs) ys = ap (λ l. p.ctx ∷ l) (contexts-append xs ys)
contexts-append (sends frame ∷ xs) ys = contexts-append xs ys
contexts-append (asks request ∷ xs) ys = contexts-append xs ys
contexts-append (subscribes room_id ∷ xs) ys = contexts-append xs ys
contexts-append (on_message_ping ts ∷ xs) ys = contexts-append xs ys

-- A message that does not stop the loop leaves its context and goes on.
on_payload-goes_on :
    (session : Session) (message : Text) (p : Payload)
    → stops p ≡ false
    → (contexts (on_payload session message p).0 ≡ context_of session.conn p)
      × ((on_payload session message p).1 ≡ goes_on)
unfolding on_payload kafka_key
on_payload-goes_on session message (client_message target_id group id) h = (refl, refl)
on_payload-goes_on session message (client_message target_id unnamed id) h = (refl, refl)
on_payload-goes_on session message (client_message target_id single id) h =
    elim (Option-cases (from_chars (2 ^ 63) target_id)) [
      | inl e ↦ absurd (ground (arith, h, e))
      | inr (n, e) ↦ ground (arith, h, e)
    ]
on_payload-goes_on session message request_room_history h = (refl, refl)
on_payload-goes_on session message pull_missing_message h = (refl, refl)
on_payload-goes_on session message (batch_pull_message rooms) h = ground arith
on_payload-goes_on session message (signaling_from_client action room_id) h = ground arith
on_payload-goes_on session message (signaling_from_client_join action room_id room_name) h =
    ground (arith, h)
on_payload-goes_on session message (ping ts) h = (refl, refl)
on_payload-goes_on session message other h = (refl, refl)

-- One that does makes no context and ends the loop.
on_payload-stops :
    (session : Session) (message : Text) (p : Payload)
    → stops p ≡ true
    → (contexts (on_payload session message p).0 ≡ [])
      × (((on_payload session message p).1 ≡ returns) ⊎ ((on_payload session message p).1 ≡ throws))
unfolding on_payload kafka_key
on_payload-stops session message (client_message target_id group id) h = absurd (cc h)
on_payload-stops session message (client_message target_id unnamed id) h = absurd (cc h)
on_payload-stops session message (client_message target_id single id) h =
    elim (Option-cases (from_chars (2 ^ 63) target_id)) [
      | inl e ↦ ground (arith, h, e)
      | inr (n, e) ↦ absurd (ground (arith, h, e))
    ]
on_payload-stops session message request_room_history h = absurd (cc h)
on_payload-stops session message pull_missing_message h = absurd (cc h)
on_payload-stops session message (batch_pull_message rooms) h = absurd (cc h)
on_payload-stops session message (signaling_from_client action room_id) h = absurd (cc h)
on_payload-stops session message (signaling_from_client_join action room_id room_name) h =
    ground (arith, h)
on_payload-stops session message (ping ts) h = absurd (cc h)
on_payload-stops session message other h = absurd (cc h)

and_then-contexts :
    (actions : List Action) (next : Next) (rest : List Action × Next)
    → next ≡ goes_on
    → contexts (and_then actions next rest).0 ≡ contexts actions ++ contexts rest.0
and_then-contexts actions goes_on rest h = contexts-append actions rest.0
and_then-contexts actions returns rest h = absurd (cc h)
and_then-contexts actions throws rest h = absurd (cc h)

and_then-contexts_last :
    (actions : List Action) (next : Next) (rest : List Action × Next)
    → (next ≡ returns) ⊎ (next ≡ throws)
    → contexts (and_then actions next rest).0 ≡ contexts actions
and_then-contexts_last actions goes_on rest (inl h) = absurd (cc h)
and_then-contexts_last actions goes_on rest (inr h) = absurd (cc h)
and_then-contexts_last actions returns rest h = refl
and_then-contexts_last actions throws rest h = refl

module _ (payload_of : Text → Payload) where
  -- The contexts of the messages of a list, up to the first that stops the loop.
  abbrev pub contexts_of : ℕ → List Text → List Context
  contexts_of conn [] = []
  contexts_of conn (message ∷ messages) =
      let rest = contexts_of conn messages in
      if stops (payload_of message) then [] else context_of conn (payload_of message) ++ rest

  pub dispatch_event-contexts :
      (session : Session) (messages : List Text)
      → contexts (dispatch_event payload_of session messages).0 ≡ contexts_of session.conn messages
  unfolding dispatch_event
  dispatch_event-contexts session [] = refl
  dispatch_event-contexts session (message ∷ messages) =
      let p = payload_of message in
      let this = on_payload session message p in
      let rest = dispatch_event payload_of session messages in
      elim (Bool-cases (stops p)) [
        | inl e ↦
            let stopped = on_payload-stops session message p e in
            rw e (and_then-contexts_last this.0 this.1 rest stopped.1 ∙ stopped.0)
        | inr e ↦
            let (there, next) = on_payload-goes_on session message p e in
            rw e (
              and_then-contexts this.0 this.1 rest next
              ∙ ap₂ (λ x y. x ++ y) there (dispatch_event-contexts session messages))
      ]

-- How many contexts of a kind the producer's side has.
abbrev pub total : (Context → Bool) → Outbox → ℕ
total p s =
    count_if p s.in_flight + count_if p s.refused + count_if (λ (a : Context × Text). p a.0) s.acks

module _ (accepts : List Context → Produced → Bool) (p : Context → Bool) where
  produce-total :
      (m : Produced) (s : Outbox)
      → (total p (produce accepts m s) ≡ total p s + (if p m.ctx then 1 else 0))
        × ((produce accepts m s).alive ≡ s.alive)
  unfolding produce
  produce-total m s = elim (Bool-cases (accepts s.in_flight m)) [
    | inl e ↦ rw e (omega (arith, count_if-snoc p s.in_flight m.ctx), refl)
    | inr e ↦ rw e (omega (arith, count_if-snoc p s.refused m.ctx), refl)
  ]

  pub perform-total :
      (actions : List Action) (s : Outbox)
      → (total p (perform accepts actions s) ≡ total p s + count_if p (contexts actions))
        × ((perform accepts actions s).alive ≡ s.alive)
  unfolding perform
  perform-total [] s = (omega arith, refl)
  perform-total (produces m ∷ actions) s =
      let here = produce-total m s in
      let rest = perform-total actions (produce accepts m s) in
      (omega (arith, here.0, rest.0), rest.1 ∙ here.1)
  perform-total (sends frame ∷ actions) s = perform-total actions s
  perform-total (asks request ∷ actions) s = perform-total actions s
  perform-total (subscribes room_id ∷ actions) s = perform-total actions s
  perform-total (on_message_ping ts ∷ actions) s = perform-total actions s

pub remove_at-count_if :
    (p : Context → Bool) (i : ℕ) (cs : List Context) (c : Context)
    → get_elem? cs i ≡ some c
    → count_if p (remove_at i cs) + (if p c then 1 else 0) ≡ count_if p cs
remove_at-count_if p i [] c e = cc e
remove_at-count_if p zero (d ∷ cs) c e = ground (arith, e)
remove_at-count_if p (suc i) (d ∷ cs) c e = omega (arith, remove_at-count_if p i cs c e)
