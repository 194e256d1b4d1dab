-- ===== src/Tests/Inbox.antt =====
-- The messages of two users, one with a target that is no user id.
use dpush.Base.{
  ◌+◌, ◌==◌, pos, ◌≡◌, refl, List, [], ◌∷◌, Bool, true, false, text_eq, c_str, skip_spaces,
  ℕ_discrete, ltb, length, Text, codes, if◌then◌else◌,
}
use dpush.Http.Context.{digits_value}
use dpush.Http.Response.{decimal_digits}
use dpush.Frame.{build_frame, length_field, be_octets}
use dpush.Chat.Keys.{group, single, from_chars, from_chars_digits, kafka_key}
use dpush.Inbox.{
  Payload, client_message, batch_pull_message, signaling_from_client_join, ping, other, Context,
  Produced, Session, sends, produces, asks, subscribes, pull_message_async, on_message_ping,
  returns, throws, produced, stol, stol_sign, stol_digits, on_payload, on_reply, at_start, Event,
  receives, reports, closes, dr_cb, report, dispatch_event, produce, perform, step, run,
}
use dpush.Inbox.Acks.{is_for, ack_is_for, run-acks}
use dpush.Inbox.Sent.{count_if}

program : Unit {0}
unfolding ℕ_discrete text_eq c_str skip_spaces digits_value decimal_digits from_chars
    from_chars_digits kafka_key build_frame length_field be_octets stol stol_sign stol_digits
    on_payload on_reply dr_cb report dispatch_event produce perform step run
program = tt

abbrev payload_of : Text → Payload
payload_of [] = other
payload_of (x ∷ id) =
    if x == b'a'
    then client_message (codes "42") single id
    else if x == b'b'
    then client_message (codes "x") single id
    else if x == b'c'
    then client_message (codes "9") group id
    else if x == b'd'
    then batch_pull_message (length id)
    else if x == b'e'
    then signaling_from_client_join (codes "join_room") id (codes "chess")
    else ping (pos 5)

-- librdkafka takes two messages.
abbrev accepts : List Context → Produced → Bool
accepts in_flight p = ltb (length in_flight) 2

abbrev of_7 : Session
of_7 = record { conn = 1; userid = pos 7; username = codes "ann" }

abbrev of_8 : Session
of_8 = record { conn = 2; userid = pos 8; username = codes "bob" }

pinged :
    dispatch_event payload_of of_7
      (codes "a1" ∷ codes "f" ∷ codes "d" ∷ codes "e12" ∷ codes "b2" ∷ codes "a3" ∷ [])
    ≡ (
      produces (produced of_7 (codes "a1") (codes "1") (codes "7-42"))
          ∷ on_message_ping (pos 5)
          ∷ sends (build_frame [] 2)
          ∷ asks (pull_message_async (pos 12) (codes "chess") (codes "12"))
          ∷ [],
      returns,
    )
unfolding program
pinged = refl

no_room : dispatch_event payload_of of_7 (codes "exy" ∷ codes "f" ∷ []) ≡ ([], throws)
unfolding program
no_room = refl

replied :
    on_reply (pull_message_async (pos 12) (codes "chess") (codes "12")) (codes "hi")
    ≡ sends (130 ∷ 2 ∷ codes "hi") ∷ subscribes (codes "12") ∷ []
unfolding program
replied = refl

-- The third message finds the producer full; the connection of the second user ends before its report.
abbrev events : List Event
events =
    receives of_7 (codes "a1" ∷ codes "f" ∷ [])
    ∷ receives of_8 (codes "c1" ∷ [])
    ∷ receives of_7 (codes "c1" ∷ codes "b1" ∷ codes "a1" ∷ [])
    ∷ reports 0 true
    ∷ closes 2
    ∷ reports 0 false
    ∷ receives of_7 (codes "a1" ∷ [])
    ∷ reports 0 false
    ∷ receives of_7 (codes "a1" ∷ [])
    ∷ []

acked :
    (run payload_of accepts events at_start).acks
    ≡ (record { conn = 1; msg_id = codes "1" }, codes "SUCCESS")
      ∷ (record { conn = 1; msg_id = codes "1" }, codes "FAILED")
      ∷ []
unfolding program
acked = refl

run-acks_example :
    count_if (is_for 1 (codes "1")) (run payload_of accepts events at_start).in_flight
      + count_if (is_for 1 (codes "1")) (run payload_of accepts events at_start).refused
      + count_if (ack_is_for 1 (codes "1")) (run payload_of accepts events at_start).acks
    ≡ 4
unfolding program
run-acks_example = run-acks payload_of accepts 1 (codes "1") events refl
