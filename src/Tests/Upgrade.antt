-- ===== src/Tests/Upgrade.antt =====
-- Upgrades without a cookie and with one, and a request that ends the loop. SHA-1 is the identity and
-- every token is Ann's.
use dpush.Base.{
  ◌-◌, ℤ, pos, decr, ◌≡◌, refl, [], ◌∷◌, ◌++◌, Option, some, true, arith, Text, codes, ◌⊎◌,
  skip_spaces, length,
}
use dpush.Buffer.{search, starts_with}
use dpush.Base64.{base64_encode}
use dpush.Frame.Wire.{wire}
use dpush.Http.Context.{digits_value}
use dpush.Http.Response.{decimal_digits}
use dpush.Handshake.{
  accepted, stoi_throws, no_number, process_handshake, analysis_cookie, sid_of, before, has,
  websocket_key, skip_blanks, handle_upgrade_response, answer, without_cookie, with_cookie, stoi,
  stoi_sign, stoi_digits, user_name, handshake_response, ws_guid, asks_upgrade,
}
use dpush.Handshake.Accepted.{IsEntitled, IsAnswer, process_handshake-accepted}
use dpush.WsServer.{
  WsSession, expecting_http_request, established, send, on_upgrade, replied, on_message,
  after_handshake, read_messages, two_line_breaks,
}
use dpush.WsServer.Upgrade.{IsKept, IsUpgraded, on_message-IsUpgraded, on_message-wire}
use dpush.Tests.Frames.{max, accept, sent_hello, sent_hello-IsSent, hello}
use dpush.Tests.Instances.{list_buffer}

program : Unit {0}
unfolding search starts_with base64_encode digits_value decimal_digits process_handshake
    analysis_cookie sid_of before has websocket_key skip_blanks handle_upgrade_response answer
    without_cookie with_cookie stoi stoi_sign stoi_digits user_name decr skip_spaces on_message
    after_handshake read_messages
program = tt

abbrev sha1 : Text → Text
sha1 xs = xs

abbrev decode : Text → Option (ℤ × Option Text)
decode token = some (pos 7, some (codes "ann"))

abbrev upgrade : Text
upgrade = codes "Upgrade: websocket\r\nSec-WebSocket-Key: k\r\n\r\n"

abbrev by_id : Text
by_id = codes "GET 5 HTTP/1.1\r\n" ++ upgrade

abbrev by_token : Text
by_token = codes "GET / HTTP/1.1\r\nCookie: sid=t; a\r\n" ++ upgrade

abbrev response : Text
response = handshake_response (base64_encode (codes "k" ++ ws_guid))

-- the user id is whatever number the client writes as its target
by_id_accepted : process_handshake sha1 decode by_id ≡ accepted (pos 5) (codes "user_-27") response
unfolding program
by_id_accepted = refl

by_token_accepted : process_handshake sha1 decode by_token ≡ accepted (pos 7) (codes "ann") response
unfolding program
by_token_accepted = refl

-- a path is no number for std::stoi
path_throws :
    process_handshake sha1 decode (codes "GET / HTTP/1.1\r\n" ++ upgrade) ≡ stoi_throws no_number
unfolding program
path_throws = refl

process_handshake-accepted_example :
    (asks_upgrade by_token ≡ true)
    × (IsEntitled sha1 decode by_token (pos 7) (codes "ann")
        × IsAnswer sha1 decode by_token response)
process_handshake-accepted_example =
    process_handshake-accepted sha1 decode by_token (pos 7) (codes "ann") response by_token_accepted

abbrev fresh : WsSession
fresh = record { state = expecting_http_request; userid = pos 0; username = [] }

abbrev ann : WsSession
ann = record { state = established; userid = pos 7; username = codes "ann" }

upgraded :
    on_message list_buffer max accept sha1 decode fresh by_token
    ≡ replied (send response ∷ on_upgrade (pos 7) ∷ []) [] ann []
unfolding program
upgraded = refl

on_message-IsUpgraded_example :
    IsKept list_buffer max accept sha1 decode fresh by_token ann []
      (send response ∷ on_upgrade (pos 7) ∷ [])
      []
    ⊎ IsUpgraded list_buffer max accept sha1 decode fresh by_token ann
        (send response ∷ on_upgrade (pos 7) ∷ [])
on_message-IsUpgraded_example =
    on_message-IsUpgraded list_buffer max accept sha1 decode fresh ann by_token []
      (send response ∷ on_upgrade (pos 7) ∷ []) [] refl upgraded

header_end :
    search two_line_breaks (by_token ++ wire (sent_hello ∷ [])) ≡ some (length by_token - 4)
unfolding program
header_end = refl

on_message-wire_example :
    (b' : Text) × (b' ≡ [])
    × (on_message list_buffer max accept sha1 decode fresh (by_token ++ wire (sent_hello ∷ []))
        ≡ replied (send response ∷ on_upgrade (pos 7) ∷ []) (hello ∷ []) ann b')
on_message-wire_example =
    on_message-wire list_buffer max accept sha1 decode (omega arith) fresh
      (by_token ++ wire (sent_hello ∷ [])) by_token (sent_hello ∷ []) (pos 7) (codes "ann") response
      refl (sent_hello-IsSent, tt) refl header_end (omega arith) by_token_accepted
