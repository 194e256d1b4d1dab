-- ===== src/WsServer.antt =====
-- `wsServer::onMessage` of server/src/services/Gateway/server/wsServer.cc: what a read of a gateway
-- connection does, before and behind the handshake. `Out` lists what is done to the connection and the
-- call of onUpgrade, in order; the messages are those that go to dispatchEvent (`Inbox.dispatch_event`),
-- which is not called when there are none. A connection is up while it is read.
pub mod Upgrade
use dpush.Base.{
  ℕ, ◌+◌, ℤ, List, [], ◌∷◌, ◌++◌, Option, none, some, Bool, true, false, Text, codes, ◌==◌,
  if◌then◌else◌, length, take,
}
use dpush.Buffer.{Buffer}
use dpush.Frame.Read.{Outcome, returned, thrown, no_fuel, on_read}
use dpush.Handshake.{
  Handshake, refused, accepted, stoi_throws, overflows, process_handshake, line_break,
}

pub data WsState : Type 0 where
  expecting_http_request established : WsState

pub record WsSession : Type 0 where
  pub state : WsState
  pub userid : ℤ
  pub username : Text

pub data Out : Type 0 where
  send : Text → Out
  force_close : Out
  on_upgrade : ℤ → Out

-- What a read does: actions, messages, the session and the buffer; or an exception leaves it; or an int
-- overflows.
pub data WsReply (B : Type 0) : Type 0 where
  replied : List Out → List (List ℕ) → WsSession → B → WsReply B
  thrown_out : List Out → WsSession → B → WsReply B
  out_of_fuel : WsReply B
  undefined : WsReply B

-- k2CRLF
abbrev pub two_line_breaks : Text
two_line_breaks = 13 ∷ 10 ∷ 13 ∷ 10 ∷ []

abbrev pub unauthorized : Text
unauthorized = codes "HTTP/1.1 401 Unauthorized" ++ two_line_breaks

module _ (buffer : Buffer) (max_size : ℕ) (verify : List ℕ → Bool) (sha1 : Text → Text)
    (decode : Text → Option (ℤ × Option Text)) where
  open buffer use {Buf, readable, retrieve, find}

  unfoldable pub read_messages : List Out → WsSession → Buf → WsReply Buf
  read_messages outs s b = elim (on_read buffer max_size verify false b) [
    | returned messages b' ↦ replied outs messages s b'
    | thrown b' ↦ thrown_out outs s b'
    | no_fuel ↦ out_of_fuel
  ]

  -- The branch of a whole header, by what the handshake does; `size` is the header's.
  unfoldable pub after_handshake : ℕ → WsSession → Buf → Handshake → WsReply Buf
  after_handshake size s b refused = replied (send unauthorized ∷ force_close ∷ []) [] s b
  after_handshake size s b (stoi_throws e) = thrown_out [] s b
  after_handshake size s b overflows = undefined
  after_handshake size s b (accepted userid username response) =
      let s' : WsSession = record { state = established; userid = userid; username = username } in
      let outs : List Out = send response ∷ on_upgrade userid ∷ [] in
      let b' = retrieve size b in
      if length (readable b') == 0 then replied outs [] s' b' else read_messages outs s' b'

  -- onMessage
  unfoldable pub on_message : WsSession → Buf → WsReply Buf
  on_message s b = elim s.state [
    | expecting_http_request ↦ elim (find two_line_breaks b) [
      | none ↦ replied [] [] s b
      | some crlf ↦
          after_handshake (crlf + 4) s b
            (process_handshake sha1 decode (take (crlf + 4) (readable b)))
    ]
    | established ↦ read_messages [] s b
  ]
