-- ===== src/Handshake.antt =====
-- The handshake of the gateway: `AnalysisCookie`, `HandleUpgradeResponse` and
-- `wsServer::processHandshake` of server/src/services/Gateway/server/wsServer.cc, with the texts of
-- server/src/base/constants/{http_constants.h,ws_constants.h}.
--
-- OpenSSL's SHA1 and libjwt are parameters: `decode` gives the user id and the name of a token under
-- the gateway's key, or none.
pub mod Accepted
use dpush.Base.{
  ℕ, suc, zero, ◌+◌, ◌-◌, ◌^◌, ltb, ℤ, pos, negsuc, decr, ◌≡◌, List, [], ◌∷◌, ◌++◌, Option, none,
  some, Bool, true, false, ◌||◌, not, Text, codes, leb, ◌==◌, if◌then◌else◌, length, take, drop,
  skip_spaces,
}
use dpush.Buffer.{search}
use dpush.Base64.{base64_encode}
use dpush.Http.Context.{digits_value}
use dpush.Http.Response.{decimal}

-- kCRLF
abbrev pub line_break : Text
line_break = 13 ∷ 10 ∷ []

-- The bytes before the first occurrence of a text, or none without one.
unfoldable pub before : Text → Text → Option Text
before text xs = elim (search text xs) [ none ↦ none | some n ↦ some (take n xs) ]

unfoldable pub has : Text → Text → Bool
has text xs = elim (search text xs) [ none ↦ false | some _ ↦ true ]

-- What follows `sid=` in the cookie line, up to a ';'.
unfoldable pub sid_of : Text → Text
sid_of fields = elim (search (codes "sid=") fields) [
  | none ↦ []
  | some at ↦
      let found = drop (at + 4) fields in
      elim (before (codes ";") found) [ none ↦ found | some sid ↦ sid ]
]

-- AnalysisCookie
unfoldable pub analysis_cookie : Text → Text
analysis_cookie header = elim (search (codes "Cookie") header) [
  | none ↦ []
  | some start ↦ elim (before line_break (drop start header)) [
    | none ↦ []
    | some fields ↦ sid_of fields
  ]
]

unfoldable pub skip_blanks : Text → Text
skip_blanks [] = []
skip_blanks (x ∷ xs) = if x == 32 then skip_blanks xs else x ∷ xs

-- The key of the client; none where the code answers 400.
unfoldable pub websocket_key : Text → Option Text
websocket_key header = elim (search (codes "Sec-WebSocket-Key:") header) [
  | none ↦ none
  | some at ↦ elim (before line_break (skip_blanks (drop (at + 18) header))) [
    | none ↦ none
    | some key ↦ elim key [ [] ↦ none | x ∷ xs ↦ some (x ∷ xs) ]
  ]
]

abbrev pub ws_guid : Text
ws_guid = codes "258EAFA5-E914-47DA-95CA-C5AB0DC85B11"

abbrev pub bad_request : Text
bad_request = codes "HTTP/1.1 400 Bad Request" ++ line_break ++ line_break

-- buildHandshakeResponse
abbrev pub handshake_response : Text → Text
handshake_response accept =
    codes "HTTP/1.1 101 Switching Protocols"
    ++ line_break
    ++ (codes "Upgrade: websocket" ++ line_break)
    ++ (codes "Connection: Upgrade" ++ line_break)
    ++ (codes "Sec-WebSocket-Accept: " ++ (accept ++ (line_break ++ line_break)))

-- std::stoi: a number of 32 bits, or one of its exceptions
pub data Stoi : Type 0 where
  number : ℤ → Stoi
  no_number too_large : Stoi

unfoldable pub stoi_digits : Bool → Text → Stoi
stoi_digits negative xs =
    let (n, digits) = digits_value 0 0 xs in
    if digits == 0
    then no_number
    else if negative
    then (if leb n (2 ^ 31)
        then number (elim n [ zero ↦ pos zero | suc k ↦ negsuc k ])
        else too_large)
    else if leb (2 ^ 31) n
    then too_large
    else number (pos n)

unfoldable pub stoi_sign : Text → Stoi
stoi_sign [] = no_number
stoi_sign (x ∷ xs) =
    if x == b'-'
    then stoi_digits true xs
    else if x == b'+'
    then stoi_digits false xs
    else stoi_digits false (x ∷ xs)

unfoldable pub stoi : Text → Stoi
stoi xs = stoi_sign (skip_spaces xs)

abbrev pub minus : ℕ → ℤ → ℤ
minus zero z = z
minus (suc n) z = decr (minus n z)

-- std::to_string of an int
abbrev pub int_text : ℤ → Text
int_text (pos n) = decimal n
int_text (negsuc n) = b'-' ∷ decimal (n + 1)

-- The name that a client without a cookie gets; none where the subtraction of the two int overflows.
unfoldable pub user_name : ℤ → Option Text
user_name (pos n) = some (codes "user_" ++ int_text (minus 32 (pos n)))
user_name (negsuc n) =
    if leb (2 ^ 31 - 32) n then none else some (codes "user_" ++ int_text (minus 32 (negsuc n)))

-- What a handshake does: false is returned; the response is sent and the session gets its user; or
-- an exception of std::stoi leaves it; or the subtraction of a user id overflows, which is undefined.
pub data Handshake : Type 0 where
  refused : Handshake
  accepted : ℤ → Text → Text → Handshake
  stoi_throws : Stoi → Handshake
  overflows : Handshake

abbrev pub asks_upgrade : Text → Bool
asks_upgrade header =
    has (codes "Upgrade: websocket") header || has (codes "Upgrade: WebSocket") header

abbrev pub starts_get : Text → Bool
starts_get header = elim (search (codes "GET") header) [ none ↦ false | some at ↦ at == 0 ]

module _ (sha1 : Text → Text) (decode : Text → Option (ℤ × Option Text)) where
  -- HandleUpgradeResponse
  unfoldable pub handle_upgrade_response : Text → Text
  handle_upgrade_response header = elim (websocket_key header) [
    | none ↦ bad_request
    | some key ↦ handshake_response (base64_encode (sha1 (key ++ ws_guid)))
  ]

  -- The end of processHandshake, for a user that is known.
  unfoldable pub answer : Text → ℤ → Text → Handshake
  answer header userid username =
      if has (codes "101") (handle_upgrade_response header)
      then accepted userid username (handle_upgrade_response header)
      else refused

  -- The branch without a cookie: the user id is the request's target. The text given to stoi starts
  -- behind `GET ` and has pos_end - pos_start bytes at most, all where that difference wraps.
  unfoldable pub without_cookie : Text → Handshake
  without_cookie header = elim (search (codes "GET ") header) [
    | none ↦ refused
    | some start ↦ elim (search (codes " HTTP/1.1" ++ line_break) header) [
      | none ↦ refused
      | some end ↦
          elim (stoi (
            take (if ltb end start then length header else end - start)
              (drop (start + 4) header))) [
                | number userid ↦ elim (user_name userid) [
                  | none ↦ overflows
                  | some username ↦ answer header userid username
                ]
                | no_number ↦ stoi_throws no_number
                | too_large ↦ stoi_throws too_large
              ]
    ]
  ]

  -- The branch with a cookie: a token without a name is refused.
  unfoldable pub with_cookie : Text → Text → Handshake
  with_cookie header cookie = elim (decode cookie) [
    | none ↦ refused
    | some claims ↦ elim (claims.1) [
      | none ↦ refused
      | some name ↦ elim name [ [] ↦ refused | x ∷ xs ↦ answer header claims.0 (x ∷ xs) ]
    ]
  ]

  -- processHandshake
  unfoldable pub process_handshake : Text → Handshake
  process_handshake header =
      if not (starts_get header)
      then refused
      else if not (asks_upgrade header)
      then refused
      else elim (analysis_cookie header) [
        | [] ↦ without_cookie header
        | x ∷ xs ↦ with_cookie header (x ∷ xs)
      ]
