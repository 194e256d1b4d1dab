-- ===== src/Http/Context.antt =====
-- `HttpContext` of server/src/net/http/HttpContext.{h,cc}: the parser of a request that arrives in
-- pieces.
use dpush.Base.{
  ℕ, zero, suc, ◌+◌, ◌-◌, ◌*◌, ◌%◌, ◌^◌, [], ◌∷◌, Option, none, some, Bool, true, false, ◌&&◌, Text,
  codes, text_eq, split_at, skip_spaces, ltb, leb, ◌==◌, if◌then◌else◌, drop, take, length,
}
use dpush.Buffer.{Buffer}
use dpush.Http.Request.{
  HttpRequest, empty_request, Version, http10, http11, set_method, add_header, get_header,
}

pub data ParseState : Type 0 where
  expect_request_line expect_headers expect_body got_all : ParseState

pub record HttpContext : Type 0 where
  pub state : ParseState
  pub request : HttpRequest

-- HttpContext::HttpContext and HttpContext::reset
abbrev pub fresh_context : HttpContext
fresh_context = record { state = expect_request_line; request = empty_request }

-- The version behind the second space: eight bytes, `HTTP/1.1` or `HTTP/1.0`.
unfoldable pub version_of : Text → Option Version
version_of rest =
    if text_eq rest (codes "HTTP/1.1")
    then some http11
    else if text_eq rest (codes "HTTP/1.0")
    then some http10
    else none

-- setPath and setQuery on the target between the spaces
unfoldable pub set_target : Text → HttpRequest → HttpRequest
set_target target r = elim (split_at b'?' target) [
  | none ↦ record r { path = target }
  | some p ↦ record r { path = p.0; query = p.1 }
]

-- processRequestLine: the result and the request; `none` is a failed assertion.
unfoldable pub process_request_line : Text → HttpRequest → Option (Bool × HttpRequest)
process_request_line line r = elim (split_at b' ' line) [
  | none ↦ some (false, r)
  | some p ↦ elim (set_method p.0 r) [
    | none ↦ none
    | some m ↦
        if m.0
        then elim (split_at b' ' p.1) [
          | none ↦ some (false, m.1)
          | some t ↦
              let r' = set_target t.0 m.1 in
              elim (version_of t.1) [
                | none ↦ some (false, r')
                | some v ↦ some (true, record r' { version = v })
              ]
        ]
        else some (false, m.1)
  ]
]

-- std::stoul: a number, or one of its exceptions
pub data Stoul : Type 0 where
  value : ℕ → Stoul
  invalid_argument out_of_range : Stoul

-- The value of the leading digits, with how many there are.
unfoldable pub digits_value : ℕ → ℕ → Text → ℕ × ℕ
digits_value acc n [] = (acc, n)
digits_value acc n (x ∷ xs) =
    let more = digits_value (acc * 10 + (x - 48)) (n + 1) xs in
    if leb 48 x && leb x 57 then more else (acc, n)

-- strtoul negates behind a '-', modulo 2^64.
unfoldable pub stoul_digits : Bool → Text → Stoul
stoul_digits negative xs =
    let (n, digits) = digits_value 0 0 xs in
    if digits == 0
    then invalid_argument
    else if leb (2 ^ 64) n
    then out_of_range
    else value (if negative then (2 ^ 64 - n) % 2 ^ 64 else n)

unfoldable pub stoul_sign : Text → Stoul
stoul_sign [] = invalid_argument
stoul_sign (x ∷ xs) =
    if x == b'-'
    then stoul_digits true xs
    else if x == b'+'
    then stoul_digits false xs
    else stoul_digits false (x ∷ xs)

unfoldable pub stoul : Text → Stoul
stoul xs = stoul_sign (skip_spaces xs)

-- What a call of parseRequest does: it returns, an exception of std::stoul leaves it, or an
-- assertion fails. `no_fuel` is no behaviour of the code.
pub data Parse (B : Type 0) : Type 0 where
  returned : Bool → HttpContext → B → Parse B
  thrown : Stoul → HttpContext → B → Parse B
  assertion_failed : Parse B
  no_fuel : Parse B

module _ (buffer : Buffer) where
  open buffer use {Buf, readable, retrieve, find, find_crlf}

  -- A round of the loop: it goes on, or the call ends.
  pub data Round : Type 0 where
    again : HttpContext → Buf → Round
    stop : Parse Buf → Round

  unfoldable pub request_line_round : HttpContext → Buf → Round
  request_line_round c b = elim (find_crlf b) [
    | none ↦ stop (returned true c b)
    | some crlf ↦ elim (process_request_line (take crlf (readable b)) c.request) [
      | none ↦ stop assertion_failed
      | some p ↦
          if p.0
          then again (record { state = expect_headers; request = p.1 }) (retrieve (crlf + 2) b)
          else stop (returned false (record c { request = p.1 }) b)
    ]
  ]

  unfoldable pub header_round : HttpContext → Buf → Round
  header_round c b = elim (find_crlf b) [
    | none ↦ stop (returned true c b)
    | some crlf ↦
        if crlf == 0
        then again (record c { state = expect_body }) (retrieve 2 b)
        else elim (find (b':' ∷ []) b) [
          | none ↦ again c (retrieve (crlf + 2) b)
          | some colon ↦
              if ltb colon crlf
              then again
                  (record c {
                    request =
                        add_header (take colon (readable b))
                          (drop (colon + 1) (take crlf (readable b))) c.request;
                  })
                  (retrieve (crlf + 2) b)
              else again c (retrieve (crlf + 2) b)
        ]
  ]

  unfoldable pub body_round : HttpContext → Buf → Round
  body_round c b = elim (get_header (codes "Content-Length") c.request) [
    | none ↦ stop (returned true (record c { state = got_all }) b)
    | some strlen ↦ elim (stoul strlen) [
      | value n ↦
          if leb n (length (readable b))
          then again
              (record c {
                state = got_all;
                request = record (c.request) { body = take n (readable b) };
              })
              (retrieve n b)
          else stop (returned true c b)
      | invalid_argument ↦ stop (thrown invalid_argument c b)
      | out_of_range ↦ stop (thrown out_of_range c b)
    ]
  ]

  unfoldable pub round : ParseState → HttpContext → Buf → Round
  round expect_request_line c b = request_line_round c b
  round expect_headers c b = header_round c b
  round expect_body c b = body_round c b
  round got_all c b = stop (returned true c b)

  unfoldable pub parse_loop : ℕ → HttpContext → Buf → Parse Buf
  parse_loop zero c b = no_fuel
  parse_loop (suc fuel) c b = elim (round c.state c b) [
    | again c' b' ↦ parse_loop fuel c' b'
    | stop p ↦ p
  ]

  -- HttpContext::parseRequest. Every round but the last two takes at least two bytes.
  unfoldable pub parse_request : HttpContext → Buf → Parse Buf
  parse_request c b = parse_loop (length (readable b) + 3) c b
