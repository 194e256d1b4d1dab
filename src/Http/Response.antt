-- ===== src/Http/Response.antt =====
-- `HttpResponse` of server/src/net/http/HttpResponse.{h,cc}. A method that changes the object returns
-- the new one, `append_to_buffer` returns the new output.
use dpush.Base.{
  ℕ, zero, suc, ◌+◌, ◌/◌, ◌%◌, List, [], ◌∷◌, ◌++◌, Bool, true, false, Text, codes, ltb,
  if◌then◌else◌, length,
}

pub data StatusCode : Type 0 where
  k_unknown k200 k301 k400 k403 k404 k503 k101 : StatusCode

-- static_cast<int>
abbrev pub status_value : StatusCode → ℕ
status_value k_unknown = 0
status_value k200 = 200
status_value k301 = 301
status_value k400 = 400
status_value k403 = 403
status_value k404 = 404
status_value k503 = 503
status_value k101 = 101

-- std::to_string of a number below 10 ^ 20, which every std::size_t is.
unfoldable pub decimal_digits : ℕ → ℕ → Text
decimal_digits zero n = []
decimal_digits (suc places) n =
    let more = decimal_digits places (n / 10) in
    if ltb n 10 then (48 + n) ∷ [] else more ++ (48 + n % 10) ∷ []

abbrev pub decimal : ℕ → Text
decimal n = decimal_digits 20 n

pub record HttpResponse : Type 0 where
  pub headers : List (Text × Text)
  pub status_code : StatusCode
  pub status_message : Text
  pub content_type : Text
  pub body : Text
  pub cookie : Text
  pub close_connection : Bool

abbrev pub new_response : Bool → HttpResponse
new_response close = record {
  headers = [];
  status_code = k_unknown;
  status_message = [];
  content_type = [];
  body = [];
  cookie = [];
  close_connection = close;
}

-- The order of std::string.
unfoldable pub text_less : Text → Text → Bool
text_less [] [] = false
text_less [] (y ∷ ys) = true
text_less (x ∷ xs) [] = false
text_less (x ∷ xs) (y ∷ ys) = if ltb x y then true else if ltb y x then false else text_less xs ys

-- headers_[key] = value
unfoldable pub put_header : Text → Text → List (Text × Text) → List (Text × Text)
put_header key value [] = (key, value) ∷ []
put_header key value ((k, v) ∷ hs) =
    if text_less k key
    then (k, v) ∷ put_header key value hs
    else if text_less key k
    then (key, value) ∷ (k, v) ∷ hs
    else (k, value) ∷ hs

-- The setters of a response.
pub data Setting : Type 0 where
  status_code_is : StatusCode → Setting
  status_message_is : Text → Setting
  close_connection_is : Bool → Setting
  content_type_is : Text → Setting
  cookie_is : Text → Setting
  header_is : Text → Text → Setting
  body_is : Text → Setting

unfoldable pub set : Setting → HttpResponse → HttpResponse
set (status_code_is code) r = record r { status_code = code }
set (status_message_is text) r = record r { status_message = text }
set (close_connection_is on) r = record r { close_connection = on }
set (content_type_is text) r = record r {
  headers = put_header (codes "Content-Type") text r.headers;
}
set (cookie_is text) r = record r { cookie = text }
set (header_is key value) r = record r { headers = put_header key value r.headers }
set (body_is text) r = record r { body = text }

abbrev pub line_end : Text
line_end = 13 ∷ 10 ∷ []

unfoldable pub status_line : HttpResponse → Text
status_line r =
    codes "HTTP/1.1 "
    ++ decimal (status_value r.status_code)
    ++ codes " "
    ++ r.status_message
    ++ line_end

unfoldable pub connection_line : HttpResponse → Text
connection_line r =
    (if r.close_connection then codes "Connection: close" else codes "Connection: Keep-alive")
    ++ line_end

unfoldable pub cookie_line : HttpResponse → Text
cookie_line r = elim r.cookie [
  | [] ↦ []
  | x ∷ xs ↦
      codes "set-cookie: sid="
      ++ (x ∷ xs)
      ++ codes "; "
      ++ codes "Path=/; "
      ++ codes "HttpOnly; Max-Age=86400; SameSite=Strict"
      ++ line_end
]

unfoldable pub length_line : ℕ → Text
length_line n = codes "Content-Length: " ++ decimal n ++ line_end

unfoldable pub content_type_line : HttpResponse → Text
content_type_line r = elim r.content_type [
  | [] ↦ []
  | x ∷ xs ↦ codes "Content-Type: " ++ (x ∷ xs) ++ line_end
]

unfoldable pub header_lines : List (Text × Text) → Text
header_lines [] = []
header_lines ((k, v) ∷ hs) = k ++ codes ": " ++ v ++ line_end ++ header_lines hs

-- appendToBuffer
unfoldable pub append_to_buffer : HttpResponse → Text → Text
append_to_buffer r output =
    output
    ++ status_line r
    ++ connection_line r
    ++ cookie_line r
    ++ length_line (length r.body)
    ++ content_type_line r
    ++ header_lines r.headers
    ++ line_end
    ++ r.body

-- appendToHeadBuffer
unfoldable pub append_to_head_buffer : HttpResponse → ℕ → Text → Text
append_to_head_buffer r body_size output =
    output
    ++ status_line r
    ++ connection_line r
    ++ cookie_line r
    ++ length_line body_size
    ++ header_lines r.headers
    ++ line_end
