-- ===== src/Http/Request.antt =====
-- `HttpRequest` of server/src/net/http/HttpRequest.{h,cc}. A method that changes the object returns
-- the new one. The headers are a std::map under `CaseInsensitiveLess`: a list in its order.
use dpush.Base.{
  ℕ, zero, suc, ◌+◌, List, [], ◌∷◌, ◌++◌, Option, none, some, Bool, true, false, not, ◌&&◌, Text,
  codes, text_eq, skip_spaces, trim_end, to_lower, ltb, ◌==◌, if◌then◌else◌, drop, length,
}
use dpush.Buffer.{search}

pub data Method : Type 0 where
  invalid get post head put delete : Method

pub data Version : Type 0 where
  unknown http10 http11 http20 : Version

abbrev pub Headers : Type 0
Headers = List (Text × Text)

pub record HttpRequest : Type 0 where
  pub method : Method
  pub version : Version
  pub path : Text
  pub query : Text
  pub body : Text
  pub headers : Headers

-- HttpRequest::HttpRequest, and what `clear` makes of a request
abbrev pub empty_request : HttpRequest
empty_request = record {
  method = invalid;
  version = unknown;
  path = [];
  query = [];
  body = [];
  headers = [];
}

-- CaseInsensitiveLess
unfoldable pub less : Text → Text → Bool
less [] [] = false
less [] (y ∷ ys) = true
less (x ∷ xs) [] = false
less (x ∷ xs) (y ∷ ys) =
    if ltb (to_lower x) (to_lower y)
    then true
    else if ltb (to_lower y) (to_lower x)
    then false
    else less xs ys

-- Two keys of the map are one.
abbrev pub same_key : Text → Text → Bool
same_key a b = not (less a b) && not (less b a)

-- headers_[field] = value
unfoldable pub assign_header : Text → Text → Headers → Headers
assign_header field value [] = (field, value) ∷ []
assign_header field value ((k, v) ∷ hs) =
    if same_key k field
    then (k, value) ∷ hs
    else if less field k
    then (field, value) ∷ (k, v) ∷ hs
    else (k, v) ∷ assign_header field value hs

unfoldable pub find_header : Text → Headers → Option Text
find_header field [] = none
find_header field ((k, v) ∷ hs) = if same_key k field then some v else find_header field hs

-- getHeader
unfoldable pub get_header : Text → HttpRequest → Option Text
get_header field r = find_header field r.headers

unfoldable pub method_of : Text → Method
method_of m =
    if text_eq m (codes "GET")
    then get
    else if text_eq m (codes "POST")
    then post
    else if text_eq m (codes "HEAD")
    then head
    else if text_eq m (codes "PUT")
    then put
    else if text_eq m (codes "DELETE")
    then delete
    else invalid

abbrev pub is_invalid : Method → Bool
is_invalid invalid = true
is_invalid get = false
is_invalid post = false
is_invalid head = false
is_invalid put = false
is_invalid delete = false

-- setMethod(start, end); `none` is the failed assertion that no method is set yet.
unfoldable pub set_method : Text → HttpRequest → Option (Bool × HttpRequest)
set_method m r =
    if is_invalid r.method
    then some (not (is_invalid (method_of m)), record r { method = method_of m })
    else none

-- addHeader(start, colon, end), by the bytes before the colon and those behind it
unfoldable pub add_header : Text → Text → HttpRequest → HttpRequest
add_header field value r = record r {
  headers = assign_header field (trim_end (skip_spaces value)) r.headers;
}

-- methodString
unfoldable pub method_string : Method → Text
method_string invalid = codes "UNKNOWN"
method_string get = codes "GET"
method_string post = codes "POST"
method_string head = codes "HEAD"
method_string put = codes "PUT"
method_string delete = codes "DELETE"

-- The bytes before the first '&', or all.
unfoldable pub until_and : Text → Text
until_and [] = []
until_and (x ∷ xs) = if x == 38 then [] else x ∷ until_and xs

-- The loop of getQueryParam on the query from `pos` on; `start` says whether pos is 0 or follows an
-- '&'. The loop looks for the next place of `key=` and takes it if it is such a start; otherwise it
-- goes on behind the place.
unfoldable pub query_param : ℕ → Text → ℕ → Text → Text
query_param zero searchkey before q = []
query_param (suc fuel) searchkey before q = elim (search searchkey q) [
  | none ↦ []
  | some at ↦
      let found = drop (at + length searchkey) q in
      let left : ℕ = elim (drop (at + length searchkey) (before ∷ q)) [ [] ↦ 0 | x ∷ _ ↦ x ] in
      let prior : ℕ = elim (drop at (before ∷ q)) [ [] ↦ 0 | x ∷ _ ↦ x ] in
      if prior == 38 then until_and found else query_param fuel searchkey left found
]

-- getQueryParam; before the first byte stands a start, as an '&' would make one
unfoldable pub get_query_param : Text → HttpRequest → Text
get_query_param key r = elim key [
  | [] ↦ []
  | x ∷ xs ↦ query_param (suc (length r.query)) ((x ∷ xs) ++ codes "=") 38 r.query
]
