-- ===== src/Dispatch.antt =====
-- The dispatch service, server/src/services/Dispatch/server/DispatchServer.{h,cc}: the gateways that it
-- offers to a client and the requests that it passes on to other services.
--
-- A handler's result is what it sends to its connection and whether it shuts the connection down, or
-- none where it ends without an answer. `sort` is std::sort by score, `parse_load` the JSON reader, and
-- `call` an RPC on a stub: none where its status is not OK.
pub mod Offer
use dpush.Base.{
  ℕ, zero, suc, min, ℤ, pos, negsuc, List, [], ◌∷◌, ◌++◌, Option, none, some, Bool, true, false,
  not, ltb, ◌&&◌, ◌||◌, ◌==◌, length, Text, text_eq, codes, if◌then◌else◌,
}
use dpush.Http.Request.{HttpRequest, Version, unknown, http10, http11, http20, get_header}
use dpush.Http.Response.{
  HttpResponse, new_response, set, status_code_is, status_message_is, close_connection_is,
  content_type_is, body_is, k200, k400, append_to_buffer,
}
use dpush.Registry.{Cache, StubMap, get_stub_from_prefix}

pub record GatewayInfo : Type 0 where
  pub score : ℤ
  pub gateway_url : Text

-- The gateways of the table of loads, in the order of HGETALL: those whose load can be read.
unfoldable pub read_loads : (Text → Option ℤ) → List (Text × Text) → List GatewayInfo
read_loads parse_load [] = []
read_loads parse_load ((url, load) ∷ loads) =
    let rest = read_loads parse_load loads in
    elim (parse_load load) [
      | none ↦ rest
      | some score ↦ record { score = score; gateway_url = url } ∷ rest
    ]

-- A round of BackendSyncTask.
unfoldable pub sync_gateways :
    (List GatewayInfo → List GatewayInfo)
    → (Text → Option ℤ)
    → List (Text × Text)
    → List GatewayInfo
sync_gateways sort parse_load loads = sort (read_loads parse_load loads)

-- gateway_endpoints.index_map_.contains(url)
unfoldable pub is_registered : Text → Cache → Text → Bool
is_registered prefix cache url = elim (cache prefix) [
  | none ↦ false
  | some pool ↦ elim (pool.index_map url) [ none ↦ false | some _ ↦ true ]
]

-- The loop on the cached gateways: `count` is how many may still be offered.
unfoldable pub valid_urls : (Text → Bool) → ℕ → List GatewayInfo → List Text
valid_urls registered zero gateways = []
valid_urls registered (suc count) [] = []
valid_urls registered (suc count) (g ∷ gateways) =
    let one_less = valid_urls registered count gateways in
    let same = valid_urls registered (suc count) gateways in
    if registered g.gateway_url then g.gateway_url ∷ one_less else same

abbrev pub quoted_url : Text → Text
quoted_url url = codes "\"ws://" ++ url ++ codes "\""

unfoldable pub urls_json : List Text → Text
urls_json [] = []
urls_json (url ∷ []) = quoted_url url
urls_json (url ∷ next ∷ urls) = quoted_url url ++ codes "," ++ urls_json (next ∷ urls)

abbrev pub is_http10 : Version → Bool
is_http10 unknown = false
is_http10 http10 = true
is_http10 http11 = false
is_http10 http20 = false

-- Whether the request asks for the end of its connection.
unfoldable pub asks_close : HttpRequest → Bool
asks_close req =
    let connection : Text = elim (get_header (codes "Connection") req) [
      | none ↦ []
      | some text ↦ text
    ] in
    text_eq connection (codes "close")
    || is_http10 req.version && not (text_eq connection (codes "Keep-Alive"))

abbrev pub send_response : HttpResponse → Text × Bool
send_response res = (append_to_buffer res [], res.close_connection)

-- The answer of onDispatch.
unfoldable pub offer_urls : HttpRequest → List Text → Text × Bool
offer_urls req urls = send_response (
    set (body_is (codes "{\"code\": 0, \"urls\": [" ++ urls_json urls ++ codes "]}"))
      (set (content_type_is (codes "application/json")) (new_response (asks_close req))))

-- onDispatch: where no gateway is cached, a response is made and not sent.
unfoldable pub on_dispatch : Text → Cache → List GatewayInfo → HttpRequest → Option (Text × Bool)
on_dispatch gateway_prefix cache [] req = none
on_dispatch gateway_prefix cache (g ∷ gateways) req = some (
    offer_urls req (
      valid_urls (is_registered gateway_prefix cache) (min 2 (length (g ∷ gateways)))
        (g ∷ gateways)))

-- sendHttpResponse: `errcode` and `body` are of the answer of the other service.
unfoldable pub send_http_response : ℤ → Text → HttpRequest → Text × Bool
send_http_response (pos errcode) body req = send_response (
    set (body_is body) (
      set (content_type_is (codes "application/octet-stream")) (
        set (close_connection_is true) (
          set (status_message_is (codes "OK"))
            (set (status_code_is k200) (new_response (asks_close req)))))))
send_http_response (negsuc errcode) body req = send_response (
    set (body_is body) (
      set (content_type_is (codes "application/octet-stream")) (
        set (close_connection_is true) (
          set (status_message_is (codes "Bad Request"))
            (set (status_code_is k400) (new_response (asks_close req)))))))

-- GenericApiHandler, with the turn that it takes of the endpoints of the service.
unfoldable pub generic_api_handler :
    Text
    → Cache
    → StubMap
    → (Text → Text → Option (ℤ × Text))
    → HttpRequest
    → Option (Text × Bool) × Cache
generic_api_handler prefix cache stubs call req =
    let (stub, after) = get_stub_from_prefix prefix cache stubs in
    (
      elim stub [
        | none ↦ none
        | some endpoint ↦ elim (call endpoint req.body) [
          | none ↦ none
          | some reply ↦ some (send_http_response reply.0 reply.1 req)
        ]
      ],
      after,
    )
