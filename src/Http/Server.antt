-- ===== src/Http/Server.antt =====
-- `HttpServer` of server/src/net/http/HttpServer.{h,cc}: the routes, and what a read of a connection
-- does.
--
-- A handler is a coroutine of the service behind the server; it is named by a value of `Handler`. What
-- the server does to a connection is a list of `Action`, in order. `disconnected` is what the
-- connection answers; it changes only in the connection's own loop, so not during a read.
use dpush.Base.{
  List, [], ◌∷◌, ◌++◌, Option, none, some, Bool, true, false, Text, codes, text_dec, update,
  if◌then◌else◌,
}
use dpush.Buffer.{Buffer}
use dpush.Http.Request.{HttpRequest}
use dpush.Http.Context.{
  HttpContext, ParseState, expect_request_line, expect_headers, expect_body, got_all, fresh_context,
  Stoul, parse_request, Parse, returned, thrown, assertion_failed, no_fuel,
}
use dpush.Http.Response.{
  HttpResponse, new_response, set, status_code_is, status_message_is, close_connection_is, k404,
  append_to_buffer,
}

-- The response of defaultHttpCallback.
abbrev pub not_found : HttpResponse
not_found =
    set (close_connection_is true)
      (set (status_message_is (codes "Not Found")) (set (status_code_is k404) (new_response true)))

abbrev pub bad_request : Text
bad_request = codes "HTTP/1.1 400 Bad Request" ++ 13 ∷ 10 ∷ 13 ∷ 10 ∷ []

abbrev pub all_got : ParseState → Bool
all_got expect_request_line = false
all_got expect_headers = false
all_got expect_body = false
all_got got_all = true

module _ (Handler : Type 0) where
  -- coro_routes
  abbrev pub Routes : Type 0
  Routes = Text → Option Handler

  -- GetAsync: a path that is routed already keeps its handler.
  unfoldable pub get_async : Text → Handler → Routes → Routes
  unfolding text_dec
  get_async path handler routes = elim (routes path) [
    | none ↦ update text_dec routes path (some handler)
    | some _ ↦ routes
  ]

  pub data Action : Type 0 where
    handle : Handler → HttpRequest → Action
    send : Text → Action
    shut_down : Action

  -- defaultHttpCallback
  unfoldable pub default_http_callback : Bool → List Action
  default_http_callback disconnected =
      if disconnected
      then []
      else send (append_to_buffer not_found [])
        ∷ (if not_found.close_connection then shut_down ∷ [] else [])

  -- onRequest
  unfoldable pub on_request : Bool → Routes → HttpRequest → List Action
  on_request disconnected routes request = if disconnected then [] else elim (routes request.path) [
    | none ↦ default_http_callback disconnected
    | some handler ↦ handle handler request ∷ []
  ]

  -- What a read does: actions, the connection's context and the rest of the buffer; or the parser's
  -- exception or failed assertion, which leave it.
  pub data Reply (B : Type 0) : Type 0 where
    replied : List Action → Option HttpContext → B → Reply B
    thrown_out : Stoul → HttpContext → B → Reply B
    aborted : Reply B
    out_of_fuel : Reply B

  module _ (buffer : Buffer) where
    open buffer use {Buf}

    -- onMessage behind the parser
    unfoldable pub after_parse : Bool → Routes → Parse Buf → Reply Buf
    after_parse disconnected routes (returned ok c b) =
        if ok
        then (if all_got c.state
            then replied (on_request disconnected routes c.request) (some fresh_context) b
            else replied [] (some c) b)
        else replied (send bad_request ∷ shut_down ∷ []) (some c) b
    after_parse disconnected routes (thrown e c b) = thrown_out e c b
    after_parse disconnected routes assertion_failed = aborted
    after_parse disconnected routes no_fuel = out_of_fuel

    -- onMessage
    unfoldable pub on_message : Bool → Routes → Option HttpContext → Buf → Reply Buf
    on_message disconnected routes context b =
        if disconnected then replied [] context b else elim context [
          | none ↦ replied [] none b
          | some c ↦ after_parse disconnected routes (parse_request buffer c b)
        ]
