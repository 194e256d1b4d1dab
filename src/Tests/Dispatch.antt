-- ===== src/Tests/Dispatch.antt =====
-- Three gateways with their loads, one of which etcd does not know.
use dpush.Base.{
  ℕ, ◌≡◌, refl, ℤ, pos, List, [], ◌∷◌, ◌++◌, Option, none, some, true, false, min, length,
  get_elem?, Text, text_eq, codes, arith, if◌then◌else◌,
}
use dpush.Http.Request.{HttpRequest, empty_request, find_header, get_header, less}
use dpush.Http.Response.{
  set, put_header, text_less, append_to_buffer, status_line, connection_line, cookie_line,
  length_line, content_type_line, header_lines, decimal_digits,
}
use dpush.Registry.{
  NodePool, Cache, get_stub_from_prefix, get_stub_from_endpoint, get_endpoint, take_turn,
}
use dpush.Dispatch.{
  GatewayInfo, read_loads, sync_gateways, is_registered, valid_urls, urls_json, asks_close,
  offer_urls, on_dispatch, send_http_response, generic_api_handler,
}
use dpush.Dispatch.Offer.{urls, live, int_less, on_dispatch-least}

program : Unit {0}
unfolding text_eq find_header get_header less set put_header text_less append_to_buffer status_line
    connection_line cookie_line length_line content_type_line header_lines decimal_digits
    get_stub_from_prefix get_stub_from_endpoint get_endpoint take_turn read_loads sync_gateways
    is_registered valid_urls urls_json asks_close offer_urls on_dispatch send_http_response
    generic_api_handler
program = tt

abbrev pool : NodePool
pool = record {
  endpoints = codes "a" ∷ codes "c" ∷ [];
  index_map =
      λ e. if text_eq e (codes "a") then some 0 else if text_eq e (codes "c") then some 1 else none;
  index = 0;
}

abbrev cache : Cache
cache = λ p. some pool

-- the load is the length of the text
abbrev load_of : Text → Option ℤ
load_of [] = none
load_of (x ∷ xs) = some (pos (length xs))

abbrev gateways : List GatewayInfo
gateways =
    sync_gateways (λ gs. gs) load_of
      ((codes "a", codes "1")
        ∷ (codes "b", codes "22")
        ∷ (codes "lost", [])
        ∷ (codes "c", codes "333")
        ∷ [])

abbrev req : HttpRequest
req = empty_request

-- the status of the answer is 0
offered :
    on_dispatch (codes "g") cache gateways req
    ≡ some (
      codes "HTTP/1.1 0 "
          ++ 13 ∷ 10 ∷ codes "Connection: Keep-alive"
          ++ 13 ∷ 10 ∷ codes "Content-Length: 40"
          ++ 13 ∷ 10 ∷ codes "Content-Type: application/json"
          ++ 13 ∷ 10 ∷ 13 ∷ 10 ∷ codes "{\"code\": 0, \"urls\": [\"ws://a\",\"ws://c\"]}",
      false,
    )
unfolding program
offered = refl

-- no gateway, no stub and a failed call are not answered
unanswered :
    (on_dispatch (codes "g") cache [] req ≡ none)
    × ((generic_api_handler (codes "auth") cache (λ e. false) (λ e body. some (pos 0, body)) req).0
        ≡ none)
    × ((generic_api_handler (codes "auth") cache (λ e. true) (λ e body. none) req).0 ≡ none)
unfolding program
unanswered = (refl, refl, refl)

abbrev three : List GatewayInfo
three =
    record { score = pos 0; gateway_url = codes "a" }
    ∷ record { score = pos 1; gateway_url = codes "b" }
    ∷ record { score = pos 2; gateway_url = codes "c" }
    ∷ []

synced : gateways ≡ three
unfolding program
synced = refl

on_dispatch-least_example :
    (front : List GatewayInfo) × ((others : List GatewayInfo) × ((on_dispatch
            (codes "g")
            cache
            three
            req
          ≡ some (offer_urls req (urls front)))
        × ((live (is_registered (codes "g") cache) three ≡ front ++ others)
            × ((length front ≡ min 2 (length (live (is_registered (codes "g") cache) three)))
                × ((i j : ℕ) (g k : GatewayInfo)
                    → get_elem? front i ≡ some g
                    → get_elem? others j ≡ some k
                    → int_less k.score g.score ≡ false)))))
on_dispatch-least_example =
    on_dispatch-least (codes "g") cache three req (omega arith)
      ((refl, (refl, tt)), ((refl, tt), (tt, tt)))
