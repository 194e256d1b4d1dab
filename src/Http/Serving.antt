-- ===== src/Http/Serving.antt =====
-- What the server does about a read: requests that it hands on, requests that it refuses, and those
-- that end the process.
use dpush.Base.{
  ℕ, suc, ◌+◌, ◌≡◌, ◌≢◌, refl, ap, ◌∙◌, List, [], ◌∷◌, ◌++◌, none, some, true, false, Text, codes,
  arith, length, Without, append_assoc, take-length_append, take, inl, inr, Option-cases, split_at,
  split_at-append,
}
use dpush.Buffer.{Buffer}
use dpush.Http.Request.{
  HttpRequest, empty_request, Method, is_invalid, Version, get_header, method_string, set_method,
}
use dpush.Http.Context.{
  HttpContext, expect_request_line, expect_body, fresh_context, Parse, returned, assertion_failed,
  Stoul, value, stoul, parse_request, stop, round, request_line_round, process_request_line,
  version_of, set_target,
}
use dpush.Http.Lines.{
  Target, IsTarget, IsTaken, request_line, method_string-Without, set_method-method_string,
}
use dpush.Http.Rounds.{Field, AreFields, find_crlf-line, parse_loop-stop}
use dpush.Http.Parse.{head_text, parsed_head, parse_request-body, parse_request-thrown}
use dpush.Http.Server.{
  Routes, handle, send, shut_down, on_request, bad_request, replied, thrown_out, aborted,
  after_parse, on_message,
}

set_target-method : (target : Text) (r : HttpRequest) → (set_target target r).method ≡ r.method
unfolding set_target
set_target-method target r = elim (Option-cases (split_at b'?' target)) [
  | inl e ↦ rw (e, set_target) refl
  | inr (p, e) ↦ rw (e, set_target) refl
]

abbrev pub refused_line : Method → Text → Text → Text
refused_line m target ver = method_string m ++ b' ' ∷ (target ++ b' ' ∷ ver)

-- A first line that names a method and then breaks off with no version that is taken.
module _ (m : Method) (valid : is_invalid m ≡ false) (target ver : Text)
    (plain : Without b' ' target) (refused : version_of ver ≡ none) where
  refused_once :
      (r : HttpRequest)
      → is_invalid r.method ≡ true
      → (r' : HttpRequest) × ((r'.method ≡ m)
          × (process_request_line (refused_line m target ver) r ≡ some (false, r')))
  unfolding process_request_line
  refused_once r unset =
      let named : HttpRequest = record r { method = m } in
      (
        set_target target named,
        (
          set_target-method target named,
          ground (
            arith,
            split_at-append b' ' (method_string m) (target ++ b' ' ∷ ver) (method_string-Without m),
            set_method-method_string m r valid unset,
            split_at-append b' ' target ver plain,
          ),
        ),
      )

  refused_again :
      (r : HttpRequest) → r.method ≡ m → process_request_line (refused_line m target ver) r ≡ none
  unfolding process_request_line set_method
  refused_again r e = ground (
    arith,
    split_at-append b' ' (method_string m) (target ++ b' ' ∷ ver) (method_string-Without m),
    ap is_invalid e,
  )

module _ (buffer : Buffer) where
  open buffer use {Buf, readable, find_crlf}

  parse_request-stop :
      (c : HttpContext) (b : Buf) (p : Parse Buf)
      → c.state ≡ expect_request_line
      → request_line_round buffer c b ≡ stop p
      → parse_request buffer c b ≡ p
  unfolding parse_request round
  parse_request-stop c b p s e =
      let first : length (readable b) + 3 ≡ suc (length (readable b) + 2) = omega arith in
      rw first (
        parse_loop-stop buffer (length (readable b) + 2) c b p (ap (λ t. round buffer t c b) s ∙ e))

  module _ (c : HttpContext) (b : Buf) (line rest : Text) (one_line : Without 13 line)
      (e : readable b ≡ line ++ 13 ∷ 10 ∷ rest) where
    line_read : take (length line) (readable b) ≡ line
    line_read = ap (take (length line)) e ∙ take-length_append line (13 ∷ 10 ∷ rest)

    request_line_round-refused :
        (r : HttpRequest)
        → process_request_line line c.request ≡ some (false, r)
        → request_line_round buffer c b ≡ stop (returned false (record c { request = r }) b)
    unfolding request_line_round
    request_line_round-refused r p =
        ground (arith, find_crlf-line buffer b line rest one_line e, line_read)

    request_line_round-aborted :
        process_request_line line c.request ≡ none
        → request_line_round buffer c b ≡ stop assertion_failed
    unfolding request_line_round
    request_line_round-aborted p =
        ground (arith, find_crlf-line buffer b line rest one_line e, line_read)

module _ (Handler : Type 0) (routes : Routes Handler) (buffer : Buffer) where
  open buffer use {Buf, readable, find_crlf}

  module _ (m : Method) (t : Target) (v : Version) (fs : List Field) (valid : is_invalid m ≡ false)
      (taken : IsTaken v) (plain : IsTarget t) (one_line : Without 13 (request_line m t v))
      (fields : AreFields fs) (b : Buf) where
    -- A whole request for a routed path is handed to the handler of its path, once and with its
    -- body; the connection's parser starts afresh, and the bytes behind the request stay in the
    -- buffer.
    pub on_message-handle :
        (body rest length_text : Text) (handler : Handler)
        → readable b ≡ head_text buffer m t v fs ++ (body ++ rest)
        → get_header (codes "Content-Length") (parsed_head buffer m t v fs) ≡ some length_text
        → stoul length_text ≡ value (length body)
        → routes (parsed_head buffer m t v fs).path ≡ some handler
        → (b' : Buf) × (readable b' ≡ rest)
          × (on_message Handler buffer false routes (some fresh_context) b
              ≡ replied
                  (handle handler (record (parsed_head buffer m t v fs) { body = body }) ∷ [])
                  (some fresh_context)
                  b')
    unfolding on_message after_parse on_request
    on_message-handle body rest length_text handler e said reads routed =
        let (b', left, run) =
          parse_request-body buffer m t v fs valid taken plain one_line fields b body rest
            length_text e said reads in
        (b', left, rw (run, on_message) (rw routed refl))

    -- A request whose Content-Length is no number that std::stoul takes makes its exception leave
    -- the handler of the read.
    on_message-thrown_out :
        (rest length_text : Text) (e : Stoul)
        → readable b ≡ head_text buffer m t v fs ++ rest
        → get_header (codes "Content-Length") (parsed_head buffer m t v fs) ≡ some length_text
        → stoul length_text ≡ e
        → ((n : ℕ) → e ≢ value n)
        → (c : HttpContext) × ((b' : Buf) × (on_message Handler buffer false routes
                (some fresh_context)
                b
              ≡ thrown_out e c b'))
    unfolding on_message after_parse
    on_message-thrown_out rest length_text e r said reads bad =
        let (b', run) =
          parse_request-thrown buffer m t v fs valid taken plain one_line fields b rest length_text
            e r said reads bad in
        let c : HttpContext = record {
          state = expect_body;
          request = parsed_head buffer m t v fs;
        } in
        (c, (b', rw (run, on_message) refl))

  -- A first line that names a method and has no version that is taken is answered by 400 and a
  -- shutdown. The line stays in the buffer and the method in the request, so the next read of the
  -- connection fails the assertion of setMethod.
  on_message-aborted :
      (m : Method) (target ver rest : Text) (b : Buf)
      → is_invalid m ≡ false
      → Without b' ' target
      → version_of ver ≡ none
      → Without 13 (refused_line m target ver)
      → readable b ≡ refused_line m target ver ++ 13 ∷ 10 ∷ rest
      → (c : HttpContext) × (on_message Handler buffer false routes (some fresh_context) b
          ≡ replied (send bad_request ∷ shut_down ∷ []) (some c) b)
        × ((b' : Buf) (more : Text)
            → readable b' ≡ readable b ++ more
            → on_message Handler buffer false routes (some c) b' ≡ aborted)
  unfolding on_message after_parse
  on_message-aborted m target ver rest b valid plain refused one_line e =
      let line = refused_line m target ver in
      let (r, (named, p)) = refused_once m valid target ver plain refused empty_request refl in
      let c : HttpContext = record { state = expect_request_line; request = r } in
      let once : parse_request buffer fresh_context b ≡ returned false c b =
        parse_request-stop buffer fresh_context b _ refl
          (request_line_round-refused buffer fresh_context b line rest one_line e r p) in
      (
        c,
        rw (once, on_message) refl,
        λ b' more e'.
            let again : parse_request buffer c b' ≡ assertion_failed =
              parse_request-stop buffer c b' _ refl (
                request_line_round-aborted buffer c b' line (rest ++ more) one_line
                  (e' ∙ ap (λ x. x ++ more) e ∙ append_assoc line (13 ∷ 10 ∷ rest) more)
                  (refused_again m valid target ver plain refused r named)) in
            rw (again, on_message) refl,
      )
