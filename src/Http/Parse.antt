-- ===== src/Http/Parse.antt =====
-- Whole requests through `parse_request`.
use dpush.Base.{
  ℕ, suc, ◌+◌, ◌-◌, ◌≤◌, ◌≡◌, ◌≢◌, refl, ap, ◌∙◌, List, ◌∷◌, ◌++◌, none, some, true, false, Text,
  codes, arith, length, Without, append_assoc, length-append, drop-length_append, drop,
}
use dpush.Buffer.{Buffer}
use dpush.Http.Request.{empty_request, HttpRequest, Method, is_invalid, Version, get_header}
use dpush.Http.Context.{
  HttpContext, expect_body, got_all, fresh_context, returned, round, parse_loop, parse_request,
  value, stoul, Stoul, thrown,
}
use dpush.Http.Lines.{
  Target, IsTarget, IsTaken, request_line, with_line, process_request_line-request_line,
}
use dpush.Http.Rounds.{
  Field, AreFields, field_lines, with_fields, body_round-thrown, readable-line,
  request_line_round_lem, parse_loop-again, parse_loop-stop, parse_loop-fields, body_round-none,
  body_round-some, length-field_lines,
}

module _ (buffer : Buffer) where
  open buffer use {Buf, readable, retrieve, find_crlf, readable-retrieve}

  -- What stands on the wire before the body.
  module _ (m : Method) (t : Target) (v : Version) (fs : List Field) where
    abbrev pub head_text : Text
    head_text = request_line m t v ++ 13 ∷ 10 ∷ field_lines fs

    abbrev pub parsed_head : HttpRequest
    parsed_head = with_fields fs (with_line m t v empty_request)

    module _ (valid : is_invalid m ≡ false) (taken : IsTaken v) (plain : IsTarget t)
        (one_line : Without 13 (request_line m t v)) (fields : AreFields fs) where
      parse_request-head :
          (b : Buf) (rest : Text)
          → readable b ≡ head_text ++ rest
          → (b' : Buf) × (fuel : ℕ) × (readable b' ≡ rest)
            × (parse_request buffer fresh_context b
                ≡ parse_loop buffer
                    (suc (suc fuel))
                    (record { state = expect_body; request = parsed_head })
                    b')
      unfolding parse_request round
      parse_request-head b rest e =
          let line = request_line m t v in
          let e' : readable b ≡ line ++ 13 ∷ 10 ∷ (field_lines fs ++ rest) =
            e ∙ append_assoc line (13 ∷ 10 ∷ field_lines fs) rest in
          let n = length (readable b) in
          let enough : length fs + 1 ≤ n = omega (
            arith,
            ap (λ x. length x) e',
            length-append line (13 ∷ 10 ∷ (field_lines fs ++ rest)),
            length-append (field_lines fs) rest,
            length-field_lines fs,
          ) in
          let first : n + 3 ≡ suc (n + 2) = omega arith in
          let (b', left, run) =
            parse_loop-fields buffer fs (n + 2) (suc (suc (n - length fs - 1)))
              (with_line m t v empty_request) (retrieve (length line + 2) b) rest (omega arith)
              fields (readable-line buffer b line (field_lines fs ++ rest) e') in
          (
            b',
            n - length fs - 1,
            left,
            rw first (
                parse_loop-again buffer (n + 2) _ _ b _ (
                  request_line_round_lem buffer fresh_context b line (field_lines fs ++ rest) _
                    one_line e'
                    (process_request_line-request_line m t v empty_request valid taken plain refl))
                ∙ run),
          )

      -- A request without a Content-Length field is complete behind its header block: the context
      -- holds its method, target, version and fields, and what follows stays in the buffer.
      parse_request-no_body :
          (b : Buf) (rest : Text)
          → readable b ≡ head_text ++ rest
          → get_header (codes "Content-Length") parsed_head ≡ none
          → (b' : Buf) × (readable b' ≡ rest)
            × (parse_request buffer fresh_context b
                ≡ returned true (record { state = got_all; request = parsed_head }) b')
      unfolding round
      parse_request-no_body b rest e none_said =
          let (b', fuel, left, run) = parse_request-head b rest e in
          let c : HttpContext = record { state = expect_body; request = parsed_head } in
          (
            b',
            left,
            run ∙ parse_loop-stop buffer (suc fuel) c b' _ (body_round-none buffer c b' none_said),
          )

      -- A request on the wire, with a known method, a target without blanks, version 1.0 or 1.1 and
      -- fields without colons in their names or line breaks, whose Content-Length field is read as
      -- the length of its body, is parsed whole by a fresh parser: the body is exactly those bytes,
      -- and what follows stays in the buffer.
      pub parse_request-body :
          (b : Buf) (body rest length_text : Text)
          → readable b ≡ head_text ++ (body ++ rest)
          → get_header (codes "Content-Length") parsed_head ≡ some length_text
          → stoul length_text ≡ value (length body)
          → (b' : Buf) × (readable b' ≡ rest)
            × (parse_request buffer fresh_context b
                ≡ returned true
                    (record { state = got_all; request = record parsed_head { body = body } })
                    b')
      unfolding round
      parse_request-body b body rest length_text e said reads =
          let (b', fuel, left, run) = parse_request-head b (body ++ rest) e in
          let c : HttpContext = record { state = expect_body; request = parsed_head } in
          let done : HttpContext = record {
            state = got_all;
            request = record parsed_head { body = body };
          } in
          let b'' = retrieve (length body) b' in
          (
            b'',
            readable-retrieve (length body) b'
                  (omega (arith, ap (λ x. length x) left, length-append body rest))
                ∙ ap (drop (length body)) left
                ∙ drop-length_append body rest,
            run
                ∙ parse_loop-again buffer (suc fuel) c done b' b''
                    (body_round-some buffer c b' body rest length_text said reads left)
                ∙ parse_loop-stop buffer fuel done b'' _ refl,
          )

      -- A Content-Length field that std::stoul refuses ends the call by its exception.
      pub parse_request-thrown :
          (b : Buf) (rest length_text : Text) (e : Stoul)
          → readable b ≡ head_text ++ rest
          → get_header (codes "Content-Length") parsed_head ≡ some length_text
          → stoul length_text ≡ e
          → ((n : ℕ) → e ≢ value n)
          → (b' : Buf) × (parse_request buffer fresh_context b
              ≡ thrown e (record { state = expect_body; request = parsed_head }) b')
      unfolding round
      parse_request-thrown b rest length_text e r said reads bad =
          let (b', fuel, left, run) = parse_request-head b rest r in
          let c : HttpContext = record { state = expect_body; request = parsed_head } in
          (
            b',
            run
                ∙ parse_loop-stop buffer (suc fuel) c b' _
                    (body_round-thrown buffer c b' length_text e said reads bad),
          )
