-- ===== src/Http/Rounds.antt =====
-- The rounds of the parser on a request as it stands on the wire.
use dpush.Base.{
  ℕ, zero, suc, ◌+◌, ◌≤◌, ◌<◌, ◌≡◌, ◌≢◌, refl, ap, ◌∙◌, List, [], ◌∷◌, ◌++◌, none, some, true, Text,
  codes, arith, length, Without, append_assoc, length-append, take-length_append,
  drop-length_append, drop, take,
}
use dpush.Buffer.{Buffer, search}
use dpush.Http.Request.{HttpRequest, add_header, get_header}
use dpush.Http.Context.{
  HttpContext, expect_headers, expect_body, got_all, Parse, returned, again, stop,
  request_line_round, header_round, body_round, round, parse_loop, process_request_line, value,
  stoul, Stoul, invalid_argument, out_of_range, thrown,
}
use dpush.Http.Lines.{search-crlf, search-byte, crlf, Without-append}

-- A header line without its line break, and what it adds.
pub record Field : Type 0 where
  pub name : Text
  pub content : Text

pub record IsField (f : Field) : Type 0 where
  pub no_colon : Without b':' f.name
  pub no_return : Without 13 f.name × Without 13 f.content

abbrev pub AreFields : List Field → Type 0
AreFields [] = Unit {0}
AreFields (f ∷ fs) = IsField f × AreFields fs

abbrev pub field_line : Field → Text
field_line f = f.name ++ b':' ∷ f.content

-- The header block with the empty line at its end.
abbrev pub field_lines : List Field → Text
field_lines [] = crlf
field_lines (f ∷ fs) = field_line f ++ 13 ∷ 10 ∷ field_lines fs

abbrev pub with_fields : List Field → HttpRequest → HttpRequest
with_fields [] r = r
with_fields (f ∷ fs) r = with_fields fs (add_header f.name f.content r)

pub length-field_lines : (fs : List Field) → length fs + 2 ≤ length (field_lines fs)
length-field_lines [] = omega arith
length-field_lines (f ∷ fs) =
    omega (arith, length-field_lines fs, length-append (field_line f) (13 ∷ 10 ∷ field_lines fs))

module _ (buffer : Buffer) where
  open buffer use {
    Buf, readable, retrieve, find, find_crlf, readable-retrieve, find-search, find_crlf-search,
  }

  pub find_crlf-line :
      (b : Buf) (line rest : Text)
      → Without 13 line
      → readable b ≡ line ++ 13 ∷ 10 ∷ rest
      → find_crlf b ≡ some (length line)
  find_crlf-line b line rest h e = find_crlf-search b ∙ ap (search crlf) e ∙ search-crlf line rest h

  pub readable-line :
      (b : Buf) (line rest : Text)
      → readable b ≡ line ++ 13 ∷ 10 ∷ rest
      → readable (retrieve (length line + 2) b) ≡ rest
  readable-line b line rest e =
      let two : length (line ++ crlf) ≡ length line + 2 = length-append line crlf in
      readable-retrieve (length line + 2) b
        (omega (arith, ap (λ x. length x) e, length-append line (13 ∷ 10 ∷ rest)))
      ∙ ap (drop (length line + 2)) e
      ∙ rw (append_assoc line crlf rest, two) at (drop-length_append (line ++ crlf) rest)

  pub request_line_round_lem :
      (c : HttpContext) (b : Buf) (line rest : Text) (r : HttpRequest)
      → Without 13 line
      → readable b ≡ line ++ 13 ∷ 10 ∷ rest
      → process_request_line line c.request ≡ some (true, r)
      → request_line_round buffer c b
        ≡ again (record { state = expect_headers; request = r }) (retrieve (length line + 2) b)
  unfolding request_line_round
  request_line_round_lem c b line rest r h e p = ground (
    arith,
    find_crlf-line b line rest h e,
    take-length_append line (13 ∷ 10 ∷ rest),
    ap (take (length line)) e,
  )

  header_round_end :
      (c : HttpContext) (b : Buf) (rest : Text)
      → readable b ≡ 13 ∷ 10 ∷ rest
      → header_round buffer c b ≡ again (record c { state = expect_body }) (retrieve 2 b)
  unfolding header_round
  header_round_end c b rest e = ground (arith, find_crlf-line b [] rest tt e)

  field_line-Without : (f : Field) → IsField f → Without 13 (field_line f)
  field_line-Without f h =
      Without-append 13 f.name (b':' ∷ f.content) h.no_return.0 (omega arith, h.no_return.1)

  find-colon :
      (b : Buf) (f : Field) (rest : Text)
      → IsField f
      → readable b ≡ field_line f ++ rest
      → find (b':' ∷ []) b ≡ some (length f.name)
  find-colon b f rest h e =
      find-search b':' [] b
      ∙ ap (search (b':' ∷ [])) (e ∙ append_assoc f.name (b':' ∷ f.content) rest)
      ∙ search-byte b':' f.name (f.content ++ rest) h.no_colon

  drop-name : (f : Field) → drop (length f.name + 1) (field_line f) ≡ f.content
  drop-name f =
      let one : length (f.name ++ b':' ∷ []) ≡ length f.name + 1 =
        length-append f.name (b':' ∷ []) in
      rw (append_assoc f.name (b':' ∷ []) f.content, one) at
        (drop-length_append (f.name ++ b':' ∷ []) f.content)

  header_step :
      (c : HttpContext) (b : Buf) (at colon : ℕ)
      → find_crlf b ≡ some at
      → find (b':' ∷ []) b ≡ some colon
      → colon < at
      → header_round buffer c b
        ≡ again
            (record c {
              request =
                  add_header
                    (take colon (readable b))
                    (drop (colon + 1) (take at (readable b)))
                    c.request;
            })
            (retrieve (at + 2) b)
  unfolding header_round
  header_step c b at colon e f h = ground arith

  header_round_field :
      (c : HttpContext) (b : Buf) (f : Field) (rest : Text)
      → IsField f
      → readable b ≡ field_line f ++ 13 ∷ 10 ∷ rest
      → header_round buffer c b
        ≡ again
            (record c { request = add_header f.name f.content c.request })
            (retrieve (length (field_line f) + 2) b)
  header_round_field c b f rest h e =
      let name : take (length f.name) (readable b) ≡ f.name =
        ap (take (length f.name)) (e ∙ append_assoc f.name (b':' ∷ f.content) (13 ∷ 10 ∷ rest))
        ∙ take-length_append f.name _ in
      let line : take (length (field_line f)) (readable b) ≡ field_line f =
        ap (take (length (field_line f))) e ∙ take-length_append (field_line f) _ in
      header_step c b (length (field_line f)) (length f.name)
        (find_crlf-line b (field_line f) rest (field_line-Without f h) e)
        (find-colon b f (13 ∷ 10 ∷ rest) h e)
        (omega (arith, length-append f.name (b':' ∷ f.content)))
      ∙ rw (name, line, drop-name f)

  pub parse_loop-again :
      (fuel : ℕ) (c c' : HttpContext) (b b' : Buf)
      → round buffer c.state c b ≡ again c' b'
      → parse_loop buffer (suc fuel) c b ≡ parse_loop buffer fuel c' b'
  unfolding parse_loop
  parse_loop-again fuel c c' b b' e = rw (e, parse_loop)

  -- The header block, line by line.
  pub parse_loop-fields :
      (fs : List Field) (start fuel : ℕ) (r : HttpRequest) (b : Buf) (rest : Text)
      → start ≡ length fs + suc fuel
      → AreFields fs
      → readable b ≡ field_lines fs ++ rest
      → (b' : Buf) × (readable b' ≡ rest)
        × (parse_loop buffer start (record { state = expect_headers; request = r }) b
            ≡ parse_loop buffer fuel
                (record { state = expect_body; request = with_fields fs r })
                b')
  unfolding round
  parse_loop-fields fs zero fuel r b rest f h e = absurd (omega arith)
  parse_loop-fields [] (suc start) fuel r b rest f h e =
      let same : start ≡ fuel = omega arith in
      (
        retrieve 2 b,
        readable-line b [] rest e,
        parse_loop-again start _ _ b _
              (header_round_end (record { state = expect_headers; request = r }) b rest e)
            ∙ rw same,
      )
  parse_loop-fields (x ∷ fs) (suc start) fuel r b rest f h e =
      let e' : readable b ≡ field_line x ++ 13 ∷ 10 ∷ (field_lines fs ++ rest) =
        e ∙ append_assoc (field_line x) (13 ∷ 10 ∷ field_lines fs) rest in
      let (b', left, run) =
        parse_loop-fields fs start fuel (add_header x.name x.content r)
          (retrieve (length (field_line x) + 2) b) rest (omega arith) h.1
          (readable-line b (field_line x) (field_lines fs ++ rest) e') in
      (
        b',
        left,
        parse_loop-again start _ _ b _ (
              header_round_field (record { state = expect_headers; request = r }) b x
                (field_lines fs ++ rest) h.0 e')
            ∙ run,
      )

  pub parse_loop-stop :
      (fuel : ℕ) (c : HttpContext) (b : Buf) (p : Parse Buf)
      → round buffer c.state c b ≡ stop p
      → parse_loop buffer (suc fuel) c b ≡ p
  unfolding parse_loop
  parse_loop-stop fuel c b p e = rw (e, parse_loop)

  pub body_round-none :
      (c : HttpContext) (b : Buf)
      → get_header (codes "Content-Length") c.request ≡ none
      → body_round buffer c b ≡ stop (returned true (record c { state = got_all }) b)
  unfolding body_round
  body_round-none c b e = rw (e, body_round)

  pub body_round-some :
      (c : HttpContext) (b : Buf) (body rest s : Text)
      → get_header (codes "Content-Length") c.request ≡ some s
      → stoul s ≡ value (length body)
      → readable b ≡ body ++ rest
      → body_round buffer c b
        ≡ again
            (record c { state = got_all; request = record (c.request) { body = body } })
            (retrieve (length body) b)
  unfolding body_round
  body_round-some c b body rest s e n r = ground (
    arith,
    ap (take (length body)) r,
    take-length_append body rest,
    ap (λ x. length x) r,
    length-append body rest,
  )

  pub body_round-thrown :
      (c : HttpContext) (b : Buf) (s : Text) (e : Stoul)
      → get_header (codes "Content-Length") c.request ≡ some s
      → stoul s ≡ e
      → ((n : ℕ) → e ≢ value n)
      → body_round buffer c b ≡ stop (thrown e c b)
  unfolding body_round
  body_round-thrown c b s (value n) said reads bad = absurd (bad n refl)
  body_round-thrown c b s invalid_argument said reads bad =
      rw (said, body_round) (rw (reads, body_round) refl)
  body_round-thrown c b s out_of_range said reads bad =
      rw (said, body_round) (rw (reads, body_round) refl)
