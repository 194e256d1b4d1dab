-- ===== src/Http/Total.antt =====
-- Every call of `parse_request` ends, whatever the context and the bytes.
use dpush.Base.{
  ℕ, zero, suc, ◌+◌, ◌≤◌, ◌<◌, ◌≡◌, ◌≢◌, refl, ap, sym, ◌∙◌, [], ◌∷◌, some, Text, codes, ◌⊎◌, arith,
  length, length-drop, Option-cases, inl, inr,
}
use dpush.Buffer.{Buffer, search}
use dpush.Http.Request.{get_header}
use dpush.Http.Context.{
  HttpContext, ParseState, expect_request_line, expect_headers, expect_body, got_all, Parse,
  no_fuel, again, stop, Round, request_line_round, header_round, body_round, round, parse_loop,
  parse_request, Stoul, value, invalid_argument, out_of_range, stoul,
}
use dpush.Http.Lines.{crlf}

search-crlf-le : (xs : Text) (k : ℕ) → search crlf xs ≡ some k → k + 2 ≤ length xs
unfolding search
search-crlf-le [] k e = cc
search-crlf-le (x ∷ []) k e = ground arith
search-crlf-le (x ∷ y ∷ ys) zero e = omega arith
search-crlf-le (x ∷ y ∷ ys) (suc k) e = ground (arith, search-crlf-le (y ∷ ys) k)

stoul_result-cases :
    (r : Stoul) → ((n : ℕ) × (r ≡ value n)) ⊎ ((r ≡ invalid_argument) ⊎ (r ≡ out_of_range))
stoul_result-cases (value n) = inl (n, refl)
stoul_result-cases invalid_argument = inr (inl refl)
stoul_result-cases out_of_range = inr (inr refl)

stoul-cases :
    (t : Text)
    → ((n : ℕ) × (stoul t ≡ value n)) ⊎ ((stoul t ≡ invalid_argument) ⊎ (stoul t ≡ out_of_range))
stoul-cases t = stoul_result-cases (stoul t)

abbrev rank : ParseState → ℕ
rank expect_request_line = 1
rank expect_headers = 1
rank expect_body = 1
rank got_all = 0

module _ (buffer : Buffer) where
  open buffer use {Buf, readable, retrieve, find, find_crlf, readable-retrieve, find_crlf-search}

  measure : HttpContext → Buf → ℕ
  measure c b = length (readable b) + rank c.state

  length-retrieve :
      (n : ℕ) (b : Buf)
      → n ≤ length (readable b)
      → length (readable (retrieve n b)) + n ≡ length (readable b)
  length-retrieve n b h =
      omega (arith, ap (λ x. length x) (readable-retrieve n b h), length-drop n (readable b))

  find_crlf-le : (b : Buf) (k : ℕ) → find_crlf b ≡ some k → k + 2 ≤ length (readable b)
  find_crlf-le b k e = search-crlf-le (readable b) k (sym (find_crlf-search b) ∙ e)

  request_line_round-again :
      (c c' : HttpContext) (b b' : Buf)
      → c.state ≡ expect_request_line
      → request_line_round buffer c b ≡ again c' b'
      → measure c' b' < measure c b
  unfolding request_line_round measure
  request_line_round-again c c' b b' s e = elim (Option-cases (find_crlf b)) [
    | inl f ↦ ground (arith, f, e)
    | inr (k, f) ↦
        ground (arith, find_crlf-le b k f, length-retrieve (k + 2) b (find_crlf-le b k f))
  ]

  header_round-again :
      (c c' : HttpContext) (b b' : Buf)
      → c.state ≡ expect_headers
      → header_round buffer c b ≡ again c' b'
      → measure c' b' < measure c b
  unfolding header_round measure
  header_round-again c c' b b' s e = elim (Option-cases (find_crlf b)) [
    | inl f ↦ ground (arith, f, e)
    | inr (k, f) ↦ ground (
      arith,
      find_crlf-le b k f,
      length-retrieve 2 b,
      length-retrieve (k + 2) b (find_crlf-le b k f),
    )
  ]

  body_round-again :
      (c c' : HttpContext) (b b' : Buf)
      → c.state ≡ expect_body
      → body_round buffer c b ≡ again c' b'
      → measure c' b' < measure c b
  unfolding body_round measure
  body_round-again c c' b b' s e =
      elim (Option-cases (get_header (codes "Content-Length") c.request)) [
        | inl f ↦ ground (arith, f, e)
        | inr (t, f) ↦ elim (stoul-cases t) [
          | inl (n, v) ↦ ground (arith, f, v, e, length-retrieve n b)
          | inr (inl v) ↦ ground (arith, f, v, e)
          | inr (inr v) ↦ ground (arith, f, v, e)
        ]
      ]

  round-again :
      (s : ParseState) (c c' : HttpContext) (b b' : Buf)
      → c.state ≡ s
      → round buffer s c b ≡ again c' b'
      → measure c' b' < measure c b
  unfolding round
  round-again expect_request_line c c' b b' s e = request_line_round-again c c' b b' s e
  round-again expect_headers c c' b b' s e = header_round-again c c' b b' s e
  round-again expect_body c c' b b' s e = body_round-again c c' b b' s e
  round-again got_all c c' b b' s e = ground (arith, e)

  round-ne-no_fuel :
      (s : ParseState) (c : HttpContext) (b : Buf) → round buffer s c b ≢ stop no_fuel
  unfolding round request_line_round header_round body_round
  round-ne-no_fuel expect_request_line c b e = ground (arith, e)
  round-ne-no_fuel expect_headers c b e = ground (arith, e)
  round-ne-no_fuel expect_body c b e = ground (arith, e)
  round-ne-no_fuel got_all c b e = ground (arith, e)

  Round-cases :
      (r : Round buffer)
      → ((c : HttpContext) × ((b : Buf) × (r ≡ again c b))) ⊎ ((p : Parse Buf) × (r ≡ stop p))
  Round-cases (again c b) = inl (c, (b, refl))
  Round-cases (stop p) = inr (p, refl)

  parse_loop-ne-no_fuel :
      (fuel : ℕ) (c : HttpContext) (b : Buf)
      → measure c b < fuel
      → parse_loop buffer fuel c b ≢ no_fuel
  unfolding parse_loop
  parse_loop-ne-no_fuel zero c b h = omega arith
  parse_loop-ne-no_fuel (suc fuel) c b h = elim (Round-cases (round buffer c.state c b)) [
    | inl (c', (b', r)) ↦
        rw (r, parse_loop)
          (parse_loop-ne-no_fuel fuel c' b'
            (omega (arith, round-again c.state c c' b b' refl r, h)))
    | inr (p, r) ↦ rw (r, parse_loop) (λ e. round-ne-no_fuel c.state c b (r ∙ ap stop e))
  ]

  rank-le : (s : ParseState) → rank s ≤ 1
  rank-le expect_request_line = omega arith
  rank-le expect_headers = omega arith
  rank-le expect_body = omega arith
  rank-le got_all = omega arith

  -- The parser ends on every context and every buffer: the number of its rounds is bounded by the
  -- bytes that it can read.
  pub parse_request-ne-no_fuel : (c : HttpContext) (b : Buf) → parse_request buffer c b ≢ no_fuel
  unfolding parse_request measure
  parse_request-ne-no_fuel c b =
      parse_loop-ne-no_fuel (length (readable b) + 3) c b (omega (arith, rank-le c.state))
