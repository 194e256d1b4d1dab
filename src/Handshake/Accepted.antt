-- ===== src/Handshake/Accepted.antt =====
-- Who gets a session, and with which answer.
use dpush.Base.{
  ℕ, ◌+◌, ◌-◌, ℤ, ◌≡◌, ◌≢◌, refl, sym, ap, ◌∙◌, [], ◌∷◌, ◌++◌, Option, none, some, true, false,
  Text, codes, arith, ◌⊎◌, inl, inr, Option-cases, Bool-cases, if◌then◌else◌, take, drop, length,
  ltb,
}
use dpush.Buffer.{search}
use dpush.Base64.{base64_encode}
use dpush.Handshake.{
  accepted, Stoi, number, no_number, too_large, stoi, process_handshake, without_cookie,
  with_cookie, answer, asks_upgrade, starts_get, analysis_cookie, websocket_key,
  handle_upgrade_response, handshake_response, ws_guid, bad_request, user_name, has, line_break,
}

has-bad_request : has (codes "101") bad_request ≡ false
unfolding has search
has-bad_request = refl

Text-cases : (xs : Text) → (xs ≡ []) ⊎ ((x : ℕ) × ((ys : Text) × (xs ≡ x ∷ ys)))
Text-cases [] = inl refl
Text-cases (x ∷ xs) = inr (x, (xs, refl))

Stoi-cases : (r : Stoi) → ((n : ℤ) × (r ≡ number n)) ⊎ ((r ≡ no_number) ⊎ (r ≡ too_large))
Stoi-cases (number n) = inl (n, refl)
Stoi-cases no_number = inr (inl refl)
Stoi-cases too_large = inr (inr refl)

module _ (sha1 : Text → Text) (decode : Text → Option (ℤ × Option Text)) (header : Text) where
  -- The answer that RFC 6455 asks for.
  pub IsAnswer : Text → Type 0
  IsAnswer response =
      (key : Text) × ((websocket_key header ≡ some key)
        × (response ≡ handshake_response (base64_encode (sha1 (key ++ ws_guid)))))

  answer_lem :
      (userid u : ℤ) (username name response : Text)
      → answer sha1 decode header userid username ≡ accepted u name response
      → (userid ≡ u) × ((username ≡ name) × IsAnswer response)
  unfolding answer handle_upgrade_response IsAnswer
  answer_lem userid u username name response e = elim (Option-cases (websocket_key header)) [
    | inl f ↦ ground (arith, f, has-bad_request)
    | inr (key, f) ↦ (ground (arith, f), (ground (arith, f), (key, (f, ground (arith, f)))))
  ]

  without_cookie_lem :
      (u : ℤ) (name response : Text)
      → without_cookie sha1 decode header ≡ accepted u name response
      → (user_name u ≡ some name) × IsAnswer response
  unfolding without_cookie
  without_cookie_lem u name response e = elim (Option-cases (search (codes "GET ") header)) [
    | inl f ↦ ground (arith, f)
    | inr (start, f) ↦ elim (Option-cases (search (codes " HTTP/1.1" ++ line_break) header)) [
      | inl g ↦ ground (arith, f, g)
      | inr (end, g) ↦
          let text : Text =
            take (if ltb end start then length header else end - start) (drop (start + 4) header) in
          elim (Stoi-cases (stoi text)) [
            | inl (n, h) ↦ elim (Option-cases (user_name n)) [
              | inl k ↦ ground (arith, f, g, h, k)
              | inr (called, k) ↦
                  let given : answer sha1 decode header n called ≡ accepted u name response =
                    ground (arith, f, g, h, k) in
                  let (same, (named, answered)) = answer_lem n u called name response given in
                  (sym (ap user_name same) ∙ k ∙ ap some named, answered)
            ]
            | inr (inl h) ↦ ground (arith, f, g, h)
            | inr (inr h) ↦ ground (arith, f, g, h)
          ]
    ]
  ]

  with_cookie_lem :
      (cookie : Text) (u : ℤ) (name response : Text)
      → with_cookie sha1 decode header cookie ≡ accepted u name response
      → (decode cookie ≡ some (u, some name)) × (name ≢ []) × IsAnswer response
  unfolding with_cookie
  with_cookie_lem cookie u name response e = elim (Option-cases (decode cookie)) [
    | inl f ↦ ground (arith, f)
    | inr ((v, none), f) ↦ ground (arith, f)
    | inr ((v, some []), f) ↦ ground (arith, f)
    | inr ((v, some (x ∷ xs)), f) ↦
        let given : answer sha1 decode header v (x ∷ xs) ≡ accepted u name response =
          ground (arith, f) in
        let (same, (named, answered)) = answer_lem v u (x ∷ xs) name response given in
        (rw (f, same, named) refl, (λ empty. ground (arith, named, empty)), answered)
  ]

  -- What makes a session the user's.
  pub IsEntitled : ℤ → Text → Type 0
  IsEntitled u name =
      ((analysis_cookie header ≡ []) × (user_name u ≡ some name))
      ⊎ ((analysis_cookie header ≢ [])
          × (decode (analysis_cookie header) ≡ some (u, some name))
          × (name ≢ []))

  -- A handshake is accepted only for a header that asks for an upgrade and names a key, the answer
  -- is the one of this key, and the user is the one of the cookie's token; or there is no session
  -- cookie, and the name is made of the user id less 32, where this does not overflow.
  pub process_handshake-accepted :
      (u : ℤ) (name response : Text)
      → process_handshake sha1 decode header ≡ accepted u name response
      → (asks_upgrade header ≡ true) × (IsEntitled u name × IsAnswer response)
  unfolding process_handshake IsEntitled
  process_handshake-accepted u name response e = elim (Bool-cases (starts_get header)) [
    | inr f ↦ ground (arith, f)
    | inl f ↦ elim (Bool-cases (asks_upgrade header)) [
      | inr g ↦ ground (arith, f, g)
      | inl g ↦ elim (Text-cases (analysis_cookie header)) [
        | inl h ↦
            let given : without_cookie sha1 decode header ≡ accepted u name response =
              rw (f, g, h) at e in
            let (named, answered) = without_cookie_lem u name response given in
            (g, (inl (h, named), answered))
        | inr (x, (xs, h)) ↦
            let given : with_cookie sha1 decode header (x ∷ xs) ≡ accepted u name response =
              rw (f, g, h) at e in
            let (token, named, answered) = with_cookie_lem (x ∷ xs) u name response given in
            (g, (inr ((λ none_there. cc (h, none_there)), ap decode h ∙ token, named), answered))
      ]
    ]
  ]
