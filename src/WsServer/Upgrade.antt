-- ===== src/WsServer/Upgrade.antt =====
-- The upgrade of a connection: what it takes, and the frames that come with it.
use dpush.Base.{
  ℕ, ◌+◌, ◌-◌, ◌≤◌, ◌^◌, ◌<◌, ℤ, ◌≡◌, refl, sym, ap, ◌∙◌, List, [], ◌∷◌, ◌++◌, Option, none, some,
  Bool, true, false, Text, arith, ◌⊎◌, inl, inr, Option-cases, Bool-cases, ◌==◌, length, take, drop,
  take-length_append, drop-length_append, length-append, append-nil,
}
use dpush.Buffer.{Buffer, search}
use dpush.Frame.Read.{Outcome, returned, thrown, no_fuel, on_read, read_loop-end}
use dpush.Frame.Stream.{on_read-wire}
use dpush.Frame.Wire.{Sent, AreSent, wire, delivered}
use dpush.Handshake.{Handshake, refused, accepted, stoi_throws, overflows, process_handshake, Stoi}
use dpush.WsServer.{
  expecting_http_request, established, WsSession, Out, send, force_close, unauthorized, on_upgrade,
  replied, two_line_breaks, read_messages, after_handshake, on_message,
}

Handshake-cases :
    (h : Handshake)
    → (h ≡ refused)
      ⊎ (((u : ℤ) × ((name : Text) × ((response : Text) × (h ≡ accepted u name response))))
          ⊎ (((e : Stoi) × (h ≡ stoi_throws e)) ⊎ (h ≡ overflows)))
Handshake-cases refused = inl refl
Handshake-cases (accepted u name response) = inr (inl (u, (name, (response, refl))))
Handshake-cases (stoi_throws e) = inr (inr (inl (e, refl)))
Handshake-cases overflows = inr (inr (inr refl))

Outcome-cases :
    {B : Type 0} (o : Outcome B)
    → ((ms : List (List ℕ)) × ((b : B) × (o ≡ returned ms b)))
      ⊎ (((b : B) × (o ≡ thrown b)) ⊎ (o ≡ no_fuel))
Outcome-cases (returned ms b) = inl (ms, (b, refl))
Outcome-cases (thrown b) = inr (inl (b, refl))
Outcome-cases no_fuel = inr (inr refl)

is_zero-eq : (n : ℕ) → (n == 0) ≡ true → n ≡ 0
is_zero-eq n h = ground arith

returned_messages :
    {B : Type 0} {ms ms' : List (List ℕ)} {b b' : B} → returned ms b ≡ returned ms' b' → ms ≡ ms'
returned_messages e = ground arith

length-zero : (xs : Text) → length xs ≡ 0 → xs ≡ []
length-zero [] h = refl
length-zero (x ∷ xs) h = absurd (omega (arith, h))

module _ (buffer : Buffer) (max_size : ℕ) (verify : List ℕ → Bool) (sha1 : Text → Text)
    (decode : Text → Option (ℤ × Option Text)) where
  open buffer use {Buf, readable, retrieve, find, find-search, readable-retrieve}

  -- The header was accepted for the session's user.
  pub IsUpgraded : WsSession → Buf → WsSession → List Out → Type 0
  IsUpgraded s b s' outs =
      (at : ℕ) × ((response : Text) × ((find two_line_breaks b ≡ some at)
          × ((process_handshake sha1 decode (take (at + 4) (readable b))
                ≡ accepted s'.userid s'.username response)
              × ((s'.state ≡ established) × (outs ≡ send response ∷ on_upgrade s'.userid ∷ [])))))

  -- There is no whole header yet, or the one that came is refused.
  pub IsKept : WsSession → Buf → WsSession → Buf → List Out → List (List ℕ) → Type 0
  IsKept s b s' b' outs messages =
      ((s' ≡ s) × ((b' ≡ b) × (messages ≡ [])))
      × (((find two_line_breaks b ≡ none) × (outs ≡ []))
          ⊎ ((at : ℕ) × ((find two_line_breaks b ≡ some at)
                × ((process_handshake sha1 decode (take (at + 4) (readable b)) ≡ refused)
                    × (outs ≡ send unauthorized ∷ force_close ∷ [])))))

  on_read-empty :
      (b : Buf) → length (readable b) ≡ 0 → on_read buffer max_size verify false b ≡ returned [] b
  unfolding on_read
  on_read-empty b h =
      read_loop-end buffer max_size verify (length (readable b)) b [] (omega (arith, h))

  read_messages_lem :
      (outs outs' : List Out) (messages : List (List ℕ)) (s s' : WsSession) (b b' : Buf)
      → read_messages buffer max_size verify sha1 decode outs s b ≡ replied outs' messages s' b'
      → (outs ≡ outs') × (s ≡ s')
  unfolding read_messages
  read_messages_lem outs outs' messages s s' b b' e =
      elim (Outcome-cases (on_read buffer max_size verify false b)) [
        | inl (ms, (b'', f)) ↦ (ground (arith, f), ground (arith, f))
        | inr (inl (b'', f)) ↦ ground (arith, f)
        | inr (inr f) ↦ ground (arith, f)
      ]

  -- The branch of an accepted header.
  after_handshake_lem :
      (size : ℕ) (s s' : WsSession) (b b' : Buf) (outs : List Out) (messages : List (List ℕ))
      (u : ℤ) (name response : Text)
      → after_handshake buffer max_size verify sha1 decode size s b (accepted u name response)
        ≡ replied outs messages s' b'
      → (send response ∷ on_upgrade u ∷ [] ≡ outs)
        × ((record { state = established; userid = u; username = name }) ≡ s')
  unfolding after_handshake
  after_handshake_lem size s s' b b' outs messages u name response e =
      elim (Bool-cases (length (readable (retrieve size b)) == 0)) [
        | inl f ↦ (ground (arith, f), ground (arith, f))
        | inr f ↦ read_messages_lem _ outs messages _ s' (retrieve size b) b' (rw f at e)
      ]

  on_message-header :
      (s : WsSession) (b : Buf) (at : ℕ)
      → s.state ≡ expecting_http_request
      → find two_line_breaks b ≡ some at
      → on_message buffer max_size verify sha1 decode s b
        ≡ after_handshake buffer max_size verify sha1 decode
            (at + 4)
            s
            b
            (process_handshake sha1 decode (take (at + 4) (readable b)))
  unfolding on_message
  on_message-header s b at fresh f = ground arith

  -- A read of a connection whose handshake is still to come, where it neither throws nor overflows. Where
  -- there is no empty line, nothing is done. Where the handshake of the header up to it is refused, a 401
  -- is sent, then the connection is closed by force; the session and the buffer stay, and no message is
  -- handed on. Otherwise this handshake is accepted, the answer is sent, then the upgrade is done, and the
  -- session is established with the user of the handshake.
  pub on_message-IsUpgraded :
      (s s' : WsSession) (b b' : Buf) (outs : List Out) (messages : List (List ℕ))
      → s.state ≡ expecting_http_request
      → on_message buffer max_size verify sha1 decode s b ≡ replied outs messages s' b'
      → IsKept s b s' b' outs messages ⊎ IsUpgraded s b s' outs
  unfolding on_message after_handshake IsUpgraded IsKept
  on_message-IsUpgraded s s' b b' outs messages fresh e =
      elim (Option-cases (find two_line_breaks b)) [
        | inl f ↦ inl (
          (ground (arith, f), (ground (arith, f), ground (arith, f))),
          inl (f, ground (arith, f)),
        )
        | inr (at, f) ↦
            elim (Handshake-cases (process_handshake sha1 decode (take (at + 4) (readable b)))) [
              | inl g ↦ inl (
                (ground (arith, f, g), (ground (arith, f, g), ground (arith, f, g))),
                inr (at, (f, (g, ground (arith, f, g)))),
              )
              | inr (inl (u, (name, (response, g)))) ↦
                  let (out, same) =
                    after_handshake_lem (at + 4) s s' b b' outs messages u name response (
                      ap (after_handshake buffer max_size verify sha1 decode (at + 4) s b) (sym g)
                      ∙ sym (on_message-header s b at fresh f)
                      ∙ e) in
                  inr (
                    at,
                    (
                      response,
                      (
                        f,
                        (
                          ground (arith, g, same),
                          (ground (arith, same), ground (arith, out, same)),
                        ),
                      ),
                    ),
                  )
              | inr (inr (inl (x, g))) ↦ ground (arith, f, g)
              | inr (inr (inr g)) ↦ ground (arith, f, g)
            ]
      ]

  -- Whole client frames that arrive in one read with the header, behind its first empty line, are read
  -- at once if the header is accepted: the answer and the upgrade come first, then the messages that
  -- pass the verifier, in order, and nothing is left.
  pub on_message-wire :
      max_size + 14 < 2 ^ 64
      → (s : WsSession) (b : Buf) (header : Text) (ss : List Sent) (u : ℤ) (name response : Text)
      → s.state ≡ expecting_http_request
      → AreSent max_size ss
      → readable b ≡ header ++ wire ss
      → search two_line_breaks (readable b) ≡ some (length header - 4)
      → 4 ≤ length header
      → process_handshake sha1 decode header ≡ accepted u name response
      → (b' : Buf) × (readable b' ≡ [])
        × (on_message buffer max_size verify sha1 decode s b
            ≡ replied
                (send response ∷ on_upgrade u ∷ [])
                (delivered verify ss)
                (record { state = established; userid = u; username = name })
                b')
  unfolding on_message after_handshake read_messages
  on_message-wire small s b header ss u name response fresh sent e at four handshake =
      let whole : length header - 4 + 4 ≡ length header = omega arith in
      let found : find two_line_breaks b ≡ some (length header - 4) = find-search 13 _ b ∙ at in
      let b1 = retrieve (length header) b in
      let read : take (length header) (readable b) ≡ header =
        ap (take (length header)) e ∙ take-length_append header (wire ss) in
      let left : readable b1 ≡ wire ss ++ [] =
        readable-retrieve (length header) b
          (omega (arith, ap (λ x. length x) e, length-append header (wire ss)))
        ∙ ap (drop (length header)) e
        ∙ drop-length_append header (wire ss)
        ∙ sym (append-nil (wire ss)) in
      let (b2, gone, run) =
        on_read-wire buffer max_size verify (omega arith) ss [] b1 sent (omega arith) left in
      let start = on_message-header s b (length header - 4) fresh found in
      let accept : process_handshake sha1 decode (take (length header) (readable b))
          ≡ accepted u name response =
        ap (process_handshake sha1 decode) read ∙ handshake in
      let s' : WsSession = record { state = established; userid = u; username = name } in
      let outs : List Out = send response ∷ on_upgrade u ∷ [] in
      let nothing : (length (readable b1) == 0) ≡ true → [] ≡ delivered verify ss =
        λ f. returned_messages (sym (on_read-empty b1 (is_zero-eq _ f)) ∙ run) in
      elim (Bool-cases (length (readable b1) == 0)) [
        | inl f ↦ (
          b1,
          length-zero (readable b1) (is_zero-eq _ f),
          start ∙ rw (whole, accept, f) (ap (λ ms. replied outs ms s' b1) (nothing f)),
        )
        | inr f ↦ (b2, gone, start ∙ rw (whole, accept, f, run, read_messages) refl)
      ]
