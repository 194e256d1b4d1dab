-- ===== src/Frame/Stream.antt =====
-- Whole calls of `on_read`: they end, they deliver the messages of a stream of frames in order,
-- and they lose them when the stream ends inside a frame.
use dpush.Base.{
  ℕ, zero, suc, ◌+◌, ◌-◌, ◌≤◌, ◌<◌, ◌^◌, ◌≡◌, ◌≢◌, sym, ap, ◌∙◌, List, [], ◌∷◌, ◌++◌, Bool, true,
  false, arith, length, ltb, if◌then◌else◌, length-append, length-drop, drop, drop-length_append,
  append_assoc, append-nil, inl, inr, Bool-cases,
}
use dpush.Buffer.{Buffer}
use dpush.Frame.{next_frame, frame}
use dpush.Frame.Bounds.{next_frame_bounds}
use dpush.Frame.RoundTrip.{client_frame, next_frame-client_frame}
use dpush.Frame.Read.{
  returned, no_fuel, read_loop, on_read, Found-cases, read_loop-end, read_loop-short,
  read_loop-length_error, read_loop-frame,
}
use dpush.Frame.Wire.{
  Sent, IsSent, AreSent, wire, delivered, two-client_frame, messages-delivered, length-wire,
  next_frame-partial,
}

module _ (buffer : Buffer) (max_size : ℕ) (verify : List ℕ → Bool) where
  open buffer use {Buf, readable, retrieve, readable-retrieve}

  module _ (bounded : max_size + 14 < 2 ^ 64) where
    length-retrieve :
        (b : Buf) {payload : List ℕ} {n : ℕ}
        → next_frame max_size (readable b) ≡ frame payload n
        → (length (readable (retrieve n b)) + 2 ≤ length (readable b))
    length-retrieve b {payload} {n} h =
        let (two, _, fits, _, _) = next_frame_bounds max_size bounded (readable b) h in
        omega (arith, ap (λ bs. length bs) (readable-retrieve n b fits), length-drop n (readable b))

    read_loop-ne-no_fuel :
        (fuel : ℕ) (b : Buf) (messages : List (List ℕ))
        → length (readable b) < fuel
        → read_loop buffer max_size verify fuel b messages ≢ no_fuel
    read_loop-ne-no_fuel zero b messages h e = absurd (omega arith)
    read_loop-ne-no_fuel (suc fuel) b messages h e =
        elim (Bool-cases (ltb (length (readable b)) 2)) [
          | inl less ↦ cc (e, read_loop-end buffer max_size verify fuel b messages (ground arith))
          | inr more ↦
              let two : 2 ≤ length (readable b) = ground arith in
              elim (Found-cases (next_frame max_size (readable b))) [
                | inl f ↦ cc (e, read_loop-short buffer max_size verify fuel b messages two f)
                | inr (inl f) ↦
                    cc (e, read_loop-length_error buffer max_size verify fuel b messages two f)
                | inr (inr (payload, n, f)) ↦
                    read_loop-ne-no_fuel fuel (retrieve n b) _ (omega (arith, length-retrieve b f))
                      (sym (read_loop-frame buffer max_size verify fuel b messages two payload n f)
                        ∙ e)
              ]
        ]

    -- Every call of onRead ends: it returns or throws.
    pub on_read-ne-no_fuel :
        (disconnected : Bool) (b : Buf) → on_read buffer max_size verify disconnected b ≢ no_fuel
    unfolding on_read
    on_read-ne-no_fuel true b e = cc
    on_read-ne-no_fuel false b e =
        read_loop-ne-no_fuel (suc (length (readable b))) b [] (omega arith) e

    next_frame-Sent :
        (s : Sent) (rest : List ℕ) (b : Buf)
        → IsSent max_size s
        → readable b ≡ client_frame s.first s.key s.payload ++ rest
        → next_frame max_size (readable b)
          ≡ frame s.payload (length (client_frame s.first s.key s.payload))
    next_frame-Sent s rest b h e = rw e (
        next_frame-client_frame max_size bounded s.first s.key s.payload rest h.four h.key_bytes
          h.payload_bytes h.fits)

    readable-retrieve-Sent :
        (s : Sent) (rest : List ℕ) (b : Buf)
        → readable b ≡ client_frame s.first s.key s.payload ++ rest
        → readable (retrieve (length (client_frame s.first s.key s.payload)) b) ≡ rest
    readable-retrieve-Sent s rest b e =
        let w = client_frame s.first s.key s.payload in
        readable-retrieve (length w) b (omega (arith, ap (λ bs. length bs) e, length-append w rest))
        ∙ ap (drop (length w)) e
        ∙ drop-length_append w rest

    -- The loop over whole frames with `rest` behind them reaches `rest`, with the messages added.
    read_loop-wire :
        (ss : List Sent) (rest : List ℕ) (start fuel : ℕ) (b : Buf) (messages : List (List ℕ))
        → start ≡ length ss + fuel
        → AreSent max_size ss
        → readable b ≡ wire ss ++ rest
        → (b' : Buf) × (readable b' ≡ rest)
          × (read_loop buffer max_size verify start b messages
              ≡ read_loop buffer max_size verify fuel b' (messages ++ delivered verify ss))
    read_loop-wire [] rest start fuel b messages f h e =
        let same : start ≡ fuel = omega arith in (b, e, rw (append-nil, same))
    read_loop-wire (s ∷ ss) rest zero fuel b messages f h e = absurd (omega arith)
    read_loop-wire (s ∷ ss) rest (suc start) fuel b messages f h e =
        let w = client_frame s.first s.key s.payload in
        let e' : readable b ≡ w ++ (wire ss ++ rest) = e ∙ append_assoc w (wire ss) rest in
        let (b', left, run) =
          read_loop-wire ss rest start fuel (retrieve (length w) b)
            (if verify s.payload then messages ++ s.payload ∷ [] else messages) (omega arith) h.1
            (readable-retrieve-Sent s (wire ss ++ rest) b e') in
        (
          b',
          left,
          read_loop-frame buffer max_size verify start b messages
                (rw e' (two-client_frame max_size s (wire ss ++ rest) h.0)) s.payload (length w)
                (next_frame-Sent s (wire ss ++ rest) b h.0 e')
              ∙ run
              ∙ ap (read_loop buffer max_size verify fuel b')
                  (messages-delivered verify s ss messages),
        )

    on_read-prefix :
        (ss : List Sent) (rest : List ℕ) (b : Buf)
        → AreSent max_size ss
        → readable b ≡ wire ss ++ rest
        → (b' : Buf) × (fuel : ℕ) × (readable b' ≡ rest)
          × (on_read buffer max_size verify false b
              ≡ read_loop buffer max_size verify (suc fuel) b' (delivered verify ss))
    unfolding on_read
    on_read-prefix ss rest b h e =
        let n = length (readable b) in
        let enough : suc n ≡ length ss + suc (n - length ss) = omega (
          arith,
          length-wire max_size ss h,
          ap (λ bs. length bs) e,
          length-append (wire ss) rest,
        ) in
        let (b', left, run) =
          read_loop-wire ss rest (suc n) (suc (n - length ss)) b [] enough h e in
        (b', n - length ss, left, run)

    -- A call on a connection that is up, whose buffer holds whole client frames and fewer than two
    -- bytes behind them, returns the payloads that pass the verifier, in order, and leaves exactly
    -- those bytes.
    pub on_read-wire :
        (ss : List Sent) (rest : List ℕ) (b : Buf)
        → AreSent max_size ss
        → length rest < 2
        → readable b ≡ wire ss ++ rest
        → (b' : Buf) × (readable b' ≡ rest)
          × (on_read buffer max_size verify false b ≡ returned (delivered verify ss) b')
    on_read-wire ss rest b h less e =
        let (b', fuel, left, run) = on_read-prefix ss rest b h e in
        (
          b',
          left,
          run ∙ read_loop-end buffer max_size verify fuel b' (delivered verify ss) (rw left less),
        )

    -- If two bytes or more, but not all, of the frame behind the whole ones are there, the call returns
    -- no message at all, although it has taken the whole frames out of the buffer.
    pub on_read-drops :
        (ss : List Sent) (s : Sent) (part : List ℕ) (x : ℕ) (missing : List ℕ) (b : Buf)
        → AreSent max_size ss
        → IsSent max_size s
        → 2 ≤ length part
        → part ++ x ∷ missing ≡ client_frame s.first s.key s.payload
        → readable b ≡ wire ss ++ part
        → (b' : Buf) × (readable b' ≡ part)
          × (on_read buffer max_size verify false b ≡ returned [] b')
    on_read-drops ss s part x missing b h hs two cut e =
        let (b', fuel, left, run) = on_read-prefix ss part b h e in
        (
          b',
          left,
          run
              ∙ read_loop-short buffer max_size verify fuel b' (delivered verify ss) (rw left two)
                  (rw left (next_frame-partial max_size bounded s part x missing hs two cut)),
        )
