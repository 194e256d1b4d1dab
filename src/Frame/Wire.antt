-- ===== src/Frame/Wire.antt =====
-- The frames that a client sends, one behind the other, and the payloads that are delivered of them.
use dpush.Base.{
  ℕ, ◌+◌, ◌≤◌, ◌<◌, ◌^◌, ◌≡◌, sym, ap, ◌∙◌, List, [], ◌∷◌, ◌++◌, Bool, true, arith, length,
  if◌then◌else◌, length-append, append_assoc, append-nil, subst, inl, inr, Bool-cases,
}
use dpush.Buffer.{AreBytes}
use dpush.Frame.Header.{field_bytes}
use dpush.Frame.{unmask, next_frame, frame, short}
use dpush.Frame.Bounds.{next_frame_bounds}
use dpush.Frame.RoundTrip.{client_frame, next_frame-client_frame}
use dpush.Frame.Stable.{next_frame-append}
use dpush.Frame.Read.{Found-cases}

-- A frame as a client sends it.
pub record Sent : Type 0 where
  pub first : ℕ
  pub key : List ℕ
  pub payload : List ℕ

pub record IsSent (max_size : ℕ) (s : Sent) : Type 0 where
  pub four : length s.key ≡ 4
  pub key_bytes : AreBytes s.key
  pub payload_bytes : AreBytes s.payload
  pub fits : length s.payload ≤ max_size

abbrev pub AreSent : ℕ → List Sent → Type 0
AreSent max_size [] = Unit {0}
AreSent max_size (s ∷ ss) = IsSent max_size s × AreSent max_size ss

-- The bytes of a list of frames, one behind the other.
abbrev pub wire : List Sent → List ℕ
wire [] = []
wire (s ∷ ss) = client_frame s.first s.key s.payload ++ wire ss

-- The payloads that pass the verifier, in the order of the frames.
abbrev pub delivered : (List ℕ → Bool) → List Sent → List (List ℕ)
delivered verify [] = []
delivered verify (s ∷ ss) =
    if verify s.payload then s.payload ∷ delivered verify ss else delivered verify ss

length-client_frame :
    (s : Sent) → length s.key ≡ 4 → 2 ≤ length (client_frame s.first s.key s.payload)
length-client_frame s four = omega (
  arith,
  length-append (field_bytes true (length s.payload) ++ s.key) (unmask s.key 0 s.payload),
  length-append (field_bytes true (length s.payload)) s.key,
)

pub messages-delivered :
    (verify : List ℕ → Bool) (s : Sent) (ss : List Sent) (messages : List (List ℕ))
    → (if verify s.payload then messages ++ s.payload ∷ [] else messages) ++ delivered verify ss
      ≡ messages ++ delivered verify (s ∷ ss)
messages-delivered verify s ss messages = elim (Bool-cases (verify s.payload)) [
  | inl e ↦ rw e (append_assoc messages (s.payload ∷ []) (delivered verify ss))
  | inr e ↦ rw e
]

module _ (max_size : ℕ) where
  pub two-client_frame :
      (s : Sent) (rest : List ℕ)
      → IsSent max_size s
      → 2 ≤ length (client_frame s.first s.key s.payload ++ rest)
  two-client_frame s rest h = omega (
    arith,
    length-client_frame s h.four,
    length-append (client_frame s.first s.key s.payload) rest,
  )

  pub length-wire : (ss : List Sent) → AreSent max_size ss → length ss ≤ length (wire ss)
  length-wire [] h = omega arith
  length-wire (s ∷ ss) h = omega (
    arith,
    length-wire ss h.1,
    length-client_frame s h.0.four,
    length-append (client_frame s.first s.key s.payload) (wire ss),
  )

  -- A client frame that is not there to its last byte is not found.
  pub next_frame-partial :
      (bounded : max_size + 14 < 2 ^ 64) (s : Sent) (part : List ℕ) (x : ℕ) (missing : List ℕ)
      → IsSent max_size s
      → 2 ≤ length part
      → part ++ x ∷ missing ≡ client_frame s.first s.key s.payload
      → next_frame max_size part ≡ short
  next_frame-partial bounded s part x missing h two e =
      let whole : next_frame max_size (part ++ x ∷ missing)
          ≡ frame s.payload (length (client_frame s.first s.key s.payload)) =
        subst
          (λ bs.
            next_frame max_size bs
            ≡ frame s.payload (length (client_frame s.first s.key s.payload)))
          (append-nil (client_frame s.first s.key s.payload) ∙ sym e)
          (next_frame-client_frame max_size bounded s.first s.key s.payload [] h.four h.key_bytes
            h.payload_bytes h.fits) in
      elim (Found-cases (next_frame max_size part)) [
        | inl f ↦ f
        | inr (inl f) ↦ absurd (
            cc (
              f,
              whole,
              next_frame-append part (x ∷ missing) two max_size bounded (λ g. cc (f, g)),
            ))
        | inr (inr (payload, n, f)) ↦
            let again =
              next_frame-append part (x ∷ missing) two max_size bounded (λ g. cc (f, g)) in
            let fits = next_frame_bounds max_size bounded part f in
            absurd (
              ground (
                arith,
                whole,
                again,
                f,
                fits,
                length-append part (x ∷ missing),
                ap (λ bs. length bs) e,
              ))
      ]
