-- ===== src/Frame/Read.antt =====
-- `WsSession::onRead` of server/src/services/Gateway/server/websocketSession.cc over the buffer's
-- interface. `verify` is the generated `ChatApp::VerifyRootMessageBuffer`; `disconnected` is what
-- the connection answers at the entry. The loop runs on fuel, since every frame retrieves at least
-- two bytes the number of readable bytes is enough.
use dpush.Base.{
  ℕ, zero, suc, ◌≤◌, ◌<◌, ◌≡◌, refl, List, [], ◌∷◌, ◌++◌, Bool, false, arith, length, ltb,
  if◌then◌else◌, ◌⊎◌, inl, inr, lt→ltb,
}
use dpush.Buffer.{Buffer}
use dpush.Frame.{next_frame, Found, frame, short, length_error}

-- What the call does: the messages that it returns and the buffer that it leaves, or the exception
-- of std::string; `no_fuel` is no behaviour of the code.
pub data Outcome (B : Type 0) : Type 0 where
  returned : List (List ℕ) → B → Outcome B
  thrown : B → Outcome B
  no_fuel : Outcome B

module _ (buffer : Buffer) (max_size : ℕ) (verify : List ℕ → Bool) where
  open buffer use {Buf, readable, retrieve}

  unfoldable pub read_loop : ℕ → Buf → List (List ℕ) → Outcome Buf
  read_loop zero b messages = no_fuel
  read_loop (suc fuel) b messages =
      if ltb (length (readable b)) 2
      then returned messages b
      else elim (next_frame max_size (readable b)) [
        | short ↦ returned [] b
        | length_error ↦ thrown b
        | frame payload n ↦
            read_loop fuel (retrieve n b)
              (if verify payload then messages ++ payload ∷ [] else messages)
      ]

  unfoldable pub on_read : Bool → Buf → Outcome Buf
  on_read disconnected b =
      if disconnected then returned [] b else read_loop (suc (length (readable b))) b []

pub Found-cases :
    (f : Found)
    → (f ≡ short) ⊎ (f ≡ length_error) ⊎ ((payload : List ℕ) × (n : ℕ) × (f ≡ frame payload n))
Found-cases short = inl refl
Found-cases length_error = inr (inl refl)
Found-cases (frame payload n) = inr (inr (payload, n, refl))

-- One round of the loop, by what it finds.
module _ (buffer : Buffer) (max_size : ℕ) (verify : List ℕ → Bool) where
  open buffer use {Buf, readable, retrieve}

  module _ (fuel : ℕ) (b : Buf) (messages : List (List ℕ)) where
    pub read_loop-end :
        length (readable b) < 2
        → read_loop buffer max_size verify (suc fuel) b messages ≡ returned messages b
    unfolding read_loop
    read_loop-end h = rw (lt→ltb _ _ h)

    module _ (more : 2 ≤ length (readable b)) where
      go_on : ltb (length (readable b)) 2 ≡ false
      go_on = ground arith

      pub read_loop-short :
          next_frame max_size (readable b) ≡ short
          → read_loop buffer max_size verify (suc fuel) b messages ≡ returned [] b
      unfolding read_loop
      read_loop-short h = rw (go_on, h)

      pub read_loop-length_error :
          next_frame max_size (readable b) ≡ length_error
          → read_loop buffer max_size verify (suc fuel) b messages ≡ thrown b
      unfolding read_loop
      read_loop-length_error h = rw (go_on, h)

      pub read_loop-frame :
          (payload : List ℕ) (n : ℕ)
          → next_frame max_size (readable b) ≡ frame payload n
          → read_loop buffer max_size verify (suc fuel) b messages
            ≡ read_loop buffer max_size verify fuel
                (retrieve n b)
                (if verify payload then messages ++ payload ∷ [] else messages)
      unfolding read_loop
      read_loop-frame payload n h = rw (go_on, h)
