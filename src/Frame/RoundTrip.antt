-- ===== src/Frame/RoundTrip.antt =====
-- Frames on the wire, as RFC 6455 lays them out, and what the parser makes of them.
use dpush.Base.{
  ℕ, ◌+◌, ◌-◌, ◌%◌, ◌^◌, ◌≤◌, ◌<◌, ◌≡◌, ap, List, [], ◌∷◌, ◌++◌, Bool, true, false, some, arith,
  length, take, drop, length-append, leb, append_assoc, append-nil, subst, take-length_append,
  drop-length_append, ◌∙◌,
}
use dpush.Frame.{
  be_octets, unmask, at, length_field, extended_length, mask_offset, cut_frame, next_frame, frame,
  payload_of, build_frame,
}
use dpush.Frame.Bytes.{length-unmask, unmask-unmask}
use dpush.Buffer.{AreBytes}
use dpush.Frame.Header.{field_bytes, extended_length-field}

-- What stands before the payload.
abbrev pub head : ℕ → Bool → ℕ → List ℕ → List ℕ
head b masked n key = b ∷ (field_bytes masked n ++ key)

-- A frame of a client: masked by a key of four bytes.
abbrev pub client_frame : ℕ → List ℕ → List ℕ → List ℕ
client_frame b key payload = head b true (length payload) key ++ unmask key 0 payload

length-field_bytes :
    (m : Bool) (n : ℕ) → (1 ≤ length (field_bytes m n)) × (length (field_bytes m n) ≤ 9)
unfolding field_bytes be_octets
length-field_bytes m n = ground arith

drop_suffix {ℓ} :
    {A : Type ℓ} (xs : List A) (n : ℕ) (ys : List A) → n ≡ length xs → drop n (xs ++ ys) ≡ ys
drop_suffix xs n ys e = rw (e, drop-length_append xs ys)

cut_frame-append :
    (max_size : ℕ) (h bs rest : List ℕ)
    → length h ≤ 14
    → length bs ≤ max_size
    → max_size + 14 < 2 ^ 64
    → cut_frame max_size (h ++ (bs ++ rest)) (length bs) (length h)
      ≡ frame (payload_of (h ++ (bs ++ rest)) (length h) (length bs)) (length (h ++ bs))
unfolding cut_frame
cut_frame-append max_size h bs rest a b c =
    ground (arith, length-append h (bs ++ rest), length-append bs rest, length-append h bs)

mask_bit-field :
    (b : ℕ) (m : Bool) (n : ℕ) (rest : List ℕ) → leb 128 (at (b ∷ (field_bytes m n ++ rest)) 1) ≡ m
unfolding field_bytes be_octets
mask_bit-field b true n rest = ground arith
mask_bit-field b false n rest = ground arith

mask_offset-masked :
    (b n : ℕ) (key rest : List ℕ)
    → length key ≡ 4
    → mask_offset (b ∷ (field_bytes true n ++ (key ++ rest))) (1 + length (field_bytes true n))
      ≡ some (length (head b true n key))
unfolding mask_offset
mask_offset-masked b n key rest h = ground (
  arith,
  mask_bit-field b true n (key ++ rest),
  length-append (field_bytes true n) (key ++ rest),
  length-append (field_bytes true n) key,
  length-append key rest,
)

mask_offset-plain :
    (b n : ℕ) (rest : List ℕ)
    → mask_offset (b ∷ (field_bytes false n ++ rest)) (1 + length (field_bytes false n))
      ≡ some (length (head b false n []))
unfolding mask_offset
mask_offset-plain b n rest =
    ground (arith, mask_bit-field b false n rest, length-append (field_bytes false n) [])

-- The masking key stands in the four bytes before the payload.
key-head :
    (p key rest : List ℕ)
    → length key ≡ 4
    → take 4 (drop (length (p ++ key) - 4) ((p ++ key) ++ rest)) ≡ key
key-head p key rest h =
    rw
      (
        append_assoc,
        drop_suffix p (length (p ++ key) - 4) (key ++ rest) (omega (arith, length-append p key)),
      )
      (rw (← h) (take-length_append key rest))

length_field-field_bytes : (n : ℕ) → length_field n ≡ field_bytes false n
unfolding length_field field_bytes
length_field-field_bytes n = ground arith

payload_of-masked :
    (b n : ℕ) (key bs rest : List ℕ)
    → length key ≡ 4
    → payload_of (head b true n key ++ (bs ++ rest)) (length (head b true n key)) (length bs)
      ≡ unmask key 0 bs
unfolding payload_of
payload_of-masked b n key bs rest h =
    let f = field_bytes true n in
    let bit : leb 128 (at ((b ∷ (f ++ key)) ++ (bs ++ rest)) 1) ≡ true =
      rw append_assoc (mask_bit-field b true n (key ++ (bs ++ rest))) in
    rw (
      bit,
      drop-length_append (f ++ key) (bs ++ rest),
      take-length_append bs rest,
      key-head (b ∷ f) key (bs ++ rest) h,
    )

payload_of-plain :
    (b n : ℕ) (bs rest : List ℕ)
    → payload_of (head b false n [] ++ (bs ++ rest)) (length (head b false n [])) (length bs) ≡ bs
unfolding payload_of
payload_of-plain b n bs rest =
    let f = field_bytes false n in
    let bit : leb 128 (at ((b ∷ (f ++ [])) ++ (bs ++ rest)) 1) ≡ false =
      rw append_assoc (mask_bit-field b false n (bs ++ rest)) in
    rw (bit, drop-length_append (f ++ []) (bs ++ rest), take-length_append bs rest)

next_frame-cut_frame :
    (max_size : ℕ) (bytes : List ℕ) (len ext offset : ℕ)
    → extended_length bytes ≡ some (len, ext)
    → mask_offset bytes ext ≡ some offset
    → next_frame max_size bytes ≡ cut_frame max_size bytes len offset
unfolding next_frame
next_frame-cut_frame max_size bytes len ext offset p q = ground arith

module _ (max_size : ℕ) (bounded : max_size + 14 < 2 ^ 64) where
  next_frame-head :
      (b : ℕ) (m : Bool) (key bs rest : List ℕ)
      → length bs ≤ max_size
      → length key ≤ 4
      → mask_offset
          (head b m (length bs) key ++ (bs ++ rest))
          (1 + length (field_bytes m (length bs)))
        ≡ some (length (head b m (length bs) key))
      → next_frame max_size (head b m (length bs) key ++ (bs ++ rest))
        ≡ frame
            (payload_of
              (head b m (length bs) key ++ (bs ++ rest))
              (length (head b m (length bs) key))
              (length bs))
            (length (head b m (length bs) key ++ bs))
  next_frame-head b m key bs rest fits short_key off =
      let n = length bs in
      let h = head b m n key in
      let ext : extended_length (h ++ (bs ++ rest)) ≡ some (n, 1 + length (field_bytes m n)) =
        rw append_assoc (extended_length-field b m n (key ++ (bs ++ rest)) (omega arith)) in
      next_frame-cut_frame max_size (h ++ (bs ++ rest)) n _ (length h) ext off
      ∙ cut_frame-append max_size h bs rest
          (omega (arith, length-append (field_bytes m n) key, length-field_bytes m n)) fits bounded

  next_frame-masked :
      (b : ℕ) (key bs rest : List ℕ)
      → length key ≡ 4
      → length bs ≤ max_size
      → next_frame max_size ((head b true (length bs) key ++ bs) ++ rest)
        ≡ frame (unmask key 0 bs) (length (head b true (length bs) key ++ bs))
  next_frame-masked b key bs rest four fits =
      let n = length bs in
      let h = head b true n key in
      let off : mask_offset (h ++ (bs ++ rest)) (1 + length (field_bytes true n))
          ≡ some (length h) =
        rw append_assoc (mask_offset-masked b n key (bs ++ rest) four) in
      rw (append_assoc h bs rest) (
        next_frame-head b true key bs rest fits (omega arith) off
        ∙ ap (λ p. frame p (length (h ++ bs))) (payload_of-masked b n key bs rest four))

  -- The parser takes a client's frame off the front of the bytes, unmasked, and consumes exactly
  -- the frame, whatever follows it.
  pub next_frame-client_frame :
      (b : ℕ) (key payload rest : List ℕ)
      → length key ≡ 4
      → AreBytes key
      → AreBytes payload
      → length payload ≤ max_size
      → next_frame max_size (client_frame b key payload ++ rest)
        ≡ frame payload (length (client_frame b key payload))
  next_frame-client_frame b key payload rest four hk hp fits =
      let e : length (unmask key 0 payload) ≡ length payload = length-unmask key 0 payload in
      rw (← e) (
        next_frame-masked b key (unmask key 0 payload) rest four (omega arith)
        ∙ ap
            (λ p.
              frame p
                (length (head b true (length (unmask key 0 payload)) key ++ unmask key 0 payload)))
            (unmask-unmask key 0 payload hk hp))

  -- The frames that the server builds are read back by the same parser.
  next_frame-build_frame :
      (opcode : ℕ) (payload rest : List ℕ)
      → length payload ≤ max_size
      → next_frame max_size (build_frame payload opcode ++ rest)
        ≡ frame payload (length (build_frame payload opcode))
  unfolding build_frame
  next_frame-build_frame opcode payload rest fits =
      let n = length payload in
      let h = head (128 + opcode % 16) false n [] in
      let off : mask_offset (h ++ (payload ++ rest)) (1 + length (field_bytes false n))
          ≡ some (length h) =
        rw append_assoc (mask_offset-plain (128 + opcode % 16) n (payload ++ rest)) in
      let read =
        next_frame-head (128 + opcode % 16) false [] payload rest fits (omega arith) off
        ∙ ap (λ p. frame p (length (h ++ payload)))
            (payload_of-plain (128 + opcode % 16) n payload rest) in
      let same : h ++ payload ≡ build_frame payload opcode =
        rw (append-nil, length_field-field_bytes) in
      subst (λ w. next_frame max_size (w ++ rest) ≡ frame payload (length w)) same
        (rw (append_assoc h payload rest) read)
