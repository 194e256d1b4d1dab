-- ===== src/Frame/Bounds.antt =====
-- What the parser hands out lies in the readable bytes, for every length that a header can carry.
use dpush.Base.{
  leb, if◌then◌else◌, sym, ap₂, ◌∙◌, ℕ, ◌+◌, ◌-◌, ◌^◌, ◌≤◌, ◌<◌, ◌≡◌, List, some, arith, length,
  take, drop, inl, inr, Option-cases, length-take, length-drop,
}
use dpush.Frame.{at, unmask, extended_length, mask_offset, cut_frame, next_frame, frame, payload_of}
use dpush.Frame.Bytes.{length-unmask}

pub extended_length_bounds :
    (bytes : List ℕ) (len ext : ℕ)
    → extended_length bytes ≡ some (len, ext)
    → (2 ≤ ext) × (ext ≤ 10)
unfolding extended_length
extended_length_bounds bytes len ext h = ground arith

pub mask_offset_bounds :
    (bytes : List ℕ) (ext offset : ℕ)
    → mask_offset bytes ext ≡ some offset
    → (ext ≤ offset) × (offset ≤ ext + 4)
unfolding mask_offset
mask_offset_bounds bytes ext offset h = ground arith

length-payload_of :
    (bytes : List ℕ) (offset len : ℕ)
    → offset + len ≤ length bytes
    → length (payload_of bytes offset len) ≡ len
unfolding payload_of
length-payload_of bytes offset len h = ground (
  arith,
  length-unmask (take 4 (drop (offset - 4) bytes)) 0 (take len (drop offset bytes)),
  length-take len (drop offset bytes),
  length-drop offset bytes,
)

-- The bytes, unmasked by the four before the offset if the mask bit is set.
abbrev pub unmasked : List ℕ → ℕ → List ℕ → List ℕ
unmasked bytes offset tail =
    if leb 128 (at bytes 1) then unmask (take 4 (drop (offset - 4) bytes)) 0 tail else tail

module _ (max_size : ℕ) (bounded : max_size + 14 < 2 ^ 64) where
  cut_frame_bounds :
      (bytes : List ℕ) (len offset : ℕ) (payload : List ℕ) (n : ℕ)
      → offset ≤ 14
      → cut_frame max_size bytes len offset ≡ frame payload n
      → (n ≡ offset + length payload)
        × (n ≤ length bytes)
        × (length payload ≤ max_size)
        × (length payload ≡ len)
  unfolding cut_frame
  cut_frame_bounds bytes len offset payload n small h =
      ground (arith, length-payload_of bytes offset len)

  cut_frame-payload :
      (bytes : List ℕ) (len offset : ℕ) (payload : List ℕ) (n : ℕ)
      → cut_frame max_size bytes len offset ≡ frame payload n
      → payload_of bytes offset len ≡ payload
  unfolding cut_frame
  cut_frame-payload bytes len offset payload n h = ground arith

  -- For strings of less than 2 ^ 64 - 14 bytes at most: a frame consumes its payload and two to fourteen
  -- bytes before it, and no more than there are. Where the mask bit is not set, the payload is the tail of
  -- what is consumed; where it is set, the payload is this tail unmasked by the four bytes before it.
  pub next_frame_bounds :
      (bytes : List ℕ) {payload : List ℕ} {n : ℕ}
      → next_frame max_size bytes ≡ frame payload n
      → (2 + length payload ≤ n)
        × (n ≤ 14 + length payload)
        × (n ≤ length bytes)
        × (length payload ≤ max_size)
        × (payload
            ≡ unmasked bytes
                (n - length payload)
                (take (length payload) (drop (n - length payload) bytes)))
  unfolding next_frame payload_of
  next_frame_bounds bytes {payload} {n} h = elim (Option-cases (extended_length bytes)) [
    | inl e ↦ absurd (ground arith)
    | inr (p, e) ↦ elim (Option-cases (mask_offset bytes p.1)) [
      | inl o ↦ absurd (ground arith)
      | inr (offset, o) ↦
          let ext = extended_length_bounds bytes p.0 p.1 e in
          let off = mask_offset_bounds bytes p.1 offset o in
          let cut : cut_frame max_size bytes p.0 offset ≡ frame payload n =
            ground (arith, e, o, h) in
          let (sum, there, fits, whole) =
            cut_frame_bounds bytes p.0 offset payload n (omega (arith, ext.1, off.1)) cut in
          let start : n - length payload ≡ offset = omega (arith, sum) in
          (
            omega (arith, sum, ext.0, off.0),
            omega (arith, sum, ext.1, off.1),
            there,
            fits,
            sym (cut_frame-payload bytes p.0 offset payload n cut)
                ∙ ap₂ (λ i len. unmasked bytes i (take len (drop i bytes))) (sym start) (sym whole),
          )
    ]
  ]
