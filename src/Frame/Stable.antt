-- ===== src/Frame/Stable.antt =====
-- What the parser finds does not change when more bytes arrive behind it.
use dpush.Base.{
  ℕ, ◌+◌, ◌-◌, ◌^◌, ◌≤◌, ◌<◌, ◌≡◌, ◌≢◌, List, ◌++◌, true, some, arith, length, take, drop, leb, inl,
  inr, Bool-cases, Option-cases, length-drop, length-append, get_or-append_left, take-append_left,
  drop-append_left,
}
use dpush.Frame.{at, extended_length, mask_offset, cut_frame, next_frame, short, payload_of}
use dpush.Frame.Bounds.{extended_length_bounds, mask_offset_bounds}

module _ (bytes more : List ℕ) (two : 2 ≤ length bytes) where
  at-append : (i : ℕ) → i < length bytes → at (bytes ++ more) i ≡ at bytes i
  at-append i h = get_or-append_left bytes more i 0 h

  extended_length-append :
      (len ext : ℕ)
      → extended_length bytes ≡ some (len, ext)
      → extended_length (bytes ++ more) ≡ some (len, ext)
  unfolding extended_length
  extended_length-append len ext h = ground (
    arith,
    length-append bytes more,
    at-append 1,
    at-append 2,
    at-append 3,
    drop-append_left 2 bytes more,
    take-append_left 8 (drop 2 bytes) more,
    length-drop 2 bytes,
  )

  mask_offset-append :
      (ext offset : ℕ)
      → mask_offset bytes ext ≡ some offset
      → mask_offset (bytes ++ more) ext ≡ some offset
  unfolding mask_offset
  mask_offset-append ext offset h = ground (arith, length-append bytes more, at-append 1)

  segment-append :
      (n k : ℕ) → k + n ≤ length bytes → take n (drop k (bytes ++ more)) ≡ take n (drop k bytes)
  segment-append n k h =
      rw (drop-append_left k bytes more (omega arith))
        (take-append_left n (drop k bytes) more (omega (arith, length-drop k bytes)))

  payload_of-append :
      (offset len : ℕ)
      → (leb 128 (at bytes 1) ≡ true → 4 ≤ offset)
      → offset + len ≤ length bytes
      → payload_of (bytes ++ more) offset len ≡ payload_of bytes offset len
  unfolding payload_of
  payload_of-append offset len k h = elim (Bool-cases (leb 128 (at bytes 1))) [
    | inl e ↦ rw (
      at-append 1 two,
      e,
      segment-append 4 (offset - 4) (omega (arith, k e)),
      segment-append len offset h,
    )
    | inr e ↦ rw (at-append 1 two, e, segment-append len offset h)
  ]

  mask_offset-ge :
      (ext offset : ℕ)
      → mask_offset bytes ext ≡ some offset
      → leb 128 (at bytes 1) ≡ true
      → 4 ≤ offset
  unfolding mask_offset
  mask_offset-ge ext offset h e = ground arith

  module _ (max_size : ℕ) (bounded : max_size + 14 < 2 ^ 64) where
    cut_frame-append :
        (len offset : ℕ)
        → offset ≤ 14
        → (leb 128 (at bytes 1) ≡ true → 4 ≤ offset)
        → cut_frame max_size bytes len offset ≢ short
        → cut_frame max_size (bytes ++ more) len offset ≡ cut_frame max_size bytes len offset
    unfolding cut_frame
    cut_frame-append len offset small k h =
        ground (arith, length-append bytes more, payload_of-append offset len k)

    -- Whatever the parser finds in bytes that are enough for it, it finds again when more follow.
    pub next_frame-append :
        next_frame max_size bytes ≢ short
        → next_frame max_size (bytes ++ more) ≡ next_frame max_size bytes
    unfolding next_frame
    next_frame-append h = elim (Option-cases (extended_length bytes)) [
      | inl e ↦ absurd (h (ground arith))
      | inr (p, e) ↦ elim (Option-cases (mask_offset bytes p.1)) [
        | inl o ↦ absurd (h (ground arith))
        | inr (offset, o) ↦
            let (_, small) = extended_length_bounds bytes p.0 p.1 e in
            let (_, below) = mask_offset_bounds bytes p.1 offset o in
            let found = cut_frame-append p.0 offset (omega arith) (mask_offset-ge p.1 offset o) in
            ground (
              arith,
              extended_length-append p.0 p.1 e,
              mask_offset-append p.1 offset o,
              found (λ c. h (ground arith)),
            )
      ]
    ]
