-- ===== src/Frame/Close.antt =====
-- The close frame is the frame that `build_frame` makes of the code and the cut reason.
use dpush.Base.{
  ℕ, ◌+◌, ◌-◌, ◌≤◌, ◌≡◌, List, ◌∷◌, true, false, arith, length, take, length-take, take_all, ltb,
  leb, suc, Bool-cases, inl, inr,
}
use dpush.Frame.{octet, build_frame, close_frame, length_field}

-- The code, high byte first, and at most 123 bytes of the reason.
abbrev close_payload : ℕ → List ℕ → List ℕ
close_payload code reason = octet code 8 ∷ octet code 0 ∷ take 123 reason

take_full : (n : ℕ) (xs : List ℕ) → n ≤ length xs → length (take n xs) ≡ n
take_full n xs h = omega (arith, length-take n xs)

take-le : (n : ℕ) (xs : List ℕ) → length (take n xs) + 2 ≤ n + 2
take-le n xs = omega (arith, length-take n xs)

at_most : (reason : List ℕ) → suc (suc (length (take 123 reason))) ≤ 125
at_most reason = let h = take-le 123 reason in omega arith

close_frame-long :
    (code : ℕ) (reason : List ℕ)
    → ltb 125 (2 + length reason) ≡ true
    → close_frame code reason ≡ build_frame (close_payload code reason) 8
unfolding close_frame build_frame length_field
close_frame-long code reason e =
    let full : length (take 123 reason) ≡ 123 = take_full 123 reason (ground arith) in rw (e, full)

close_frame-short :
    (code : ℕ) (reason : List ℕ)
    → ltb 125 (2 + length reason) ≡ false
    → close_frame code reason ≡ build_frame (close_payload code reason) 8
unfolding close_frame build_frame length_field
close_frame-short code reason e =
    let size : 2 + length reason - 2 ≡ length reason = omega arith in
    let two : 2 + length reason ≡ suc (suc (length reason)) = omega arith in
    let small : leb (suc (suc (length reason))) 125 ≡ true = ground arith in
    rw (
      e,
      size,
      take_all (length reason) reason (omega arith),
      take_all 123 reason (ground arith),
      small,
      two,
    )

-- A close frame is the frame with opcode 8 around the code and the first 123 bytes of the reason,
-- so its payload has 125 bytes at most, as RFC 6455 asks of a control frame.
close_frame-build_frame :
    (code : ℕ) (reason : List ℕ)
    → (close_frame code reason ≡ build_frame (close_payload code reason) 8)
      × (length (close_payload code reason) ≤ 125)
close_frame-build_frame code reason = (
  elim (Bool-cases (ltb 125 (2 + length reason))) [
    | inl e ↦ close_frame-long code reason e
    | inr e ↦ close_frame-short code reason e
  ],
  at_most reason,
)
