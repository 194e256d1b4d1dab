-- ===== src/Http/Decimal.antt =====
-- Numbers in decimal digits: what std::to_string writes, the numeric parsers read back.
use dpush.Base.{
  ℕ, zero, suc, ◌+◌, ◌*◌, ◌/◌, ◌%◌, ◌^◌, ◌≤◌, ◌<◌, ◌≡◌, refl, ap, ◌∙◌, [], ◌∷◌, ◌++◌, Text, ltb,
  length, append_assoc, arith, inl, inr, Bool-cases, length-append,
}
use dpush.Http.Context.{digits_value}
use dpush.Http.Response.{decimal_digits}

decimal_digits-small : (places n : ℕ) → n < 10 → decimal_digits (suc places) n ≡ (48 + n) ∷ []
unfolding decimal_digits
decimal_digits-small places n h = ground arith

decimal_digits-large :
    (places n : ℕ)
    → 10 ≤ n
    → decimal_digits (suc places) n ≡ decimal_digits places (n / 10) ++ (48 + n % 10) ∷ []
unfolding decimal_digits
decimal_digits-large places n h = ground arith

digits_value-digit :
    (acc count d n more : ℕ) (xs : Text)
    → d < 10
    → n ≡ acc * 10 + d
    → more ≡ count + 1
    → digits_value acc count ((48 + d) ∷ xs) ≡ digits_value n more xs
unfolding digits_value
digits_value-digit acc count d n more xs h e f = ground arith

digits_value-small :
    (places n count : ℕ) (rest : Text)
    → n < 10
    → digits_value 0 count (decimal_digits (suc places) n ++ rest)
      ≡ digits_value n (count + length (decimal_digits (suc places) n)) rest
digits_value-small places n count rest h =
    rw (decimal_digits-small places n h)
      (digits_value-digit 0 count n n (count + 1) rest h (omega arith) refl)

-- The digits of a number are read as that number.
pub digits_value-decimal_digits :
    (places n count : ℕ) (rest : Text)
    → n < 10 ^ suc places
    → digits_value 0 count (decimal_digits (suc places) n ++ rest)
      ≡ digits_value n (count + length (decimal_digits (suc places) n)) rest
digits_value-decimal_digits zero n count rest h = digits_value-small zero n count rest (omega arith)
digits_value-decimal_digits (suc places) n count rest h =
    let shorter : n / 10 < 10 ^ suc places = omega (arith, h) in
    let tail : Text = (48 + n % 10) ∷ [] in
    let front = decimal_digits (suc places) (n / 10) in
    elim (Bool-cases (ltb n 10)) [
      | inl e ↦ digits_value-small (suc places) n count rest (ground arith)
      | inr e ↦ rw (decimal_digits-large (suc places) n (ground arith)) (
          ap (digits_value 0 count) (append_assoc front tail rest)
          ∙ digits_value-decimal_digits places (n / 10) count (tail ++ rest) shorter
          ∙ digits_value-digit (n / 10) (count + length front) (n % 10) n
              (count + length (front ++ tail)) rest (omega arith) (omega arith)
              (omega (arith, length-append front tail)))
    ]

-- The text starts with a digit.
unfoldable pub StartsInDigit : Text → Type 0
StartsInDigit [] = ⊥
StartsInDigit (x ∷ xs) = (48 ≤ x) × (x < 58)

StartsInDigit-append : (xs ys : Text) → StartsInDigit xs → StartsInDigit (xs ++ ys)
unfolding StartsInDigit
StartsInDigit-append [] ys h = absurd h
StartsInDigit-append (x ∷ xs) ys h = h

pub decimal_digits-StartsInDigit : (places n : ℕ) → StartsInDigit (decimal_digits (suc places) n)
unfolding StartsInDigit decimal_digits
decimal_digits-StartsInDigit zero n = elim (Bool-cases (ltb n 10)) [
  | inl e ↦ rw (decimal_digits-small zero n (ground arith)) (omega arith, ground arith)
  | inr e ↦
      rw (decimal_digits-large zero n (ground arith), decimal_digits) (omega arith, omega arith)
]
decimal_digits-StartsInDigit (suc places) n = elim (Bool-cases (ltb n 10)) [
  | inl e ↦ rw (decimal_digits-small (suc places) n (ground arith)) (omega arith, ground arith)
  | inr e ↦ rw (decimal_digits-large (suc places) n (ground arith)) (
      StartsInDigit-append (decimal_digits (suc places) (n / 10)) ((48 + n % 10) ∷ [])
        (decimal_digits-StartsInDigit places (n / 10)))
]

pub StartsInDigit-length : (xs : Text) → StartsInDigit xs → 1 ≤ length xs
unfolding StartsInDigit
StartsInDigit-length [] h = absurd h
StartsInDigit-length (x ∷ xs) h = omega arith
