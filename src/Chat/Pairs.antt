-- ===== src/Chat/Pairs.antt =====
-- The Kafka key of a single chat.
use dpush.Base.{
  ℕ, ◌^◌, ◌<◌, ◌≤◌, ◌≡◌, ◌↔◌, refl, sym, ap, ap₂, ◌∙◌, pos, [], ◌∷◌, ◌++◌, append_assoc, append-nil,
  Option, some, min, max, Text, codes, length, drop, drop-length_append, arith,
}
use dpush.Http.Context.{digits_value}
use dpush.Http.Response.{decimal}
use dpush.Http.Decimal.{
  StartsInDigit, decimal_digits-StartsInDigit, StartsInDigit-length, digits_value-decimal_digits,
}
use dpush.Chat.Keys.{single, from_chars, from_chars_digits, pair_key, kafka_key}

decimal-read : (n : ℕ) → n < 10 ^ 20 → digits_value 0 0 (decimal n) ≡ (n, length (decimal n))
unfolding digits_value
decimal-read n h =
    ap (digits_value 0 0) (sym (append-nil (decimal n)))
    ∙ digits_value-decimal_digits 19 n 0 [] h
    ∙ ap (λ k. (n, k)) (omega arith)

decimal-stops :
    (n : ℕ) (rest : Text)
    → n < 10 ^ 20
    → digits_value 0 0 (decimal n ++ b'-' ∷ rest) ≡ (n, length (decimal n))
unfolding digits_value
decimal-stops n rest h =
    digits_value-decimal_digits 19 n 0 (b'-' ∷ rest) h ∙ ap (λ k. (n, k)) (omega arith)

decimal-injective : (n m : ℕ) → n < 10 ^ 20 → m < 10 ^ 20 → decimal n ≡ decimal m → n ≡ m
decimal-injective n m h k e =
    ap (λ p. p.0) (sym (decimal-read n h) ∙ ap (digits_value 0 0) e ∙ decimal-read m k)

from_chars_first :
    (limit n count : ℕ) (xs : Text)
    → StartsInDigit xs
    → digits_value 0 0 xs ≡ (n, count)
    → 1 ≤ count
    → n < limit
    → from_chars limit xs ≡ some n
unfolding from_chars from_chars_digits StartsInDigit
from_chars_first limit n count [] h e some_digit less = absurd h
from_chars_first limit n count (x ∷ xs) h e some_digit less = ground (arith, e)

-- std::from_chars reads what std::to_string wrote.
pub from_chars-decimal :
    (limit n : ℕ) → n < limit → n < 10 ^ 20 → from_chars limit (decimal n) ≡ some n
from_chars-decimal limit n less h =
    from_chars_first limit n (length (decimal n)) (decimal n) (decimal_digits-StartsInDigit 19 n)
      (decimal-read n h) (StartsInDigit-length (decimal n) (decimal_digits-StartsInDigit 19 n)) less

single-decimal :
    (a b : ℕ) → b < 2 ^ 63 → kafka_key single (decimal b) (pos a) ≡ some (pair_key b (pos a))
unfolding kafka_key
single-decimal a b h = rw (from_chars-decimal (2 ^ 63) b h (omega (arith, h)), kafka_key) refl

dashed-injective :
    (n m i j : ℕ)
    → n < 10 ^ 20
    → m < 10 ^ 20
    → i < 10 ^ 20
    → j < 10 ^ 20
    → decimal n ++ codes "-" ++ decimal m ≡ decimal i ++ codes "-" ++ decimal j
    → (n ≡ i) × (m ≡ j)
dashed-injective n m i j hn hm hi hj e =
    let left = append_assoc (decimal n) (codes "-") (decimal m) in
    let right = append_assoc (decimal i) (codes "-") (decimal j) in
    let whole : decimal n ++ b'-' ∷ decimal m ≡ decimal i ++ b'-' ∷ decimal j =
      sym left ∙ e ∙ right in
    let reads : (n, length (decimal n)) ≡ (i, length (decimal i)) =
      sym (decimal-stops n (decimal m) hn)
      ∙ ap (digits_value 0 0) whole
      ∙ decimal-stops i (decimal j) hi in
    let rests : b'-' ∷ decimal m ≡ b'-' ∷ decimal j =
      sym (drop-length_append (decimal n) (b'-' ∷ decimal m))
      ∙ ap₂ drop (ap (λ p. p.1) reads) whole
      ∙ drop-length_append (decimal i) (b'-' ∷ decimal j) in
    (ap (λ p. p.0) reads, decimal-injective m j hm hj (ap (drop 1) rests))

some-injective : {A : Type 0} (x y : A) → ◌≡◌ {A = Option A} (some x) (some y) → x ≡ y
some-injective x y e = cc e

-- Messages of single chats have the same Kafka key exactly when they are between the same two
-- users, whichever of the two sends them: here a user a to b, and a user c to d, with ids below 2
-- ^ 63.
pub kafka_key-pairs :
    (a b c d : ℕ)
    → a < 2 ^ 63
    → b < 2 ^ 63
    → c < 2 ^ 63
    → d < 2 ^ 63
    → (kafka_key single (decimal b) (pos a) ≡ kafka_key single (decimal d) (pos c))
      ↔ ((min b a ≡ min d c) × (max b a ≡ max d c))
kafka_key-pairs a b c d ha hb hc hd =
    let here = single-decimal a b hb in
    let there = single-decimal c d hd in
    (
      (λ e.
          dashed-injective (min b a) (max b a) (min d c) (max d c) (omega (arith, ha, hb))
            (omega (arith, ha, hb)) (omega (arith, hc, hd)) (omega (arith, hc, hd))
            (some-injective (pair_key b (pos a)) (pair_key d (pos c)) (sym here ∙ e ∙ there))),
      (λ (low, high).
          here ∙ ap₂ (λ x y. some (decimal x ++ codes "-" ++ decimal y)) low high ∙ sym there),
    )
