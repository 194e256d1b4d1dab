-- ===== src/Frame/Header.antt =====
-- What the parser reads of a header: the length field of 1, 3 or 9 bytes, then the masking key.
use dpush.Base.{
  ℕ, ◌+◌, ◌^◌, ◌≤◌, ◌<◌, ◌≡◌, List, [], ◌∷◌, ◌++◌, Bool, true, false, some, arith, length,
  length-append, ltb, leb, if◌then◌else◌,
}
use dpush.Frame.{octet, be_octets, extended_length}
use dpush.Frame.Bytes.{be_value-be_octets}

-- The length field with its mask bit, by the number of bytes that it takes.
unfoldable pub field_bytes : Bool → ℕ → List ℕ
field_bytes masked n =
    let bit : ℕ = if masked then 128 else 0 in
    if leb n 125
    then (bit + n) ∷ []
    else if leb n 65535
    then (bit + 126) ∷ octet n 8 ∷ octet n 0 ∷ []
    else (bit + 127) ∷ be_octets 8 n

length-ge : (n : ℕ) (xs ys : List ℕ) → n ≤ length xs → ltb (length (xs ++ ys)) n ≡ false
length-ge n xs ys h = ground (arith, length-append xs ys)

pub extended_length-field :
    (b : ℕ) (masked : Bool) (n : ℕ) (rest : List ℕ)
    → n < 2 ^ 64
    → extended_length (b ∷ (field_bytes masked n ++ rest))
      ≡ some (n, 1 + length (field_bytes masked n))
unfolding extended_length field_bytes be_octets
extended_length-field b true n rest h = ground (arith, be_value-be_octets n h)
extended_length-field b false n rest h = ground (arith, be_value-be_octets n h)
