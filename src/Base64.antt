-- ===== src/Base64.antt =====
-- `base64_encode` of server/src/base/crypto/base64.cc. The loop over the bytes takes three at a time;
-- what is left at its end is padded. Masks and shifts of a byte are written as quotients and rests.
use dpush.Base.{ℕ, ◌+◌, ◌*◌, ◌/◌, ◌%◌, [], ◌∷◌, Text, codes, get_or}

-- base64_chars
abbrev pub base64_chars : Text
base64_chars = codes "ABCDEFGHIJKLMNOPQRSTUVWXYZabcdefghijklmnopqrstuvwxyz0123456789+/"

abbrev pub base64_char : ℕ → ℕ
base64_char n = get_or base64_chars n 0

unfoldable pub base64_encode : Text → Text
base64_encode [] = []
base64_encode (x ∷ []) = base64_char (x / 4) ∷ base64_char (x % 4 * 16) ∷ b'=' ∷ b'=' ∷ []
base64_encode (x ∷ y ∷ []) =
    base64_char (x / 4) ∷ base64_char (x % 4 * 16 + y / 16) ∷ base64_char (y % 16 * 4) ∷ b'=' ∷ []
base64_encode (x ∷ y ∷ z ∷ rest) =
    base64_char (x / 4)
    ∷ base64_char (x % 4 * 16 + y / 16)
    ∷ base64_char (y % 16 * 4 + z / 64)
    ∷ base64_char (z % 64)
    ∷ base64_encode rest
