-- ===== src/Buffer.antt =====
-- The input buffer that the handlers read, as an interface: muduo's `Buffer`
-- (server/third_party/muduo/net/Buffer.h), of which they use peek, readableBytes, retrieve, find
-- and findCRLF. A `char*` into the buffer is an offset from peek().
use dpush.Base.{
  ℕ, suc, ◌≤◌, ◌<◌, ◌≡◌, List, [], ◌∷◌, Option, none, some, Bool, true, false, ◌==◌, ◌&&◌,
  if◌then◌else◌, length, drop,
}
use mathlib.Core.Option

abbrev pub AreBytes : List ℕ → Type 0
AreBytes [] = Unit {0}
AreBytes (x ∷ xs) = (x < 256) × AreBytes xs

unfoldable pub starts_with : List ℕ → List ℕ → Bool
starts_with [] ys = true
starts_with (x ∷ xs) [] = false
starts_with (x ∷ xs) (y ∷ ys) = x == y && starts_with xs ys

-- The first position at which a text occurs.
unfoldable pub search : List ℕ → List ℕ → Option ℕ
unfolding starts_with
search text [] = if starts_with text [] then some 0 else none
search text (y ∷ ys) = if starts_with text (y ∷ ys) then some 0 else Option.map suc (search text ys)

pub record Buffer : Type 1 where
  pub Buf : Type 0
  -- the bytes from peek() to beginWrite()
  pub readable : Buf → List ℕ
  pub retrieve : ℕ → Buf → Buf
  -- find, and findCRLF: the offset from peek() of the first occurrence
  pub find : List ℕ → Buf → Option ℕ
  pub find_crlf : Buf → Option ℕ
  pub readable-retrieve :
      (n : ℕ) (b : Buf) → n ≤ length (readable b) → readable (retrieve n b) ≡ drop n (readable b)
  pub find-search :
      (x : ℕ) (text : List ℕ) (b : Buf) → find (x ∷ text) b ≡ search (x ∷ text) (readable b)
  pub find_crlf-search : (b : Buf) → find_crlf b ≡ search (13 ∷ 10 ∷ []) (readable b)
