-- ===== src/Frame/Bytes.antt =====
-- Big-endian numbers and masking on byte lists.
use dpush.Base.{
  ℕ, zero, suc, ◌+◌, ◌%◌, ◌^◌, ◌<◌, ◌≡◌, refl, ap, ap₂, List, [], ◌∷◌, Bool, true, ℕ_discrete,
  if◌then◌else◌, false, bit_xor, ◌==◌, ==_iff, arith, length, get_or,
}
use dpush.Buffer.{AreBytes}
use dpush.Frame.{be_octets, be_value, unmask, at}

pub be_value-be_octets : (n : ℕ) → n < 2 ^ 64 → be_value 0 (be_octets 8 n) ≡ n
unfolding be_value be_octets
be_value-be_octets n h = omega arith

pub length-unmask : (key : List ℕ) (i : ℕ) (xs : List ℕ) → length (unmask key i xs) ≡ length xs
unfolding unmask
length-unmask key i [] = refl
length-unmask key i (x ∷ xs) = ap suc (length-unmask key (i + 1) xs)

-- A test that holds at every number below a bound, tried from the top.
holds_under : (ℕ → Bool) → ℕ → Bool
holds_under test zero = true
holds_under test (suc top) = if test top then holds_under test top else false

holds_under-at :
    (test : ℕ → Bool) (value bound : ℕ)
    → value < bound
    → holds_under test bound ≡ true
    → test value ≡ true
unfolding holds_under
holds_under-at test value zero small held = absurd (omega arith)
holds_under-at test value (suc top) small held = elim (ℕ_discrete value top) [
  | yes same ↦ rw same (ground arith)
  | no other ↦ holds_under-at test value top (omega arith) (ground arith)
]

-- All pairs of a byte and a key byte.
abbrev masks_back : ℕ → ℕ → Bool
masks_back x k = bit_xor (bit_xor x k) k == x

every_pair : holds_under (λ x. holds_under (masks_back x) 256) 256 ≡ true
unfolding holds_under
every_pair = refl

xor_twice : (x k : ℕ) → x < 256 → k < 256 → bit_xor (bit_xor x k) k ≡ x
xor_twice x k hx hk =
    let row = holds_under-at (λ y. holds_under (masks_back y) 256) x 256 hx every_pair in
    (==_iff _ x).0 (holds_under-at (masks_back x) k 256 hk row)

pub get_or-lt : (key : List ℕ) (i : ℕ) → AreBytes key → get_or key i 0 < 256
get_or-lt [] i h = omega arith
get_or-lt (x ∷ key) zero h = h.0
get_or-lt (x ∷ key) (suc i) h = get_or-lt key i h.1

-- The same key and the same start undo a masking.
pub unmask-unmask :
    (key : List ℕ) (i : ℕ) (xs : List ℕ)
    → AreBytes key
    → AreBytes xs
    → unmask key i (unmask key i xs) ≡ xs
unfolding unmask
unmask-unmask key i [] hk hx = refl
unmask-unmask key i (x ∷ xs) hk hx =
    ap₂ ◌∷◌ (xor_twice x (at key (i % 4)) hx.0 (get_or-lt key (i % 4) hk))
      (unmask-unmask key (i + 1) xs hk hx.1)
