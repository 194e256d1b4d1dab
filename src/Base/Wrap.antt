-- ===== src/Base/Wrap.antt =====
-- Counts that wrap around at the length of an array.
use Prim.Native.Nat.{ℕ, ◌+◌, ◌-◌, ◌%◌, ◌<◌, ◌≤◌}
use mathlib.Core.Path.{◌≡◌, sym, ap, ◌∙◌}
use mathlib.Core.Logic.{◌≢◌, inl, inr}
use native.Mathlib.Omega.{arith}
use native.Mathlib.Nat.{mod-eq_of_lt, mod-lt, mod-add-mod, mod-eq-sub-mod, add-mod_left}
use dpush.Base.Tests.{ltb, leb, Bool-cases}

mod_apart_up : (n x d : ℕ) → 0 < d → d < n → x % n ≢ (x + d) % n
mod_apart_up n x d some_way less same =
    let r = x % n in
    let small : r < n = mod-lt x (omega (arith, less)) in
    let sum : (r + d) % n ≡ r = mod-add-mod x n d ∙ sym same in
    elim (Bool-cases (ltb (r + d) n)) [
      | inl e ↦
          let low : r + d < n = ground (arith, e) in
          let stays : (r + d) % n ≡ r + d = mod-eq_of_lt low in omega (arith, sum, stays, some_way)
      | inr e ↦
          let high : n ≤ r + d = ground (arith, e) in
          let down : (r + d) % n ≡ (r + d - n) % n = mod-eq-sub-mod high in
          let stays : (r + d - n) % n ≡ r + d - n =
            mod-eq_of_lt (omega (arith, small, less, high)) in
          omega (arith, sum, down, stays, less, high)
    ]

pub mod_apart : (n x y : ℕ) → x < y → y < x + n → x % n ≢ y % n
mod_apart n x y lower near same =
    let there : x + (y - x) ≡ y = omega (arith, lower) in
    mod_apart_up n x (y - x) (omega (arith, lower)) (omega (arith, lower, near))
      (same ∙ ap (λ z. z % n) (sym there))

-- The number of turns to a place.
pub to_place : (i j n : ℕ) → j < n → (k : ℕ) × ((k < n) × ((i + k) % n ≡ j))
to_place i j n h =
    let r = i % n in
    let less : r < n = mod-lt i (omega (arith, h)) in
    elim (Bool-cases (leb r j)) [
      | inl e ↦
          let up : r ≤ j = ground (arith, e) in
          let sum : r + (j - r) ≡ j = omega (arith, up) in
          (
            j - r,
            (
              omega (arith, h),
              sym (mod-add-mod i n (j - r)) ∙ ap (λ x. x % n) sum ∙ mod-eq_of_lt h,
            ),
          )
      | inr e ↦
          let down : j < r = ground (arith, e) in
          let sum : r + (n - r + j) ≡ n + j = omega (arith, less) in
          (
            n - r + j,
            (
              omega (arith, down, less),
              sym (mod-add-mod i n (n - r + j))
                  ∙ ap (λ x. x % n) sum
                  ∙ add-mod_left n j
                  ∙ mod-eq_of_lt h,
            ),
          )
    ]
