-- ===== src/Log/Spsc/Window.antt =====
-- Places of a ring: counts within the capacity of each other share a place only when they are equal.
use native.Mathlib.Nat.{mod-add-mod, add-mod_right}
use dpush.Base.{ℕ, ◌+◌, ◌%◌, ◌≤◌, ◌<◌, ◌≡◌, ap, false, ◌==◌, arith, inl, inr, Bool-cases}
use dpush.Log.Spsc.{next}

pub next-mod : (n x : ℕ) → next n (x % n) ≡ (x + 1) % n
next-mod n x = mod-add-mod x n 1

module _ (capacity : ℕ) where
  pub room :
      (w v : ℕ)
      → w < v + capacity
      → next capacity (w % capacity) == v % capacity ≡ false
      → w + 1 < v + capacity
  room w v near e =
      let there : next capacity (w % capacity) ≡ (w + 1) % capacity = next-mod capacity w in
      elim (Bool-cases (w + 1 == v + capacity)) [
        | inl full ↦
            let same : w + 1 ≡ v + capacity = ground (arith, full) in
            let around : (v + capacity) % capacity ≡ v % capacity = add-mod_right v capacity in
            ground (arith, there, ap (λ z. z % capacity) same, around, e)
        | inr other ↦ ground (arith, other, near)
      ]

  pub element : (r v : ℕ) → r ≤ v → r % capacity == v % capacity ≡ false → r < v
  element r v low e = elim (Bool-cases (r == v)) [
    | inl same ↦
        let eq : r ≡ v = ground (arith, same) in ground (arith, ap (λ z. z % capacity) eq, e)
    | inr other ↦ ground (arith, other, low)
  ]
