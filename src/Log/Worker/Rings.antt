-- ===== src/Log/Worker/Rings.antt =====
-- What a round of the log's thread takes from the rings.

use dpush.Base.{
  ℕ, zero, suc, ◌+◌, ◌%◌, ◌<◌, ◌≤◌, ◌≡◌, ◌≢◌, refl, sym, ap, ◌∙◌, List, [], ◌∷◌, false, ◌==◌, take,
  drop, length, length-set, get_or, set, arith, inl, inr, Bool-cases,
}
use dpush.Base.Wrap.{mod_apart, to_place}
use dpush.Log.Worker.{
  Entry, LogWorker, k_max_per_queue_size, put_entries, visit_rings, backend_round,
}

module _ {A : Type 0} where
  pub get_or-set_self :
      (xs : List A) (i : ℕ) (v d : A) → i < length xs → get_or (set xs i v) i d ≡ v
  get_or-set_self [] i v d h = absurd (omega (arith, h))
  get_or-set_self (x ∷ xs) zero v d h = refl
  get_or-set_self (x ∷ xs) (suc i) v d h = get_or-set_self xs i v d (omega (arith, h))

  pub get_or-set_ne :
      (xs : List A) (i j : ℕ) (v d : A) → i ≢ j → get_or (set xs i v) j d ≡ get_or xs j d
  get_or-set_ne [] i j v d h = refl
  get_or-set_ne (x ∷ xs) zero zero v d h = absurd (h refl)
  get_or-set_ne (x ∷ xs) zero (suc j) v d h = refl
  get_or-set_ne (x ∷ xs) (suc i) zero v d h = refl
  get_or-set_ne (x ∷ xs) (suc i) (suc j) v d h = get_or-set_ne xs i j v d (λ e. h (ap suc e))

abbrev pub ring_at : ℕ → LogWorker → List Entry
ring_at j w = get_or w.rings j []

module _ (size : ℕ) where
  -- One visit.
  abbrev pub visited : ℕ → LogWorker → LogWorker
  visited i w =
      let index = (w.round_robin_idx + i) % length w.rings in
      record w {
        rings = set w.rings index (drop k_max_per_queue_size (get_or w.rings index []));
        backend = put_entries size (take k_max_per_queue_size (get_or w.rings index [])) w.backend;
      }

  visit_rings-other :
      (n i j c : ℕ) (w : LogWorker)
      → length w.rings ≡ c
      → ((k : ℕ) → i ≤ k → k < i + n → (w.round_robin_idx + k) % c ≢ j)
      → ring_at j (visit_rings size n i w).0 ≡ ring_at j w
  unfolding visit_rings
  visit_rings-other zero i j c w e h = refl
  visit_rings-other (suc n) i j c w e h =
      let index = (w.round_robin_idx + i) % length w.rings in
      let after = drop k_max_per_queue_size (get_or w.rings index []) in
      let apart : index ≢ j = λ same.
        h i (omega arith) (omega arith) (ap (λ m. (w.round_robin_idx + i) % m) (sym e) ∙ same) in
      visit_rings-other n (suc i) j c (visited i w) (length-set w.rings index after ∙ e)
        (λ k low high. h k (omega (arith, low)) (omega (arith, high)))
      ∙ get_or-set_ne w.rings index j after [] apart

  visit_rings-visited :
      (n i j k c : ℕ) (w : LogWorker)
      → length w.rings ≡ c
      → n ≤ c
      → j < c
      → i ≤ k
      → k < i + n
      → (w.round_robin_idx + k) % c ≡ j
      → ring_at j (visit_rings size n i w).0 ≡ drop k_max_per_queue_size (ring_at j w)
  unfolding visit_rings
  visit_rings-visited zero i j k c w e room inside low high there =
      absurd (omega (arith, low, high))
  visit_rings-visited (suc n) i j k c w e room inside low high there =
      let index = (w.round_robin_idx + i) % length w.rings in
      let after = drop k_max_per_queue_size (get_or w.rings index []) in
      let still : length (set w.rings index after) ≡ c = length-set w.rings index after ∙ e in
      let at : index ≡ (w.round_robin_idx + i) % c = ap (λ m. (w.round_robin_idx + i) % m) e in
      elim (Bool-cases (k == i)) [
        | inl f ↦
            let now : k ≡ i = ground (arith, f) in
            let here : index ≡ j = at ∙ ap (λ m. (w.round_robin_idx + m) % c) (sym now) ∙ there in
            visit_rings-other n (suc i) j c (visited i w) still (λ m more less same.
              mod_apart c (w.round_robin_idx + i) (w.round_robin_idx + m) (omega (arith, more))
                (omega (arith, less, room)) (sym at ∙ here ∙ sym same))
            ∙ ap (λ m. get_or (set w.rings index after) m []) (sym here)
            ∙ get_or-set_self w.rings index after [] (ground (arith, here, inside, e))
            ∙ ap (λ m. drop k_max_per_queue_size (get_or w.rings m [])) here
        | inr f ↦
            let later : suc i ≤ k = ground (arith, f, low) in
            let apart : index ≢ j = λ same.
              mod_apart c (w.round_robin_idx + i) (w.round_robin_idx + k) (omega (arith, later))
                (omega (arith, high, room)) (sym at ∙ same ∙ sym there) in
            visit_rings-visited n (suc i) j k c (visited i w) still (omega (arith, room)) inside
              later (omega (arith, high)) there
            ∙ ap (drop k_max_per_queue_size) (get_or-set_ne w.rings index j after [] apart)
      ]

  -- A round takes its first 128 entries, or all, from every ring, whatever ring it begins with, and
  -- nothing more.
  pub round-drops :
      (w : LogWorker) (j : ℕ)
      → j < length w.rings
      → ring_at j (backend_round size w) ≡ drop k_max_per_queue_size (ring_at j w)
  unfolding backend_round
  round-drops w j inside =
      let (k, (less, there)) = to_place w.round_robin_idx j (length w.rings) inside in
      let some_there : length w.rings == 0 ≡ false = ground (arith, inside) in
      rw some_there (
        visit_rings-visited (length w.rings) 0 j k (length w.rings) w refl (omega arith) inside
          (omega arith) (omega (arith, less)) there)
