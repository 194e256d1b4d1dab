-- ===== src/Log/Worker/Written.antt =====
-- What the first round of the log's thread writes, from the rings that it finds.
use dpush.Base.{
  ℕ, zero, suc, ◌+◌, ◌%◌, ◌<◌, ◌≤◌, ◌≡◌, ◌≢◌, refl, sym, ap, ap₂, ◌∙◌, List, [], ◌∷◌, ◌++◌, false,
  ◌==◌, take, drop, length, length-set, length-append, get_or, arith,
}
use dpush.Base.Wrap.{mod_apart}
use dpush.Log.Worker.{
  Entry, Backend, LogWorker, k_max_per_queue_size, put_entry, put_entries, end_round, visit_rings,
  backend_round,
}
use dpush.Log.Worker.Rings.{get_or-set_ne, ring_at, visited}
use dpush.Log.Worker.Rounds.{bytes, fresh, write_round, write_round-first}

-- The first 128 entries of each ring, from the i-th on in the order of the round.
abbrev pub turn_entries : LogWorker → ℕ → ℕ → List Entry
turn_entries w zero i = []
turn_entries w (suc n) i =
    take k_max_per_queue_size (ring_at ((w.round_robin_idx + i) % length w.rings) w)
    ++ turn_entries w n (suc i)

module _ (size : ℕ) where
  put_entries-append :
      (xs ys : List Entry) (s : Backend)
      → put_entries size (xs ++ ys) s ≡ put_entries size ys (put_entries size xs s)
  unfolding put_entries
  put_entries-append [] ys s = refl
  put_entries-append (x ∷ xs) ys s = put_entries-append xs ys (put_entry size x s)

  -- The rings of `w` still to be visited are those of `w0`.
  abbrev pub AreLeft : ℕ → ℕ → LogWorker → LogWorker → Type 0
  AreLeft n i w w0 =
      (k : ℕ)
      → i ≤ k
      → k < i + n
      → ring_at ((w0.round_robin_idx + k) % length w0.rings) w
        ≡ ring_at ((w0.round_robin_idx + k) % length w0.rings) w0

  visited-AreLeft :
      (n i : ℕ) (w w0 : LogWorker)
      → suc n ≤ length w0.rings
      → length w.rings ≡ length w0.rings
      → w.round_robin_idx ≡ w0.round_robin_idx
      → AreLeft (suc n) i w w0
      → AreLeft n (suc i) (visited size i w) w0
  visited-AreLeft n i w w0 room e same h k low high =
      let j = (w0.round_robin_idx + k) % length w0.rings in
      let index = (w.round_robin_idx + i) % length w.rings in
      let at : index ≡ (w0.round_robin_idx + i) % length w0.rings =
        ap₂ (λ r m. (r + i) % m) same e in
      let apart : index ≢ j = λ f.
        mod_apart (length w0.rings) (w0.round_robin_idx + i) (w0.round_robin_idx + k)
          (omega (arith, low)) (omega (arith, high, room)) (sym at ∙ f) in
      get_or-set_ne w.rings index j (drop k_max_per_queue_size (get_or w.rings index [])) [] apart
      ∙ h k (omega (arith, low)) (omega (arith, high))

  visit_rings-turns :
      (n i : ℕ) (w w0 : LogWorker)
      → n ≤ length w0.rings
      → length w.rings ≡ length w0.rings
      → w.round_robin_idx ≡ w0.round_robin_idx
      → AreLeft n i w w0
      → ((visit_rings size n i w).0.backend ≡ put_entries size (turn_entries w0 n i) w.backend)
        × ((visit_rings size n i w).1 ≡ length (turn_entries w0 n i))
  unfolding visit_rings put_entries
  visit_rings-turns zero i w w0 room e same h = (refl, refl)
  visit_rings-turns (suc n) i w w0 room e same h =
      let index = (w.round_robin_idx + i) % length w.rings in
      let at : index ≡ (w0.round_robin_idx + i) % length w0.rings =
        ap₂ (λ r m. (r + i) % m) same e in
      let now : take k_max_per_queue_size (ring_at index w)
          ≡ take k_max_per_queue_size (ring_at ((w0.round_robin_idx + i) % length w0.rings) w0) =
        ap (λ m. take k_max_per_queue_size (ring_at m w)) at
        ∙ ap (take k_max_per_queue_size) (h i (omega arith) (omega arith)) in
      let (writes, counts) =
        visit_rings-turns n (suc i) (visited size i w) w0 (omega (arith, room))
          (length-set w.rings index (drop k_max_per_queue_size (get_or w.rings index [])) ∙ e) same
          (visited-AreLeft n i w w0 room e same h) in
      let split =
        put_entries-append
          (take k_max_per_queue_size (ring_at ((w0.round_robin_idx + i) % length w0.rings) w0))
          (turn_entries w0 n (suc i)) w.backend in
      let long =
        length-append
          (take k_max_per_queue_size (ring_at ((w0.round_robin_idx + i) % length w0.rings) w0))
          (turn_entries w0 n (suc i)) in
      (
        writes
            ∙ ap (λ z. put_entries size (turn_entries w0 n (suc i)) (put_entries size z w.backend))
                now
            ∙ sym split,
        ap₂ (λ a b. a + b) (ap length now) counts ∙ sym long,
      )

  -- The first round after the thread starts writes to every sink exactly the bytes of the first 128
  -- entries of each ring, ring after ring from the one whose turn it is, also where the buffer runs full
  -- in between.
  pub round-first :
      (w : LogWorker)
      → 0 < length w.rings
      → w.backend ≡ fresh
      → (backend_round size w).backend.written ≡ bytes (turn_entries w (length w.rings) 0)
  unfolding backend_round
  round-first w some_ring e =
      let some_there : length w.rings == 0 ≡ false = ground (arith, some_ring) in
      let (writes, counts) =
        visit_rings-turns (length w.rings) 0 w w (omega arith) refl refl (λ k low high. refl) in
      rw some_there (
        ap₂ (λ n s. (end_round n s).written) counts writes
        ∙ ap (λ s. (write_round size (turn_entries w (length w.rings) 0) s).written) e
        ∙ write_round-first size (turn_entries w (length w.rings) 0))
