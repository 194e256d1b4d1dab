-- ===== src/Log/Spsc/Steps.antt =====
-- Building, publishing, taking and releasing an element keep the invariant of the ring.

use dpush.Base.{
  ℕ, ◌+◌, ◌%◌, ◌≤◌, ◌<◌, ◌≡◌, ◌≢◌, refl, sym, ap, ◌∙◌, List, [], ◌∷◌, ◌++◌, Option, none, some,
  ◌==◌, update, ℕ_discrete, length, get_elem?, arith, inl, inr, Bool-cases, get_elem?-snoc,
}
use dpush.Log.Spsc.{
  Ring, Producer, calls, constructs, publishes, Consumer, asks, takes, releases, next, produce,
  consume,
}
use dpush.Base.Wrap.{mod_apart}
use dpush.Log.Spsc.Window.{next-mod}
use dpush.Log.Spsc.Invariant.{ProducerOk, ConsumerOk, IsFifo, threads}

length-snoc : {A : Type 0} (xs : List A) (x : A) → length (xs ++ x ∷ []) ≡ length xs + 1
length-snoc [] x = refl
length-snoc (y ∷ xs) x = omega (arith, length-snoc xs x)

module _ {A : Type 0} (capacity : ℕ) where
  pub constructs-IsFifo :
      (y x : A) (ring : Ring A) (c : Consumer A) (enqueued : List A) (dequeued : List (Option A))
      → IsFifo capacity (threads ring (constructs y) c enqueued dequeued)
      → IsFifo capacity
          (produce capacity (constructs y) x (threads ring (constructs y) c enqueued dequeued))
  unfolding produce
  constructs-IsFifo y x ring c enqueued dequeued h =
      let w = length enqueued in
      record {
        rc = h.rc;
        wc = h.wc;
        w_at = h.w_at;
        r_at = h.r_at;
        rc_at = h.rc_at;
        wc_at = h.wc_at;
        rc_below = h.rc_below;
        wc_above = h.wc_above;
        wc_below = h.wc_below;
        near = h.near;
        stored = λ k low high.
            let apart = mod_apart capacity k w high (omega (arith, low, h.near, h.rc_below)) in
            let other : k % capacity ≢ ring.w_idx = λ e. apart (e ∙ h.w_at) in
            ground (arith, other, h.stored k low high);
        in_order = h.in_order;
        producer_ok = (h.producer_ok, ground (arith, h.w_at));
        consumer_ok = h.consumer_ok;
      }

  ConsumerOk-snoc :
      (c : Consumer A) (enqueued : List A) (y : A) (r wc : ℕ)
      → wc ≤ length enqueued
      → ConsumerOk capacity c enqueued r wc
      → ConsumerOk capacity c (enqueued ++ y ∷ []) r wc
  ConsumerOk-snoc asks enqueued y r wc low h = tt
  ConsumerOk-snoc takes enqueued y r wc low h = h
  ConsumerOk-snoc (releases v) enqueued y r wc low (less, e) =
      (less, ground (arith, e, get_elem?-snoc enqueued y r, low, less))

  pub publishes-IsFifo :
      (y x : A) (ring : Ring A) (c : Consumer A) (enqueued : List A) (dequeued : List (Option A))
      → IsFifo capacity (threads ring (publishes y) c enqueued dequeued)
      → IsFifo capacity
          (produce capacity (publishes y) x (threads ring (publishes y) c enqueued dequeued))
  unfolding produce
  publishes-IsFifo y x ring c enqueued dequeued h =
      let w = length enqueued in
      let longer = length-snoc enqueued y in
      let (free, built) = h.producer_ok in
      record {
        rc = h.rc;
        wc = h.wc;
        w_at =
            ap (next capacity) h.w_at ∙ next-mod capacity w ∙ ap (λ z. z % capacity) (sym longer);
        r_at = h.r_at;
        rc_at = h.rc_at;
        wc_at = h.wc_at;
        rc_below = h.rc_below;
        wc_above = h.wc_above;
        wc_below = omega (arith, h.wc_below, longer);
        near = omega (arith, longer, free);
        stored = λ k low high. elim (Bool-cases (k == w)) [
          | inl e ↦
              let same : k ≡ w = ground (arith, e) in
              ap (λ z. ring.buffer (z % capacity)) same
              ∙ built
              ∙ ground (arith, e, get_elem?-snoc enqueued y k)
          | inr e ↦
              let below : k < w = ground (arith, e, high, longer) in
              h.stored k low below ∙ ground (arith, e, get_elem?-snoc enqueued y k)
        ];
        in_order = λ k below.
            let old : k < w = omega (arith, below, h.wc_above, h.wc_below) in
            h.in_order k below ∙ ap some (ground (arith, old, get_elem?-snoc enqueued y k));
        producer_ok = tt;
        consumer_ok = ConsumerOk-snoc c enqueued y (length dequeued) h.wc h.wc_below h.consumer_ok;
      }

  ProducerOk-update :
      (p : Producer A) (buffer : ℕ → Option A) (i w rc : ℕ)
      → w % capacity ≢ i
      → ProducerOk capacity p buffer w rc
      → ProducerOk capacity p (update ℕ_discrete buffer i none) w rc
  ProducerOk-update calls buffer i w rc other h = tt
  ProducerOk-update (constructs y) buffer i w rc other h = h
  ProducerOk-update (publishes y) buffer i w rc other (free, built) =
      (free, ground (arith, built, other))

  pub takes-IsFifo :
      (ring : Ring A) (p : Producer A) (enqueued : List A) (dequeued : List (Option A))
      → IsFifo capacity (threads ring p takes enqueued dequeued)
      → IsFifo capacity (consume capacity takes (threads ring p takes enqueued dequeued))
  unfolding consume
  takes-IsFifo ring p enqueued dequeued h =
      let w = length enqueued in
      let r = length dequeued in
      let there : r < w = omega (arith, h.consumer_ok, h.wc_below) in
      let near_now : w < r + capacity = omega (arith, h.near, h.rc_below) in
      let apart = mod_apart capacity r w there near_now in
      record {
        rc = h.rc;
        wc = h.wc;
        w_at = h.w_at;
        r_at = h.r_at;
        rc_at = h.rc_at;
        wc_at = h.wc_at;
        rc_below = h.rc_below;
        wc_above = h.wc_above;
        wc_below = h.wc_below;
        near = h.near;
        stored = λ k low high.
            let away =
              mod_apart capacity r k (omega (arith, low)) (omega (arith, high, near_now)) in
            let other : k % capacity ≢ ring.r_idx = λ e. away (sym (e ∙ h.r_at)) in
            ground (arith, other, h.stored k (omega (arith, low)) high);
        in_order = h.in_order;
        producer_ok =
            ProducerOk-update p ring.buffer ring.r_idx w h.rc (λ e. apart (sym (e ∙ h.r_at)))
              h.producer_ok;
        consumer_ok = (h.consumer_ok, ap ring.buffer h.r_at ∙ h.stored r (omega arith) there);
      }

  pub releases-IsFifo :
      (v : Option A) (ring : Ring A) (p : Producer A) (enqueued : List A)
      (dequeued : List (Option A))
      → IsFifo capacity (threads ring p (releases v) enqueued dequeued)
      → IsFifo capacity
          (consume capacity (releases v) (threads ring p (releases v) enqueued dequeued))
  unfolding consume
  releases-IsFifo v ring p enqueued dequeued h =
      let r = length dequeued in
      let longer = length-snoc dequeued v in
      let (less, taken) = h.consumer_ok in
      record {
        rc = h.rc;
        wc = h.wc;
        w_at = h.w_at;
        r_at =
            ap (next capacity) h.r_at ∙ next-mod capacity r ∙ ap (λ z. z % capacity) (sym longer);
        rc_at = h.rc_at;
        wc_at = h.wc_at;
        rc_below = omega (arith, h.rc_below, longer);
        wc_above = omega (arith, less, longer);
        wc_below = h.wc_below;
        near = h.near;
        stored = λ k low high. h.stored k (omega (arith, low, longer)) high;
        in_order = λ k below. elim (Bool-cases (k == r)) [
          | inl e ↦
              let same : k ≡ r = ground (arith, e) in
              ground (arith, e, get_elem?-snoc dequeued v k)
              ∙ ap some (taken ∙ ap (get_elem? enqueued) (sym same))
          | inr e ↦
              let old : k < r = ground (arith, e, below, longer) in
              ground (arith, e, get_elem?-snoc dequeued v k) ∙ h.in_order k old
        ];
        producer_ok = h.producer_ok;
        consumer_ok = tt;
      }
