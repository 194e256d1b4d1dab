-- ===== src/Log/Spsc/Invariant.antt =====
-- What holds of the ring and its two threads between steps, and the tests of the two calls keep it.
use native.Mathlib.Nat.{mod-eq_of_lt}
use dpush.Base.{
  ℕ, ◌+◌, ◌%◌, ◌≤◌, ◌<◌, ◌≡◌, refl, sym, List, Option, some, ◌==◌, length, get_elem?, arith, inl,
  inr, Bool-cases,
}
use dpush.Log.Spsc.{
  Ring, Producer, calls, constructs, publishes, Consumer, asks, takes, releases, Threads, at_start,
  next, has_room, load_r_idx, has_element, load_w_idx, produce, consume,
}
use dpush.Log.Spsc.Window.{room, element}

abbrev pub threads :
    {A : Type 0} → Ring A → Producer A → Consumer A → List A → List (Option A) → Threads A
threads ring p c enqueued dequeued = record {
  ring = ring;
  producer = p;
  consumer = c;
  enqueued = enqueued;
  dequeued = dequeued;
}

module _ {A : Type 0} (capacity : ℕ) where
  -- What the producer knows where it stands: `w` elements enqueued, room for one more beyond `rc`.
  abbrev pub ProducerOk : Producer A → (ℕ → Option A) → ℕ → ℕ → Type 0
  ProducerOk calls buffer w rc = Unit {0}
  ProducerOk (constructs x) buffer w rc = w + 1 < rc + capacity
  ProducerOk (publishes x) buffer w rc = (w + 1 < rc + capacity) × (buffer (w % capacity) ≡ some x)

  abbrev pub ConsumerOk : Consumer A → List A → ℕ → ℕ → Type 0
  ConsumerOk asks enqueued r wc = Unit {0}
  ConsumerOk takes enqueued r wc = r < wc
  ConsumerOk (releases v) enqueued r wc = (r < wc) × (v ≡ get_elem? enqueued r)

  -- How many slots the consumer has emptied without telling.
  abbrev pub emptied : Consumer A → ℕ
  emptied asks = 0
  emptied takes = 0
  emptied (releases v) = 1

  abbrev pub Stored : (ℕ → Option A) → List A → ℕ → Type 0
  Stored buffer enqueued low =
      (k : ℕ) → low ≤ k → k < length enqueued → buffer (k % capacity) ≡ get_elem? enqueued k

  abbrev pub InOrder : List (Option A) → List A → Type 0
  InOrder dequeued enqueued =
      (k : ℕ) → k < length dequeued → get_elem? dequeued k ≡ some (get_elem? enqueued k)

  -- The indices are the counts of the elements enqueued and dequeued, the caches are earlier counts, and
  -- the slots between hold the elements.
  pub record IsFifo (t : Threads A) : Type 0 where
    pub rc : ℕ
    pub wc : ℕ
    pub w_at : (t.ring).w_idx ≡ length t.enqueued % capacity
    pub r_at : (t.ring).r_idx ≡ length t.dequeued % capacity
    pub rc_at : (t.ring).r_idx_cache ≡ rc % capacity
    pub wc_at : (t.ring).w_idx_cache ≡ wc % capacity
    pub rc_below : rc ≤ length t.dequeued
    pub wc_above : length t.dequeued ≤ wc
    pub wc_below : wc ≤ length t.enqueued
    pub near : length t.enqueued < rc + capacity
    pub stored : Stored (t.ring).buffer t.enqueued (length t.dequeued + emptied t.consumer)
    pub in_order : InOrder t.dequeued t.enqueued
    pub producer_ok : ProducerOk t.producer (t.ring).buffer (length t.enqueued) rc
    pub consumer_ok : ConsumerOk t.consumer t.enqueued (length t.dequeued) wc

  pub at_start-IsFifo : 0 < capacity → IsFifo at_start
  at_start-IsFifo h = record {
    rc = 0;
    wc = 0;
    w_at = sym (mod-eq_of_lt h);
    r_at = sym (mod-eq_of_lt h);
    rc_at = sym (mod-eq_of_lt h);
    wc_at = sym (mod-eq_of_lt h);
    rc_below = omega arith;
    wc_above = omega arith;
    wc_below = omega arith;
    near = omega (arith, h);
    stored = λ k low high. absurd (omega (arith, low, high));
    in_order = λ k high. absurd (omega (arith, high));
    producer_ok = tt;
    consumer_ok = tt;
  }

  module _ (ring : Ring A) (p : Producer A) (c : Consumer A) (enqueued : List A)
      (dequeued : List (Option A)) where
    -- The producer's cache takes a newer count.
    with_r_cache :
        (rc : ℕ) (p' : Producer A)
        → IsFifo (threads ring p c enqueued dequeued)
        → (v : ℕ) → v ≡ rc % capacity
        → rc ≤ length dequeued
        → length enqueued < rc + capacity
        → ProducerOk p' ring.buffer (length enqueued) rc
        → IsFifo (record (threads ring p c enqueued dequeued) {
          ring = record ring { r_idx_cache = v };
          producer = p';
        })
    with_r_cache rc p' h v at below near ok = record {
      rc = rc;
      wc = h.wc;
      w_at = h.w_at;
      r_at = h.r_at;
      rc_at = at;
      wc_at = h.wc_at;
      rc_below = below;
      wc_above = h.wc_above;
      wc_below = h.wc_below;
      near = near;
      stored = h.stored;
      in_order = h.in_order;
      producer_ok = ok;
      consumer_ok = h.consumer_ok;
    }

    -- The consumer's cache takes a newer count.
    with_w_cache :
        (wc : ℕ) (c' : Consumer A)
        → IsFifo (threads ring p c enqueued dequeued)
        → (v : ℕ) → v ≡ wc % capacity
        → length dequeued ≤ wc
        → wc ≤ length enqueued
        → ConsumerOk c' enqueued (length dequeued) wc
        → emptied c' ≡ emptied c
        → IsFifo (record (threads ring p c enqueued dequeued) {
          ring = record ring { w_idx_cache = v };
          consumer = c';
        })
    with_w_cache wc c' h v at above below ok same = record {
      rc = h.rc;
      wc = wc;
      w_at = h.w_at;
      r_at = h.r_at;
      rc_at = h.rc_at;
      wc_at = at;
      rc_below = h.rc_below;
      wc_above = above;
      wc_below = below;
      near = h.near;
      stored = λ k low high. h.stored k (omega (arith, low, same)) high;
      in_order = h.in_order;
      producer_ok = h.producer_ok;
      consumer_ok = ok;
    }

  pub calls-IsFifo :
      (x : A) (ring : Ring A) (c : Consumer A) (enqueued : List A) (dequeued : List (Option A))
      → IsFifo (threads ring calls c enqueued dequeued)
      → IsFifo (produce capacity calls x (threads ring calls c enqueued dequeued))
  unfolding produce has_room load_r_idx
  calls-IsFifo x ring c enqueued dequeued h =
      let w = length enqueued in
      let near_now : w < length dequeued + capacity = omega (arith, h.near, h.rc_below) in
      let take_cache = with_r_cache ring calls c enqueued dequeued in
      elim (Bool-cases (next capacity ring.w_idx == ring.r_idx_cache)) [
        | inl e ↦ elim (Bool-cases (next capacity ring.w_idx == ring.r_idx)) [
          | inl f ↦
              rw (e, f)
                (take_cache (length dequeued) calls h ring.r_idx h.r_at (omega arith) near_now tt)
          | inr f ↦
              let free =
                room capacity w (length dequeued) near_now (ground (arith, h.w_at, h.r_at, f)) in
              rw (e, f)
                (take_cache (length dequeued) (constructs x) h ring.r_idx h.r_at (omega arith)
                  near_now free)
        ]
        | inr e ↦
            let free = room capacity w h.rc h.near (ground (arith, h.w_at, h.rc_at, e)) in
            rw e (take_cache h.rc (constructs x) h ring.r_idx_cache h.rc_at h.rc_below h.near free)
      ]

  pub asks-IsFifo :
      (ring : Ring A) (p : Producer A) (enqueued : List A) (dequeued : List (Option A))
      → IsFifo (threads ring p asks enqueued dequeued)
      → IsFifo (consume capacity asks (threads ring p asks enqueued dequeued))
  unfolding consume has_element load_w_idx
  asks-IsFifo ring p enqueued dequeued h =
      let r = length dequeued in
      let below_now : r ≤ length enqueued = omega (arith, h.wc_above, h.wc_below) in
      let take_cache = with_w_cache ring p asks enqueued dequeued in
      elim (Bool-cases (ring.r_idx == ring.w_idx_cache)) [
        | inl e ↦ elim (Bool-cases (ring.r_idx == ring.w_idx)) [
          | inl f ↦
              rw (e, f)
                (take_cache (length enqueued) asks h ring.w_idx h.w_at below_now (omega arith) tt
                  refl)
          | inr f ↦
              let there =
                element capacity r (length enqueued) below_now
                  (ground (arith, h.w_at, h.r_at, f)) in
              rw (e, f)
                (take_cache (length enqueued) takes h ring.w_idx h.w_at below_now (omega arith)
                  there refl)
        ]
        | inr e ↦
            let there = element capacity r h.wc h.wc_above (ground (arith, h.r_at, h.wc_at, e)) in
            rw e (take_cache h.wc takes h ring.w_idx_cache h.wc_at h.wc_above h.wc_below there refl)
      ]
