-- ===== src/Log/Spsc.antt =====
-- `SpscRingBuffer` of server/src/base/AeroLog/SPSC.hpp, with its two threads.
--
-- A call of `enqueue` or `dequeue` is cut where it touches what the other thread sees: the test
-- against the cached index, which reloads the other's index when it has to, is one step; building or
-- moving out the element is the next; the store of the own index is the last. A release store is seen
-- by the acquire load that reads it, so an interleaving is a list of such steps. `capacity` is a power
-- of two, and the mask is the rest by it. A slot that holds no element is `none`: reading it would be
-- undefined.
pub mod Window
pub mod Invariant
pub mod Steps
pub mod Fifo
use dpush.Base.{
  ℕ, ◌+◌, ◌%◌, List, [], ◌∷◌, ◌++◌, Option, none, some, Bool, true, false, ◌==◌, update, ℕ_discrete,
  if◌then◌else◌,
}

module _ (A : Type 0) where
  pub record Ring : Type 0 where
    pub w_idx : ℕ
    pub r_idx : ℕ
    pub r_idx_cache : ℕ
    pub w_idx_cache : ℕ
    pub buffer : ℕ → Option A

  -- Where the producer stands in `enqueue`, and the consumer in `dequeue`.
  pub data Producer : Type 0 where
    calls : Producer
    constructs : A → Producer
    publishes : A → Producer

  pub data Consumer : Type 0 where
    asks : Consumer
    takes : Consumer
    releases : Option A → Consumer

  -- The two threads on a ring, the elements whose `enqueue` has returned true and those that `dequeue`
  -- has returned, in order.
  pub record Threads : Type 0 where
    pub ring : Ring
    pub producer : Producer
    pub consumer : Consumer
    pub enqueued : List A
    pub dequeued : List (Option A)

  -- Whose step is next; `x` is the element of a call that begins.
  pub data Turn : Type 0 where
    producer_with : A → Turn
    consumer_on : Turn

module _ {A : Type 0} where
  abbrev pub empty_ring : Ring A
  empty_ring = record { w_idx = 0; r_idx = 0; r_idx_cache = 0; w_idx_cache = 0; buffer = λ i. none }

  abbrev pub at_start : Threads A
  at_start = record {
    ring = empty_ring;
    producer = calls;
    consumer = asks;
    enqueued = [];
    dequeued = [];
  }

abbrev pub next : ℕ → ℕ → ℕ
next capacity i = (i + 1) % capacity

module _ {A : Type 0} (capacity : ℕ) where
  -- The tests at the start of enqueue: whether there is room, and the ring with its cache.
  unfoldable pub has_room : Ring A → Bool
  has_room r =
      if next capacity r.w_idx == r.r_idx_cache
      then (if next capacity r.w_idx == r.r_idx then false else true)
      else true

  unfoldable pub load_r_idx : Ring A → Ring A
  load_r_idx r = record r {
    r_idx_cache = if next capacity r.w_idx == r.r_idx_cache then r.r_idx else r.r_idx_cache;
  }

  -- The tests at the start of dequeue.
  unfoldable pub has_element : Ring A → Bool
  has_element r =
      if r.r_idx == r.w_idx_cache then (if r.r_idx == r.w_idx then false else true) else true

  unfoldable pub load_w_idx : Ring A → Ring A
  load_w_idx r = record r {
    w_idx_cache = if r.r_idx == r.w_idx_cache then r.w_idx else r.w_idx_cache;
  }

  -- A step of the producer, by where it stands.
  unfoldable pub produce : Producer A → A → Threads A → Threads A
  produce calls x t = record t {
    ring = load_r_idx t.ring;
    producer = if has_room t.ring then constructs x else calls;
  }
  produce (constructs y) x t = record t {
    ring = record (t.ring) { buffer = update ℕ_discrete (t.ring).buffer (t.ring).w_idx (some y) };
    producer = publishes y;
  }
  produce (publishes y) x t = record t {
    ring = record (t.ring) { w_idx = next capacity (t.ring).w_idx };
    producer = calls;
    enqueued = t.enqueued ++ y ∷ [];
  }

  -- A step of the consumer, by where it stands.
  unfoldable pub consume : Consumer A → Threads A → Threads A
  consume asks t = record t {
    ring = load_w_idx t.ring;
    consumer = if has_element t.ring then takes else asks;
  }
  consume takes t = record t {
    ring = record (t.ring) { buffer = update ℕ_discrete (t.ring).buffer (t.ring).r_idx none };
    consumer = releases ((t.ring).buffer (t.ring).r_idx);
  }
  consume (releases v) t = record t {
    ring = record (t.ring) { r_idx = next capacity (t.ring).r_idx };
    consumer = asks;
    dequeued = t.dequeued ++ v ∷ [];
  }

  unfoldable pub run : List (Turn A) → Threads A → Threads A
  run [] t = t
  run (producer_with x ∷ turns) t = run turns (produce t.producer x t)
  run (consumer_on ∷ turns) t = run turns (consume t.consumer t)
