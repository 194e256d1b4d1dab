-- ===== src/Log/Worker.antt =====
-- The thread that writes the log, `AsyncWorker::backendThreadFunc` of server/src/base/AeroLog/AsyncWorker.cc.
--
-- A round visits the rings of the threads in turn and takes at most `KMaxPerQueueSize` entries from each.
-- A ring is the list of what `dequeue` returns in a round. `batch` is what stands in the batch buffer below
-- `out`, so `remain` is the rest of its size; every sink gets the same calls, so `written` is what was
-- appended to each. An entry is its bytes, at most 256 of a buffer of 4 MB: the size is a parameter here.
pub mod Rounds
pub mod Rings
pub mod Written
use dpush.Base.{
  ℕ, zero, suc, ◌+◌, ◌-◌, ◌%◌, ◌<◌, List, [], ◌∷◌, ◌++◌, Option, none, some, Bool, true, false, ltb,
  ◌==◌, take, drop, length, get_or, set, if◌then◌else◌, ◌&&◌,
}

abbrev pub Entry : Type 0
Entry = List ℕ

pub record Backend : Type 0 where
  pub batch : List ℕ
  pub current : ℕ
  pub written : List ℕ

pub record LogWorker : Type 0 where
  pub rings : List (List Entry)
  pub round_robin_idx : ℕ
  pub backend : Backend

abbrev pub k_max_per_queue_size : ℕ
k_max_per_queue_size = 128

-- The writes at the end of a round.
unfoldable pub end_round : ℕ → Backend → Backend
end_round processed s =
    if ltb 0 processed && ltb 0 (length s.batch)
    then record s {
      current = s.current + (length s.batch - s.current);
      written = s.written ++ take (length s.batch - s.current) s.batch;
    }
    else s

module _ (size : ℕ) where
  -- The body of the loop on one ring.
  unfoldable pub put_entry : Entry → Backend → Backend
  put_entry entry s =
      if ltb (size - length s.batch) (length entry)
      then record {
        batch = entry;
        current = 0;
        written = s.written ++ take (length s.batch - s.current) s.batch;
      }
      else record s { batch = s.batch ++ entry }

  unfoldable pub put_entries : List Entry → Backend → Backend
  put_entries [] s = s
  put_entries (entry ∷ entries) s = put_entries entries (put_entry entry s)

  -- What the loop on the rings does from the i-th visit on: the worker, and how many entries it took.
  unfoldable pub visit_rings : ℕ → ℕ → LogWorker → LogWorker × ℕ
  visit_rings zero i w = (w, 0)
  visit_rings (suc n) i w =
      let index = (w.round_robin_idx + i) % length w.rings in
      let ring = get_or w.rings index [] in
      let entries = take k_max_per_queue_size ring in
      let visited : LogWorker = record w {
        rings = set w.rings index (drop k_max_per_queue_size ring);
        backend = put_entries entries w.backend;
      } in
      let rest = visit_rings n (suc i) visited in (rest.0, length entries + rest.1)

  unfoldable pub backend_round : LogWorker → LogWorker
  backend_round w =
      if length w.rings == 0
      then w
      else (let (visited, processed) = visit_rings (length w.rings) 0 w in
          record visited {
            round_robin_idx = (w.round_robin_idx + 1) % length w.rings;
            backend = end_round processed visited.backend;
          })

-- RegisterThread: the ring of a thread that logs for the first time comes last.
unfoldable pub register_thread : LogWorker → LogWorker
register_thread w = record w { rings = w.rings ++ [] ∷ [] }
