-- ===== src/Broadcast/Events.antt =====
-- What happens to the ring of a loop: tasks of the loop, and what the kernel does between them.
use dpush.Base.{
  ℕ, zero, suc, ◌+◌, ℤ, pos, negsuc, List, [], ◌∷◌, ◌++◌, Option, none, some, ◌≡◌, Bool, true,
  false, if◌then◌else◌, Text, get_elem?, count, map,
}
use dpush.Broadcast.{
  Sqe, Cqe, prepared, unprepared, Uring, broadcast_in_loop, run_queued, handle_cqes,
}

-- The kernel frees entries, and completes a send that was submitted, in any order. An entry that was not
-- filled holds what its slot held before: its completion can be one of any write.
pub data Event : Type 0 where
  broadcasts : (ℕ → Bool) → List (Option ℕ) → Text → Event
  runs_queued : (ℕ → Bool) → Event
  handles : (ℕ → Bool) → Event
  frees : ℕ → Event
  completes : ℕ → ℤ → Event
  completes_unprepared : ℕ → ℕ → ℤ → Event

abbrev pub remove_at {ℓ} : {A : Type ℓ} → ℕ → List A → List A
remove_at i [] = []
remove_at zero (x ∷ xs) = xs
remove_at (suc i) (x ∷ xs) = x ∷ remove_at i xs

unfoldable pub complete : ℕ → ℤ → Uring → Uring
complete i res u = elim (get_elem? u.submitted i) [
  | none ↦ u
  | some unprepared ↦ u
  | some (prepared send) ↦ record u {
    submitted = remove_at i u.submitted;
    completions = u.completions ++ record { write = send.write; res = res } ∷ [];
  }
]

unfoldable pub complete_unprepared : ℕ → ℕ → ℤ → Uring → Uring
complete_unprepared i p res u = elim (get_elem? u.submitted i) [
  | none ↦ u
  | some (prepared send) ↦ u
  | some unprepared ↦ record u {
    submitted = remove_at i u.submitted;
    completions = u.completions ++ record { write = p; res = res } ∷ [];
  }
]

unfoldable pub step : Event → Uring → Uring
unfolding broadcast_in_loop run_queued handle_cqes complete complete_unprepared
step (broadcasts connected conns message) u = broadcast_in_loop connected conns message u
step (runs_queued connected) u = run_queued connected u
step (handles connected) u = handle_cqes connected u
step (frees n) u = record u { room = u.room + n }
step (completes i res) u = complete i res u
step (completes_unprepared i p res) u = complete_unprepared i p res u

unfoldable pub run : List Event → Uring → Uring
unfolding step
run [] u = u
run (e ∷ es) u = run es (step e u)

-- The writes of the filled entries.
abbrev pub writes_of : List Sqe → List ℕ
writes_of [] = []
writes_of (unprepared ∷ sqes) = writes_of sqes
writes_of (prepared send ∷ sqes) = send.write ∷ writes_of sqes

abbrev pub completed : List Cqe → List ℕ
completed = map (λ cqe. cqe.write)

-- The number of places in which a write stands.
abbrev pub places : ℕ → Uring → ℕ
places p u =
    count p u.free_list
    + (count p (writes_of u.taken)
        + (count p (writes_of u.submitted)
            + (count p u.backlog + count p (completed u.completions))))

-- A send that sent some bytes.
abbrev pub sends : ℤ → Bool
sends (negsuc n) = false
sends (pos zero) = false
sends (pos (suc n)) = true

abbrev pub AllSent : List Cqe → Type 0
AllSent [] = Unit {0}
AllSent (cqe ∷ cqes) = (sends cqe.res ≡ true) × AllSent cqes

unfoldable pub failures : List Cqe → ℕ
failures [] = 0
failures (cqe ∷ cqes) = (if sends cqe.res then 0 else 1) + failures cqes

-- No completion of the run is a failure, or of an entry that was not filled.
abbrev pub AllSucceed : List Event → Type 0
AllSucceed [] = Unit {0}
AllSucceed (completes i res ∷ es) = (sends res ≡ true) × AllSucceed es
AllSucceed (completes_unprepared i p res ∷ es) = false ≡ true
AllSucceed (broadcasts connected conns message ∷ es) = AllSucceed es
AllSucceed (runs_queued connected ∷ es) = AllSucceed es
AllSucceed (handles connected ∷ es) = AllSucceed es
AllSucceed (frees n ∷ es) = AllSucceed es
