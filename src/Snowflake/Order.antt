-- ===== src/Snowflake/Order.antt =====
-- The ids of one worker increase, those of two workers differ.
use dpush.Base.{
  ℕ, ◌+◌, ◌-◌, ◌*◌, ◌/◌, ◌%◌, subst, ◌^◌, ◌≤◌, ◌<◌, ◌≡◌, ◌≢◌, refl, sym, ◌∙◌, List, [], ◌∷◌, ◌++◌,
  Option, none, some, ltb, ◌==◌, arith, inl, inr, Bool-cases, Option-cases, true,
}
use dpush.Snowflake.{
  Worker, epoch, issued, clock_moved_backwards, still_waiting, til_next_millis, id_of, issue,
  next_id,
}

-- The clock stands at the epoch or less than 2 ^ 41 milliseconds, 69 years, past it.
abbrev pub IsTime : ℕ → Type 0
IsTime t = (epoch ≤ t) × (t < epoch + 2 ^ 41)

abbrev pub AreTimes : List ℕ → Type 0
AreTimes [] = Unit {0}
AreTimes (t ∷ ts) = IsTime t × AreTimes ts

abbrev pub LastIsTime : Option ℕ → Type 0
LastIsTime none = Unit {0}
LastIsTime (some t) = IsTime t

pub record IsWorker (w : Worker) : Type 0 where
  pub worker_small : w.worker_id < 2 ^ 10
  pub sequence_small : w.sequence < 2 ^ 12
  pub last_time : LastIsTime w.last_timestamp

-- The number below which the ids so far lie.
abbrev pub next_above : Worker → ℕ
next_above w = elim w.last_timestamp [ none ↦ 0 | some t ↦ id_of t w.worker_id w.sequence + 1 ]

id_of_small :
    (t worker_id sequence : ℕ)
    → IsTime t
    → id_of t worker_id sequence ≡ (t - epoch) * 2 ^ 22 + worker_id * 2 ^ 12 + sequence
unfolding id_of
id_of_small t worker_id sequence time = omega (arith, time.0, time.1)

til_next_millis_lem :
    (last later : ℕ) (ts : List ℕ)
    → AreTimes ts
    → til_next_millis last ts ≡ some later
    → (last < later) × IsTime later
unfolding til_next_millis
til_next_millis_lem last later [] h e = ground arith
til_next_millis_lem last later (t ∷ ts) h e = ground (arith, til_next_millis_lem last later ts h.1)

-- A later timestamp, or the same with a greater sequence number, gives a greater id.
later-le :
    (w : Worker) (last t sequence : ℕ)
    → IsWorker w
    → w.last_timestamp ≡ some last
    → IsTime last
    → IsTime t
    → last < t
    → next_above w ≤ id_of t w.worker_id sequence
unfolding id_of
later-le w last t sequence h e past time later =
    rw (e, id_of_small last w.worker_id w.sequence past, id_of_small t w.worker_id sequence time)
      (omega (arith, h.worker_small, h.sequence_small, past.0, later))

same-le :
    (w : Worker) (last sequence : ℕ)
    → IsWorker w
    → w.last_timestamp ≡ some last
    → w.sequence < sequence
    → next_above w ≤ id_of last w.worker_id sequence
unfolding id_of
same-le w last sequence h e greater = rw e (omega arith)

-- The three ways of a call to an id.
data Way (w : Worker) (ts : List ℕ) : Type 0 where
  way :
      (t sequence : ℕ)
      → IsTime t
      → sequence < 2 ^ 12
      → next_above w ≤ id_of t w.worker_id sequence
      → next_id ts w ≡ issue t sequence w
      → Way w ts

data Course (w : Worker) (ts : List ℕ) : Type 0 where
  gives : Way w ts → Course w ts
  goes_back : next_id ts w ≡ clock_moved_backwards w → Course w ts
  waits : next_id ts w ≡ still_waiting → Course w ts

repeated :
    (w : Worker) (t : ℕ) (ts : List ℕ) (last : ℕ)
    → IsWorker w
    → AreTimes ts
    → IsTime last
    → w.last_timestamp ≡ some last
    → (last == t) ≡ true
    → Course w (t ∷ ts)
unfolding next_id
repeated w t ts last h p past e same = elim (Bool-cases ((w.sequence + 1) % 4096 == 0)) [
  | inl over ↦ elim (Option-cases (til_next_millis last ts)) [
    | inl f ↦ waits (ground (arith, e))
    | inr (later, f) ↦
        let (after, far) = til_next_millis_lem last later ts p f in
        gives (
          way later 0 far (omega arith) (later-le w last later 0 h e past far after)
            (ground (arith, e)))
  ]
  | inr more ↦
      let small : w.sequence < 4096 = h.sequence_small in
      let this : t ≡ last = ground (arith, same) in
      gives (
        way t ((w.sequence + 1) % 4096) (rw this past) (omega arith)
          (rw this (same-le w last ((w.sequence + 1) % 4096) h e (ground (arith, small))))
          (ground (arith, e)))
]

next_id-Course : (w : Worker) (ts : List ℕ) → IsWorker w → AreTimes ts → Course w ts
unfolding next_id
next_id-Course w [] h p = waits refl
next_id-Course w (t ∷ ts) h p = elim (Option-cases w.last_timestamp) [
  | inl e ↦ gives (way t 0 p.0 (omega arith) (rw e (omega arith)) (rw e refl))
  | inr (last, e) ↦
      let past : IsTime last = subst LastIsTime e h.last_time in
      elim (Bool-cases (ltb t last)) [
        | inl back ↦ goes_back (ground (arith, e))
        | inr on ↦ elim (Bool-cases (last == t)) [
          | inl same ↦ repeated w t ts last h p.1 past e same
          | inr other ↦ gives (
              way t 0 p.0 (omega arith) (later-le w last t 0 h e past p.0 (ground arith))
                (ground (arith, e)))
        ]
      ]
]

-- The ids of successive calls of one worker, each with its own readings of the clock; a call that
-- throws gives none, and one that goes on waiting is the last.
abbrev pub ids : List (List ℕ) → Worker → List ℕ
ids [] w = []
ids (ts ∷ calls) w = elim (next_id ts w) [
  | issued id w' ↦ id ∷ ids calls w'
  | clock_moved_backwards w' ↦ ids calls w'
  | still_waiting ↦ []
]

-- Every number is at least the bound and no negative int64_t, and each is above the one before it.
abbrev pub IncreaseFrom : ℕ → List ℕ → Type 0
IncreaseFrom n [] = Unit {0}
IncreaseFrom n (x ∷ xs) = (n ≤ x) × ((x < 2 ^ 63) × IncreaseFrom (x + 1) xs)

abbrev pub AllTimes : List (List ℕ) → Type 0
AllTimes [] = Unit {0}
AllTimes (ts ∷ calls) = AreTimes ts × AllTimes calls

-- The ids of a worker are not negative and strictly increasing, over every sequence of calls and every
-- behaviour of a clock that stands past the epoch by less than 2 ^ 41 milliseconds, calls that throw
-- included; so no id is given twice.
pub ids-IncreaseFrom :
    (calls : List (List ℕ)) (w : Worker)
    → IsWorker w
    → AllTimes calls
    → IncreaseFrom (next_above w) (ids calls w)
unfolding issue
ids-IncreaseFrom [] w h p = tt
ids-IncreaseFrom (ts ∷ calls) w h p = elim (next_id-Course w ts h p.0) [
  | gives (way t sequence past small above e) ↦
      let w' : Worker = record w { sequence = sequence; last_timestamp = some t } in
      let h' : IsWorker w' = record {
        worker_small = h.worker_small;
        sequence_small = small;
        last_time = past;
      } in
      let fits : id_of t w.worker_id sequence < 2 ^ 63 =
        omega
          (arith, id_of_small t w.worker_id sequence past, past.0, past.1, small, h.worker_small) in
      rw (e, ids) (above, (fits, ids-IncreaseFrom calls w' h' p.1))
  | goes_back e ↦ rw (e, ids) (ids-IncreaseFrom calls w h p.1)
  | waits e ↦ rw (e, ids) tt
]

worker_field :
    (w w' : Worker) (ts : List ℕ) (id : ℕ)
    → IsWorker w
    → AreTimes ts
    → next_id ts w ≡ issued id w'
    → (id / 2 ^ 12) % 2 ^ 10 ≡ w.worker_id
unfolding issue
worker_field w w' ts id h p e = elim (next_id-Course w ts h p) [
  | gives (way t sequence past small above f) ↦
      let same : issue t sequence w ≡ issued id w' = sym f ∙ e in
      let this : id ≡ id_of t w.worker_id sequence = ground (arith, same) in
      let plain = id_of_small t w.worker_id sequence past in
      omega (arith, this, plain, h.worker_small)
  | goes_back f ↦ ground (arith, f, e)
  | waits f ↦ ground (arith, f, e)
]

-- Two workers with different worker ids below 2 ^ 10 never give the same id while their clocks stand
-- past the epoch by less than 2 ^ 41 milliseconds.
pub next_id-ne :
    (w v w' v' : Worker) (ts us : List ℕ) (i j : ℕ)
    → IsWorker w
    → IsWorker v
    → AreTimes ts
    → AreTimes us
    → w.worker_id ≢ v.worker_id
    → next_id ts w ≡ issued i w'
    → next_id us v ≡ issued j v'
    → i ≢ j
next_id-ne w v w' v' ts us i j h k p q other e f same =
    other (sym (worker_field w w' ts i h p e) ∙ rw same (worker_field v v' us j k q f))

til_next_millis-ne :
    (last later : ℕ) (ts rest : List ℕ)
    → last < later
    → til_next_millis last (ts ++ later ∷ rest) ≢ none
unfolding til_next_millis
til_next_millis-ne last later [] rest h e = ground arith
til_next_millis-ne last later (t ∷ ts) rest h e =
    ground (arith, til_next_millis-ne last later ts rest h)

-- A call returns or throws as soon as the clock has moved past the time of the last id: it goes on
-- waiting only while no such reading comes.
next_id-ne-still_waiting :
    (w : Worker) (last t later : ℕ) (ts rest : List ℕ)
    → w.last_timestamp ≡ some last
    → last < later
    → next_id (t ∷ ts ++ later ∷ rest) w ≢ still_waiting
unfolding next_id issue
next_id-ne-still_waiting w last t later ts rest e h f =
    ground (arith, e, til_next_millis-ne last later ts rest h)
