-- ===== src/Broadcast/Places.antt =====
-- Where the writes of a ring stand.
use dpush.Base.{
  ℕ, ◌-◌, zero, suc, ◌+◌, ℤ, pos, negsuc, ◌≡◌, refl, ap, ◌∙◌, subst, List, [], ◌∷◌, ◌++◌, some,
  Bool, ltb, ◌==◌, if◌then◌else◌, length, get_elem?, drop, count, count-snoc, arith, Bool-cases,
  Option-cases, inl, inr, Nat-cases,
}
use dpush.Broadcast.{
  PendingWrite, Send, Sqe, prepared, unprepared, Cqe, Uring, set_write, release, submit,
  send_remain, send_schedul, handle_cqe, for_each_cqe, send_of, flush_loop, flush_backlog,
  handle_cqes, take_sqe,
}
use dpush.Broadcast.Events.{remove_at, writes_of, completed, places, sends, failures}

abbrev pub one_if : ℕ → ℕ → ℕ
one_if p q = if p == q then 1 else 0

-- The writes in hand came to stand in a place; the pool and the completions are as they were.
pub record Adds (q : ℕ) (more : ℕ) (u u' : Uring) : Type 0 where
  pub placed : places q u' ≡ places q u + more
  pub made : u'.made ≡ u.made
  pub completions : u'.completions ≡ u.completions

pub send_of-write :
    (connected : ℕ → Bool) (p : ℕ) (w : PendingWrite) {send : Send}
    → send_of connected p w ≡ some send
    → send.write ≡ p
unfolding send_of
send_of-write connected p w e = ground (arith, e)

module _ (q : ℕ) where
  pub writes_of-append :
      (xs ys : List Sqe)
      → count q (writes_of (xs ++ ys)) ≡ count q (writes_of xs) + count q (writes_of ys)
  writes_of-append [] ys = omega arith
  writes_of-append (unprepared ∷ xs) ys = writes_of-append xs ys
  writes_of-append (prepared send ∷ xs) ys = omega (arith, writes_of-append xs ys)

  release-Adds : (p : ℕ) (u : Uring) → Adds q (one_if p q) u (release p u)
  unfolding release
  release-Adds p u = ground arith

  send_remain-Adds : (send : Send) (u : Uring) → Adds q (one_if send.write q) u (send_remain send u)
  unfolding send_remain submit
  send_remain-Adds send u = ground (
    arith,
    count-snoc q send.write u.backlog,
    writes_of-append u.submitted u.taken,
    writes_of-append u.taken (prepared send ∷ []),
  )

  pub send_schedul-Adds :
      (connected : ℕ → Bool) (p : ℕ) (u : Uring)
      → Adds q (one_if p q) u (send_schedul connected p u)
  unfolding send_schedul
  send_schedul-Adds connected p u = elim (Option-cases (send_of connected p (u.writes p))) [
    | inl e ↦ rw (e, send_schedul) (release-Adds p u)
    | inr (send, e) ↦ elim (Bool-cases (ltb 0 send.remain)) [
      | inr f ↦ rw (e, send_schedul, f) (release-Adds p u)
      | inl f ↦
          rw (e, send_schedul, f)
            (subst (λ n. Adds q (one_if n q) u (send_remain send u))
              (send_of-write connected p (u.writes p) e) (send_remain-Adds send u))
    ]
  ]

  pub remove_at-count :
      (i : ℕ) (sqes : List Sqe) (send : Send)
      → get_elem? sqes i ≡ some (prepared send)
      → count q (writes_of (remove_at i sqes)) + one_if send.write q ≡ count q (writes_of sqes)
  remove_at-count i [] send e = cc e
  remove_at-count zero (unprepared ∷ sqes) send e = cc e
  remove_at-count zero (prepared other ∷ sqes) send e = ground (arith, e)
  remove_at-count (suc i) (unprepared ∷ sqes) send e = remove_at-count i sqes send e
  remove_at-count (suc i) (prepared other ∷ sqes) send e =
      omega (arith, remove_at-count i sqes send e)

  pub completed-snoc :
      (cqes : List Cqe) (cqe : Cqe)
      → count q (completed (cqes ++ cqe ∷ [])) ≡ count q (completed cqes) + one_if cqe.write q
  completed-snoc [] cqe = omega arith
  completed-snoc (other ∷ cqes) cqe = omega (arith, completed-snoc cqes cqe)

  pub handle_cqe-Adds :
      (connected : ℕ → Bool) (p : ℕ) (res : ℤ) (u : Uring)
      → Adds q (one_if p q) u (handle_cqe connected (record { write = p; res = res }) u).1
  unfolding handle_cqe
  handle_cqe-Adds connected p (negsuc n) u = release-Adds p u
  handle_cqe-Adds connected p (pos zero) u = release-Adds p u
  handle_cqe-Adds connected p (pos (suc n)) u =
      let w = u.writes p in
      let a =
        send_schedul-Adds connected p (set_write p (record w { offset = w.offset + suc n }) u) in
      record { placed = a.placed; made = a.made; completions = a.completions }

  pub for_each_cqe-Adds :
      (connected : ℕ → Bool) (cqes : List Cqe) (u : Uring)
      → Adds q (count q (completed cqes)) u (for_each_cqe connected cqes u).1
  unfolding for_each_cqe
  for_each_cqe-Adds connected [] u = record {
    placed = omega arith;
    made = refl;
    completions = refl;
  }
  for_each_cqe-Adds connected (cqe ∷ cqes) u =
      let u' = (handle_cqe connected cqe u).1 in
      let a = handle_cqe-Adds connected cqe.write cqe.res u in
      let b = for_each_cqe-Adds connected cqes u' in
      record {
        placed = omega (arith, a.placed, b.placed);
        made = b.made ∙ a.made;
        completions = b.completions ∙ a.completions;
      }

  -- The writes of the backlog go to the free list or into entries.
  released :
      (p : ℕ) (ps : List ℕ) (room : ℕ) (u : Uring)
      → Adds q 0
          (record u { backlog = p ∷ ps })
          (record (release p (take_sqe unprepared room u)) { backlog = ps })
  unfolding release
  released p ps room u = record {
    placed = omega (arith, writes_of-append u.taken (unprepared ∷ []));
    made = refl;
    completions = refl;
  }

  sent :
      (p : ℕ) (ps : List ℕ) (room : ℕ) (u : Uring) (send : Send)
      → send.write ≡ p
      → Adds q 0
          (record u { backlog = p ∷ ps })
          (record (take_sqe (prepared send) room u) { backlog = ps })
  sent p ps room u send e = record {
    placed = ground (arith, e, writes_of-append u.taken (prepared send ∷ []));
    made = refl;
    completions = refl;
  }

  Adds-trans : {u u' u'' : Uring} {n : ℕ} → Adds q 0 u u' → Adds q n u' u'' → Adds q n u u''
  Adds-trans a b = record {
    placed = omega (arith, a.placed, b.placed);
    made = b.made ∙ a.made;
    completions = b.completions ∙ a.completions;
  }

  Adds-room :
      (room : ℕ) (ps : List ℕ) (u : Uring) {u' : Uring}
      → Adds q 0 (record u { backlog = ps }) u'
      → Adds q 0 (record u { room = room; backlog = ps }) u'
  Adds-room room ps u a = record { placed = a.placed; made = a.made; completions = a.completions }

  flush_loop-Adds :
      (connected : ℕ → Bool) (ps : List ℕ) (u : Uring)
      → Adds q 0 (record u { backlog = ps }) (flush_loop connected ps u).1
  unfolding flush_loop
  flush_loop-Adds connected [] u = record { placed = omega arith; made = refl; completions = refl }
  flush_loop-Adds connected (p ∷ ps) u = elim (Nat-cases u.room) [
    | inl e ↦ rw (e, flush_loop) (record { placed = omega arith; made = refl; completions = refl })
    | inr (room, e) ↦ elim (Option-cases (send_of connected p (u.writes p))) [
      | inl f ↦
          rw (e, flush_loop, f)
            (Adds-room (suc room) (p ∷ ps) u (
              Adds-trans (released p ps room u)
                (flush_loop-Adds connected ps (release p (take_sqe unprepared room u)))))
      | inr (send, f) ↦
          rw (e, flush_loop, f)
            (Adds-room (suc room) (p ∷ ps) u (
              Adds-trans (sent p ps room u send (send_of-write connected p (u.writes p) f))
                (flush_loop-Adds connected ps (take_sqe (prepared send) room u))))
    ]
  ]

  pub submit-Adds : (u : Uring) → Adds q 0 u (submit u)
  unfolding submit
  submit-Adds u = record {
    placed = omega (arith, writes_of-append u.submitted u.taken);
    made = refl;
    completions = refl;
  }

  pub flush_backlog-Adds :
      (connected : ℕ → Bool) (u : Uring) → Adds q 0 u (flush_backlog connected u)
  unfolding flush_backlog
  flush_backlog-Adds connected u =
      let flushed = flush_loop-Adds connected u.backlog u in
      let u' = (flush_loop connected u.backlog u).1 in
      elim (Bool-cases (ltb 0 (flush_loop connected u.backlog u).0)) [
        | inl e ↦ rw e (Adds-trans flushed (submit-Adds u'))
        | inr e ↦ rw e flushed
      ]

handle_cqe-count :
    (connected : ℕ → Bool) (p : ℕ) (res : ℤ) (u : Uring)
    → (handle_cqe connected (record { write = p; res = res }) u).0 ≡ (if sends res then 1 else 0)
unfolding handle_cqe
handle_cqe-count connected p (negsuc n) u = refl
handle_cqe-count connected p (pos zero) u = refl
handle_cqe-count connected p (pos (suc n)) u = refl

pub for_each_cqe-failures :
    (connected : ℕ → Bool) (cqes : List Cqe) (u : Uring)
    → (for_each_cqe connected cqes u).0 + failures cqes ≡ length cqes
unfolding for_each_cqe failures
for_each_cqe-failures connected [] u = omega arith
for_each_cqe-failures connected (cqe ∷ cqes) u = ground (
  arith,
  handle_cqe-count connected cqe.write cqe.res u,
  for_each_cqe-failures connected cqes (handle_cqe connected cqe u).1,
)

-- The completions that handleCqes does not free are as many as have failed, and the last of those that it
-- has seen; the writes of these then stand in one place more than before.
pub handle_cqes-left :
    (connected : ℕ → Bool) (u : Uring)
    → ((handle_cqes connected u).completions
        ≡ drop (length u.completions - failures u.completions) u.completions)
      × ((p : ℕ)
          → places p (handle_cqes connected u)
            ≡ places p u + count p (completed (handle_cqes connected u).completions))
unfolding handle_cqes
handle_cqes-left connected u =
    let cqes = u.completions in
    let done = (for_each_cqe connected cqes u).0 in
    let u' = (for_each_cqe connected cqes u).1 in
    let left = record u' { completions = drop done u'.completions } in
    let some_done = for_each_cqe-failures connected cqes u in
    let kept : u'.completions ≡ cqes = (for_each_cqe-Adds 0 connected cqes u).completions in
    let flushed : (handle_cqes connected u).completions ≡ drop done cqes =
      (flush_backlog-Adds 0 connected left).completions ∙ ap (drop done) kept in
    (
      flushed ∙ ap (λ (n : ℕ). drop n cqes) (omega (arith, some_done)),
      λ p.
          let first = (for_each_cqe-Adds p connected cqes u).placed in
          let last = (flush_backlog-Adds p connected left).placed in
          let old : count p (completed u'.completions) ≡ count p (completed cqes) =
            ap (λ l. count p (completed l)) kept in
          let now : count p (completed (drop done u'.completions))
              ≡ count p (completed (drop done cqes)) =
            ap (λ l. count p (completed (drop done l))) kept in
          let end : count p (completed (handle_cqes connected u).completions)
              ≡ count p (completed (drop done cqes)) =
            ap (λ l. count p (completed l)) flushed in
          omega (arith, first, last, old, now, end),
    )

pub handle_cqes-made : (connected : ℕ → Bool) (u : Uring) → (handle_cqes connected u).made ≡ u.made
unfolding handle_cqes
handle_cqes-made connected u =
    let u' = (for_each_cqe connected u.completions u).1 in
    let left = record u' {
      completions = drop (for_each_cqe connected u.completions u).0 u'.completions;
    } in
    (flush_backlog-Adds 0 connected left).made
    ∙ (for_each_cqe-Adds 0 connected u.completions u).made
