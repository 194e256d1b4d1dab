-- ===== src/Log/Worker/Rounds.antt =====
-- What a round of the log's thread writes.
use dpush.Base.{
  ℕ, ◌+◌, ◌-◌, ◌<◌, ◌≤◌, ◌≡◌, refl, sym, ap, ap₂, ◌∙◌, List, [], ◌∷◌, ◌++◌, true, false, ltb, take,
  length, length-append, take_all, append-nil, append_assoc, arith, inl, inr, Bool-cases,
}
use dpush.Log.Worker.{Entry, Backend, put_entry, put_entries, end_round}

abbrev pub bytes : List Entry → List ℕ
bytes [] = []
bytes (entry ∷ entries) = entry ++ bytes entries

-- The round of a thread whose visits took these entries.
abbrev pub write_round : ℕ → List Entry → Backend → Backend
write_round size entries s = end_round (length entries) (put_entries size entries s)

-- Where some entries were taken, the end of a round writes as many bytes as are new, from the start.
end_round-some :
    (n current : ℕ) (batch written : List ℕ)
    → 0 < n
    → end_round n (record { batch = batch; current = current; written = written }) ≡ record {
      batch = batch;
      current = current + (length batch - current);
      written = written ++ take (length batch - current) batch;
    }
unfolding end_round
end_round-some n current [] written some_entry =
    let none_left : 0 - current ≡ 0 = omega arith in
    let stays : current + 0 ≡ current = omega arith in
    rw (none_left, stays, append-nil written) ground arith
end_round-some n current (x ∷ batch) written some_entry =
    let h : ltb 0 n ≡ true = ground (arith, some_entry) in
    let g : ltb 0 (length (x ∷ batch)) ≡ true = ground arith in rw (h, g) refl

abbrev pub fresh : Backend
fresh = record { batch = []; current = 0; written = [] }

module _ (size : ℕ) where
  -- Below `current` nothing of the buffer is still to be written.
  put_entry-all :
      (entry : Entry) (s : Backend)
      → s.current ≡ 0
      → ((put_entry size entry s).written ++ (put_entry size entry s).batch
          ≡ s.written ++ s.batch ++ entry)
        × ((put_entry size entry s).current ≡ 0)
  unfolding put_entry
  put_entry-all entry s e = elim (Bool-cases (ltb (size - length s.batch) (length entry))) [
    | inl f ↦
        let whole : take (length s.batch - s.current) s.batch ≡ s.batch =
          take_all (length s.batch - s.current) s.batch (omega (arith, e)) in
        rw (f, whole) (refl, refl)
    | inr f ↦ rw f (sym (append_assoc s.written s.batch entry), e)
  ]

  put_entries-all :
      (entries : List Entry) (s : Backend)
      → s.current ≡ 0
      → ((put_entries size entries s).written ++ (put_entries size entries s).batch
          ≡ s.written ++ s.batch ++ bytes entries)
        × ((put_entries size entries s).current ≡ 0)
  unfolding put_entries
  put_entries-all [] s e = (sym (append-nil (s.written ++ s.batch)), e)
  put_entries-all (entry ∷ entries) s e =
      let (now, start) = put_entry-all entry s e in
      let (after, still) = put_entries-all entries (put_entry size entry s) start in
      (
        after
            ∙ ap (λ z. z ++ bytes entries) now
            ∙ append_assoc (s.written ++ s.batch) entry (bytes entries),
        still,
      )

  -- While the buffer has room for them, entries are only added to it.
  put_entries-room :
      (entries : List Entry) (s : Backend)
      → length s.batch + length (bytes entries) ≤ size
      → put_entries size entries s ≡ record s { batch = s.batch ++ bytes entries }
  unfolding put_entries put_entry
  put_entries-room [] s h = ap (λ b. record s { batch = b }) (sym (append-nil s.batch))
  put_entries-room (entry ∷ entries) s h =
      let long = length-append entry (bytes entries) in
      let longer = length-append s.batch entry in
      let fits : ltb (size - length s.batch) (length entry) ≡ false = ground (arith, h, long) in
      let next : Backend = record s { batch = s.batch ++ entry } in
      rw fits (
        put_entries-room entries next (omega (arith, h, long, longer))
        ∙ ap (λ b. record s { batch = b }) (append_assoc s.batch entry (bytes entries)))

  pub write_round-first :
      (entries : List Entry) → (write_round size entries fresh).written ≡ bytes entries
  unfolding end_round put_entries
  write_round-first [] = refl
  write_round-first (entry ∷ entries) =
      let s : Backend = put_entries size (entry ∷ entries) fresh in
      let (all, start) = put_entries-all (entry ∷ entries) fresh refl in
      let whole : take (length s.batch - s.current) s.batch ≡ s.batch =
        take_all (length s.batch - s.current) s.batch (omega (arith, start)) in
      ap (λ z. z.written)
        (end_round-some (length (entry ∷ entries)) s.current s.batch s.written (omega arith))
      ∙ ap (λ z. s.written ++ z) whole
      ∙ all

  -- After a first round that took some entries, a second one that takes some whose bytes fit
  -- behind the first's writes as many bytes as it took, but from the start of the buffer, where
  -- those of the first round stand.
  pub write_round-stale :
      (xs ys : List Entry)
      → length (bytes xs) + length (bytes ys) ≤ size
      → 0 < length xs
      → 0 < length ys
      → (write_round size ys (write_round size xs fresh)).written
        ≡ bytes xs ++ take (length (bytes ys)) (bytes xs ++ bytes ys)
  write_round-stale xs ys room some_entry more =
      let b = bytes xs in
      let s : Backend = record { batch = b; current = length b; written = b } in
      let filled : put_entries size xs fresh ≡ record { batch = b; current = 0; written = [] } =
        put_entries-room xs fresh (omega (arith, room)) in
      let whole : take (length b - 0) b ≡ b = take_all (length b - 0) b (omega arith) in
      let ended : write_round size xs fresh ≡ s =
        ap (end_round (length xs)) filled
        ∙ end_round-some (length xs) 0 b [] some_entry
        ∙ ap₂ (λ c z. record { batch = b; current = c; written = z }) (omega arith) whole in
      let left : length (b ++ bytes ys) - length b ≡ length (bytes ys) =
        omega (arith, length-append b (bytes ys)) in
      ap (λ z. (write_round size ys z).written) ended
      ∙ ap (λ z. (end_round (length ys) z).written) (put_entries-room ys s room)
      ∙ ap (λ z. z.written) (end_round-some (length ys) (length b) (b ++ bytes ys) b more)
      ∙ ap (λ n. b ++ take n (b ++ bytes ys)) left
