-- ===== src/Chat/History/Pages.antt =====
-- The pages of a session's history that one user asks for, while the session goes on.
use dpush.Base.{
  ℕ, zero, suc, ◌+◌, ◌*◌, ◌<◌, ◌≡◌, sym, ap, ap₂, subst, ◌∙◌, List, [], ◌∷◌, ◌++◌, append_assoc,
  none, some, take, drop, take-append-drop, length-take, length, Text, arith, inl, inr, List-cases,
}
use dpush.Chat.Keys.{message_persist_key}
use dpush.Chat.History.{
  StreamEntry, older, Streams, StoredMessage, Message, messages_of, last_entry, move_cursor,
  get_history_message,
}
use dpush.Chat.History.Entries.{
  AreAbove, AreBelow, AreSorted, older-AreAbove, older-AreBelow, AreAbove-append, AreAbove-lower,
  last_entry-cut, last_entry-below, messages_of-append, take_add, new-AreAbove,
}

module _ {S : Type 0} (streams : Streams S) (decode : Text → StoredMessage) (userid roomid : Text)
    (count : ℕ) where
  abbrev pub stream : S → List StreamEntry
  stream s = streams.entries (message_persist_key roomid) s

  abbrev pub request : S → S
  request s = (get_history_message streams decode userid roomid count s).1

  abbrev pub answer : S → List Message
  answer s = (get_history_message streams decode userid roomid count s).0.messages

  -- What other tasks do between two requests: entries are added, and the cursor stays.
  abbrev pub Grows : S → S → Type 0
  Grows s t =
      (streams.hget userid roomid t ≡ streams.hget userid roomid s)
      × ((new : List StreamEntry) × ((stream t ≡ new ++ stream s) × AreSorted (stream t)))

  -- The requests of the user, and the answers to them one behind the other.
  abbrev pub answers : (ℕ → S → S) → ℕ → S → List Message
  answers between zero s = []
  answers between (suc n) s = answer s ++ answers between n (between n (request s))

  -- The cursor stands behind `front`, which is not empty.
  record StandsAt (s : S) (rest : List StreamEntry) : Type 0 where
    id : ℕ
    first : StreamEntry
    front : List StreamEntry
    cursor : streams.hget userid roomid s ≡ some id
    split : stream s ≡ first ∷ front ++ rest
    above : AreAbove id (first ∷ front)
    below : AreBelow id rest
    sorted : AreSorted rest
    whole : AreSorted (stream s)

  answer-older :
      (s : S)
      → answer s ≡ messages_of decode (take count (older (streams.hget userid roomid s) (stream s)))
  unfolding get_history_message
  answer-older s =
      ap (messages_of decode) (
        streams.xrevrange_answer (message_persist_key roomid) (streams.hget userid roomid s) count
          s)

  request-older :
      (s : S) (page : List StreamEntry)
      → take count (older (streams.hget userid roomid s) (stream s)) ≡ page
      → request s ≡ move_cursor streams userid roomid page s
  unfolding get_history_message
  request-older s page e =
      ap (λ es. move_cursor streams userid roomid es s)
        (streams.xrevrange_answer (message_persist_key roomid) (streams.hget userid roomid s) count
            s
          ∙ e)

  moved-StandsAt :
      (s : S) (front : List StreamEntry) (e : StreamEntry) (es tail : List StreamEntry)
      → stream s ≡ front ++ e ∷ es ++ tail
      → AreAbove (last_entry e es) front
      → AreSorted (e ∷ es ++ tail)
      → AreSorted (stream s)
      → StandsAt (move_cursor streams userid roomid (e ∷ es) s) tail
  unfolding move_cursor
  moved-StandsAt s [] e es tail split high sorted whole =
      let (above, (below, rest_sorted)) = last_entry-cut e es tail sorted in
      record {
        id = last_entry e es;
        first = e;
        front = es;
        cursor = streams.hset_hget userid roomid (last_entry e es) s;
        split =
            streams.hset_entries userid roomid (last_entry e es) s (message_persist_key roomid)
            ∙ split;
        above = above;
        below = below;
        sorted = rest_sorted;
        whole =
            subst AreSorted
              (sym (
                streams.hset_entries userid roomid (last_entry e es) s
                  (message_persist_key roomid)))
              whole;
      }
  moved-StandsAt s (f ∷ front) e es tail split high sorted whole =
      let (above, (below, rest_sorted)) = last_entry-cut e es tail sorted in
      record {
        id = last_entry e es;
        first = f;
        front = front ++ e ∷ es;
        cursor = streams.hset_hget userid roomid (last_entry e es) s;
        split =
            streams.hset_entries userid roomid (last_entry e es) s (message_persist_key roomid)
            ∙ split;
        above = AreAbove-append (last_entry e es) (f ∷ front) (e ∷ es) high above;
        below = below;
        sorted = rest_sorted;
        whole =
            subst AreSorted
              (sym (
                streams.hset_entries userid roomid (last_entry e es) s
                  (message_persist_key roomid)))
              whole;
      }

  StandsAt-older :
      (s : S) (rest : List StreamEntry) (h : StandsAt s rest)
      → older (streams.hget userid roomid s) (stream s) ≡ rest
  StandsAt-older s rest h =
      ap₂ older h.cursor h.split
      ∙ older-AreAbove h.id (h.first ∷ h.front) rest h.above
      ∙ older-AreBelow h.id rest h.below

  StandsAt-Grows :
      (s t : S) (rest : List StreamEntry) → StandsAt s rest → Grows s t → StandsAt t rest
  StandsAt-Grows s t rest h (same, ([], (split, sorted))) = record {
    id = h.id;
    first = h.first;
    front = h.front;
    cursor = same ∙ h.cursor;
    split = split ∙ h.split;
    above = h.above;
    below = h.below;
    sorted = h.sorted;
    whole = sorted;
  }
  StandsAt-Grows s t rest h (same, (x ∷ new, (split, sorted))) =
      let joined = split ∙ ap (λ es. x ∷ new ++ es) h.split in
      let high : AreAbove h.id (x ∷ new) =
        new-AreAbove h.id (x ∷ new) h.first (h.front ++ rest) (subst AreSorted joined sorted)
          h.above.0 in
      record {
        id = h.id;
        first = x;
        front = new ++ h.first ∷ h.front;
        cursor = same ∙ h.cursor;
        split = joined ∙ sym (append_assoc (x ∷ new) (h.first ∷ h.front) rest);
        above = AreAbove-append h.id (x ∷ new) (h.first ∷ h.front) high h.above;
        below = h.below;
        sorted = h.sorted;
        whole = sorted;
      }

  -- A request moves the cursor behind its page.
  request-page :
      (s : S) (page tail : List StreamEntry)
      → take count (older (streams.hget userid roomid s) (stream s)) ≡ page
      → StandsAt s (page ++ tail)
      → StandsAt (request s) tail
  unfolding move_cursor
  request-page s [] tail e h = subst (λ t. StandsAt t tail) (sym (request-older s [] e)) h
  request-page s (x ∷ es) tail e h =
      let lower = last_entry-below h.id x es tail h.below in
      let high =
        AreAbove-lower h.id (last_entry x es) (h.first ∷ h.front) (omega (arith, lower)) h.above in
      let split = h.split ∙ sym (append_assoc (h.first ∷ h.front) (x ∷ es) tail) in
      subst (λ t. StandsAt t tail) (sym (request-older s (x ∷ es) e))
        (moved-StandsAt s (h.first ∷ h.front) x es tail split high h.sorted h.whole)

  no_pages : (rest : List StreamEntry) → [] ≡ messages_of decode (take (0 * count) rest)
  no_pages rest =
      let nothing : 0 ≡ 0 * count = omega arith in
      ap (λ k. messages_of decode (take k rest)) nothing

  pages_join :
      (n : ℕ) (rest : List StreamEntry)
      → messages_of decode (take count rest)
          ++ messages_of decode (take (n * count) (drop count rest))
        ≡ messages_of decode (take (suc n * count) rest)
  pages_join n rest =
      let shift : count + n * count ≡ suc n * count = omega arith in
      sym (messages_of-append decode (take count rest) (take (n * count) (drop count rest)))
      ∙ ap (messages_of decode) (sym (take_add count (n * count) rest))
      ∙ ap (λ k. messages_of decode (take k rest)) shift

  -- The first request, whose page is not empty.
  first-StandsAt :
      (s : S)
      → 0 < count
      → 0 < length (stream s)
      → streams.hget userid roomid s ≡ none
      → AreSorted (stream s)
      → StandsAt (request s) (drop count (stream s))
  first-StandsAt s some_count some_entry start sorted =
      let all = stream s in
      let tail = drop count all in
      let its : take count (older (streams.hget userid roomid s) all) ≡ take count all =
        ap (λ c. take count (older c all)) start in
      elim (List-cases (take count all)) [
        | inl e ↦ absurd (omega (arith, ap length e, length-take count all, some_count, some_entry))
        | inr (x, (es, e)) ↦
            let split : all ≡ x ∷ es ++ tail =
              sym (take-append-drop count all) ∙ ap (λ p. p ++ tail) e in
            subst (λ t. StandsAt t tail) (sym (request-older s (x ∷ es) (its ∙ e)))
              (moved-StandsAt s [] x es tail split tt (subst AreSorted split sorted) sorted)
      ]

  answers-StandsAt :
      (between : ℕ → S → S) (n : ℕ) (s : S) (rest : List StreamEntry)
      → ((k : ℕ) (t : S) → AreSorted (stream t) → Grows t (between k t))
      → StandsAt s rest
      → answers between n s ≡ messages_of decode (take (n * count) rest)
  answers-StandsAt between zero s rest grows h = no_pages rest
  answers-StandsAt between (suc n) s rest grows h =
      let page = take count rest in
      let tail = drop count rest in
      let its : take count (older (streams.hget userid roomid s) (stream s)) ≡ page =
        ap (take count) (StandsAt-older s rest h) in
      let cut : StandsAt s (page ++ tail) =
        subst (StandsAt s) (sym (take-append-drop count rest)) h in
      let moved = request-page s page tail its cut in
      let later = answers-StandsAt between n (between n (request s)) tail grows (
        StandsAt-Grows (request s) (between n (request s)) tail moved
          (grows n (request s) moved.whole)) in
      ap₂ (λ x y. x ++ y) (answer-older s ∙ ap (messages_of decode) its) later ∙ pages_join n rest

  -- A user without a cursor who asks for one page after another gets the messages that stood in
  -- the session at the first request, the newest first, each once, as many as the pages hold in
  -- all. The session has messages, its entries stand with the newest first, a page holds one or
  -- more, and between two requests entries are only added and the cursor stays.
  pub answers-entries :
      (between : ℕ → S → S) (n : ℕ) (s : S)
      → 0 < count
      → 0 < length (stream s)
      → streams.hget userid roomid s ≡ none
      → AreSorted (stream s)
      → ((k : ℕ) (t : S) → AreSorted (stream t) → Grows t (between k t))
      → answers between n s ≡ messages_of decode (take (n * count) (stream s))
  answers-entries between zero s some_count some_entry start sorted grows = no_pages (stream s)
  answers-entries between (suc n) s some_count some_entry start sorted grows =
      let all = stream s in
      let page = take count all in
      let tail = drop count all in
      let its : take count (older (streams.hget userid roomid s) all) ≡ page =
        ap (λ c. take count (older c all)) start in
      let moved = first-StandsAt s some_count some_entry start sorted in
      let later = answers-StandsAt between n (between n (request s)) tail grows (
        StandsAt-Grows (request s) (between n (request s)) tail moved
          (grows n (request s) moved.whole)) in
      ap₂ (λ x y. x ++ y) (answer-older s ∙ ap (messages_of decode) its) later ∙ pages_join n all
