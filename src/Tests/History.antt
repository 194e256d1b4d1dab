-- ===== src/Tests/History.antt =====
-- The pages of a session to which a message is added between any two requests.
use dpush.Base.{
  c_str, ℕ, ◌+◌, ◌<◌, ◌≡◌, refl, pos, List, [], ◌∷◌, Option, none, some, true, ◌&&◌, Text, text_eq,
  text_eq_refl, take, codes, arith, if◌then◌else◌,
}
use dpush.Chat.History.{
  StreamEntry, Streams, StoredMessage, Message, older, newer, reverse, messages_of, move_cursor,
  get_history_message, clear_cursors, pull_message,
}
use dpush.Chat.History.Entries.{AreBelow, AreSorted}
use dpush.Chat.History.Pages.{Grows, answers, answers-entries}

program : Unit {0}
unfolding text_eq c_str move_cursor get_history_message clear_cursors pull_message
program = tt

-- One stream, and the cursors of all users.
record Kept : Type 0 where
  entries : List StreamEntry
  cursors : Text → Text → Option ℕ

kept_cursor :
    (key field : Text) (n : ℕ) (cursors : Text → Text → Option ℕ)
    → (if text_eq key key && text_eq field field then some n else cursors key field) ≡ some n
kept_cursor key field n cursors = ground (arith, text_eq_refl key, text_eq_refl field)

dropped :
    (key field : Text) (cursors : Text → Text → Option ℕ)
    → (if text_eq key key then none else cursors key field) ≡ none
dropped key field cursors = ground (arith, text_eq_refl key)

abbrev kept : Streams Kept
kept = record {
  xrevrange = λ key below count s. take count (older below s.entries);
  xrange = λ key above count s. take count (newer above (reverse s.entries));
  hset = λ key field n s. record s {
    cursors = λ k f. if text_eq key k && text_eq field f then some n else s.cursors k f;
  };
  del = λ key s. record s { cursors = λ k f. if text_eq key k then none else s.cursors k f };
  hget = λ key field s. s.cursors key field;
  entries = λ key s. s.entries;
  xrevrange_answer = λ key below count s. refl;
  xrange_answer = λ key above count s. refl;
  hset_hget = λ key field n s. kept_cursor key field n s.cursors;
  hset_entries = λ key field n s stream. refl;
  del_hget = λ key field s. dropped key field s.cursors;
}

abbrev read : Text → StoredMessage
read text = record { content = text; timestamp = 0; user_id = pos 7; username = codes "ann" }

abbrev next_id : List StreamEntry → ℕ
next_id [] = 0
next_id (e ∷ entries) = e.id + 1

abbrev added : Kept → Kept
added s = record s {
  entries = record { id = next_id s.entries; fields = codes "new" ∷ [] } ∷ s.entries;
}

AreBelow-raise :
    (n m : ℕ) (entries : List StreamEntry) → n < m → AreBelow n entries → AreBelow m entries
AreBelow-raise n m [] more h = tt
AreBelow-raise n m (e ∷ entries) more (below, h) =
    (omega (arith, below, more), AreBelow-raise n m entries more h)

next_id-AreBelow :
    (entries : List StreamEntry) → AreSorted entries → AreBelow (next_id entries) entries
next_id-AreBelow [] h = tt
next_id-AreBelow (e ∷ entries) (below, h) =
    (omega arith, AreBelow-raise e.id (e.id + 1) entries (omega arith) below)

added-Grows :
    (k : ℕ) (t : Kept) → AreSorted t.entries → Grows kept read (codes "7") (codes "r") 2 t (added t)
added-Grows k t h = (
  refl,
  (
    record { id = next_id t.entries; fields = codes "new" ∷ [] } ∷ [],
    (refl, (next_id-AreBelow t.entries h, h)),
  ),
)

abbrev entry : ℕ → Text → StreamEntry
entry id text = record { id = id; fields = text ∷ [] }

abbrev three : Kept
three = record {
  entries = entry 9 (codes "c") ∷ entry 5 (codes "b") ∷ entry 2 (codes "a") ∷ [];
  cursors = λ key field. none;
}

abbrev contents : List Message → List Text
contents [] = []
contents (m ∷ ms) = (m.stored).content ∷ contents ms

two_pages :
    contents (answers kept read (codes "7") (codes "r") 2 (λ k. added) 2 three)
    ≡ codes "c" ∷ codes "b" ∷ codes "a" ∷ []
unfolding program
two_pages = refl

-- a full page says that there is more, also when it is the last
last_page : (get_history_message kept read (codes "7") (codes "r") 3 three).0.has_more ≡ true
unfolding program
last_page = refl

cleared : (clear_cursors kept (pos 7) three).entries ≡ three.entries
unfolding program
cleared = refl

pulled :
    pull_message kept (codes "r") (pos 2) three ≡ entry 5 (codes "b") ∷ entry 9 (codes "c") ∷ []
unfolding program
pulled = refl

answers-entries_example :
    answers kept read (codes "7") (codes "r") 2 (λ k. added) 2 three
    ≡ messages_of read (take 4 three.entries)
answers-entries_example =
    answers-entries kept read (codes "7") (codes "r") 2 (λ k. added) 2 three (omega arith)
      (omega arith) refl ((omega arith, (omega arith, tt)), ((omega arith, tt), (tt, tt)))
      added-Grows
