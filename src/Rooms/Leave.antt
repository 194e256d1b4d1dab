-- ===== src/Rooms/Leave.antt =====
-- A session that closes leaves every room of its loop, and nobody else does.
use dpush.Base.{
  ℕ, zero, suc, ◌-◌, ◌<◌, ℤ, pos, negsuc, ◌≡◌, ◌≢◌, refl, sym, ap, ◌∙◌, List, [], ◌∷◌, Option, none,
  some, Bool, true, false, Text, text_dec, length, get_elem?, inl, inr, arith, Option-cases, map,
  not, ◌&&◌, contains, ◌↔◌,
}
use dpush.Rooms.{
  Loop, Joined, index_of, members, leave_room, leave_rooms, close_session, erase_conn, take_out,
}
use dpush.Rooms.Swap.{back-some, get_elem?-swap}
use dpush.Rooms.Index.{IsIndexed, index_in, members-leave, index_in-leave}

get_elem?-lt : (xs : List ℕ) (i : ℕ) {x : ℕ} → get_elem? xs i ≡ some x → i < length xs
get_elem?-lt [] i e = cc
get_elem?-lt (x ∷ xs) zero e = omega arith
get_elem?-lt (x ∷ xs) (suc i) e = omega (arith, get_elem?-lt xs i e)

-- With a negative index the lists and the maps stay.
members-leave_negative :
    (session : ℕ) (q r : Text) (n : ℕ) (l : Loop)
    → members (leave_room session q (negsuc n) l).0 r ≡ members l r
unfolding leave_room take_out
members-leave_negative session q r n l = ground arith

index_in-leave_negative :
    (session : ℕ) (q r : Text) (n : ℕ) (l : Loop) (s : ℕ)
    → index_in (leave_room session q (negsuc n) l).0 s r ≡ index_in l s r
unfolding leave_room take_out
index_in-leave_negative session q r n l s = ground arith

-- What a leave from the place n does, in terms of places and indices alone.
module _ (session : ℕ) (q : Text) (n : ℕ) (l : Loop) (h : IsIndexed l)
    (at_n : index_in l session q ≡ some (pos n)) where
  inside : n < length (members l q)
  inside = get_elem?-lt (members l q) n (h.present q n session at_n)

  leave_pos-IsIndexed : IsIndexed (leave_room session q (pos n) l).0
  leave_pos-IsIndexed =
      let (last, end, top) = back-some (members l q) n inside in
      record {
        placed = λ r i s e. ground (
          arith,
          members-leave session q n last l inside end r,
          index_in-leave session q n last l inside end s r,
          get_elem?-swap (members l q) n last i inside,
          h.placed r i s,
          h.placed q i s,
          h.placed q (length (members l q) - 1) last top,
          at_n,
        );
        present = λ r i s e. ground (
          arith,
          members-leave session q n last l inside end r,
          index_in-leave session q n last l inside end s r,
          get_elem?-swap (members l q) n last i inside,
          h.present r i s,
          h.present q i s,
          h.present q n session at_n,
          get_elem?-lt (members l q) i {x = s},
          h.placed q (length (members l q) - 1) last top,
          top,
          inside,
          at_n,
        );
      }

-- A session is in a room if it stands somewhere in the list.
abbrev pub IsIn : Loop → ℕ → Text → Type 0
IsIn l s r = (i : ℕ) × (get_elem? (members l r) i ≡ some s)

-- By the index: whether it is a place.
abbrev is_place : Option ℤ → Bool
is_place none = false
is_place (some (pos n)) = true
is_place (some (negsuc n)) = false

place-eq : (o : Option ℤ) → is_place o ≡ true → (i : ℕ) × (o ≡ some (pos i))
place-eq none e = absurd (cc e)
place-eq (some (pos n)) e = (n, refl)
place-eq (some (negsuc n)) e = absurd (cc e)

IsIn-of_place :
    (l : Loop) (s : ℕ) (r : Text) → IsIndexed l → is_place (index_in l s r) ≡ true → IsIn l s r
IsIn-of_place l s r h e = let (i, p) = place-eq (index_in l s r) e in (i, h.present r i s p)

is_place-IsIn :
    (l : Loop) (s : ℕ) (r : Text) → IsIndexed l → IsIn l s r → is_place (index_in l s r) ≡ true
is_place-IsIn l s r h (i, e) = rw (h.placed r i s e)

-- What holds after leaving the room q, by the index that the session had.
record Left (session : ℕ) (q : Text) (l l' : Loop) : Type 0 where
  indexed : IsIndexed l'
  out : is_place (index_in l' session q) ≡ false
  others_rooms : (r : Text) → q ≢ r → index_in l' session r ≡ index_in l session r
  others : (s : ℕ) (r : Text) → session ≢ s → is_place (index_in l' s r) ≡ is_place (index_in l s r)

leave_room-Left :
    (session : ℕ) (q : Text) (index : ℤ) (l : Loop)
    → IsIndexed l
    → index_in l session q ≡ some index
    → Left session q l (leave_room session q index l).0
leave_room-Left session q (negsuc n) l h e = record {
  indexed = record {
    placed = λ r i s g. ground (
      arith,
      h.placed r i s,
      members-leave_negative session q r n l,
      index_in-leave_negative session q r n l s,
    );
    present = λ r i s g. ground (
      arith,
      h.present r i s,
      members-leave_negative session q r n l,
      index_in-leave_negative session q r n l s,
    );
  };
  out = rw (index_in-leave_negative session q q n l session, e);
  others_rooms = λ r ne. index_in-leave_negative session q r n l session;
  others = λ s r ne. rw (index_in-leave_negative session q r n l s);
}
leave_room-Left session q (pos n) l h e =
    let (last, end, top) = back-some (members l q) n (inside session q n l h e) in
    let after = index_in-leave session q n last l (inside session q n l h e) end in
    record {
      indexed = leave_pos-IsIndexed session q n l h e;
      out = ground (arith, after session q, e);
      others_rooms = λ r ne. ground (arith, after session r);
      others = λ s r ne. ground (arith, after s r, h.placed q (length (members l q) - 1) last top);
    }

-- The session holds a place only in rooms of the list.
abbrev Covered : ℕ → Loop → List Text → Type 0
Covered session l rs =
    (r : Text) → is_place (index_in l session r) && not (contains text_dec r rs) ≡ false

record Closed (session : ℕ) (l l' : Loop) : Type 0 where
  indexed : IsIndexed l'
  out : (r : Text) → is_place (index_in l' session r) ≡ false
  others : (s : ℕ) (r : Text) → session ≢ s → is_place (index_in l' s r) ≡ is_place (index_in l s r)

leave_rooms-Closed :
    (session : ℕ) (rs : List Text) (l : Loop)
    → IsIndexed l
    → Covered session l rs
    → Closed session l (leave_rooms session rs l).0
unfolding leave_rooms contains
leave_rooms-Closed session [] l h c = record {
  indexed = h;
  out = λ r. ground (arith, c r);
  others = λ s r ne. refl;
}
leave_rooms-Closed session (q ∷ rs) l h c = elim (Option-cases (index_in l session q)) [
  | inl e ↦ rw (e, leave_rooms) (leave_rooms-Closed session rs l h (λ r. ground (arith, c r, e)))
  | inr (index, e) ↦
      let left = leave_room-Left session q index l h e in
      let rest =
        leave_rooms-Closed session rs (leave_room session q index l).0 left.indexed
          (λ r. ground (arith, c r, left.out, left.others_rooms r)) in
      rw (e, leave_rooms)
        (record {
          indexed = rest.indexed;
          out = rest.out;
          others = λ s r ne. rest.others s r ne ∙ left.others s r ne;
        })
]

keys-cover :
    (r : Text) (m : Joined)
    → is_place (index_of r m) && not (contains text_dec r (map (λ e. e.0) m)) ≡ false
unfolding index_of contains
keys-cover r [] = refl
keys-cover r ((q, n) ∷ m) = ground (arith, keys-cover r m)

erase_conn-index_in :
    (userid : ℤ) (session : ℕ) (l : Loop) (s : ℕ) (r : Text)
    → index_in (erase_conn userid session l) s r ≡ index_in l s r
unfolding erase_conn
erase_conn-index_in userid session l s r = ground arith

erase_conn-members :
    (userid : ℤ) (session : ℕ) (l : Loop) (r : Text)
    → members (erase_conn userid session l) r ≡ members l r
unfolding erase_conn
erase_conn-members userid session l r = ground arith

close_session-Closed :
    (userid : ℤ) (session : ℕ) (l : Loop)
    → IsIndexed l
    → Closed session l (close_session userid session l).0
unfolding close_session
close_session-Closed userid session l h =
    let same = erase_conn-index_in userid session l in
    let closed =
      leave_rooms-Closed session (map (λ e. e.0) (l.joined_rooms session))
        (erase_conn userid session l)
        (record {
          placed = λ r i s e.
              rw (same s r) (h.placed r i s (rw (← erase_conn-members userid session l r) e));
          present = λ r i s e.
              rw (erase_conn-members userid session l r) (h.present r i s (rw (← same s r) e));
        })
        (λ r. rw (same session r) (keys-cover r (l.joined_rooms session))) in
    record {
      indexed = closed.indexed;
      out = closed.out;
      others = λ s r ne. closed.others s r ne ∙ ap is_place (same s r);
    }

-- In a loop in which every session stands at most once in a room, at the place that its map names, and
-- the maps name no other places: when a session closes it stands in no room of the loop any more, every
-- other session stands in the rooms in which it stood, and the maps of all of them are right again.
pub close_session_lem :
    (userid : ℤ) (session : ℕ) (l : Loop)
    → IsIndexed l
    → let l' = (close_session userid session l).0 in
      IsIndexed l'
      × ((r : Text) → ¬ IsIn l' session r)
      × ((s : ℕ) (r : Text) → session ≢ s → IsIn l' s r ↔ IsIn l s r)
close_session_lem userid session l h =
    let closed = close_session-Closed userid session l h in
    let l' = (close_session userid session l).0 in
    let stays = closed.others in
    (
      closed.indexed,
      (λ r i. cc (closed.out r, is_place-IsIn l' session r closed.indexed i)),
      (λ s r ne. (
        (λ i. IsIn-of_place l s r h (sym (stays s r ne) ∙ is_place-IsIn l' s r closed.indexed i)),
        (λ i. IsIn-of_place l' s r closed.indexed (stays s r ne ∙ is_place-IsIn l s r h i)),
      )),
    )
