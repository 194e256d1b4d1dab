-- ===== src/Rooms/Index.antt =====
-- The index maps and the member lists say the same, through joins and leaves.
use dpush.Base.{
  ℕ, zero, suc, ◌<◌, ℤ, pos, negsuc, ◌≡◌, refl, List, [], ◌∷◌, ◌++◌, Option, none, some, ite, Text,
  text_dec, if◌then◌else◌, length, set, get_elem?, ◌==◌, arith, ℕ_discrete,
}
use dpush.Rooms.{
  Loop, index_of, members, subscribe_session, leave_room, take_out, back, pop_back, set_room_index,
  join_room,
}
use dpush.Rooms.Swap.{index_of-set_room_index, index_of-join_room, replace}

-- The index that a session holds for a room.
abbrev pub index_in : Loop → ℕ → Text → Option ℤ
index_in l s r = index_of r (l.joined_rooms s)

-- A member's map holds its place in the list, and whoever holds a place stands there.
pub record IsIndexed (l : Loop) : Type 0 where
  pub placed :
      (r : Text) (i s : ℕ) → get_elem? (members l r) i ≡ some s → index_in l s r ≡ some (pos i)
  pub present :
      (r : Text) (i s : ℕ) → index_in l s r ≡ some (pos i) → get_elem? (members l r) i ≡ some s

get_elem?-snoc :
    (xs : List ℕ) (x i : ℕ)
    → get_elem? (xs ++ x ∷ []) i ≡ (if i == length xs then some x else get_elem? xs i)
get_elem?-snoc [] x zero = refl
get_elem?-snoc [] x (suc i) = ground arith
get_elem?-snoc (y ∷ xs) x zero = ground arith
get_elem?-snoc (y ∷ xs) x (suc i) = ground (arith, get_elem?-snoc xs x i)

get_elem?-length : (xs : List ℕ) → get_elem? xs (length xs) ≡ none
get_elem?-length [] = refl
get_elem?-length (x ∷ xs) = get_elem?-length xs

-- What a join changes.
members-subscribe :
    (session : ℕ) (q r : Text) (l : Loop)
    → members (subscribe_session session q l).0 r
      ≡ ite (text_dec q r) (members l r ++ session ∷ []) (members l r)
unfolding subscribe_session
members-subscribe session q r l = ground arith

index_in-subscribe :
    (session : ℕ) (q r : Text) (l : Loop) (s : ℕ)
    → index_in (subscribe_session session q l).0 s r
      ≡ ite
          (ℕ_discrete session s)
          (index_of r (join_room q (pos (length (members l q))) (l.joined_rooms session)))
          (index_in l s r)
unfolding subscribe_session
index_in-subscribe session q r l s = ground arith

-- A session that is not in the room's map joins the room, and the maps stay right.
pub subscribe_session-IsIndexed :
    (session : ℕ) (q : Text) (l : Loop)
    → index_in l session q ≡ none
    → IsIndexed l
    → IsIndexed (subscribe_session session q l).0
subscribe_session-IsIndexed session q l fresh h = record {
  placed = λ r i s e. ground (
    arith,
    members-subscribe session q r l,
    index_in-subscribe session q r l s,
    get_elem?-snoc (members l r) session i,
    h.placed r i s,
    index_of-join_room r q (pos (length (members l q))) (l.joined_rooms session),
  );
  present = λ r i s e. ground (
    arith,
    members-subscribe session q r l,
    index_in-subscribe session q r l s,
    get_elem?-snoc (members l r) session i,
    h.present r i s,
    get_elem?-length (members l r),
    index_of-join_room r q (pos (length (members l q))) (l.joined_rooms session),
  );
}

-- A leave from the place n, where `last` stands at the end.
module _ (session : ℕ) (q : Text) (n last : ℕ) (l : Loop) (inside : n < length (members l q))
    (end : back (members l q) ≡ some last) where
  pub members-leave :
      (r : Text)
      → members (leave_room session q (pos n) l).0 r
        ≡ ite (text_dec q r) (pop_back (set (members l q) n last)) (members l r)
  unfolding leave_room take_out
  members-leave r = ground arith

  pub index_in-leave :
      (s : ℕ) (r : Text)
      → index_in (leave_room session q (pos n) l).0 s r
        ≡ ite
            (text_dec q r)
            (ite
              (ℕ_discrete session s)
              (replace (negsuc 0) (index_in l s r))
              (ite (ℕ_discrete last s) (replace (pos n) (index_in l s r)) (index_in l s r)))
            (index_in l s r)
  unfolding leave_room take_out
  index_in-leave s r = ground (
    arith,
    index_of-set_room_index r q (pos n) (l.joined_rooms last),
    index_of-set_room_index r q (negsuc 0) (l.joined_rooms session),
    index_of-set_room_index r q (negsuc 0) (set_room_index q (pos n) (l.joined_rooms last)),
  )
