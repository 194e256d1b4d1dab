-- ===== src/Rooms/Counts.antt =====
-- The count of a room is the number of loops in which it has members.
use dpush.Base.{
  ℕ, zero, suc, ◌+◌, ◌≤◌, ℤ, pos, negsuc, incr, decr, is_zero, ◌≡◌, ◌≢◌, refl, ap, List, [], ◌∷◌,
  ◌++◌, Option, none, some, ite, Text, text_dec, if◌then◌else◌, inl, inr, arith, map, Option-cases,
}
use dpush.PubSub.{PubSub, subscribe_room_safe, unsubscribe_room_safe, count_or_zero}
use dpush.PubSub.Calls.{Call, step, run, IsPositive}
use dpush.Rooms.{
  Loop, index_of, members, subscribe_session, leave_room, leave_rooms, close_session, erase_conn,
}

-- No entry of LocalWebsockConnRoomhash is an empty list.
abbrev pub IsTight : Loop → Type 0
IsTight l = (r : Text) → l.rooms r ≢ some []

-- 1 if the room has members in the loop.
unfoldable pub occupied : Loop → Text → ℕ
occupied l r = elim (l.rooms r) [ none ↦ 0 | some m ↦ 1 ]

unfoldable pub count_value : Option ℤ → ℕ
count_value none = 0
count_value (some (pos n)) = n
count_value (some (negsuc n)) = 0

abbrev pub count_in : PubSub → Text → ℕ
count_in s r = count_value (s.global_room_ref_count r)

-- A task of one loop and its calls keep the books: what the loop gains the count gains.
pub record Balanced (l l' : Loop) (calls : List Call) : Type 0 where
  pub tight : IsTight l'
  pub books :
      (s : PubSub) (r : Text)
      → IsPositive (s.global_room_ref_count r)
      → occupied l r ≤ count_in s r
      → IsPositive ((run calls s).global_room_ref_count r)
        × (count_in (run calls s) r + occupied l r ≡ count_in s r + occupied l' r)

-- What a call does to the count of a room.
join_count :
    (m : Option ℤ)
    → IsPositive m
    → IsPositive (some (incr (count_or_zero m)))
      × (count_value (some (incr (count_or_zero m))) ≡ count_value m + 1)
unfolding incr count_value
join_count none p = (refl, refl)
join_count (some (pos zero)) p = absurd (cc p)
join_count (some (pos (suc n))) p = (refl, omega arith)
join_count (some (negsuc n)) p = absurd (cc p)

left : Option ℤ → Option ℤ
left none = none
left (some n) = if is_zero (decr n) then none else some (decr n)

leave_count :
    (m : Option ℤ)
    → IsPositive m
    → 1 ≤ count_value m
    → IsPositive (left m) × (count_value (left m) + 1 ≡ count_value m)
unfolding left decr count_value
leave_count none p h = absurd (omega arith)
leave_count (some (pos zero)) p h = absurd (cc p)
leave_count (some (pos (suc zero))) p h = (refl, refl)
leave_count (some (pos (suc (suc n)))) p h = (refl, omega arith)
leave_count (some (negsuc n)) p h = absurd (cc p)

count-subscribe :
    (q r : Text) (s : PubSub)
    → (subscribe_room_safe q s).global_room_ref_count r
      ≡ ite
          (text_dec q r)
          (some (incr (count_or_zero (s.global_room_ref_count q))))
          (s.global_room_ref_count r)
unfolding subscribe_room_safe
count-subscribe q r s = refl

count-unsubscribe :
    (q r : Text) (s : PubSub)
    → (unsubscribe_room_safe q s).global_room_ref_count r
      ≡ ite (text_dec q r) (left (s.global_room_ref_count q)) (s.global_room_ref_count r)
unfolding unsubscribe_room_safe left
count-unsubscribe q r s = ground arith

run-append : (cs ds : List Call) (s : PubSub) → run (cs ++ ds) s ≡ run ds (run cs s)
unfolding run
run-append [] ds s = refl
run-append (c ∷ cs) ds s = run-append cs ds (step c s)

Balanced-trans :
    {l m n : Loop} (cs ds : List Call) → Balanced l m cs → Balanced m n ds → Balanced l n (cs ++ ds)
Balanced-trans {l} {m} {n} cs ds b c = record {
  tight = c.tight;
  books = λ s r p h.
      let (p', e) = b.books s r p h in
      let (p'', e') = c.books (run cs s) r p' (omega arith) in
      rw (run-append cs ds s) (p'', omega arith);
}

Balanced-refl : (l : Loop) → IsTight l → Balanced l l []
unfolding run
Balanced-refl l t = record { tight = t; books = λ s r p h. (p, refl) }

snoc-ne-nil {ℓ} : {A : Type ℓ} (xs : List A) (x : A) → xs ++ x ∷ [] ≢ []
snoc-ne-nil [] x e = cc e
snoc-ne-nil (y ∷ xs) x e = cc e

-- A join.
pub subscribe_session-Balanced :
    (session : ℕ) (q : Text) (l : Loop)
    → IsTight l
    → Balanced l (subscribe_session session q l).0 (subscribe_session session q l).1
unfolding subscribe_session run occupied
subscribe_session-Balanced session q l t = record {
  tight = λ r e. ground (arith, snoc-ne-nil (members l q) session, t r);
  books =
      λ s r p h. ground (arith, t q, count-subscribe q r s, join_count (s.global_room_ref_count r));
}

leave_room-Balanced :
    (session : ℕ) (q : Text) (index : ℤ) (l : Loop)
    → IsTight l
    → Balanced l (leave_room session q index l).0 (leave_room session q index l).1
unfolding leave_room run occupied
leave_room-Balanced session q index l t = record {
  tight = λ r e. ground (arith, t r);
  books = λ s r p h.
      ground (arith, t q, count-unsubscribe q r s, leave_count (s.global_room_ref_count r));
}

leave_rooms-Balanced :
    (session : ℕ) (rs : List Text) (l : Loop)
    → IsTight l
    → Balanced l (leave_rooms session rs l).0 (leave_rooms session rs l).1
unfolding leave_rooms
leave_rooms-Balanced session [] l t = Balanced-refl l t
leave_rooms-Balanced session (q ∷ rs) l t =
    elim (Option-cases (index_of q (l.joined_rooms session))) [
      | inl e ↦ rw (e, leave_rooms) (leave_rooms-Balanced session rs l t)
      | inr (index, e) ↦
          let first = leave_room-Balanced session q index l t in
          rw (e, leave_rooms)
            (Balanced-trans _ _ first
              (leave_rooms-Balanced session rs (leave_room session q index l).0 first.tight))
    ]

erase_conn-rooms :
    (userid : ℤ) (session : ℕ) (l : Loop) → (erase_conn userid session l).rooms ≡ l.rooms
unfolding erase_conn
erase_conn-rooms userid session l = ground arith

erase_conn-Balanced :
    (userid : ℤ) (session : ℕ) (l : Loop) → IsTight l → Balanced l (erase_conn userid session l) []
unfolding run occupied
erase_conn-Balanced userid session l t = record {
  tight = rw (erase_conn-rooms userid session l) t;
  books = λ s r p h. (p, ground (arith, ap (λ f. f r) (erase_conn-rooms userid session l)));
}

pub close_session-Balanced :
    (userid : ℤ) (session : ℕ) (l : Loop)
    → IsTight l
    → Balanced l (close_session userid session l).0 (close_session userid session l).1
unfolding close_session
close_session-Balanced userid session l t =
    let erased = erase_conn-Balanced userid session l t in
    Balanced-trans [] _ erased (
      leave_rooms-Balanced session (map (λ e. e.0) (l.joined_rooms session))
        (erase_conn userid session l) erased.tight)
