-- ===== src/Rooms/Swap.antt =====
-- The two updates of the close callback: the member list without one place, and the index maps.
use dpush.Base.{
  ℕ, zero, suc, ◌-◌, ◌<◌, ℤ, ◌≡◌, refl, List, [], ◌∷◌, Option, none, some, ite, Text, text_dec,
  if◌then◌else◌, length, set, get_elem?, ltb, ◌==◌, arith, length-set, get_elem?-set_self,
  get_elem?-set_ne, ℕ_discrete,
}
use dpush.Rooms.{Joined, index_of, assign, set_room_index, join_room, back, pop_back}

pub back-some :
    (xs : List ℕ) (n : ℕ)
    → n < length xs
    → (last : ℕ) × (back xs ≡ some last) × (get_elem? xs (length xs - 1) ≡ some last)
unfolding back
back-some [] n h = absurd (omega arith)
back-some (x ∷ []) n h = (x, refl, refl)
back-some (x ∷ y ∷ ys) n h =
    let (last, e, g) = back-some (y ∷ ys) 0 (omega arith) in (last, e, ground (arith, g))

pub get_elem?-pop_back :
    (xs : List ℕ) (i : ℕ)
    → get_elem? (pop_back xs) i ≡ (if ltb (suc i) (length xs) then get_elem? xs i else none)
unfolding pop_back
get_elem?-pop_back [] i = ground arith
get_elem?-pop_back (x ∷ []) i = ground arith
get_elem?-pop_back (x ∷ y ∷ ys) zero = ground arith
get_elem?-pop_back (x ∷ y ∷ ys) (suc i) = ground (arith, get_elem?-pop_back (y ∷ ys) i)

pub index_of-assign :
    (r q : Text) (n : ℤ) (m : Joined)
    → index_of r (assign q n m) ≡ ite (text_dec q r) (some n) (index_of r m)
unfolding index_of assign
index_of-assign r q n [] = refl
index_of-assign r q n ((p, k) ∷ m) = ground (arith, index_of-assign r q n m)

-- The member list after the swap: the last member stands at the index, the others where they were.
pub get_elem?-swap :
    (xs : List ℕ) (n last i : ℕ)
    → n < length xs
    → get_elem? (pop_back (set xs n last)) i
      ≡ (if ltb (suc i) (length xs) then (if i == n then some last else get_elem? xs i) else none)
get_elem?-swap xs n last i h = elim (ℕ_discrete n i) [
  | yes e ↦ ground (
    arith,
    get_elem?-pop_back (set xs n last) i,
    length-set xs n last,
    get_elem?-set_self xs n last h,
  )
  | no ne ↦ ground (
    arith,
    get_elem?-pop_back (set xs n last) i,
    length-set xs n last,
    get_elem?-set_ne xs {i = n} {j = i} last ne,
  )
]

-- An assignment that adds no key.
abbrev pub replace : ℤ → Option ℤ → Option ℤ
replace n none = none
replace n (some k) = some n

pub index_of-set_room_index :
    (r q : Text) (n : ℤ) (m : Joined)
    → index_of r (set_room_index q n m)
      ≡ ite (text_dec q r) (replace n (index_of r m)) (index_of r m)
unfolding set_room_index
index_of-set_room_index r q n m = ground (arith, index_of-assign r q n m)

abbrev pub or_else : ℤ → Option ℤ → Option ℤ
or_else n none = some n
or_else n (some k) = some k

pub index_of-join_room :
    (r q : Text) (n : ℤ) (m : Joined)
    → index_of r (join_room q n m) ≡ ite (text_dec q r) (or_else n (index_of r m)) (index_of r m)
unfolding join_room
index_of-join_room r q n m = ground (arith, index_of-assign r q n m)
