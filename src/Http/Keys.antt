-- ===== src/Http/Keys.antt =====
-- The header map: keys are compared without regard to case, and a read gives the last write.
use dpush.Base.{
  ℕ, ◌≡◌, refl, ap, sym, ◌∙◌, [], ◌∷◌, some, true, false, not, ◌&&◌, Text, text_eq, to_lower, ltb,
  ◌==◌, if◌then◌else◌, map, arith, text_eq-eq, skip_spaces, trim_end, inl, inr, Bool-cases,
}
use dpush.Http.Request.{
  HttpRequest, Headers, less, same_key, assign_header, find_header, get_header, add_header,
}

abbrev pub lower : Text → Text
lower = map to_lower

compared :
    (p q : ℕ) (xs ys : Text)
    → not (if ltb p q then true else if ltb q p then false else less xs ys)
        && not (if ltb q p then true else if ltb p q then false else less ys xs)
      ≡ (p == q) && same_key xs ys
compared p q xs ys = ground arith

-- Neither is less exactly if the two keys agree in lower case.
pub same_key-lower : (a b : Text) → same_key a b ≡ text_eq (lower a) (lower b)
unfolding less text_eq
same_key-lower [] [] = refl
same_key-lower [] (y ∷ ys) = refl
same_key-lower (x ∷ xs) [] = refl
same_key-lower (x ∷ xs) (y ∷ ys) =
    compared (to_lower x) (to_lower y) xs ys
    ∙ ap (λ b. (to_lower x == to_lower y) && b) (same_key-lower xs ys)

same_key-eq : (a b : Text) → same_key a b ≡ true → lower a ≡ lower b
same_key-eq a b h = text_eq-eq (lower a) (lower b) (sym (same_key-lower a b) ∙ h)

-- A key is found under another exactly as under its own spelling.
same_key-swap : (a b k : Text) → same_key a b ≡ true → same_key k a ≡ same_key k b
same_key-swap a b k h =
    same_key-lower k a ∙ ap (text_eq (lower k)) (same_key-eq a b h) ∙ sym (same_key-lower k b)

same_key-swap_left : (a b k : Text) → same_key a b ≡ true → same_key a k ≡ same_key b k
same_key-swap_left a b k h =
    same_key-lower a k
    ∙ ap (λ t. text_eq t (lower k)) (same_key-eq a b h)
    ∙ sym (same_key-lower b k)

assigned_behind :
    (f g value k v : Text) (hs : Headers)
    → same_key f g ≡ true
    → same_key k g ≡ false
    → find_header g (assign_header f value hs) ≡ some value
    → find_header g
        (if less f k then (f, value) ∷ (k, v) ∷ hs else (k, v) ∷ assign_header f value hs)
      ≡ some value
unfolding find_header
assigned_behind f g value k v hs s other ih = elim (Bool-cases (less f k)) [
  | inl e ↦ rw e (rw s)
  | inr e ↦ rw e (rw other ih)
]

assigned_other :
    (f g value k v : Text) (hs : Headers)
    → same_key f g ≡ false
    → find_header g (assign_header f value hs) ≡ find_header g hs
    → find_header g
        (if less f k then (f, value) ∷ (k, v) ∷ hs else (k, v) ∷ assign_header f value hs)
      ≡ find_header g ((k, v) ∷ hs)
unfolding find_header
assigned_other f g value k v hs s ih = elim (Bool-cases (less f k)) [
  | inl e ↦ rw e (rw s)
  | inr e ↦ rw e (rw ih)
]

find_header-assign_header :
    (f g value : Text) (hs : Headers)
    → find_header g (assign_header f value hs)
      ≡ (if same_key f g then some value else find_header g hs)
unfolding find_header assign_header
find_header-assign_header f g value [] = refl
find_header-assign_header f g value ((k, v) ∷ hs) = elim (Bool-cases (same_key k f)) [
  | inl e ↦ rw (e, ← same_key-swap_left k f g e) (ground arith)
  | inr e ↦
      let rest = find_header-assign_header f g value hs in
      elim (Bool-cases (same_key f g)) [
        | inl s ↦
            let other : same_key k g ≡ false = sym (same_key-swap f g k s) ∙ e in
            rw (e, s) (assigned_behind f g value k v hs s other (rw s at rest))
        | inr s ↦ rw (e, s) (assigned_other f g value k v hs s (rw s at rest))
      ]
]

-- A header field is read back as it was added, blanks cut off at both ends, under every spelling
-- that differs in case alone; every other field reads as before.
get_header-add_header :
    (f g value : Text) (r : HttpRequest)
    → get_header g (add_header f value r) ≡ (
        if text_eq (lower f) (lower g) then some (trim_end (skip_spaces value)) else get_header g r)
unfolding get_header add_header
get_header-add_header f g value r =
    find_header-assign_header f g (trim_end (skip_spaces value)) r.headers
    ∙ ap (λ b. if b then some (trim_end (skip_spaces value)) else find_header g r.headers)
        (same_key-lower f g)
