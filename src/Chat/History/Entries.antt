-- ===== src/Chat/History/Entries.antt =====
-- The entries of a stream, the newest first, and where a cursor stands among them.
use dpush.Base.{
  ℕ, zero, suc, ◌+◌, ◌<◌, ◌≤◌, ◌≡◌, refl, sym, ap, ◌∙◌, List, [], ◌∷◌, ◌++◌, append_assoc, some,
  true, false, ltb, take, drop, Text, arith,
}
use dpush.Chat.History.{StreamEntry, older, StoredMessage, messages_of, fields_messages, last_entry}

abbrev pub AreAbove : ℕ → List StreamEntry → Type 0
AreAbove n [] = Unit {0}
AreAbove n (e ∷ entries) = (n ≤ e.id) × AreAbove n entries

abbrev pub AreBelow : ℕ → List StreamEntry → Type 0
AreBelow n [] = Unit {0}
AreBelow n (e ∷ entries) = (e.id < n) × AreBelow n entries

-- The newest first.
abbrev pub AreSorted : List StreamEntry → Type 0
AreSorted [] = Unit {0}
AreSorted (e ∷ entries) = AreBelow e.id entries × AreSorted entries

pub older-AreAbove :
    (n : ℕ) (front rest : List StreamEntry)
    → AreAbove n front
    → older (some n) (front ++ rest) ≡ older (some n) rest
older-AreAbove n [] rest h = refl
older-AreAbove n (e ∷ front) rest (above, h) =
    let past : ltb e.id n ≡ false = ground (arith, above) in rw past (older-AreAbove n front rest h)

pub older-AreBelow :
    (n : ℕ) (rest : List StreamEntry) → AreBelow n rest → older (some n) rest ≡ rest
older-AreBelow n [] h = refl
older-AreBelow n (e ∷ rest) (below, h) =
    let there : ltb e.id n ≡ true = ground (arith, below) in
    rw there (ap (λ es. e ∷ es) (older-AreBelow n rest h))

pub AreAbove-append :
    (n : ℕ) (xs ys : List StreamEntry) → AreAbove n xs → AreAbove n ys → AreAbove n (xs ++ ys)
AreAbove-append n [] ys h k = k
AreAbove-append n (x ∷ xs) ys (above, h) k = (above, AreAbove-append n xs ys h k)

pub AreAbove-lower : (n m : ℕ) (xs : List StreamEntry) → m ≤ n → AreAbove n xs → AreAbove m xs
AreAbove-lower n m [] low h = tt
AreAbove-lower n m (x ∷ xs) low (above, h) =
    (omega (arith, low, above), AreAbove-lower n m xs low h)

-- The last entry of a front part stands between the parts.
pub last_entry-cut :
    (e : StreamEntry) (es tail : List StreamEntry)
    → AreSorted (e ∷ es ++ tail)
    → AreAbove (last_entry e es) (e ∷ es) × (AreBelow (last_entry e es) tail × AreSorted tail)
last_entry-cut e [] tail (below, sorted) = ((omega arith, tt), (below, sorted))
last_entry-cut e (next ∷ es) tail ((below, more), sorted) =
    let ((near, above), rest) = last_entry-cut next es tail sorted in
    ((omega (arith, near, below), (near, above)), rest)

pub last_entry-below :
    (n : ℕ) (e : StreamEntry) (es tail : List StreamEntry)
    → AreBelow n (e ∷ es ++ tail)
    → last_entry e es < n
last_entry-below n e [] tail (below, h) = below
last_entry-below n e (next ∷ es) tail (below, h) = last_entry-below n next es tail h

pub messages_of-append :
    (decode : Text → StoredMessage) (xs ys : List StreamEntry)
    → messages_of decode (xs ++ ys) ≡ messages_of decode xs ++ messages_of decode ys
messages_of-append decode [] ys = refl
messages_of-append decode (x ∷ xs) ys =
    ap (λ ms. fields_messages decode x.id x.fields ++ ms) (messages_of-append decode xs ys)
    ∙ sym (
        append_assoc (fields_messages decode x.id x.fields) (messages_of decode xs)
          (messages_of decode ys))

take_nil : (n : ℕ) → ◌≡◌ {A = List StreamEntry} (take n []) []
take_nil zero = refl
take_nil (suc n) = refl

pub take_add : (n m : ℕ) (xs : List StreamEntry) → take (n + m) xs ≡ take n xs ++ take m (drop n xs)
take_add zero m xs = ap (λ k. take k xs) (omega arith)
take_add (suc n) m [] = take_nil (suc n + m) ∙ sym (take_nil m)
take_add (suc n) m (x ∷ xs) =
    let shift : suc n + m ≡ suc (n + m) = omega arith in
    ap (λ k. take k (x ∷ xs)) shift ∙ ap (λ es. x ∷ es) (take_add n m xs)

AreBelow-first :
    (n : ℕ) (new : List StreamEntry) (f : StreamEntry) (after : List StreamEntry)
    → AreBelow n (new ++ f ∷ after)
    → f.id < n
AreBelow-first n [] f after (below, h) = below
AreBelow-first n (x ∷ new) f after (below, h) = AreBelow-first n new f after h

-- What is newer than an entry above n is above n.
pub new-AreAbove :
    (n : ℕ) (new : List StreamEntry) (f : StreamEntry) (after : List StreamEntry)
    → AreSorted (new ++ f ∷ after)
    → n ≤ f.id
    → AreAbove n new
new-AreAbove n [] f after sorted low = tt
new-AreAbove n (x ∷ new) f after (below, sorted) low = (
  omega (arith, AreBelow-first x.id new f after below, low),
  new-AreAbove n new f after sorted low,
)
