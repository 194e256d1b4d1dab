-- ===== src/Chat/Consumer/Ids.antt =====
-- The keys of a session, and the ids that commands add to a stream.
use dpush.Base.{
  ℕ, ◌<◌, ◌≤◌, ◌≡◌, refl, sym, ap, ap₂, ◌∙◌, List, [], ◌∷◌, ◌++◌, Text, text_dec, ite, arith, codes,
  length, length-append, take, drop, take-length_append,
}
use dpush.Chat.Keys.{message_seq_id_key, message_persist_key}
use dpush.Chat.Redis.{Command, xadd, publish, get}

-- The ids of the XADDs on a key.
abbrev pub ids_stored : Text → List Command → List Text
ids_stored k [] = []
ids_stored k (xadd j id p ∷ cs) = ite (text_dec j k) (id ∷ ids_stored k cs) (ids_stored k cs)
ids_stored k (publish c p ∷ cs) = ids_stored k cs
ids_stored k (get j ∷ cs) = ids_stored k cs

abbrev pub IncreaseFrom : ℕ → List ℕ → Type 0
IncreaseFrom low [] = Unit {0}
IncreaseFrom low (n ∷ ns) = (low < n) × IncreaseFrom n ns

pub IncreaseFrom-low :
    (low lower : ℕ) (ns : List ℕ) → lower ≤ low → IncreaseFrom low ns → IncreaseFrom lower ns
IncreaseFrom-low low lower [] h rising = tt
IncreaseFrom-low low lower (n ∷ ns) h (less, rising) = (omega (arith, h, less), rising)

pub ids_stored-append :
    (k : Text) (xs ys : List Command) → ids_stored k (xs ++ ys) ≡ ids_stored k xs ++ ids_stored k ys
ids_stored-append k [] ys = refl
ids_stored-append k (xadd j id p ∷ xs) ys = ground (arith, ids_stored-append k xs ys)
ids_stored-append k (publish c p ∷ xs) ys = ids_stored-append k xs ys
ids_stored-append k (get j ∷ xs) ys = ids_stored-append k xs ys

-- A text before the same end.
append-injective : (xs ys end : Text) → xs ++ end ≡ ys ++ end → xs ≡ ys
append-injective xs ys end e =
    let same : length xs ≡ length ys =
      omega (arith, ap length e, length-append xs end, length-append ys end) in
    sym (take-length_append xs end) ∙ ap₂ take same e ∙ take-length_append ys end

pub message_seq_id_key-injective :
    (a b : Text) → message_seq_id_key a ≡ message_seq_id_key b → a ≡ b
message_seq_id_key-injective a b e = append-injective a b (codes "}") (ap (drop 10) e)

pub message_persist_key-injective :
    (a b : Text) → message_persist_key a ≡ message_persist_key b → a ≡ b
message_persist_key-injective a b e = append-injective a b (codes "}") (ap (drop 1) e)
