-- ===== src/Base/Maps.antt =====
-- Texts as keys, and maps over them as functions.
use Prim.Native.Nat.{ℕ}
use mathlib.Core.Path.{◌≡◌, refl, sym, ap, ◌∙◌}
use mathlib.Core.Logic.{◌≢◌, ite, if_pos, if_neg}
use mathlib.Core.List.{List, [], ◌∷◌, ◌++◌}
use mathlib.Core.Bool.{Bool, true, false}
use native.Mathlib.Decide.{ℕ_discrete}
use native.Mathlib.Omega.{arith}

-- The bytes of a std::string.
abbrev pub Text : Type 0
Text = List ℕ

unfoldable pub text_dec : Discrete Text
unfolding ℕ_discrete
text_dec = hlevel ℕ_discrete

module _ {ℓ κ} {K : Type ℓ} {V : Type κ} (dec : Discrete K) where
  -- m[k] = v
  abbrev pub update : (K → V) → K → V → K → V
  update m k v j = ite (dec k j) v (m j)

  pub update_self : (m : K → V) (k : K) (v : V) → update m k v k ≡ v
  update_self m k v = if_pos (dec k k) refl v (m k)

  pub update_ne : (m : K → V) (k j : K) (v : V) → k ≢ j → update m k v j ≡ m j
  update_ne m k j v h = if_neg (dec k j) h v (m j)

module _ {ℓ} {K : Type ℓ} (dec : Discrete K) where
  unfoldable pub contains : K → List K → Bool
  contains k [] = false
  contains k (x ∷ xs) = ite (dec x k) true (contains k xs)

  pub contains-snoc :
      (k j : K) (xs : List K) → contains k (xs ++ j ∷ []) ≡ ite (dec j k) true (contains k xs)
  unfolding contains
  contains-snoc k j [] = refl
  contains-snoc k j (x ∷ xs) = ground (arith, contains-snoc k j xs)

module _ {K V : Type 0} (dec : Discrete K) where
  -- The values that stand with a key, in order.
  abbrev pub values_of : K → List (K × V) → List V
  values_of k [] = []
  values_of k ((j, v) ∷ m) = let rest = values_of k m in ite (dec j k) (v ∷ rest) rest

  pub values_of-append :
      (k : K) (m n : List (K × V)) → values_of k (m ++ n) ≡ values_of k m ++ values_of k n
  values_of-append k [] n = refl
  values_of-append k ((j, v) ∷ m) n = elim (dec j k) [
    | yes same ↦
        let rest = ap (λ l. v ∷ l) (values_of-append k m n) in
        if_pos (dec j k) same (v ∷ values_of k (m ++ n)) (values_of k (m ++ n))
        ∙ (rest
            ∙ ap (λ l. l ++ values_of k n)
                (sym (if_pos (dec j k) same (v ∷ values_of k m) (values_of k m))))
    | no other ↦
        if_neg (dec j k) other (v ∷ values_of k (m ++ n)) (values_of k (m ++ n))
        ∙ (values_of-append k m n
            ∙ ap (λ l. l ++ values_of k n)
                (sym (if_neg (dec j k) other (v ∷ values_of k m) (values_of k m))))
  ]
