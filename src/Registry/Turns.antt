-- ===== src/Registry/Turns.antt =====
-- The turns of the endpoints.

use dpush.Base.{
  ℕ, zero, suc, ◌+◌, ◌%◌, ◌^◌, ◌<◌, ◌≡◌, ap, ◌∙◌, List, [], ◌∷◌, Option, some, Text, length,
  get_elem?, arith, inl, inr, List-cases, get_elem?_bound,
}
use dpush.Base.Wrap.{to_place}
use dpush.Registry.{NodePool, take_turn}

-- Successive calls of GetEndpoint on a pool.
abbrev pub turns : ℕ → NodePool → List (Option Text)
turns zero pool = []
turns (suc n) pool = (take_turn pool).0 ∷ turns n (take_turn pool).1

take_turn-cons :
    (pool : NodePool)
    → 0 < length pool.endpoints
    → pool.index + 1 < 2 ^ 64
    → ((take_turn pool).0 ≡ get_elem? pool.endpoints (pool.index % length pool.endpoints))
      × ((take_turn pool).1 ≡ record pool { index = pool.index + 1 })
unfolding take_turn
take_turn-cons pool some_there small = elim (List-cases pool.endpoints) [
  | inl e ↦ ground (arith, e)
  | inr (x, (xs, e)) ↦ (ground (arith, e), ground (arith, e))
]

get_elem?-turns :
    (n k : ℕ) (pool : NodePool)
    → 0 < length pool.endpoints
    → pool.index + n < 2 ^ 64
    → k < n
    → get_elem? (turns n pool) k
      ≡ some (get_elem? pool.endpoints ((pool.index + k) % length pool.endpoints))
get_elem?-turns zero k pool some_there small h = absurd (omega arith)
get_elem?-turns (suc n) zero pool some_there small h =
    let (now, after) = take_turn-cons pool some_there (omega arith) in
    let same : pool.index ≡ pool.index + 0 = omega arith in
    ap some now ∙ ap (λ i. some (get_elem? pool.endpoints (i % length pool.endpoints))) same
get_elem?-turns (suc n) (suc k) pool some_there small h =
    let (now, after) = take_turn-cons pool some_there (omega arith) in
    let next : NodePool = record pool { index = pool.index + 1 } in
    let same : pool.index + 1 + k ≡ pool.index + suc k = omega arith in
    ap (λ p. get_elem? (turns n p) k) after
    ∙ get_elem?-turns n k next some_there (omega arith) (omega arith)
    ∙ ap (λ i. some (get_elem? pool.endpoints (i % length pool.endpoints))) same

-- As many successive calls as there are endpoints give every endpoint a turn, while the count of
-- turns does not wrap.
pub turns-all :
    (pool : NodePool) (e : Text) (j : ℕ)
    → get_elem? pool.endpoints j ≡ some e
    → pool.index + length pool.endpoints < 2 ^ 64
    → (k : ℕ) × (get_elem? (turns (length pool.endpoints) pool) k ≡ some (some e))
turns-all pool e j h small =
    let low = get_elem?_bound pool.endpoints j e h in
    let (k, (less, there)) = to_place pool.index j (length pool.endpoints) low in
    (
      k,
      get_elem?-turns (length pool.endpoints) k pool (omega (arith, low)) small less
          ∙ ap (λ i. some (get_elem? pool.endpoints i)) there
          ∙ ap some h,
    )
