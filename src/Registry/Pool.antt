-- ===== src/Registry/Pool.antt =====
-- The list of endpoints and the map of their places say the same, through every event.
use dpush.Base.{
  ℕ, ◌-◌, ◌<◌, ◌≡◌, sym, ◌∙◌, [], ◌∷◌, ◌++◌, Option, none, some, true, false, ◌==◌, ltb, Text,
  text_dec, update, if◌then◌else◌, length, get_elem?, set, take, arith, get_elem?_bound,
  get_elem?-some, get_elem?-snoc, get_elem?-take, get_elem?-set, inl, inr, Option-cases, Bool-cases,
  length-set,
}
use dpush.Registry.{NodePool, empty_pool, add_endpoint, put_endpoint, delete_endpoint}

pub record IsPool (pool : NodePool) : Type 0 where
  pub placed : (e : Text) (i : ℕ) → pool.index_map e ≡ some i → get_elem? pool.endpoints i ≡ some e
  pub found : (e : Text) (i : ℕ) → get_elem? pool.endpoints i ≡ some e → pool.index_map e ≡ some i

pub empty_pool-IsPool : IsPool empty_pool
empty_pool-IsPool = record { placed = λ e i h. cc h; found = λ e i h. cc h }

module _ (endpoint : Text) (pool : NodePool) (h : IsPool pool)
    (fresh : pool.index_map endpoint ≡ none) where
  add-placed :
      (e : Text) (i : ℕ)
      → update text_dec pool.index_map endpoint (some (length pool.endpoints)) e ≡ some i
      → get_elem? (pool.endpoints ++ endpoint ∷ []) i ≡ some e
  add-placed e i s = ground (
    arith,
    get_elem?-snoc pool.endpoints endpoint i,
    h.placed e i,
    get_elem?_bound pool.endpoints i e,
  )

  add-found :
      (e : Text) (i : ℕ)
      → get_elem? (pool.endpoints ++ endpoint ∷ []) i ≡ some e
      → update text_dec pool.index_map endpoint (some (length pool.endpoints)) e ≡ some i
  add-found e i s = ground (arith, get_elem?-snoc pool.endpoints endpoint i, h.found e i)

  pub add_endpoint-IsPool : IsPool (add_endpoint endpoint pool)
  unfolding add_endpoint
  add_endpoint-IsPool = record { placed = add-placed; found = add-found }

pub put_endpoint-IsPool :
    (endpoint : Text) (pool : NodePool) → IsPool pool → IsPool (put_endpoint endpoint pool)
unfolding put_endpoint
put_endpoint-IsPool endpoint pool h = elim (Option-cases (pool.index_map endpoint)) [
  | inl e ↦ rw (e, put_endpoint) (add_endpoint-IsPool endpoint pool h e)
  | inr (i, e) ↦ rw (e, put_endpoint) h
]

-- The pool without an endpoint that stands at a place, when another endpoint is the last one.
module _ (endpoint : Text) (pool : NodePool) (h : IsPool pool) (place : ℕ) (last : Text)
    (here : pool.index_map endpoint ≡ some place)
    (end : get_elem? pool.endpoints (length pool.endpoints - 1) ≡ some last) where
  -- The list after the swap.
  at_place : ℕ → Option Text
  at_place i =
      if ltb i (length pool.endpoints - 1)
      then (if place == i then some last else get_elem? pool.endpoints i)
      else none

  get_elem?-swapped :
      (i : ℕ)
      → place < length pool.endpoints
      → get_elem?
          (take
            (length pool.endpoints - 1)
            (set (set pool.endpoints place last) (length pool.endpoints - 1) endpoint))
          i
        ≡ at_place i
  unfolding at_place
  get_elem?-swapped i small = ground (
    arith,
    get_elem?-take (length pool.endpoints - 1)
        (set (set pool.endpoints place last) (length pool.endpoints - 1) endpoint) i,
    get_elem?-set (set pool.endpoints place last) (length pool.endpoints - 1) endpoint i,
    get_elem?-set pool.endpoints place last i small,
    length-set pool.endpoints place last,
  )

  without-placed :
      (e : Text) (i : ℕ)
      → (place == length pool.endpoints - 1) ≡ false
      → update text_dec (update text_dec pool.index_map last (some place)) endpoint none e ≡ some i
      → at_place i ≡ some e
  unfolding at_place
  without-placed e i other s = ground (
    arith,
    h.placed e i,
    h.placed endpoint place here,
    h.found last (length pool.endpoints - 1) end,
    get_elem?_bound pool.endpoints i e,
    get_elem?_bound pool.endpoints place endpoint (h.placed endpoint place here),
  )

  without-found :
      (e : Text) (i : ℕ)
      → (place == length pool.endpoints - 1) ≡ false
      → at_place i ≡ some e
      → update text_dec (update text_dec pool.index_map last (some place)) endpoint none e ≡ some i
  unfolding at_place
  without-found e i other s = ground (
    arith,
    h.found e i,
    h.placed endpoint place here,
    h.found last (length pool.endpoints - 1) end,
    get_elem?_bound pool.endpoints i e,
  )

  same-placed :
      (e : Text) (i : ℕ)
      → (place == length pool.endpoints - 1) ≡ true
      → update text_dec pool.index_map endpoint none e ≡ some i
      → get_elem? (take (length pool.endpoints - 1) pool.endpoints) i ≡ some e
  same-placed e i same s = ground (
    arith,
    get_elem?-take (length pool.endpoints - 1) pool.endpoints i,
    h.placed e i,
    h.placed endpoint place here,
    get_elem?_bound pool.endpoints i e,
  )

  same-found :
      (e : Text) (i : ℕ)
      → (place == length pool.endpoints - 1) ≡ true
      → get_elem? (take (length pool.endpoints - 1) pool.endpoints) i ≡ some e
      → update text_dec pool.index_map endpoint none e ≡ some i
  same-found e i same s = ground (
    arith,
    get_elem?-take (length pool.endpoints - 1) pool.endpoints i,
    h.found e i,
    h.placed endpoint place here,
  )

  small : place < length pool.endpoints
  small = get_elem?_bound pool.endpoints place endpoint (h.placed endpoint place here)

  removed-IsPool : IsPool (delete_endpoint endpoint pool)
  unfolding delete_endpoint
  removed-IsPool = elim (Bool-cases (place == length pool.endpoints - 1)) [
    | inl same ↦
        rw (here, end, same, delete_endpoint)
          (record { placed = λ e i. same-placed e i same; found = λ e i. same-found e i same })
    | inr other ↦
        rw (here, end, other, delete_endpoint)
          (record {
            placed = λ e i s. get_elem?-swapped i small ∙ without-placed e i other s;
            found = λ e i s. without-found e i other (sym (get_elem?-swapped i small) ∙ s);
          })
  ]

pub delete_endpoint-IsPool :
    (endpoint : Text) (pool : NodePool) → IsPool pool → IsPool (delete_endpoint endpoint pool)
unfolding delete_endpoint
delete_endpoint-IsPool endpoint pool h = elim (Option-cases (pool.index_map endpoint)) [
  | inl e ↦ rw (e, delete_endpoint) h
  | inr (place, e) ↦
      let low = get_elem?_bound pool.endpoints place endpoint (h.placed endpoint place e) in
      let (last, end) =
        get_elem?-some pool.endpoints (length pool.endpoints - 1) (omega (arith, low)) in
      removed-IsPool endpoint pool h place last e end
]
