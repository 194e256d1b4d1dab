-- ===== src/Registry/Watched.antt =====
-- The endpoints of a service after any events: those that stand in etcd.
use dpush.Base.{
  ℕ, ◌≡◌, ◌↔◌, refl, ap, ◌∙◌, List, [], ◌∷◌, none, some, Bool, true, false, ◌||◌, Text, text_dec,
  update_self, ite, contains, length, get_elem?, drop, get_elem?_bound, get_elem?-some, ◌-◌, arith,
  inl, inr, Option-cases,
}
use dpush.Registry.{
  NodePool, Cache, pool_at, EventType, put, delete, Event, endpoint_of, add_endpoint, put_endpoint,
  delete_endpoint, on_watch_event, add_all, fetch_initial_endpoints, get_all_endpoints,
}
use dpush.Registry.Pool.{IsPool, add_endpoint-IsPool, put_endpoint-IsPool, delete_endpoint-IsPool}

abbrev pub AreDistinct : List Text → Type 0
AreDistinct [] = Unit {0}
AreDistinct (x ∷ xs) = (contains text_dec x xs ≡ false) × AreDistinct xs

abbrev pub knows : NodePool → Text → Bool
knows pool e = elim (pool.index_map e) [ none ↦ false | some _ ↦ true ]

first : (v : Text) (values : List Text) → contains text_dec v (v ∷ values) ≡ true
unfolding contains
first v values = ground arith

later :
    (v : Text) (values : List Text) (pool : NodePool)
    → contains text_dec v values ≡ false
    → ((e : Text) → contains text_dec e (v ∷ values) ≡ true → pool.index_map e ≡ none)
    → (e : Text) → contains text_dec e values ≡ true
    → (add_endpoint v pool).index_map e ≡ none
unfolding contains add_endpoint
later v values pool new fresh e m = ground (arith, fresh e)

pub or_false : (b : Bool) → b || false ≡ b
or_false true = refl
or_false false = refl

add_all-IsPool :
    (values : List Text) (pool : NodePool)
    → AreDistinct values
    → IsPool pool
    → ((e : Text) → contains text_dec e values ≡ true → pool.index_map e ≡ none)
    → IsPool (add_all values pool)
unfolding add_all
add_all-IsPool [] pool d h fresh = h
add_all-IsPool (v ∷ values) pool d h fresh =
    add_all-IsPool values (add_endpoint v pool) d.1
      (add_endpoint-IsPool v pool h (fresh v (first v values))) (later v values pool d.0 fresh)

knows-add_all :
    (values : List Text) (pool : NodePool) (e : Text)
    → knows (add_all values pool) e ≡ contains text_dec e values || knows pool e
unfolding add_all add_endpoint contains
knows-add_all [] pool e = refl
knows-add_all (v ∷ values) pool e = ground (arith, knows-add_all values (add_endpoint v pool) e)

-- An event of the watched prefix on the pool.
abbrev pub pool_event : Text → Event → NodePool → NodePool
pool_event prefix event pool = elim (event.event_type) [
  | put ↦ put_endpoint (endpoint_of prefix event) pool
  | delete ↦ delete_endpoint (endpoint_of prefix event) pool
]

-- What an event says of an endpoint.
abbrev pub stands : Text → Text → Event → Bool → Bool
stands prefix e event before =
    ite (text_dec (endpoint_of prefix event) e)
      (elim (event.event_type) [ put ↦ true | delete ↦ false ]) before

knows-put_endpoint :
    (endpoint : Text) (pool : NodePool) (e : Text)
    → knows (put_endpoint endpoint pool) e ≡ ite (text_dec endpoint e) true (knows pool e)
unfolding put_endpoint add_endpoint
knows-put_endpoint endpoint pool e = ground arith

knows-delete_endpoint :
    (endpoint : Text) (pool : NodePool) (e : Text)
    → IsPool pool
    → knows (delete_endpoint endpoint pool) e ≡ ite (text_dec endpoint e) false (knows pool e)
unfolding delete_endpoint
knows-delete_endpoint endpoint pool e h = elim (Option-cases (pool.index_map endpoint)) [
  | inl f ↦ ground (arith, f)
  | inr (place, f) ↦
      let low = get_elem?_bound pool.endpoints place endpoint (h.placed endpoint place f) in
      let (last, end) =
        get_elem?-some pool.endpoints (length pool.endpoints - 1) (omega (arith, low)) in
      ground (arith, f, end, h.found last (length pool.endpoints - 1) end)
]

-- The invariant of a pool, and what it knows.
record Follows (pool : NodePool) (spec : Text → Bool) : Type 0 where
  pool_valid : IsPool pool
  known : (e : Text) → knows pool e ≡ spec e

pool_event-Follows :
    (prefix : Text) (t : EventType) (key : Text) (pool : NodePool) (spec : Text → Bool)
    → Follows pool spec
    → Follows
        (pool_event prefix (record { event_type = t; key = key }) pool)
        (λ e. stands prefix e (record { event_type = t; key = key }) (spec e))
pool_event-Follows prefix put key pool spec h = record {
  pool_valid = put_endpoint-IsPool _ pool h.pool_valid;
  known = λ e.
      knows-put_endpoint (drop (length prefix) key) pool e
      ∙ ap (ite (text_dec (drop (length prefix) key) e) true) (h.known e);
}
pool_event-Follows prefix delete key pool spec h = record {
  pool_valid = delete_endpoint-IsPool _ pool h.pool_valid;
  known = λ e.
      knows-delete_endpoint (drop (length prefix) key) pool e h.pool_valid
      ∙ ap (ite (text_dec (drop (length prefix) key) e) false) (h.known e);
}

on_watch_event-some :
    (prefix : Text) (t : EventType) (key : Text) (cache : Cache) (pool : NodePool)
    → cache prefix ≡ some pool
    → on_watch_event prefix (record { event_type = t; key = key }) cache prefix
      ≡ some (pool_event prefix (record { event_type = t; key = key }) pool)
unfolding on_watch_event
on_watch_event-some prefix put key cache pool f = ground (arith, f)
on_watch_event-some prefix delete key cache pool f = ground (arith, f)

-- The events of a watcher, one after the other.
abbrev pub watched : Text → List Event → Cache → Cache
watched prefix [] cache = cache
watched prefix (event ∷ events) cache = watched prefix events (on_watch_event prefix event cache)

-- Whether an endpoint stands in etcd after the events, by what the last of them says of it.
abbrev pub standing : Text → Text → List Event → Bool → Bool
standing prefix e [] before = before
standing prefix e (event ∷ events) before = standing prefix e events (stands prefix e event before)

watched-Follows :
    (prefix : Text) (events : List Event) (cache : Cache) (pool : NodePool) (spec : Text → Bool)
    → cache prefix ≡ some pool
    → Follows pool spec
    → (after : NodePool) × ((watched prefix events cache prefix ≡ some after)
        × Follows after (λ e. standing prefix e events (spec e)))
watched-Follows prefix [] cache pool spec f h = (pool, (f, h))
watched-Follows prefix (event ∷ events) cache pool spec f h =
    watched-Follows prefix events (on_watch_event prefix event cache) (pool_event prefix event pool)
      (λ e. stands prefix e event (spec e))
      (on_watch_event-some prefix event.event_type event.key cache pool f)
      (pool_event-Follows prefix event.event_type event.key pool spec h)

fetch-Follows :
    (prefix : Text) (values : List Text) (cache : Cache)
    → AreDistinct values
    → (pool : NodePool) × ((fetch_initial_endpoints prefix values cache prefix ≡ some pool)
        × Follows pool (λ e. contains text_dec e values))
unfolding fetch_initial_endpoints
fetch-Follows prefix values cache d =
    let start : NodePool = record (pool_at prefix cache) {
      endpoints = [];
      index_map = λ e. none;
    } in
    let start_valid : IsPool start = record { placed = λ e i h. cc h; found = λ e i h. cc h } in
    (
      add_all values start,
      (
        update_self text_dec cache prefix (some (add_all values start)),
        record {
          pool_valid = add_all-IsPool values start d start_valid (λ e m. refl);
          known = λ e. knows-add_all values start e ∙ or_false (contains text_dec e values);
        },
      ),
    )

abbrev pub IsListed : List Text → Text → Type 0
IsListed endpoints e = (i : ℕ) × (get_elem? endpoints i ≡ some e)

IsListed-knows :
    (pool : NodePool) (e : Text) → IsPool pool → IsListed pool.endpoints e ↔ (knows pool e ≡ true)
IsListed-knows pool e h = (
  λ p. ground (arith, h.found e p.0 p.1),
  λ k. elim (Option-cases (pool.index_map e)) [
    | inl f ↦ ground (arith, f)
    | inr (i, f) ↦ (i, h.placed e i f)
  ],
)

-- After the endpoints that etcd lists at first, each once, and after any events, the endpoints that
-- the registry gives are those whose last event is no deletion, and each of them stands at one place
-- of the list.
pub get_all_endpoints-watched :
    (prefix : Text) (values : List Text) (events : List Event) (cache : Cache)
    → AreDistinct values
    → (e : Text)
    → (IsListed
          (get_all_endpoints prefix
            (watched prefix events (fetch_initial_endpoints prefix values cache)))
          e
        ↔ (standing prefix e events (contains text_dec e values) ≡ true))
      × ((i j : ℕ)
          → get_elem?
              (get_all_endpoints prefix
                (watched prefix events (fetch_initial_endpoints prefix values cache)))
              i
            ≡ some e
          → get_elem?
              (get_all_endpoints prefix
                (watched prefix events (fetch_initial_endpoints prefix values cache)))
              j
            ≡ some e
          → i ≡ j)
unfolding get_all_endpoints
get_all_endpoints-watched prefix values events cache d e =
    let (pool, (f, h)) = fetch-Follows prefix values cache d in
    let (after, (g, k)) =
      watched-Follows prefix events (fetch_initial_endpoints prefix values cache) pool _ f h in
    rw (g, get_all_endpoints)
      (
        rw (k.known e) at (IsListed-knows after e k.pool_valid),
        λ i j p q. ground (arith, k.pool_valid.found e i p, k.pool_valid.found e j q),
      )
