-- ===== src/Tests/Registry.antt =====
-- Three endpoints of a service, of which one goes away and one comes back.
use dpush.Base.{
  ℕ, ◌≡◌, ◌↔◌, refl, List, [], ◌∷◌, none, some, true, arith, Text, codes, text_dec, ℕ_discrete,
  contains, get_elem?,
}
use dpush.Registry.{
  NodePool, Cache, Event, put, delete, fetch_initial_endpoints, add_all, add_endpoint,
  on_watch_event, put_endpoint, delete_endpoint, get_all_endpoints, get_stub_from_prefix,
  get_stub_from_endpoint, get_endpoint, take_turn, on_stub_event, add_stub, remove_stub,
}
use dpush.Registry.Watched.{watched, standing, AreDistinct, IsListed, get_all_endpoints-watched}
use dpush.Registry.Turns.{turns, turns-all}

program : Unit {0}
unfolding text_dec ℕ_discrete contains fetch_initial_endpoints add_all add_endpoint on_watch_event
    put_endpoint delete_endpoint get_all_endpoints get_stub_from_prefix get_stub_from_endpoint
    get_endpoint take_turn on_stub_event add_stub remove_stub
program = tt

abbrev prefix : Text
prefix = codes "s/"

abbrev none_cached : Cache
none_cached = λ p. none

abbrev values : List Text
values = codes "a" ∷ codes "b" ∷ codes "c" ∷ []

abbrev events : List Event
events =
    record { event_type = delete; key = codes "s/a" }
    ∷ record { event_type = put; key = codes "s/d" }
    ∷ record { event_type = put; key = codes "s/b" }
    ∷ []

abbrev after : Cache
after = watched prefix events (fetch_initial_endpoints prefix values none_cached)

values-AreDistinct : AreDistinct values
unfolding program
values-AreDistinct = (refl, (refl, (refl, tt)))

-- the last endpoint takes the place of the first
listed : get_all_endpoints prefix after ≡ codes "c" ∷ codes "b" ∷ codes "d" ∷ []
unfolding program
listed = refl

get_all_endpoints-watched_example :
    (IsListed (get_all_endpoints prefix after) (codes "d")
      ↔ (standing prefix (codes "d") events (contains text_dec (codes "d") values) ≡ true))
    × ((i j : ℕ)
        → get_elem? (get_all_endpoints prefix after) i ≡ some (codes "d")
        → get_elem? (get_all_endpoints prefix after) j ≡ some (codes "d")
        → i ≡ j)
get_all_endpoints-watched_example =
    get_all_endpoints-watched prefix values events none_cached values-AreDistinct (codes "d")

-- The callback has not had the last event when the stub is looked for.
abbrev heard : List Event
heard =
    record { event_type = delete; key = codes "s/a" }
    ∷ record { event_type = put; key = codes "s/d" }
    ∷ []

abbrev three : NodePool
three = record { endpoints = values; index_map = λ e. none; index = 7 }

turned : turns 3 three ≡ some (codes "b") ∷ some (codes "c") ∷ some (codes "a") ∷ []
unfolding program
turned = refl

turns-all_example : (k : ℕ) × (get_elem? (turns 3 three) k ≡ some (some (codes "c")))
turns-all_example = turns-all three (codes "c") 2 refl (omega arith)
