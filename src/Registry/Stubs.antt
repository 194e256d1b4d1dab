-- ===== src/Registry/Stubs.antt =====
-- The stubs of a pool of clients, and the endpoints of the registry.
use dpush.Base.{List, [], ◌∷◌, false, Text}
use dpush.Registry.{
  Cache, Event, get_all_endpoints, fetch_initial_endpoints, StubMap, add_stub, on_stub_event,
}
use dpush.Registry.Watched.{watched}

-- The loop of Init over the endpoints.
abbrev pub add_stubs : List Text → StubMap → StubMap
add_stubs [] stubs = stubs
add_stubs (e ∷ es) stubs = add_stubs es (add_stub e stubs)

-- The callback of Subscribe, on each event.
abbrev pub stub_events : Text → List Event → StubMap → StubMap
stub_events prefix [] stubs = stubs
stub_events prefix (event ∷ events) stubs =
    stub_events prefix events (on_stub_event prefix event stubs)

module _ (prefix : Text) (values : List Text) (cache : Cache) where
  -- The cache that Subscribe fills, after some events.
  abbrev pub cached : List Event → Cache
  cached events = watched prefix events (fetch_initial_endpoints prefix values cache)

  -- The stubs that Init makes of the cache, after the callback of some events.
  abbrev pub stubbed : List Event → StubMap
  stubbed events =
      stub_events prefix events (add_stubs (get_all_endpoints prefix (cached [])) (λ x. false))
