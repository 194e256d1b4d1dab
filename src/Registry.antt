-- ===== src/Registry.antt =====
-- Service discovery: `ServiceRegistryClient` of server/src/net/etcdServiceNode/ServiceRegistry.{h,cc}
-- and `RpcClientPool` of server/src/net/etcdServiceNode/grpcClientPool.hpp, which keeps a stub for
-- every endpoint of a service.
--
-- etcd is not here: a watcher hands over its events, whose keys begin with the watched prefix, and `ls`
-- gives the values under it. Every method holds its lock from end to end. A stub is named by its
-- endpoint, so the map of stubs is the set of its keys.
pub mod Pool
pub mod Watched
pub mod Turns
pub mod Stubs
use dpush.Base.{
  ℕ, ◌+◌, ◌-◌, ◌%◌, ◌^◌, List, [], ◌∷◌, ◌++◌, Option, none, some, Bool, true, false, ◌==◌, Text,
  text_dec, update, if◌then◌else◌, ite, length, get_elem?, set, take, drop,
}

pub record NodePool : Type 0 where
  pub endpoints : List Text
  pub index_map : Text → Option ℕ
  pub index : ℕ

abbrev pub empty_pool : NodePool
empty_pool = record { endpoints = []; index_map = λ e. none; index = 0 }

-- endpoints_cache_
abbrev pub Cache : Type 0
Cache = Text → Option NodePool

-- endpoints_cache_[prefix], which makes an entry that is missing
abbrev pub pool_at : Text → Cache → NodePool
pool_at prefix cache = elim (cache prefix) [ none ↦ empty_pool | some pool ↦ pool ]

pub data EventType : Type 0 where
  put delete : EventType

-- An event by its type and key.
pub record Event : Type 0 where
  pub event_type : EventType
  pub key : Text

-- The endpoint of an event.
abbrev pub endpoint_of : Text → Event → Text
endpoint_of prefix event = drop (length prefix) event.key

-- index_map_[endpoint] = endpoints_.size(), endpoints_.emplace_back(endpoint)
unfoldable pub add_endpoint : Text → NodePool → NodePool
add_endpoint endpoint pool = record pool {
  endpoints = pool.endpoints ++ endpoint ∷ [];
  index_map = update text_dec pool.index_map endpoint (some (length pool.endpoints));
}

-- The branch of an event PUT.
unfoldable pub put_endpoint : Text → NodePool → NodePool
put_endpoint endpoint pool = elim (pool.index_map endpoint) [
  | none ↦ add_endpoint endpoint pool
  | some _ ↦ pool
]

-- The branch of an event DELETE_ on the pool: the last endpoint takes the place of the one removed.
-- An endpoint with an index stands in the list, so the list has a last one.
unfoldable pub delete_endpoint : Text → NodePool → NodePool
delete_endpoint endpoint pool = elim (pool.index_map endpoint) [
  | none ↦ pool
  | some remove_index ↦
      let last_index = length pool.endpoints - 1 in
      elim (get_elem? pool.endpoints last_index) [
        | none ↦ pool
        | some last ↦
            let moved : Text → Option ℕ =
              if remove_index == last_index
              then pool.index_map
              else update text_dec pool.index_map last (some remove_index) in
            let swapped : List Text =
              if remove_index == last_index
              then pool.endpoints
              else set (set pool.endpoints remove_index last) last_index endpoint in
            record pool {
              endpoints = take last_index swapped;
              index_map = update text_dec moved endpoint none;
            }
      ]
]

-- OnWatchEvent
unfoldable pub on_watch_event : Text → Event → Cache → Cache
on_watch_event prefix event cache = elim (event.event_type) [
  | put ↦
      update text_dec cache prefix
        (some (put_endpoint (endpoint_of prefix event) (pool_at prefix cache)))
  | delete ↦ elim (cache prefix) [
    | none ↦ cache
    | some pool ↦
        update text_dec cache prefix (some (delete_endpoint (endpoint_of prefix event) pool))
  ]
]

-- The loop of FetchInitialEndpoints: it adds without a look at what is there.
unfoldable pub add_all : List Text → NodePool → NodePool
add_all [] pool = pool
add_all (value ∷ values) pool = add_all values (add_endpoint value pool)

-- FetchInitialEndpoints, by the values that etcd lists
unfoldable pub fetch_initial_endpoints : Text → List Text → Cache → Cache
fetch_initial_endpoints prefix values cache = update text_dec cache prefix (
    some (add_all values (record (pool_at prefix cache) { endpoints = []; index_map = λ e. none })))

-- GetAllEndpoints, by its list
unfoldable pub get_all_endpoints : Text → Cache → List Text
get_all_endpoints prefix cache = elim (cache prefix) [ none ↦ [] | some pool ↦ pool.endpoints ]

-- The endpoint of a turn, and the count of turns, a std::size_t.
unfoldable pub take_turn : NodePool → Option Text × NodePool
take_turn pool = elim (pool.endpoints) [
  | [] ↦ (none, pool)
  | x ∷ xs ↦ (
    get_elem? pool.endpoints (pool.index % length pool.endpoints),
    record pool { index = (pool.index + 1) % 2 ^ 64 },
  )
]

-- GetEndpoint; an empty text when there is none
unfoldable pub get_endpoint : Text → Cache → Text × Cache
get_endpoint prefix cache = elim (cache prefix) [
  | none ↦ ([], cache)
  | some pool ↦
      let (endpoint, after) = take_turn pool in
      (elim endpoint [ none ↦ [] | some e ↦ e ], update text_dec cache prefix (some after))
]

-- RpcClientPool::stubs_
abbrev pub StubMap : Type 0
StubMap = Text → Bool

-- AddStub
unfoldable pub add_stub : Text → StubMap → StubMap
add_stub endpoint stubs = if stubs endpoint then stubs else update text_dec stubs endpoint true

-- RemoveStub
unfoldable pub remove_stub : Text → StubMap → StubMap
remove_stub endpoint stubs = update text_dec stubs endpoint false

-- The callback that Init hands to Subscribe.
unfoldable pub on_stub_event : Text → Event → StubMap → StubMap
on_stub_event prefix event stubs = elim (event.event_type) [
  | put ↦ add_stub (endpoint_of prefix event) stubs
  | delete ↦ remove_stub (endpoint_of prefix event) stubs
]

-- GetStubFromEndpoint
unfoldable pub get_stub_from_endpoint : Text → StubMap → Option Text
get_stub_from_endpoint endpoint stubs = if stubs endpoint then some endpoint else none

-- GetStubFromPrefix: the endpoint from the cache, under its lock, and the stub from the stubs as they stand
-- when their lock is taken.
unfoldable pub get_stub_from_prefix : Text → Cache → StubMap → Option Text × Cache
get_stub_from_prefix prefix cache stubs =
    let (endpoint, cache') = get_endpoint prefix cache in
    (get_stub_from_endpoint endpoint stubs, cache')
