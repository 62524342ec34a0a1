-- ===== src/Computed.antt =====
-- internal/computed/reducer.go: the registry of reducers by object type.
pub mod Laws
mod Tests
use event_watch.Base.{◌≡◌, String, Option, none, some, List, [], ◌∷◌, lookup, insert}
use event_watch.Core.{RawMessage, Event, Error, invalid_topic, unknown_type, Result, ok, err}
use event_watch.Core.Topic.{parse_object_type}

-- `Apply` returns the new state beside an error, as the Go method does.
pub record Reducer : Type 0 where
  pub object_type : String
  pub apply : RawMessage → Event → RawMessage × Option Error

pub record Registry : Type 0 where
  pub by_ot : List (String × Reducer)

unfoldable pub new_registry : Registry
new_registry = record { by_ot = [] }

-- The loop of `Register` over its arguments.
unfoldable pub register : Registry → List Reducer → Registry
register r [] = r
register r (red ∷ reds) = register (record { by_ot = insert red.object_type red r.by_ot }) reds

unfoldable pub for : Registry → String → Result Reducer
for r object_type = elim (lookup object_type r.by_ot) [
  | none ↦ err unknown_type
  | some red ↦ ok red
]

-- No reducer leaves the state unchanged and is no error.
unfoldable pub apply : Registry → RawMessage → Event → RawMessage × Option Error
unfolding for
apply r state e = elim (parse_object_type e.topic) [
  | none ↦ (state, some invalid_topic)
  | some ot ↦ elim (for r ot) [ err x ↦ (state, none) | ok red ↦ red.apply state e ]
]
