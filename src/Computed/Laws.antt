-- ===== src/Computed/Laws.antt =====
-- What registering reducers means for the events that reach them.
use event_watch.Base.{
  ◌≡◌, refl, String, Option, none, some, List, [], ◌∷◌, lookup, lookup-insert, arith, ◌=ₛ◌,
  if◌then◌else◌, insert,
}
use event_watch.Core.{RawMessage, Event, Error}
use event_watch.Core.Topic.{parse_object_type}
use event_watch.Computed.{Reducer, Registry, new_registry, register, apply}

-- The reducer that stands last among those of an object type.
abbrev pub last_of : String → List Reducer → Option Reducer → Option Reducer
last_of ot [] found = found
last_of ot (red ∷ reds) found = last_of ot reds (if red.object_type =ₛ ot then some red else found)

pub lookup-register :
    (ot : String) (r : Registry) (reds : List Reducer)
    → lookup ot (register r reds).by_ot ≡ last_of ot reds (lookup ot r.by_ot)
unfolding register
lookup-register ot r [] = refl
lookup-register ot r (red ∷ reds) =
    rw (lookup-register ot (record { by_ot = insert red.object_type red r.by_ot }) reds)
      (rw (lookup-insert red.object_type ot red r.by_ot))

abbrev pub reduced_by : Option Reducer → RawMessage → Event → RawMessage × Option Error
reduced_by none state e = (state, none)
reduced_by (some red) state e = red.apply state e

-- A registry filled by one `Register` call applies, to an event whose topic names the object type
-- `ot`, the last reducer registered for `ot`, and returns the state unchanged and no error where
-- none was registered for it.
pub apply-register :
    (reds : List Reducer) (ot : String) (state : RawMessage) (e : Event)
    → parse_object_type e.topic ≡ some ot
    → apply (register new_registry reds) state e ≡ reduced_by (last_of ot reds none) state e
unfolding apply new_registry lookup
apply-register reds ot state e h = ground (arith, lookup-register ot (record { by_ot = [] }) reds)
