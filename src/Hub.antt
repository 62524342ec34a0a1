-- ===== src/Hub.antt =====
-- internal/hub/hub.go: the fan-out registry. Subscriptions are objects that the hub and their
-- holders share, so they stand in a heap; the map of a topic holds their ids, which are its keys.
pub mod Deliver
pub mod Flight
pub mod Invariant
pub mod Run
mod Tests
use event_watch.Base.{
  ℕ, suc, ◌+◌, String, Bool, true, false, ◌||◌, Option, none, some, List, [], ◌∷◌, ◌++◌, ltb, ◌==◌,
  ◌=ₛ◌, if◌then◌else◌, length, add64,
}
use event_watch.Core.{Event}

abbrev pub default_buffer : ℕ
default_buffer = 256

-- `queue` is the content of the buffered channel `C`, oldest first.
pub record Subscription : Type 0 where
  pub topic : String
  pub queue : List Event
  pub id : ℕ
  pub done : Bool
  pub closed : Bool
  pub lag : ℕ

-- `has_on_drop` is `OnDrop != nil`, and `drop_calls` lists the topics that it was called with, oldest
-- first.
pub record Hub : Type 0 where
  pub next : ℕ
  pub topics : String → Option (List ℕ)
  pub objects : ℕ → Option Subscription
  pub buf : ℕ
  pub has_on_drop : Bool
  pub drop_calls : List String

abbrev pub update_topic :
    (String → Option (List ℕ)) → String → Option (List ℕ) → String → Option (List ℕ)
update_topic m t v j = if t =ₛ j then v else m j

abbrev pub update_object : (ℕ → Option Subscription) → ℕ → Subscription → ℕ → Option Subscription
update_object m k v j = if k == j then some v else m j

unfoldable pub new : Hub
new = record {
  next = 0;
  topics = λ t. none;
  objects = λ k. none;
  buf = default_buffer;
  has_on_drop = false;
  drop_calls = [];
}

abbrev pub or_empty : Option (List ℕ) → List ℕ
or_empty none = []
or_empty (some ids) = ids

-- `h.topics[topic]`, where a missing key reads as the empty map.
abbrev pub ids_of : Hub → String → List ℕ
ids_of h topic = or_empty (h.topics topic)

pub subscriber_count : Hub → String → ℕ
subscriber_count h topic = length (ids_of h topic)

-- Returns the id of the new subscription.
unfoldable pub subscribe : Hub → String → Hub × ℕ
subscribe h topic =
    let id = add64 h.next 1 in
    let sub : Subscription = record {
      topic = topic;
      queue = [];
      id = id;
      done = false;
      closed = false;
      lag = 0;
    } in
    (
      record h {
        next = id;
        topics = update_topic h.topics topic (some (ids_of h topic ++ id ∷ []));
        objects = update_object h.objects id sub;
      },
      id,
    )

abbrev pub delete_id : ℕ → List ℕ → List ℕ
delete_id id [] = []
delete_id id (j ∷ ids) = if j == id then delete_id id ids else j ∷ delete_id id ids

abbrev none_if_empty : List ℕ → Option (List ℕ)
none_if_empty [] = none
none_if_empty (j ∷ ids) = some (j ∷ ids)

-- The map of a topic goes when its last subscription does.
unfoldable pub remove : Hub → String → ℕ → Hub
remove h topic id = elim (h.topics topic) [
  | none ↦ h
  | some ids ↦ record h { topics = update_topic h.topics topic (none_if_empty (delete_id id ids)) }
]

close_object : Hub → ℕ → Option Subscription → Hub
unfolding remove
close_object h id none = h
close_object h id (some s) =
    if s.closed
    then h
    else let h' =
        remove (record h { objects = update_object h.objects id (record s { closed = true }) })
          s.topic id in
      record h' { objects = update_object h'.objects id (record s { closed = true; done = true }) }

-- `Subscription.Close`, on the object with this id.
unfoldable pub close : Hub → ℕ → Hub
unfolding close_object
close h id = close_object h id (h.objects id)

send : Hub → Event → ℕ → Option Subscription → Hub
send h e id none = h
send h e id (some s) =
    if s.closed
    then h
    else if ltb (length s.queue) h.buf
    then record h { objects = update_object h.objects id (record s { queue = s.queue ++ e ∷ [] }) }
    else if s.done
    then h
    else record h {
      objects = update_object h.objects id (record s { lag = add64 s.lag 1 });
      drop_calls = if h.has_on_drop then h.drop_calls ++ e.topic ∷ [] else h.drop_calls;
    }

-- One round of the loop of `Publish`: a non-blocking send. `done` is closed after `closed` is set,
-- so a round that is not interrupted never has both a free buffer slot and a closed `done`.
unfoldable pub deliver : Hub → Event → ℕ → Hub
unfolding send
deliver h e id = send h e id (h.objects id)

-- The loop over the snapshot, in the order in which the map was read.
unfoldable pub deliver_all : Hub → Event → List ℕ → Hub
deliver_all h e [] = h
deliver_all h e (id ∷ ids) = deliver_all (deliver h e id) e ids

-- A publish with nothing in between, which `Hub.Publish` is not bound to be: it holds the lock for
-- the snapshot only. Hub/Flight has a step for each of its parts, with other calls in between.
unfoldable pub publish : Hub → Event → Hub
publish h e = deliver_all h e (ids_of h e.topic)

-- A holder of the subscription takes the oldest event from its channel.
unfoldable pub receive : Hub → ℕ → Option (Event × Hub)
receive h id = elim (h.objects id) [
  | none ↦ none
  | some s ↦ elim s.queue [
    | [] ↦ none
    | e ∷ es ↦ some (e, record h { objects = update_object h.objects id (record s { queue = es }) })
  ]
]

pub data HubCall : Type 0 where
  subscribes : String → HubCall
  closes receives : ℕ → HubCall
  publishes : Event → HubCall

abbrev after_receive : Hub → Option (Event × Hub) → Hub
after_receive h none = h
after_receive h (some (e, h')) = h'

-- One call on the hub or on one of its subscriptions.
unfoldable pub step : Hub → HubCall → Hub
step h (subscribes topic) = (subscribe h topic).0
step h (closes id) = close h id
step h (receives id) = after_receive h (receive h id)
step h (publishes e) = publish h e
