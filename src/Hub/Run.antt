-- ===== src/Hub/Run.antt =====
-- What holds of the hub after any calls, in any order.
use event_watch.Base.{
  ℕ, ◌+◌, ◌≡◌, ◌≢◌, String, Bool, true, Option, none, some, [], if◌then◌else◌, word_mod, arith, ap,
  ◌<◌,
}
use event_watch.Core.{Event}
use event_watch.Hub.{
  Hub, Subscription, HubCall, subscribes, closes, receives, publishes, ids_of, new, close, publish,
  receive, step,
}
use event_watch.Hub.Deliver.{has, IsDistinct, offered_to, publish-objects}
use event_watch.Hub.Invariant.{
  IsWellFormed, is_open_at, Fits, new-IsWellFormed, subscribe-IsWellFormed, close-IsWellFormed,
  publish-IsWellFormed,
}

module _ (h : Hub) (id : ℕ) (w : IsWellFormed h) where
  receive_listed :
      (t : String) (j : ℕ)
      → has j (ids_of (step h (receives id)) t) ≡ is_open_at ((step h (receives id)).objects j) t
  unfolding step receive
  receive_listed t j = ground (arith, w.listed t j, λ (same : id ≡ j). ap h.objects same)

  receive-Fits : (j : ℕ) → Fits (step h (receives id)).buf ((step h (receives id)).objects j)
  unfolding step receive
  receive-Fits j = ground (arith, w.fits j, w.fits id, λ (same : id ≡ j). ap h.objects same)

  receive_rest :
      ((t : String) → IsDistinct (ids_of (step h (receives id)) t))
      × ((t : String) → (step h (receives id)).topics t ≢ some [])
  unfolding step receive
  receive_rest = (λ t. ground (arith, w.distinct t), λ t f. ground (arith, w.kept t))

  receive_fresh :
      (j : ℕ) → (step h (receives id)).next < j → (step h (receives id)).objects j ≡ none
  unfolding step receive
  receive_fresh j l = ground (arith, w.fresh j, λ (same : id ≡ j). ap h.objects same)

  pub receive-IsWellFormed : IsWellFormed (step h (receives id))
  receive-IsWellFormed = record {
    listed = receive_listed;
    distinct = receive_rest.0;
    kept = receive_rest.1;
    fresh = receive_fresh;
    fits = receive-Fits;
  }

-- The hubs that calls lead to from a new one, as long as the id counter has not reached its end.
pub data Reach : Hub → Type 0 where
  here : Reach new
  next : {h : Hub} → Reach h → (c : HubCall) → h.next + 1 < word_mod → Reach (step h c)

step-IsWellFormed :
    (h : Hub) (c : HubCall) → h.next + 1 < word_mod → IsWellFormed h → IsWellFormed (step h c)
unfolding step
step-IsWellFormed h (subscribes topic) room w = subscribe-IsWellFormed h topic w room
step-IsWellFormed h (closes id) room w = close-IsWellFormed h id w
step-IsWellFormed h (receives id) room w = receive-IsWellFormed h id w
step-IsWellFormed h (publishes e) room w = publish-IsWellFormed h e w

-- Whatever calls were made on a new hub, in any order and while its id counter has room: the map
-- of a topic holds exactly the ids of the open subscriptions to it, each once; no topic is kept
-- with an empty map; no id above the counter is in use; no channel holds more events than the
-- buffer size; and `done` is closed exactly when the subscription is.
pub Reach-IsWellFormed : {h : Hub} → Reach h → IsWellFormed h
Reach-IsWellFormed here = new-IsWellFormed
Reach-IsWellFormed (next {h = h} r c room) = step-IsWellFormed h c room (Reach-IsWellFormed r)

-- In a well-formed hub, publishing reaches exactly the open subscriptions to the event's topic:
-- each of them is offered the event once, and every other object stays as it was.
pub publish_reaches_open :
    (h : Hub) (e : Event) (j : ℕ)
    → IsWellFormed h
    → (publish h e).objects j
      ≡ (if is_open_at (h.objects j) e.topic then offered_to h.buf e (h.objects j) else h.objects j)
publish_reaches_open h e j w =
    rw (← w.listed e.topic j) (publish-objects h e j (w.distinct e.topic))

abbrev pub is_gone : Option Subscription → Bool
is_gone none = true
is_gone (some s) = s.closed

pub close-is_gone : (h : Hub) (id : ℕ) → is_gone ((close h id).objects id) ≡ true
unfolding close
close-is_gone h id = ground arith
