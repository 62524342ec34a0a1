-- ===== src/Hub/Flight.antt =====
-- `Hub.Publish`, `Subscription.Close` and `Hub.Subscribe` of internal/hub/hub.go, a step for each
-- lock section, atomic read or write and channel operation. Any number of publishes are on their
-- way at a time, each under the number of its goroutine.
pub mod Closed
pub mod Whole
use event_watch.Base.{
  ℕ, String, Bool, true, false, not, ◌&&◌, ◌||◌, Option, none, some, List, [], ◌∷◌, ◌++◌, ltb, ◌==◌,
  if◌then◌else◌, length, add64,
}
use event_watch.Core.{Event}
use event_watch.Hub.{
  Hub, Subscription, ids_of, update_object, subscribe, remove, receive, after_receive,
}
use event_watch.Hub.Deliver.{has}
use event_watch.Hub.Run.{is_gone}

-- A publish after its snapshot: `left` are the subscriptions that the loop has still to come to, and
-- `checked` the one that was found open and is not offered the event yet.
pub record Flight : Type 0 where
  pub event : Event
  pub left : List ℕ
  pub checked : Option ℕ

pub record Live : Type 0 where
  pub hub : Hub
  pub flights : ℕ → Option Flight

abbrev pub update_flight : (ℕ → Option Flight) → ℕ → Option Flight → ℕ → Option Flight
update_flight m p f j = if p == j then f else m j

-- `Publish` up to the end of its lock section, by a goroutine that is not in a publish.
pub snapshot : Live → ℕ → Event → Live
snapshot l p e = elim (l.flights p) [
  | some f ↦ l
  | none ↦ record l {
    flights =
        update_flight l.flights p
          (some (record { event = e; left = ids_of l.hub e.topic; checked = none }));
  }
]

abbrev found_open : Option Subscription → ℕ → Option ℕ
found_open o id = if is_gone o then none else some id

-- `s.closed.Load()` for the next subscription of the snapshot, or the return after the last.
load_closed : Live → ℕ → Option Flight → Live
load_closed l p none = l
load_closed l p (some f) = elim f.checked [
  | some id ↦ l
  | none ↦ elim f.left [
    | [] ↦ record l { flights = update_flight l.flights p none }
    | id ∷ ids ↦ record l {
      flights =
          update_flight l.flights p
            (some (record f { left = ids; checked = found_open (l.hub.objects id) id }));
    }
  ]
]

-- The `select` of one round. When the channel has room and `done` is closed, either case may be
-- taken: the send is when `sending` is true.
abbrev select : Hub → Event → Bool → ℕ → Option Subscription → Hub
select h e sending id none = h
select h e sending id (some s) =
    if ltb (length s.queue) h.buf && (not s.done || sending)
    then record h { objects = update_object h.objects id (record s { queue = s.queue ++ e ∷ [] }) }
    else if s.done
    then h
    else record h {
      objects = update_object h.objects id (record s { lag = add64 s.lag 1 });
      drop_calls = if h.has_on_drop then h.drop_calls ++ e.topic ∷ [] else h.drop_calls;
    }

offer : Live → ℕ → Bool → Option Flight → Live
offer l p sending none = l
offer l p sending (some f) = elim f.checked [
  | none ↦ l
  | some id ↦ record {
    hub = select l.hub f.event sending id (l.hub.objects id);
    flights = update_flight l.flights p (some (record f { checked = none }));
  }
]

-- `Close` up to `s.closed.Swap(true)`.
abbrev swap_closed : Hub → ℕ → Option Subscription → Hub
swap_closed h id none = h
swap_closed h id (some s) = record h {
  objects = update_object h.objects id (record s { closed = true });
}

-- The lock section of `Close`, which only the call that set `closed` comes to.
abbrev unlist : Hub → ℕ → Option Subscription → Hub
unlist h id none = h
unlist h id (some s) = if s.closed then remove h s.topic id else h

-- `close(s.done)`, after the lock section.
abbrev close_done : Hub → ℕ → Option Subscription → Hub
close_done h id none = h
close_done h id (some s) =
    if s.closed && not (has id (ids_of h s.topic))
    then record h { objects = update_object h.objects id (record s { done = true }) }
    else h

pub data Act : Type 0 where
  subscribes : String → Act
  snapshots : ℕ → Event → Act
  loads : ℕ → Act
  offers : ℕ → Bool → Act
  swaps unlists finishes takes : ℕ → Act

unfoldable pub act : Live → Act → Live
unfolding snapshot load_closed offer
act l (subscribes topic) = record l { hub = (subscribe l.hub topic).0 }
act l (snapshots p e) = snapshot l p e
act l (loads p) = load_closed l p (l.flights p)
act l (offers p sending) = offer l p sending (l.flights p)
act l (swaps id) = record l { hub = swap_closed l.hub id (l.hub.objects id) }
act l (unlists id) = record l { hub = unlist l.hub id (l.hub.objects id) }
act l (finishes id) = record l { hub = close_done l.hub id (l.hub.objects id) }
act l (takes id) = record l { hub = after_receive l.hub (receive l.hub id) }

unfoldable pub act_all : Live → List Act → Live
act_all l [] = l
act_all l (a ∷ acts) = act_all (act l a) acts

-- Whether a publish has found the subscription open and not offered it the event yet.
abbrev pub is_past_check : ℕ → Option Flight → Bool
is_past_check id none = false
is_past_check id (some f) = elim f.checked [ none ↦ false | some j ↦ j == id ]
