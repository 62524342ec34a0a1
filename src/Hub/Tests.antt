-- ===== src/Hub/Tests.antt =====
-- Runs of the hub, and the theorems at them.
use event_watch.Base.{
  ◌≡◌, refl, some, none, [], ◌∷◌, arith, false, pos, if◌then◌else◌, ℕ, List, true,
}
use event_watch.Core.{Event}
use event_watch.Hub.{
  Hub, Subscription, new, subscribe, publish, step, subscribes, deliver_all, deliver,
}
use event_watch.Hub.Deliver.{offered_to}
use event_watch.Hub.Invariant.{is_open_at, IsWellFormed}
use event_watch.Hub.Run.{Reach, here, next, Reach-IsWellFormed, publish_reaches_open}
use event_watch.Hub.Flight.{Live, Act, act, act_all, snapshots, loads, offers, swaps, is_past_check}
use event_watch.Hub.Flight.Closed.{IsLeft, closed_final}

abbrev opened : Event
opened = record {
  id = "a1";
  topic = "pr/o/r/1";
  type = "pr_opened";
  seq = 1;
  occurred_at = pos 7;
  actor = "";
  payload = [];
  state = none;
}

abbrev two_subs : Hub
two_subs = step (step new (subscribes "pr/o/r/1")) (subscribes "pr/o/r/1")

two_subs-Reach : Reach two_subs
unfolding step subscribe new
two_subs-Reach =
    next (next here (subscribes "pr/o/r/1") (omega arith)) (subscribes "pr/o/r/1") (omega arith)

queued_once :
    (publish two_subs opened).objects 2
    ≡ some (record {
      topic = "pr/o/r/1";
      queue = opened ∷ [];
      id = 2;
      done = false;
      closed = false;
      lag = 0;
    })
unfolding step subscribe new publish deliver_all deliver
queued_once = refl

Reach-IsWellFormed_example : IsWellFormed two_subs
Reach-IsWellFormed_example = Reach-IsWellFormed two_subs-Reach

publish_reaches_open_example : (publish two_subs opened).objects 2 ≡ (
    if is_open_at (two_subs.objects 2) "pr/o/r/1"
    then offered_to two_subs.buf opened (two_subs.objects 2)
    else two_subs.objects 2)
publish_reaches_open_example =
    publish_reaches_open two_subs opened 2 (Reach-IsWellFormed two_subs-Reach)

-- A publish that takes its snapshot before the first subscription is closed.
abbrev in_flight : Live
in_flight =
    act_all (record { hub = two_subs; flights = λ p. none }) (snapshots 1 opened ∷ swaps 1 ∷ [])

abbrev closed_sub : Subscription
closed_sub = record { topic = "pr/o/r/1"; queue = []; id = 1; done = false; closed = true; lag = 0 }

in_flight_sub : in_flight.hub.objects 1 ≡ some closed_sub
unfolding act_all act step subscribe new
in_flight_sub = refl

in_flight_next : in_flight.hub.next ≡ 2
unfolding act_all act step subscribe new
in_flight_next = refl

in_flight_unchecked : (p : ℕ) → is_past_check 1 (in_flight.flights p) ≡ false
unfolding act_all act step subscribe new
in_flight_unchecked p = ground arith

abbrev rest_of_publish : List Act
rest_of_publish = loads 1 ∷ offers 1 true ∷ loads 1 ∷ offers 1 true ∷ []

closed_final_example :
    (s' : Subscription) × ((act_all in_flight rest_of_publish).hub.objects 1 ≡ some s')
    × IsLeft closed_sub s'
closed_final_example =
    closed_final in_flight 1 closed_sub rest_of_publish in_flight_sub refl in_flight_unchecked
      (omega (arith, in_flight_next)) (omega (arith, in_flight_next))

-- A publish that is past its check when the subscription is closed still queues its event.
late_send :
    (act_all
        (record { hub = two_subs; flights = λ p. none })
        (snapshots 1 opened ∷ loads 1 ∷ swaps 1 ∷ offers 1 true ∷ [])).hub.objects
      1
    ≡ some (record {
      topic = "pr/o/r/1";
      queue = opened ∷ [];
      id = 1;
      done = false;
      closed = true;
      lag = 0;
    })
unfolding act_all act step subscribe new
late_send = refl
