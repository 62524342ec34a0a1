-- ===== src/Hub/Flight/Closed.antt =====
-- A subscription of internal/hub/hub.go from the moment that it is closed, while publishes are on
-- their way.
use event_watch.Base.{
  ℕ, suc, ◌+◌, ◌≡◌, refl, Bool, true, false, some, List, [], ◌∷◌, ◌++◌, ◌==◌, length, word_mod, not,
  if◌then◌else◌, ◌&&◌, arith, ap, ◌<◌, ◌≤◌, String,
}
use mathlib.Core.List.{append_assoc}
use event_watch.Core.{Event}
use event_watch.Hub.{Subscription, subscribe, remove, receive, ids_of}
use event_watch.Hub.Deliver.{has}
use event_watch.Hub.Flight.{
  Live, Act, act, act_all, is_past_check, subscribes, snapshots, loads, offers, swaps, unlists,
  finishes, takes,
}

-- A closed subscription that no publish is about to offer its event to, in a hub whose counter is
-- past its id.
record IsSettled (l : Live) (id : ℕ) (s : Subscription) : Type 0 where
  held : l.hub.objects id ≡ some s
  closed : s.closed ≡ true
  unchecked : (p : ℕ) → is_past_check id (l.flights p) ≡ false
  old : id ≤ l.hub.next

-- What is left of `s`: it is closed, with the same lag, and the channel has lost events from its
-- front only.
pub record IsLeft (s s' : Subscription) : Type 0 where
  pub closed : s'.closed ≡ true
  pub lag : s'.lag ≡ s.lag
  pub taken : List Event
  pub queue : s.queue ≡ taken ++ s'.queue

same-IsLeft : (s : Subscription) → s.closed ≡ true → IsLeft s s
same-IsLeft s c = record { closed = c; lag = refl; taken = []; queue = refl }

IsLeft-trans : {s s' s'' : Subscription} → IsLeft s s' → IsLeft s' s'' → IsLeft s s''
IsLeft-trans {s} {s'} {s''} f g = record {
  closed = g.closed;
  lag = cc;
  taken = f.taken ++ g.taken;
  queue = rw (f.queue, g.queue, append_assoc f.taken g.taken s''.queue);
}

abbrev drop_one : List Event → List Event
drop_one [] = []
drop_one (e ∷ es) = es

abbrev first : List Event → List Event
first [] = []
first (e ∷ es) = e ∷ []

first-drop_one : (es : List Event) → es ≡ first es ++ drop_one es
first-drop_one [] = refl
first-drop_one (e ∷ es) = refl

module _ (l : Live) (id : ℕ) where
  subscribes-IsSettled :
      (s : Subscription) (topic : String)
      → l.hub.next + 1 < word_mod
      → IsSettled l id s
      → IsSettled (act l (subscribes topic)) id s
  unfolding act subscribe
  subscribes-IsSettled s topic room i = record {
    held = ground (arith, i.held, i.old);
    closed = i.closed;
    unchecked = i.unchecked;
    old = ground (arith, i.old);
  }

  snapshots-IsSettled :
      (s : Subscription) (p : ℕ) (e : Event)
      → IsSettled l id s
      → IsSettled (act l (snapshots p e)) id s
  unfolding act
  snapshots-IsSettled s p e i = record {
    held = ground (arith, i.held);
    closed = i.closed;
    unchecked = λ q. ground (arith, i.unchecked q);
    old = ground (arith, i.old);
  }

  loads-IsSettled : (s : Subscription) (p : ℕ) → IsSettled l id s → IsSettled (act l (loads p)) id s
  unfolding act
  loads-IsSettled s p i = record {
    held = ground (arith, i.held);
    closed = i.closed;
    unchecked = λ q. ground (arith, i.held, i.closed, i.unchecked q);
    old = ground (arith, i.old);
  }

  offers-IsSettled :
      (s : Subscription) (p : ℕ) (sending : Bool)
      → IsSettled l id s
      → IsSettled (act l (offers p sending)) id s
  unfolding act
  offers-IsSettled s p sending i = record {
    held = ground (arith, i.held, i.unchecked p);
    closed = i.closed;
    unchecked = λ q. ground (arith, i.unchecked q);
    old = ground (arith, i.old);
  }

  swaps-IsSettled :
      (s : Subscription) (j : ℕ)
      → IsSettled l id s
      → (s' : Subscription) × IsSettled (act l (swaps j)) id s' × IsLeft s s'
  unfolding act
  swaps-IsSettled s j i = (
    record s { closed = true },
    record {
      held = ground (arith, i.held, i.closed, λ (same : j ≡ id). ap l.hub.objects same);
      closed = refl;
      unchecked = i.unchecked;
      old = ground (arith, i.old);
    },
    record { closed = refl; lag = refl; taken = []; queue = refl },
  )

  unlists-IsSettled :
      (s : Subscription) (j : ℕ) → IsSettled l id s → IsSettled (act l (unlists j)) id s
  unfolding act remove
  unlists-IsSettled s j i = record {
    held = ground (arith, i.held);
    closed = i.closed;
    unchecked = i.unchecked;
    old = ground (arith, i.old);
  }

  finishes-IsSettled :
      (s : Subscription) (j : ℕ)
      → IsSettled l id s
      → (s' : Subscription) × IsSettled (act l (finishes j)) id s' × IsLeft s s'
  unfolding act
  finishes-IsSettled s j i = (
    if j == id && not (has j (ids_of l.hub s.topic)) then record s { done = true } else s,
    record {
      held = ground (arith, i.held, i.closed, λ (same : j ≡ id). ap l.hub.objects same);
      closed = ground (arith, i.closed);
      unchecked = i.unchecked;
      old = ground (arith, i.old);
    },
    record {
      closed = ground (arith, i.closed);
      lag = ground arith;
      taken = [];
      queue = ground arith;
    },
  )

  -- The rest of a channel, and what was taken from it.
  takes-IsSettled :
      (s : Subscription) (j : ℕ)
      → IsSettled l id s
      → (s' : Subscription) × IsSettled (act l (takes j)) id s' × IsLeft s s'
  unfolding act receive
  takes-IsSettled s j i = (
    if j == id then record s { queue = drop_one s.queue } else s,
    record {
      held = ground (arith, i.held, λ (same : j ≡ id). ap l.hub.objects same);
      closed = ground (arith, i.closed);
      unchecked = i.unchecked;
      old = ground (arith, i.old);
    },
    record {
      closed = ground (arith, i.closed);
      lag = ground arith;
      taken = if j == id then first s.queue else [];
      queue = ground (arith, first-drop_one s.queue);
    },
  )

  act-IsSettled :
      (s : Subscription) (a : Act)
      → l.hub.next + 1 < word_mod
      → IsSettled l id s
      → (s' : Subscription) × IsSettled (act l a) id s' × IsLeft s s'
  act-IsSettled s (subscribes t) room i =
      (s, subscribes-IsSettled s t room i, same-IsLeft s i.closed)
  act-IsSettled s (snapshots p e) room i = (s, snapshots-IsSettled s p e i, same-IsLeft s i.closed)
  act-IsSettled s (loads p) room i = (s, loads-IsSettled s p i, same-IsLeft s i.closed)
  act-IsSettled s (offers p b) room i = (s, offers-IsSettled s p b i, same-IsLeft s i.closed)
  act-IsSettled s (swaps j) room i = swaps-IsSettled s j i
  act-IsSettled s (unlists j) room i = (s, unlists-IsSettled s j i, same-IsLeft s i.closed)
  act-IsSettled s (finishes j) room i = finishes-IsSettled s j i
  act-IsSettled s (takes j) room i = takes-IsSettled s j i

act_next :
    (l : Live) (a : Act) (n : ℕ) → l.hub.next + suc n < word_mod → (act l a).hub.next + n < word_mod
unfolding act subscribe remove receive
act_next l (subscribes t) n room = ground arith
act_next l (snapshots p e) n room = ground arith
act_next l (loads p) n room = ground arith
act_next l (offers p b) n room = ground arith
act_next l (swaps j) n room = ground arith
act_next l (unlists j) n room = ground arith
act_next l (finishes j) n room = ground arith
act_next l (takes j) n room = ground arith

act_all-IsSettled :
    (l : Live) (id : ℕ) (s : Subscription) (acts : List Act)
    → l.hub.next + length acts < word_mod
    → IsSettled l id s
    → (s' : Subscription) × IsSettled (act_all l acts) id s' × IsLeft s s'
unfolding act_all
act_all-IsSettled l id s [] room i = (s, i, same-IsLeft s i.closed)
act_all-IsSettled l id s (a ∷ acts) room i =
    let (s1, i1, left1) = act-IsSettled l id s a (omega arith) i in
    let (s2, i2, left2) =
      act_all-IsSettled (act l a) id s1 acts (act_next l a (length acts) room) i1 in
    (s2, i2, IsLeft-trans left1 left2)

-- Once a subscription that the hub has handed out (its id is not above the id counter) is closed and
-- no publish is between its check of `closed` and the end of its round for it, nothing reaches it
-- any more, whatever steps of publishes (also of those that took their snapshot before it was
-- closed), closes, subscribes and receivers follow, as long as the id counter has room: it stays
-- closed, its lag stays the same, and its channel only loses events from the front.
pub closed_final :
    (l : Live) (id : ℕ) (s : Subscription) (acts : List Act)
    → l.hub.objects id ≡ some s
    → s.closed ≡ true
    → ((p : ℕ) → is_past_check id (l.flights p) ≡ false)
    → id ≤ l.hub.next
    → l.hub.next + length acts < word_mod
    → (s' : Subscription) × ((act_all l acts).hub.objects id ≡ some s') × IsLeft s s'
closed_final l id s acts held closed unchecked old room =
    let (s', i, left) =
      act_all-IsSettled l id s acts room
        (record { held = held; closed = closed; unchecked = unchecked; old = old }) in
    (s', i.held, left)
