-- ===== src/Hub/Deliver.antt =====
-- What `Hub.Publish` does to each subscription, whatever the order of the snapshot.
use event_watch.Base.{
  ℕ, ◌≡◌, refl, Bool, false, not, ◌&&◌, ◌||◌, Option, none, some, List, [], ◌∷◌, ◌++◌, ltb, ◌==◌,
  if◌then◌else◌, length, add64, arith, ap, inl, inr, Bool-cases, ==_iff, ◌∙◌,
}
use event_watch.Core.{Event}
use event_watch.Hub.{Hub, Subscription, ids_of, deliver, deliver_all, publish}

abbrev pub has : ℕ → List ℕ → Bool
has id [] = false
has id (j ∷ ids) = j == id || has id ids

abbrev pub IsDistinct : List ℕ → Type 0
IsDistinct [] = Unit
IsDistinct (j ∷ ids) = (has j ids ≡ false) × IsDistinct ids

-- What one round leaves of its subscription: an open one with room has the event queued last, an
-- open one that is full has it counted as lost, a closed one is as it was.
abbrev pub offered : ℕ → Event → Subscription → Subscription
offered buf e s =
    if s.closed || (s.done && not (ltb (length s.queue) buf))
    then s
    else if ltb (length s.queue) buf
    then record s { queue = s.queue ++ e ∷ [] }
    else record s { lag = add64 s.lag 1 }

abbrev pub offered_to : ℕ → Event → Option Subscription → Option Subscription
offered_to buf e none = none
offered_to buf e (some s) = some (offered buf e s)

deliver-objects :
    (h : Hub) (e : Event) (id j : ℕ)
    → (deliver h e id).objects j
      ≡ (if id == j then offered_to h.buf e (h.objects j) else h.objects j)
unfolding deliver
deliver-objects h e id j = elim (Bool-cases (id == j)) [
  | inl same ↦ ground (arith, ap h.objects ((==_iff id j).0 same))
  | inr other ↦ ground arith
]

deliver-buf : (h : Hub) (e : Event) (id : ℕ) → (deliver h e id).buf ≡ h.buf
unfolding deliver
deliver-buf h e id = ground arith

pub deliver_all-objects :
    (h : Hub) (e : Event) (ids : List ℕ) (j : ℕ)
    → IsDistinct ids
    → (deliver_all h e ids).objects j
      ≡ (if has j ids then offered_to h.buf e (h.objects j) else h.objects j)
unfolding deliver_all
deliver_all-objects h e [] j d = refl
deliver_all-objects h e (id ∷ ids) j (new, d) = ground (
  arith,
  deliver_all-objects (deliver h e id) e ids j d,
  deliver-objects h e id j,
  deliver-buf h e id,
  λ (same : id ≡ j). ap (λ k. has k ids) same,
)

-- Publishing offers the event once to every subscription that the topic's map holds, and leaves
-- every other subscription as it was, in whatever order the map is read: an offer queues the
-- event last at an open subscription with room, adds 1 to the lag of an open one that is full,
-- and does nothing at a closed one.
pub publish-objects :
    (h : Hub) (e : Event) (j : ℕ)
    → IsDistinct (ids_of h e.topic)
    → (publish h e).objects j
      ≡ (if has j (ids_of h e.topic) then offered_to h.buf e (h.objects j) else h.objects j)
unfolding publish
publish-objects h e j d = deliver_all-objects h e (ids_of h e.topic) j d

deliver_all-buf : (h : Hub) (e : Event) (ids : List ℕ) → (deliver_all h e ids).buf ≡ h.buf
unfolding deliver_all
deliver_all-buf h e [] = refl
deliver_all-buf h e (id ∷ ids) = deliver_all-buf (deliver h e id) e ids ∙ deliver-buf h e id

pub publish-buf : (h : Hub) (e : Event) → (publish h e).buf ≡ h.buf
unfolding publish
publish-buf h e = deliver_all-buf h e (ids_of h e.topic)
