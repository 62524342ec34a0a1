-- ===== src/Hub/Flight/Whole.antt =====
-- A publish of internal/hub/hub.go with nothing in between is `Hub.publish` of Hub.antt.
use event_watch.Base.{
  ℕ, ◌≡◌, Bool, true, Option, none, some, List, [], ◌∷◌, arith, ap, ◌∙◌, subst, sym,
}
use event_watch.Core.{Event}
use event_watch.Hub.{Hub, Subscription, ids_of, deliver, deliver_all, publish}
use event_watch.Hub.Invariant.{IsWellFormed, Fits}
use event_watch.Hub.Flight.{Live, Act, act, act_all, snapshots, loads, offers}

-- The rounds of a loop over so many subscriptions, with what `select` picks in each, and the return.
abbrev pub rounds : ℕ → (ℕ → Bool) → List ℕ → List Act
rounds p picks [] = loads p ∷ []
rounds p picks (id ∷ ids) = loads p ∷ offers p (picks id) ∷ rounds p picks ids

abbrev IsDoneClosed : Option Subscription → Type 0
IsDoneClosed none = Unit
IsDoneClosed (some s) = s.done ≡ true → s.closed ≡ true

Fits-IsDoneClosed : (buf : ℕ) (o : Option Subscription) → Fits buf o → IsDoneClosed o
Fits-IsDoneClosed buf none f = tt
Fits-IsDoneClosed buf (some s) f = λ d. ground arith

deliver-IsDoneClosed :
    (h : Hub) (e : Event) (id j : ℕ)
    → ((k : ℕ) → IsDoneClosed (h.objects k))
    → IsDoneClosed ((deliver h e id).objects j)
unfolding deliver
deliver-IsDoneClosed h e id j d = ground (arith, d j, d id)

snapshot_lem :
    (l : Live) (p : ℕ) (e : Event)
    → l.flights p ≡ none
    → ((act l (snapshots p e)).hub ≡ l.hub)
      × ((act l (snapshots p e)).flights p
          ≡ some (record { event = e; left = ids_of l.hub e.topic; checked = none }))
unfolding act
snapshot_lem l p e idle = ground (arith, idle)

module _ (p : ℕ) (picks : ℕ → Bool) (e : Event) where
  round_hub :
      (l : Live) (id : ℕ) (ids : List ℕ)
      → l.flights p ≡ some (record { event = e; left = id ∷ ids; checked = none })
      → ((k : ℕ) → IsDoneClosed (l.hub.objects k))
      → ((act (act l (loads p)) (offers p (picks id))).hub ≡ deliver l.hub e id)
        × ((act (act l (loads p)) (offers p (picks id))).flights p
            ≡ some (record { event = e; left = ids; checked = none }))
  unfolding act deliver
  round_hub l id ids f d = ground (arith, f, d id)

  last_load :
      (l : Live)
      → l.flights p ≡ some (record { event = e; left = []; checked = none })
      → ((act l (loads p)).hub ≡ l.hub) × ((act l (loads p)).flights p ≡ none)
  unfolding act
  last_load l f = ground (arith, f)

  rounds_lem :
      (l : Live) (ids : List ℕ)
      → l.flights p ≡ some (record { event = e; left = ids; checked = none })
      → ((k : ℕ) → IsDoneClosed (l.hub.objects k))
      → ((act_all l (rounds p picks ids)).hub ≡ deliver_all l.hub e ids)
        × ((act_all l (rounds p picks ids)).flights p ≡ none)
  unfolding act_all deliver_all
  rounds_lem l [] f d = last_load l f
  rounds_lem l (id ∷ ids) f d =
      let (hub, f') = round_hub l id ids f d in
      let l' = act (act l (loads p)) (offers p (picks id)) in
      let (hub', f'') = rounds_lem l' ids f' (λ k.
        subst (λ h. IsDoneClosed (h.objects k)) (sym hub) (deliver-IsDoneClosed l.hub e id k d)) in
      (hub' ∙ ap (λ h. deliver_all h e ids) hub, f'')

-- In a well-formed hub, a publish whose snapshot, rounds and return follow each other with no step
-- of anything else in between leaves the hub as `publish` does, whatever the selects would pick
-- between two ready cases, and its goroutine is free again.
pub whole_publish :
    (l : Live) (p : ℕ) (picks : ℕ → Bool) (e : Event)
    → IsWellFormed l.hub
    → l.flights p ≡ none
    → ((act_all l (snapshots p e ∷ rounds p picks (ids_of l.hub e.topic))).hub ≡ publish l.hub e)
      × ((act_all l (snapshots p e ∷ rounds p picks (ids_of l.hub e.topic))).flights p ≡ none)
unfolding act_all publish
whole_publish l p picks e w idle =
    let (hub, f) = snapshot_lem l p e idle in
    let (hub', f') = rounds_lem p picks e (act l (snapshots p e)) (ids_of l.hub e.topic) f (λ k.
      subst (λ h. IsDoneClosed (h.objects k)) (sym hub)
        (Fits-IsDoneClosed l.hub.buf (l.hub.objects k) (w.fits k))) in
    (hub' ∙ ap (λ h. deliver_all h e (ids_of l.hub e.topic)) hub, f')
