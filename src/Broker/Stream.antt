-- ===== src/Broker/Stream.antt =====
-- An open subscription queues what is added to the log of its topic.
use event_watch.Base.{
  ℕ, zero, suc, ◌+◌, ◌≤◌, ◌<◌, ◌≡◌, refl, sym, ap, subst, ◌∙◌, String, true, false, none, some,
  List, [], ◌∷◌, ◌++◌, map, length, drop, ◌=ₛ◌, if◌then◌else◌, arith, eq_iff, Bool-cases, inl, inr,
  length-drop, length-append,
}
use mathlib.Core.List.{append-nil, append_assoc}
use event_watch.Core.{Event, ok}
use event_watch.Computed
use event_watch.Hub.{Hub, Subscription}
use event_watch.Hub
use event_watch.Hub.Deliver.{publish-buf}
use event_watch.Hub.Invariant as HubInvariant
use event_watch.Hub.Run.{publish_reaches_open}
use event_watch.Store.{Store, events_of}
use event_watch.Store.Log.{IsWellFormed}
use event_watch.StoreApi.{Env}
use event_watch.StoreApi.Memory.{memory, memory-IsStore}
use event_watch.Broker.{Broker, publish, publish_all, or_nil}
use event_watch.Broker.Accepted.{publish-IsAccepted}
use event_watch.Broker.Publish.{
  Published, refused, failed, accepted, publish-Published, accepted-eq,
}
use event_watch.Broker.Run.{IsConsistent, publish-IsConsistent}

-- An event without the state that its fan-out copy carries.
abbrev pub plain : Event → Event
plain e = record e { state = none }

-- The open subscription `id` of topic `t` holds every event of the log after the first `n`.
pub record Follows (t : String) (id n : ℕ) (b : Broker Store) : Type 0 where
  pub sub : Subscription
  pub found : b.hub.objects id ≡ some sub
  pub opened : sub.closed ≡ false
  pub named : sub.topic ≡ t
  pub queued : map plain sub.queue ≡ map plain (drop n (events_of b.store t))
  pub started : n ≤ length (events_of b.store t)

pub length-map : (es : List Event) → length (map plain es) ≡ length es
length-map [] = refl
length-map (e ∷ es) = ap suc (length-map es)

pub map-append : (es es' : List Event) → map plain (es ++ es') ≡ map plain es ++ map plain es'
map-append [] es' = refl
map-append (e ∷ es) es' = ap (λ l. plain e ∷ l) (map-append es es')

drop-snoc :
    (n : ℕ) (es : List Event) (e : Event)
    → n ≤ length es
    → drop n (es ++ e ∷ []) ≡ drop n es ++ e ∷ []
drop-snoc zero es e l = refl
drop-snoc (suc n) [] e l = absurd (omega arith)
drop-snoc (suc n) (x ∷ es) e l = drop-snoc n es e (omega arith)

module _ (t : String) (id n : ℕ) where
  queue_length :
      (b : Broker Store) (f : Follows t id n b)
      → length f.sub.queue + n ≡ length (events_of b.store t)
  queue_length b f = omega (
    arith,
    f.started,
    length-map f.sub.queue,
    ap length f.queued,
    length-map (drop n (events_of b.store t)),
    length-drop n (events_of b.store t),
  )

  -- Publishing to another topic leaves the subscription, to its own queues the event last.
  hub_keeps :
      (h : Hub) (fan : Event) (sub : Subscription)
      → HubInvariant.IsWellFormed h
      → h.objects id ≡ some sub
      → sub.closed ≡ false
      → sub.topic ≡ t
      → (fan.topic =ₛ t) ≡ false
      → (Hub.publish h fan).objects id ≡ some sub
  hub_keeps h fan sub w found opened named other =
      ground
        (arith, publish_reaches_open h fan id w, eq_iff fan.topic t, eq_iff sub.topic fan.topic)

  hub_queues :
      (h : Hub) (fan : Event) (sub : Subscription)
      → HubInvariant.IsWellFormed h
      → h.objects id ≡ some sub
      → sub.closed ≡ false
      → sub.topic ≡ t
      → (fan.topic =ₛ t) ≡ true
      → length sub.queue < h.buf
      → (Hub.publish h fan).objects id ≡ some (record sub { queue = sub.queue ++ fan ∷ [] })
  hub_queues h fan sub w found opened named same room =
      ground
        (arith, publish_reaches_open h fan id w, eq_iff fan.topic t, eq_iff sub.topic fan.topic)

  publish-Follows :
      (b b' : Broker Store) (env : Env) (e e' : Event) (source : String)
      → IsConsistent b
      → publish memory b env e source ≡ (b', ok e')
      → length (events_of b'.store t) ≤ n + b.hub.buf
      → Follows t id n b
      → Follows t id n b'
  publish-Follows b b' env e e' source c eq room f =
      let done =
        publish-IsAccepted memory IsWellFormed events_of memory-IsStore b b' env e e' source
          c.store_ok eq in
      let fan : Event = record e' {
        state = (Computed.apply b.reducers (or_nil (memory.get_state b.store e.topic)) e').0;
      } in
      let topic : e'.topic ≡ e.topic = ap (λ (x : Event). x.topic) done.stamp in
      let log = events_of b.store t in
      elim (Bool-cases (e.topic =ₛ t)) [
        | inl same ↦
            let grown : events_of b'.store t ≡ log ++ e' ∷ [] = rw same at (done.log t) in
            let longer = ap length grown ∙ length-append log (e' ∷ []) in
            record {
              sub = record f.sub { queue = f.sub.queue ++ fan ∷ [] };
              found =
                  ap (λ (h : Hub). h.objects id) done.fanned
                  ∙ hub_queues b.hub fan f.sub c.hub_ok f.found f.opened f.named
                      (ap (λ u. u =ₛ t) topic ∙ same)
                      (omega (arith, queue_length b f, longer, room));
              opened = f.opened;
              named = f.named;
              queued =
                  map-append f.sub.queue (fan ∷ [])
                  ∙ ap (λ l. l ++ plain e' ∷ []) f.queued
                  ∙ sym (map-append (drop n log) (e' ∷ []))
                  ∙ ap (map plain) (sym (drop-snoc n log e' f.started))
                  ∙ ap (λ l. map plain (drop n l)) (sym grown);
              started = omega (arith, f.started, longer);
            }
        | inr other ↦
            let kept : events_of b'.store t ≡ log = rw other at (done.log t) in
            record {
              sub = f.sub;
              found =
                  ap (λ (h : Hub). h.objects id) done.fanned
                  ∙ hub_keeps b.hub fan f.sub c.hub_ok f.found f.opened f.named
                      (ap (λ u. u =ₛ t) topic ∙ other);
              opened = f.opened;
              named = f.named;
              queued = f.queued ∙ ap (λ l. map plain (drop n l)) (sym kept);
              started = omega (arith, f.started, ap length kept);
            }
      ]

  -- A publish, accepted or not, extends the log and keeps the buffer size.
  pub record Grows (b b' : Broker Store) : Type 0 where
    pub more : List Event
    pub log : events_of b'.store t ≡ events_of b.store t ++ more
    pub buf : b'.hub.buf ≡ b.hub.buf

  Grows-refl : (b : Broker Store) → Grows b b
  Grows-refl b = record { more = []; log = sym (append-nil (events_of b.store t)); buf = refl }

  Grows-trans : (a b c : Broker Store) → Grows a b → Grows b c → Grows a c
  Grows-trans a b c g h = record {
    more = g.more ++ h.more;
    log = h.log ∙ ap (λ l. l ++ h.more) g.log ∙ append_assoc (events_of a.store t) g.more h.more;
    buf = h.buf ∙ g.buf;
  }

  publish-Grows :
      (b : Broker Store) (env : Env) (e : Event) (source : String)
      → IsConsistent b
      → Published memory b env e source (publish memory b env e source)
      → Grows b (publish memory b env e source).0
  publish-Grows b env e source c (refused x h r) = subst (λ p. Grows b p.0) (sym r) (Grows-refl b)
  publish-Grows b env e source c (failed s x h r) = absurd (cc)
  publish-Grows b env e source c (accepted ot s e' h a r) =
      let done =
        publish-IsAccepted memory IsWellFormed events_of memory-IsStore b _ env e e' source
          c.store_ok (accepted-eq memory b env e source ot s e' r) in
      record {
        more = if e.topic =ₛ t then e' ∷ [] else [];
        log = ground (arith, done.log t, append-nil (events_of b.store t));
        buf = ap (λ (h : Hub). h.buf) done.fanned ∙ publish-buf b.hub _;
      }

  step-Follows :
      (b : Broker Store) (env : Env) (e : Event) (source : String)
      → IsConsistent b
      → length (events_of (publish memory b env e source).0.store t) ≤ n + b.hub.buf
      → Follows t id n b
      → Published memory b env e source (publish memory b env e source)
      → Follows t id n (publish memory b env e source).0
  step-Follows b env e source c room f (refused x h r) = subst (λ p. Follows t id n p.0) (sym r) f
  step-Follows b env e source c room f (failed s x h r) = absurd (cc)
  step-Follows b env e source c room f (accepted ot s e' h a r) =
      publish-Follows b _ env e e' source c (accepted-eq memory b env e source ot s e' r) room f

  pub publish_all-Grows :
      (b : Broker Store) (ps : List (Env × Event × String))
      → IsConsistent b
      → Grows b (publish_all memory b ps)
  unfolding publish_all
  publish_all-Grows b [] c = Grows-refl b
  publish_all-Grows b ((env, e, source) ∷ ps) c =
      let one = publish-Published memory b env e source in
      let b' = (publish memory b env e source).0 in
      Grows-trans b b' (publish_all memory b' ps) (publish-Grows b env e source c one)
        (publish_all-Grows b' ps (publish-IsConsistent b env e source c one))

  pub publish_all-Follows :
      (b : Broker Store) (ps : List (Env × Event × String))
      → IsConsistent b
      → length (events_of (publish_all memory b ps).store t) ≤ n + b.hub.buf
      → Follows t id n b
      → Follows t id n (publish_all memory b ps)
  unfolding publish_all
  publish_all-Follows b [] c room f = f
  publish_all-Follows b ((env, e, source) ∷ ps) c room f =
      let one = publish-Published memory b env e source in
      let b' = (publish memory b env e source).0 in
      let c' = publish-IsConsistent b env e source c one in
      let later = publish_all-Grows b' ps c' in
      let longer = ap length later.log ∙ length-append (events_of b'.store t) later.more in
      let same = (publish-Grows b env e source c one).buf in
      publish_all-Follows b' ps c' (omega (arith, room, same))
        (step-Follows b env e source c (omega (arith, room, longer)) f one)
