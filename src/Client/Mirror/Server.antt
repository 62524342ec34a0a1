-- ===== src/Client/Mirror/Server.antt =====
-- What a frame of the client does to the subscriptions of the session.
use event_watch.Base.{
  ℕ, ◌≡◌, refl, ap, ◌∙◌, String, Bool, true, false, some, List, [], ◌∷◌, ◌=ₛ◌, if◌then◌else◌,
  eq_iff, arith, lookup, lookup-insert, lookup-remove, is_some, sub64, Bool-cases, Option-cases,
  inl, inr,
}
use event_watch.Core.{Event, ok, From, latest, last_n, from_seq}
use event_watch.Hub.{Subscription, receive}
use event_watch.Broker.Publish.{Result-cases}
use event_watch.Transport.Ws.Parse.{parse_from}
use event_watch.Core.Topic.{validate_topic}
use event_watch.Store.{Store}
use event_watch.StoreApi.{Env}
use event_watch.StoreApi.Memory.{memory}
use event_watch.Broker.{Broker, attach, start_from, backfill}
use event_watch.Broker
use event_watch.Transport.Ws.{
  Session, Forward, OutMsg, InMsg, event, error, lagging, pong, text, update, requested, send,
  send_all, handle, handle_subscribe, handle_unsubscribe, handle_get_state, handle_publish, forward,
  forward_event,
}
use event_watch.Transport.Ws.Gapless.{subscribe_parts}
use event_watch.Client.Wire.{OutFrame, received}
use event_watch.Client.Upstream.{served, IsSubscribable}

send-subs : (s : Session) (m : OutMsg) → (send s m).subs ≡ s.subs
unfolding send
send-subs s m = ground arith

send_all-subs : (s : Session) (t : String) (es : List Event) → (send_all s t es).subs ≡ s.subs
unfolding send_all
send_all-subs s t [] = refl
send_all-subs s t (e ∷ es) = send_all-subs (send s (event t e)) t es ∙ send-subs s (event t e)

forward_event-subs :
    (s : Session) (id : ℕ) (fw : Forward) (sub : Subscription) (e : Event)
    → (forward_event s id fw sub e).subs ≡ s.subs
unfolding forward_event
forward_event-subs s id fw sub e =
    let lost = lagging sub.topic (sub64 sub.lag fw.last_lag) in
    let told = record (send s lost) {
      forwards = update s.forwards id (some (record fw { last_lag = sub.lag }));
    } in
    ground
      (arith, send-subs s lost, send-subs s (event sub.topic e), send-subs told (event sub.topic e))

pub forward-subs :
    (b : Broker Store) (s : Session) (id : ℕ) → (forward memory b s id).1.subs ≡ s.subs
unfolding forward
forward-subs b s id = elim (Option-cases (s.forwards id)) [
  | inl gone ↦ rw (gone, forward) refl
  | inr (fw, runs) ↦ elim (Option-cases (receive b.hub id)) [
    | inl empty ↦ rw (runs, empty, forward) refl
    | inr ((e, hub), taken) ↦ elim (Option-cases (b.hub.objects id)) [
      | inl free ↦ rw (runs, taken, free, forward) refl
      | inr (sub, there) ↦ rw (runs, taken, there, forward) (forward_event-subs s id fw sub e)
    ]
  ]
]

-- The in-memory store always has a backfill.
start_from-ok :
    (b : Broker Store) (t : String) (from : From) (id : ℕ)
    → (back : List Event) × (fence : ℕ) × ((start_from memory b t from id).1 ≡ ok (id, back, fence))
unfolding start_from backfill
start_from-ok b t latest id = ([], _, refl)
start_from-ok b t (last_n n) id = (_, _, refl)
start_from-ok b t (from_seq n) id = (_, _, refl)

handle_subscribe-subs :
    (b : Broker Store) (s : Session) (m : InMsg) (t : String)
    → validate_topic m.topic ≡ true
    → is_some (lookup t (handle_subscribe memory b s m).1.subs)
      ≡ (if m.topic =ₛ t then true else is_some (lookup t s.subs))
unfolding handle_subscribe
handle_subscribe-subs b s m t valid = elim (Option-cases (lookup m.topic s.subs)) [
  | inr (other, there) ↦
      rw (there, handle_subscribe)
        (ground (
          arith,
          send-subs s (error (text "already subscribed") m.topic m.req_id),
          eq_iff m.topic t,
          λ (e : m.topic ≡ t). ap (λ k. lookup k s.subs) e,
        ))
  | inl free ↦
      let from = parse_from m.from m.from_seq in
      let at = attach memory b m.topic in
      let (back, fence, done) = start_from-ok at.0 m.topic from at.1 in
      let started = ap (λ r. r.1) (subscribe_parts memory b m.topic from valid) ∙ done in
      rw (free, started, handle_subscribe) (ground (arith, lookup-insert m.topic t at.1 s.subs))
]

handle_unsubscribe-subs :
    (b : Broker Store) (s : Session) (topic t : String)
    → is_some (lookup t (handle_unsubscribe memory b s topic).1.subs)
      ≡ (if topic =ₛ t then false else is_some (lookup t s.subs))
unfolding handle_unsubscribe
handle_unsubscribe-subs b s topic t = elim (Option-cases (lookup topic s.subs)) [
  | inl free ↦
      rw (free, handle_unsubscribe)
        (ground (arith, eq_iff topic t, λ (e : topic ≡ t). ap (λ k. lookup k s.subs) e))
  | inr (id, there) ↦ rw (there, handle_unsubscribe) (ground (arith, lookup-remove topic t s.subs))
]

handle_get_state-subs :
    (b : Broker Store) (s : Session) (m : InMsg) → (handle_get_state memory b s m).subs ≡ s.subs
unfolding handle_get_state
handle_get_state-subs b s m = elim (Result-cases (Broker.get_state memory b m.topic)) [
  | inl (x, e) ↦ rw (e, handle_get_state) (send-subs s _)
  | inr (raw, e) ↦ rw (e, handle_get_state) (send-subs s _)
]

handle_publish-subs :
    (b : Broker Store) (s : Session) (env : Env) (m : InMsg)
    → (handle_publish memory b s env m).1.subs ≡ s.subs
unfolding handle_publish
handle_publish-subs b s env m =
    elim (Result-cases (Broker.publish memory b env (requested m env.now) "ws").1) [
      | inl (x, e) ↦ rw (e, handle_publish) (send-subs s _)
      | inr (e', e) ↦ rw (e, handle_publish) (send-subs s _)
    ]

handle_other-subs :
    (b : Broker Store) (s : Session) (env : Env) (m : InMsg)
    → (m.op =ₛ "subscribe") ≡ false
    → (m.op =ₛ "unsubscribe") ≡ false
    → (handle memory b s env m).1.subs ≡ s.subs
unfolding handle
handle_other-subs b s env m no_sub no_unsub = ground (
  arith,
  handle_get_state-subs b s m,
  handle_publish-subs b s env m,
  send-subs s pong,
  send-subs s (error (text "unknown op") "" m.req_id),
)

served_other :
    (t : String) (f : OutFrame) (before : Bool)
    → (f.op =ₛ "subscribe") ≡ false
    → (f.op =ₛ "unsubscribe") ≡ false
    → before ≡ served t f before
served_other t f before no_sub no_unsub = ground arith

-- A frame leaves the session subscribed as the client takes it to.
pub handle-served :
    (b : Broker Store) (s : Session) (env : Env) (f : OutFrame) (t : String)
    → IsSubscribable f
    → is_some (lookup t (handle memory b s env (received f)).1.subs)
      ≡ served t f (is_some (lookup t s.subs))
unfolding handle
handle-served b s env f t valid = elim (Bool-cases (f.op =ₛ "subscribe")) [
  | inl sub ↦ rw (sub, handle) (handle_subscribe-subs b s (received f) t (valid sub))
  | inr n1 ↦ elim (Bool-cases (f.op =ₛ "unsubscribe")) [
    | inl unsub ↦ rw (n1, unsub, handle) (handle_unsubscribe-subs b s f.topic t)
    | inr n2 ↦
        ap (λ (m : List (String × ℕ)). is_some (lookup t m))
          (handle_other-subs b s env (received f) n1 n2)
        ∙ served_other t f (is_some (lookup t s.subs)) n1 n2
  ]
]
