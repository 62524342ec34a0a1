-- ===== src/Broker.antt =====
-- internal/broker/broker.go: the ingest path and subscriptions, over any store of the interface.
-- `Publish` is the composition of two parts, which a subscriber's calls may come between: what it
-- does with the store, and what it does with the hub.
pub mod Publish
pub mod Accepted
pub mod Fold
pub mod Run
pub mod Stream
pub mod Backfill
pub mod Typed
pub mod Sections
mod Tests
use event_watch.Base.{
  ℕ, ◌+◌, String, Bool, true, false, not, ◌&&◌, Option, none, some, List, [], ◌∷◌, ◌++◌, map, ℤ,
  pos, signed64, ◌=ₛ◌, if◌then◌else◌, length, drop, get_last?, ltb, is_some,
}
use event_watch.Core.{
  Event, TopicMeta, RawMessage, Time, From, latest, last_n, from_seq, Error, invalid_topic,
  type_required, Result, ok, err,
}
use event_watch.Core.Topic.{validate_topic, parse_object_type}
use event_watch.Computed.{Registry}
use event_watch.Computed
use event_watch.Hub.{Hub, Subscription, subscriber_count}
use event_watch.Hub
use event_watch.StoreApi.{StoreApi, Env}

-- The updates of the metrics of internal/metrics/metrics.go that the broker makes, in order.
pub data Metric : Type 0 where
  ingested : String → String → Metric
  fanned_out : String → ℕ → Metric
  dropped_slow_consumer : String → Metric
  subscribed unsubscribed : String → Metric

pub record Broker (S : Type 0) : Type 0 where
  pub store : S
  pub hub : Hub
  pub reducers : Registry
  pub default_ttl : ℤ
  pub metrics : List Metric

-- The `OnDrop` that `New` sets, as what it adds to the metrics.
abbrev pub on_drop : String → List Metric
on_drop topic = elim (parse_object_type topic) [
  | none ↦ []
  | some ot ↦ dropped_slow_consumer ot ∷ []
]

abbrev pub on_drops : List String → List Metric
on_drops [] = []
on_drops (t ∷ ts) = on_drop t ++ on_drops ts

abbrev pub or_blank : Option String → String
or_blank none = ""
or_blank (some ot) = ot

-- `prev, _ := b.Store.GetState(...)`.
abbrev pub or_nil : Result RawMessage → RawMessage
or_nil (ok raw) = raw
or_nil (err x) = none

abbrev pub fence_of : Option Event → ℕ
fence_of none = 0
fence_of (some e) = e.seq

-- `&core.TopicMeta{Topic, ObjectType, TTL}`.
abbrev pub meta_of : String → String → ℤ → TopicMeta
meta_of topic ot ttl = record {
  topic = topic;
  object_type = ot;
  ttl = ttl;
  created_at = pos 0;
  last_event_at = pos 0;
  last_seq = 0;
}

module _ {S : Type 0} where
  unfoldable pub new : S → Hub → Registry → ℤ → Broker S
  new store hub reducers default_ttl = record {
    store = store;
    hub = record hub { has_on_drop = true };
    reducers = reducers;
    default_ttl = default_ttl;
    metrics = [];
  }

module _ {S : Type 0} (api : StoreApi S) where
  -- The checks at the head of `Publish`, with the object type.
  unfoldable pub check : Event → Result String
  check e =
      if not (validate_topic e.topic)
      then err invalid_topic
      else if e.type =ₛ ""
      then err type_required
      else elim (parse_object_type e.topic) [ none ↦ err invalid_topic | some ot ↦ ok ot ]

  -- Reduce and save the new state, if there is one and no error; the metadata follow.
  unfoldable pub save : Broker S → Env → Event → String → RawMessage × Option Error → Broker S
  save b env e ot (next, rerr) =
      let saved =
        if not (is_some rerr) && is_some next
        then api.set_state b.store env e.topic next
        else b.store in
      record b { store = api.upsert_meta saved env (meta_of e.topic ot b.default_ttl) }

  -- The part of `Publish` from `Append` to `UpsertMeta`: the appended event, and its copy with the
  -- reduced state that is to be fanned out. The ingest lock keeps other publishes out of it, but not
  -- the deletes of the archiver: Broker/Sections has a step for each of its store calls.
  unfoldable pub ingest : Broker S → Env → Event → String → Broker S × Result (Event × Event)
  ingest b env e ot =
      let (stored, appended) = api.append b.store env e in
      elim appended [
        | err x ↦ (record b { store = stored }, err x)
        | ok e' ↦
            let reduced = Computed.apply b.reducers (or_nil (api.get_state stored e.topic)) e' in
            (
              save (record b { store = stored }) env e ot reduced,
              ok (e', record e' { state = reduced.0 }),
            )
      ]

  -- The part of `Publish` from `Hub.Publish` on.
  unfoldable pub fan_out : Broker S → Event → String → String → Broker S
  fan_out b fanout ot source =
      let hub = Hub.publish b.hub fanout in
      record b {
        hub = hub;
        metrics =
            b.metrics
            ++ (on_drops (drop (length b.hub.drop_calls) hub.drop_calls)
                ++ ingested ot source ∷ fanned_out ot (subscriber_count hub fanout.topic) ∷ []);
      }

  -- The event as its publisher sees it afterwards; its `seq` is what the Go method returns.
  unfoldable pub publish : Broker S → Env → Event → String → Broker S × Result Event
  publish b env e source = elim (check e) [
    | err x ↦ (b, err x)
    | ok ot ↦
        let (b', done) = ingest b env e ot in
        elim done [ err x ↦ (b', err x) | ok (e', fanout) ↦ (fan_out b' fanout ot source, ok e') ]
  ]

  -- The backfill that `from` asks for; `int(from.Value)` reads the 64 bits as signed.
  unfoldable pub backfill : S → String → From → Result (List Event)
  backfill s topic latest = ok []
  backfill s topic (last_n n) = api.latest s topic (signed64 n)
  backfill s topic (from_seq n) = api.read s topic n (pos 0)

  -- `Subscribe` is the composition of two parts, which publishes may come between: the subscription
  -- to the hub, with its id, and the reading of the backfill with all that follows.
  unfoldable pub attach : Broker S → String → Broker S × ℕ
  attach b topic = let (hub, id) = Hub.subscribe b.hub topic in (record b { hub = hub }, id)

  unfoldable pub start_from : Broker S → String → From → ℕ → Broker S × Result (ℕ × List Event × ℕ)
  start_from b topic from id = elim (backfill b.store topic from) [
    | err x ↦ (record b { hub = Hub.close b.hub id }, err x)
    | ok events ↦ (
      record b { metrics = b.metrics ++ subscribed (or_blank (parse_object_type topic)) ∷ [] },
      ok (id, events, fence_of (get_last? events)),
    )
  ]

  -- The id of the hub subscription, the backfill and the fence.
  unfoldable pub subscribe : Broker S → String → From → Broker S × Result (ℕ × List Event × ℕ)
  subscribe b topic from =
      if not (validate_topic topic)
      then (b, err invalid_topic)
      else let (b', id) = attach b topic in start_from b' topic from id

  unfoldable pub unsubscribe : Broker S → ℕ → Broker S
  unsubscribe b id = elim (b.hub.objects id) [
    | none ↦ b
    | some sub ↦ record b {
      hub = Hub.close b.hub id;
      metrics =
          b.metrics
          ++ elim (parse_object_type sub.topic) [ none ↦ [] | some ot ↦ unsubscribed ot ∷ [] ];
    }
  ]

  unfoldable pub get_state : Broker S → String → Result RawMessage
  get_state b topic = api.get_state b.store topic

  unfoldable pub events : Broker S → String → ℕ → ℤ → Result (List Event)
  events b topic from limit = api.read b.store topic from limit

  unfoldable pub latest_events : Broker S → String → ℤ → Result (List Event)
  latest_events b topic n = api.latest b.store topic n

  unfoldable pub list_topics : Broker S → String → ℤ → Result (List String)
  list_topics b prefix limit = api.list_topics b.store prefix limit

-- Publishes one after another, as the ingest lock orders them.
unfoldable pub publish_all :
    {S : Type 0} → StoreApi S → Broker S → List (Env × Event × String) → Broker S
publish_all api b [] = b
publish_all api b ((env, e, source) ∷ ps) = publish_all api (publish api b env e source).0 ps
