-- ===== src/Transport/Ws/Tests.antt =====
-- A session at a concrete broker.
use event_watch.Base.{
  ◌≤◌, length-filter, ◌≡◌, refl, String, true, false, none, some, List, [], ◌∷◌, map, filter, take,
  length, leb, lookup, insert, pos, All, arith, if◌then◌else◌, ◌==◌,
}
use event_watch.Core.{Event}
use event_watch.Core.Topic.{validate_topic, parse_object_type}
use event_watch.Computed
use event_watch.Computed.{new_registry, register}
use event_watch.Hub
use event_watch.Hub.{Subscription}
use event_watch.Hub.Run.{is_gone}
use event_watch.Store
use event_watch.Store.{Store, events_of}
use event_watch.StoreApi.{Env}
use event_watch.StoreApi.Memory.{memory}
use event_watch.Broker.{
  Broker, publish, publish_all, check, save, ingest, fan_out, attach, start_from, backfill,
}
use event_watch.Broker
use event_watch.Broker.Run.{IsConsistent, publish_all-IsConsistent}
use event_watch.Broker.Stream.{plain}
use event_watch.Broker.Backfill.{at_end}
use event_watch.Transport.Ws.{Session, InMsg, new, handle_subscribe, close_all_subs, out_buf}
use event_watch.Transport.Ws.Frames.{frames, forward_times, forward_times-frames}
use event_watch.Transport.Ws.Subscribe.{fresh, events_in, channel, IsOn}
use event_watch.Transport.Ws.Gapless.{session_gapless}
use event_watch.Transport.Ws.Closing.{close_all_subs_gone}
use event_watch.Samples.{opened, env, last_type}

abbrev start : Broker Store
start = Broker.new Store.new Hub.new (register new_registry (last_type ∷ [])) (pos 0)

start-IsConsistent : IsConsistent start
unfolding publish_all
start-IsConsistent = publish_all-IsConsistent (register new_registry (last_type ∷ [])) (pos 0) []

abbrev ask : InMsg
ask = record {
  op = "subscribe";
  topic = "pr/o/r/1";
  from = "";
  from_seq = 1;
  req_id = "r1";
  type = "";
  actor = "";
  payload = [];
}

abbrev one : List (Env × Event × String)
one = (env, opened, "http") ∷ []

logged : length (events_of (at_end start "pr/o/r/1" 1 [] one).store "pr/o/r/1") ≡ 1
unfolding publish_all publish Broker.new check ingest save fan_out Store.new validate_topic
    parse_object_type Store.append lookup attach start_from backfill Store.upsert_meta
    Store.get_state Store.set_state insert Computed.apply register new_registry Hub.new
    Hub.subscribe Hub.publish
logged = refl

valid : validate_topic "pr/o/r/1" ≡ true
unfolding validate_topic
valid = refl

kept :
    length
      (filter (λ e. leb 1 e.seq) (events_of (at_end start "pr/o/r/1" 1 [] one).store "pr/o/r/1"))
    ≤ length (events_of (at_end start "pr/o/r/1" 1 [] one).store "pr/o/r/1")
kept =
    length-filter (λ e. leb 1 e.seq) (events_of (at_end start "pr/o/r/1" 1 [] one).store "pr/o/r/1")

session_gapless_example :
    let (b₁, s₁) = handle_subscribe memory start new ask in
    let b₂ = publish_all memory b₁ one in
    let id = (attach memory start "pr/o/r/1").1 in
    let out = (forward_times memory (length (channel (b₂.hub.objects id))) b₂ s₁ id).1.out in
    All (IsOn "pr/o/r/1") out
    × (map plain (events_in out)
        ≡ map plain (filter (λ e. leb 1 e.seq) (events_of b₂.store "pr/o/r/1")))
unfolding Broker.new Store.new Hub.new lookup
session_gapless_example =
    session_gapless start ask one start-IsConsistent valid (omega arith) (omega arith) (omega arith)
      (omega (arith, logged)) (omega (arith, logged, kept))

abbrev sub : Subscription
sub = record {
  topic = "pr/o/r/1";
  queue = opened ∷ [];
  id = 1;
  done = false;
  closed = false;
  lag = 2;
}

abbrev watching : Session
watching = record {
  out = [];
  subs = ("pr/o/r/1", 1) ∷ [];
  forwards = λ id. if id == 1 then some (fresh 0) else none;
}

abbrev holding : Broker Store
holding = record start {
  hub = record Hub.new { objects = λ id. if id == 1 then some sub else none };
}

forward_times-frames_example :
    let (b', s') = forward_times memory 1 holding watching 1 in
    (s'.out ≡ take out_buf (frames (fresh 0) sub (opened ∷ [])))
    × (b'.hub.objects 1 ≡ some (record sub { queue = [] }))
forward_times-frames_example =
    forward_times-frames memory (opened ∷ []) holding watching 1 (fresh 0) sub refl refl refl
      (omega arith)

close_all_subs_gone_example :
    All
      (λ p. is_gone ((close_all_subs memory holding watching).0.hub.objects p.1) ≡ true)
      watching.subs
    × ((close_all_subs memory holding watching).1.subs ≡ [])
close_all_subs_gone_example = close_all_subs_gone memory holding watching
