-- ===== src/Client/Tests.antt =====
-- The client at concrete calls and frames.
use event_watch.Base.{
  length-filter, ℕ, ◌≡◌, ◌≢◌, ◌≤◌, refl, String, Bool, true, false, Option, none, some, List, [],
  ◌∷◌, map, filter, leb, ltb, if◌then◌else◌, arith, eq_iff, lookup, insert, is_some, pos, negsuc,
  length, ap, ◌==◌, ◌&&◌,
}
use event_watch.Base.Decimal.{show_ℕ, show_from}
use event_watch.Core.{Event, Time, latest, last_n, from_seq, ok}
use event_watch.Core.Topic.{validate_topic, parse_object_type}
use event_watch.Computed
use event_watch.Computed.{new_registry, register}
use event_watch.Hub
use event_watch.Store
use event_watch.Store.{Store, events_of}
use event_watch.StoreApi.{Env}
use event_watch.StoreApi.Memory.{memory}
use event_watch.Broker.{
  Broker, publish_all, check, save, ingest, fan_out, attach, start_from, backfill,
}
use event_watch.Broker
use event_watch.Broker.Run.{IsConsistent, publish_all-IsConsistent}
use event_watch.Broker.Stream.{plain}
use event_watch.Broker.Backfill.{at_end}
use event_watch.Objtypes.Codec.{Codec}
use event_watch.Objtypes.Field.{IntFieldState, int_reducer, initial_int, step_int}
use event_watch.Transport.Ws as Ws
use event_watch.Transport.Ws.Parse.{parse_from}
use event_watch.Client
use event_watch.Client.{
  Client, TopicSub, resume_frame, dispatch_all, request, with_reconnect, backoff_after, subscribe,
  send,
}
use event_watch.Client.Wire.{InFrame, blank, received, subscribe_frame, decoded, publish_frame}
use event_watch.Client.Frames.{as_read, subscribe_frame-parse_from}
use event_watch.Client.Backoff.{doubled, backoff_after_lem}
use event_watch.Client.Requests.{IsTracked, answers_to, first_response, dispatch_all-answers}
use event_watch.Client.Upstream.{after_queue, has_topic}
use event_watch.Client.Mirror.{Link, subscribes, reconnects, step, reconnect, here, next}
use event_watch.Client.Mirror.Ready.{watches}
use event_watch.Client.Mirror.Invariant.{Reach-mirrored}
use event_watch.Client.Resume.{heard, answered, resume_gapless}
use event_watch.Client.Fields.{IntCall, int_event, get_int}
use event_watch.Client.Fields.Written.{after_int, int_written}
use event_watch.Samples.{opened, env, last_type}

subscribe_frame-parse_from_example :
    let m = received (subscribe_frame "pr/o/r/1" (last_n 25) 0) in
    (m.op ≡ "subscribe")
    × (m.topic ≡ "pr/o/r/1")
    × (parse_from m.from m.from_seq ≡ (if ltb 0 0 then from_seq 0 else as_read (last_n 25)))
subscribe_frame-parse_from_example =
    subscribe_frame-parse_from "pr/o/r/1" (last_n 25) 0 (omega arith)

backoff_after_lem_example :
    (backoff_after Client.new 9 ≤ Client.new.backoff_max)
    × (backoff_after Client.new 9 ≡ (
        if leb (doubled Client.new.backoff_initial 9) Client.new.backoff_max
        then doubled Client.new.backoff_initial 9
        else Client.new.backoff_max))
unfolding Client.new
backoff_after_lem_example = backoff_after_lem Client.new 9 (omega arith) (omega arith)

new-IsTracked : IsTracked Client.new
unfolding Client.new lookup
new-IsTracked id n h = cc h

-- A client that waits for its first request.
abbrev waiting : Client
waiting = (request Client.new (publish_frame opened)).0

abbrev ack_of : String → InFrame
ack_of id = record blank { type = "ack"; last_seq = 3; req_id = id }

dispatch_all-answers_example :
    answers_to "r1" (dispatch_all waiting (ack_of "r2" ∷ ack_of "r1" ∷ ack_of "r1" ∷ [])).1 ≡ (
      if is_some (lookup "r1" waiting.pending)
      then first_response "r1" (ack_of "r2" ∷ ack_of "r1" ∷ ack_of "r1" ∷ [])
      else [])
dispatch_all-answers_example =
    dispatch_all-answers (ack_of "r2" ∷ ack_of "r1" ∷ ack_of "r1" ∷ []) waiting "r1"
      (ground (arith, eq_iff "r1" ""))

waiting_r1 : is_some (lookup "r1" waiting.pending) ≡ true
unfolding request Client.new lookup insert send show_ℕ show_from
waiting_r1 = refl

abbrev start : Broker Store
start = Broker.new Store.new Hub.new (register new_registry (last_type ∷ [])) (pos 0)

-- The client of a connection, and one more topic.
abbrev linked : Link
linked =
    step
      (step (record { client = with_reconnect 5 9 Client.new; broker = start; session = none })
        reconnects)
      (subscribes "pr/o/r/1" latest)

linked_up : linked.session ≡ some Ws.new
unfolding step reconnect
linked_up = refl

linked_open : linked.client.closed ≡ false
unfolding step reconnect subscribe send Client.resubscribe_all Client.send_all with_reconnect
    Client.new validate_topic lookup
linked_open = refl

Reach-mirrored_example :
    after_queue "pr/o/r/1" (watches Ws.new "pr/o/r/1") linked.client.send_ch
    ≡ has_topic linked.client "pr/o/r/1"
Reach-mirrored_example =
    Reach-mirrored 5 9 start linked Ws.new
      (next (next here reconnects) (subscribes "pr/o/r/1" latest)) linked_up linked_open "pr/o/r/1"

abbrev one : List (Env × Event × String)
one = (env, opened, "http") ∷ []

abbrev stored : Broker Store
stored = publish_all memory start one

stored-IsConsistent : IsConsistent stored
stored-IsConsistent = publish_all-IsConsistent (register new_registry (last_type ∷ [])) (pos 0) one

logged_before : length (events_of stored.store "pr/o/r/1") ≡ 1
unfolding publish_all Broker.publish Broker.new check ingest save fan_out Store.new validate_topic
    parse_object_type Store.append lookup attach start_from backfill Store.upsert_meta
    Store.get_state Store.set_state insert Computed.apply register new_registry Hub.new
    Hub.subscribe Hub.publish
logged_before = refl

logged_after : length (events_of (at_end stored "pr/o/r/1" 2 [] one).store "pr/o/r/1") ≡ 2
unfolding publish_all Broker.publish Broker.new check ingest save fan_out Store.new validate_topic
    parse_object_type Store.append lookup attach start_from backfill Store.upsert_meta
    Store.get_state Store.set_state insert Computed.apply register new_registry Hub.new
    Hub.subscribe Hub.publish
logged_after = refl

stored_hub : (stored.hub.next ≡ 0) × (stored.hub.buf ≡ 256)
unfolding publish_all Broker.publish Broker.new check ingest save fan_out Store.new validate_topic
    parse_object_type Store.append lookup attach start_from backfill Store.upsert_meta
    Store.get_state Store.set_state insert Computed.apply register new_registry Hub.new
    Hub.subscribe Hub.publish Hub.deliver_all
stored_hub = (refl, refl)

abbrev watcher : TopicSub
watcher = record { from = latest; callbacks = 1 ∷ 2 ∷ []; last_seen_seq = 1 }

abbrev dialled : Client
dialled = record Client.new { topics = ("pr/o/r/1", watcher) ∷ [] }

dialled_topic : lookup "pr/o/r/1" dialled.topics ≡ some watcher
unfolding lookup
dialled_topic = refl

valid : validate_topic "pr/o/r/1" ≡ true
unfolding validate_topic
valid = refl

missed :
    length
      (filter (λ e. leb 2 e.seq) (events_of (at_end stored "pr/o/r/1" 2 [] one).store "pr/o/r/1"))
    ≤ length (events_of (at_end stored "pr/o/r/1" 2 [] one).store "pr/o/r/1")
missed =
    length-filter (λ e. leb 2 e.seq)
      (events_of (at_end stored "pr/o/r/1" 2 [] one).store "pr/o/r/1")

resume_gapless_example :
    let (sent, b₂) = answered stored (resume_frame ("pr/o/r/1", watcher)) one in
    heard (dispatch_all dialled (map decoded sent)).1
    ≡ map
        (λ e. ("pr/o/r/1", 1 ∷ 2 ∷ [], e))
        (map plain (filter (λ e. leb 2 e.seq) (events_of b₂.store "pr/o/r/1")))
resume_gapless_example =
    resume_gapless stored dialled "pr/o/r/1" watcher one stored-IsConsistent valid dialled_topic
      (omega arith) (omega (arith, logged_before)) (omega arith) (omega (arith, stored_hub))
      (omega (arith, logged_before, logged_after, stored_hub)) (omega (arith, logged_after, missed))

-- A codec that writes only the state that the counter below reaches.
abbrev five : IntFieldState
five = record { value = 5; exists = true; updated_at = pos 7 }

abbrev is_five : ℕ → Bool → Time → Bool
is_five v true (pos t) = (v == 5) && (t == 7)
is_five _ _ _ = false

is_five_lem :
    (v : ℕ) (x : Bool) (t : Time)
    → is_five v x t ≡ true
    → five ≡ record { value = v; exists = x; updated_at = t }
is_five_lem v true (pos t) h =
    let v_lem : v ≡ 5 = ground arith in let t_lem : t ≡ 7 = ground arith in rw (v_lem, t_lem) refl
is_five_lem v true (negsuc t) h = cc h
is_five_lem v false t h = cc h

fives_lem :
    (s : IntFieldState) (t : String)
    → (if is_five s.value s.exists s.updated_at then some "5" else none) ≡ some t
    → (◌≡◌ {A = IntFieldState × Bool} (five, true) (s, true)) × (t ≢ "")
fives_lem s t h =
    let is : is_five s.value s.exists s.updated_at ≡ true = ground arith in
    let text : Option.some "5" ≡ some t = cc in
    (ap (λ a. (a, true)) (is_five_lem s.value s.exists s.updated_at is), λ empty. cc)

abbrev fives : Codec IntFieldState
fives = record {
  marshal = λ s. if is_five s.value s.exists s.updated_at then some "5" else none;
  unmarshal = λ t. (five, true);
  round_trip = fives_lem;
}

abbrev set_to_five : Event
set_to_five = record (int_event (λ v. v) "int/n" (IntCall.set 5)) { seq = 1; occurred_at = pos 7 }

set_to_five_lem : fives.marshal (step_int initial_int set_to_five) ≡ some "5"
unfolding step_int initial_int int_event lookup
set_to_five_lem = refl

int_written_example :
    get_int fives ((int_reducer fives).apply none set_to_five).0
    ≡ ok (after_int fives (λ v. v) (IntCall.set 5) initial_int)
int_written_example =
    int_written fives (λ v. v) "int/n" (IntCall.set 5) none initial_int set_to_five "5" refl refl
      refl set_to_five_lem
