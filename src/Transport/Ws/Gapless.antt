-- ===== src/Transport/Ws/Gapless.antt =====
-- The stream of events that a client of a session gets.
use event_watch.Base.{
  ℕ, All, some, ◌+◌, ◌≤◌, ◌<◌, ◌≡◌, refl, sym, ap, ◌∙◌, String, true, none, List, [], ◌∷◌, ◌++◌,
  map, filter, length, leb, arith, lookup, length-append, word_mod, take,
}
use event_watch.Core.{Event, Result, ok, From, from_seq}
use event_watch.Core.Topic.{validate_topic}
use event_watch.Store.{Store, events_of}
use event_watch.StoreApi.{StoreApi, Env}
use event_watch.StoreApi.Memory.{memory}
use event_watch.Broker.{Broker, publish_all, attach, start_from}
use event_watch.Broker
use event_watch.Broker.Run.{IsConsistent}
use event_watch.Broker.Stream.{plain, length-map}
use event_watch.Broker.Backfill.{started, at_end, subscribe_gapless}
use event_watch.Transport.Ws.{InMsg, event, ack, out_buf, handle_subscribe, new}
use event_watch.Transport.Ws.Parse.{parse_from}
use event_watch.Transport.Ws.Frames.{past, forward_times}
use event_watch.Transport.Ws.Subscribe.{
  fresh, events_in, channel, IsOn, all_sent-IsOn, all_sent-events, handle_subscribe_accepted,
}

parse_from_seq : (text : String) (v : ℕ) → 0 < v → parse_from text v ≡ from_seq v
unfolding parse_from
parse_from_seq text v l = ground arith

pub subscribe_parts :
    {S : Type 0} (api : StoreApi S) (b : Broker S) (t : String) (from : From)
    → validate_topic t ≡ true
    → Broker.subscribe api b t from ≡ start_from api (attach api b t).0 t from (attach api b t).1
unfolding Broker.subscribe
subscribe_parts api b t from valid = rw (valid, Broker.subscribe) refl

new-out : (new.out ≡ []) × ((t : String) → lookup t new.subs ≡ none)
unfolding new lookup
new-out = (refl, λ t. refl)

at_read_none :
    (b : Broker Store) (t : String) (v : ℕ) (qs : List (Env × Event × String))
    → started b t v [] qs
      ≡ start_from memory (attach memory b t).0 t (from_seq v) (attach memory b t).1
unfolding publish_all
at_read_none b t v qs = refl

-- A client of a new session asks for a topic from seq `v` on, at most one past the end of the log.
-- Whatever is published once the session has handled the frame, if that is no more than the
-- subscription's buffer holds, and the events from seq `v` on, however long the log is before them,
-- leave two of the 512 places of the session's output free: once the forwarder has emptied its
-- channel, the `event` frames that the session has sent are all for that topic and are, in order,
-- the log from seq `v` on, each event once, but for the state that the live copies carry.
pub session_gapless :
    (b : Broker Store) (m : InMsg) (qs : List (Env × Event × String))
    → IsConsistent b
    → validate_topic m.topic ≡ true
    → 0 < m.from_seq
    → b.hub.next + 1 < word_mod
    → m.from_seq ≤ length (events_of b.store m.topic) + 1
    → length (events_of (at_end b m.topic m.from_seq [] qs).store m.topic)
      ≤ length (events_of b.store m.topic) + b.hub.buf
    → length (
          filter
            (λ e. leb m.from_seq e.seq)
            (events_of (at_end b m.topic m.from_seq [] qs).store m.topic))
        + 2
      ≤ out_buf
    → let (b₁, s₁) = handle_subscribe memory b new m in
      let b₂ = publish_all memory b₁ qs in
      let id = (attach memory b m.topic).1 in
      let out = (forward_times memory (length (channel (b₂.hub.objects id))) b₂ s₁ id).1.out in
      All (IsOn m.topic) out
      × (map plain (events_in out)
          ≡ map plain (filter (λ e. leb m.from_seq e.seq) (events_of b₂.store m.topic)))
session_gapless b m qs c valid given room le fits small =
    let t = m.topic in
    let v = m.from_seq in
    let id = (attach memory b t).1 in
    let (back, fence, sub, done, found, named, same) =
      subscribe_gapless b t v [] qs c room le fits in
    let at : Broker Store = (started b t v [] qs).0 in
    let eq : Broker.subscribe memory b t (parse_from m.from v) ≡ (at, ok (id, back, fence)) =
      ap (Broker.subscribe memory b t) (parse_from_seq m.from v given)
      ∙ subscribe_parts memory b t (from_seq v) valid
      ∙ sym (at_read_none b t v qs)
      ∙ ap (λ (r : Result (ℕ × List Event × ℕ)). (at, r)) done in
    let (here, out, runs) =
      handle_subscribe_accepted memory b at new m id fence back (new-out.1 t) eq
        (omega (arith, ap length new-out.0)) in
    let log = events_of (at_end b t v [] qs).store t in
    let live = past (fresh fence) sub.queue in
    let fits_out : length back + length live + 2 ≤ out_buf = omega (
      arith,
      length-append back live,
      length-map (back ++ live),
      ap length same,
      length-map (filter (λ e. leb v e.seq) log),
      small,
    ) in
    let b₂ = publish_all memory (handle_subscribe memory b new m).0 qs in
    let s₁ = (handle_subscribe memory b new m).1 in
    let moved : b₂ ≡ at_end b t v [] qs = ap (λ x. publish_all memory x qs) here in
    let found' : b₂.hub.objects id ≡ some sub =
      ap (λ (x : Broker Store). x.hub.objects id) moved ∙ found in
    let out' : s₁.out ≡ take out_buf (map (event t) back ++ ack t fence m.req_id ∷ []) =
      out
      ∙ ap (λ l. take out_buf (l ++ map (event t) back ++ ack t fence m.req_id ∷ [])) new-out.0 in
    (
      all_sent-IsOn b₂ s₁ t m.req_id id fence sub back runs found' out' fits_out named,
      ap (map plain) (all_sent-events b₂ s₁ t m.req_id id fence sub back runs found' out' fits_out)
          ∙ same
          ∙ ap (λ (x : Broker Store). map plain (filter (λ e. leb v e.seq) (events_of x.store t)))
              (sym moved),
    )
