-- ===== src/Transport/Ws.antt =====
-- internal/transport/ws.go: a WebSocket session. The goroutines of a session share it and the
-- broker; every frame handled, every event forwarded and every frame written is one step. The
-- deadlines and pings of the connection are left out.
pub mod Parse
pub mod Frames
pub mod Subscribe
pub mod Gapless
pub mod Closing
mod Tests
use event_watch.Base.{
  ℕ, ◌+◌, String, Bool, true, false, ◌||◌, Option, none, some, List, [], ◌∷◌, ◌++◌, ltb, leb, ◌==◌,
  ◌=ₛ◌, if◌then◌else◌, length, sub64, lookup, insert, remove,
}
use event_watch.Core.{Event, Payload, RawMessage, Time, From, Error, Result, ok, err}
use event_watch.Hub.{Hub, Subscription}
use event_watch.Hub
use event_watch.StoreApi.{StoreApi, Env}
use event_watch.Broker.{Broker}
use event_watch.Broker
use event_watch.Transport.Ws.Parse.{parse_from}

abbrev pub out_buf : ℕ
out_buf = 512

pub record InMsg : Type 0 where
  pub op : String
  pub topic : String
  pub from : String
  pub from_seq : ℕ
  pub req_id : String
  pub type : String
  pub actor : String
  pub payload : Payload

-- `Msg`, a fixed text or that of an error.
pub data Message : Type 0 where
  text : String → Message
  of_error : Error → Message

-- A constructor for each `Type` of frame, with the fields that it sets.
pub data OutMsg : Type 0 where
  event : String → Event → OutMsg
  ack : String → ℕ → String → OutMsg
  state : String → RawMessage → String → OutMsg
  error : Message → String → String → OutMsg
  lagging : String → ℕ → OutMsg
  pong : OutMsg

-- A goroutine that runs `forward`, with its local `last_lag`.
pub record Forward : Type 0 where
  pub fence : ℕ
  pub last_lag : ℕ
  pub cancelled : Bool

-- `out` is the content of the channel, oldest first. `subs` names the hub subscription of a topic;
-- `forwards` holds the forwarders that have not returned, by that id.
pub record Session : Type 0 where
  pub out : List OutMsg
  pub subs : List (String × ℕ)
  pub forwards : ℕ → Option Forward

unfoldable pub new : Session
new = record { out = []; subs = []; forwards = λ id. none }

abbrev pub update : (ℕ → Option Forward) → ℕ → Option Forward → ℕ → Option Forward
update m k v j = if k == j then v else m j

-- A full channel drops the frame.
unfoldable pub send : Session → OutMsg → Session
send s m = if ltb (length s.out) out_buf then record s { out = s.out ++ m ∷ [] } else s

unfoldable pub send_all : Session → String → List Event → Session
send_all s topic [] = s
send_all s topic (e ∷ es) = send_all (send s (event topic e)) topic es

abbrev cancel : Option Forward → Option Forward
cancel none = none
cancel (some fw) = some (record fw { cancelled = true })

-- The event that a `publish` frame asks for, at the time `now`.
abbrev pub requested : InMsg → Time → Event
requested m now = record {
  id = "";
  topic = m.topic;
  type = m.type;
  seq = 0;
  occurred_at = now;
  actor = m.actor;
  payload = m.payload;
  state = none;
}

-- What `forward` does with an event that it has received.
unfoldable pub forward_event : Session → ℕ → Forward → Subscription → Event → Session
forward_event s id fw sub e =
    if leb e.seq fw.fence
    then s
    else if ltb fw.last_lag sub.lag
    then send
        (record (send s (lagging sub.topic (sub64 sub.lag fw.last_lag))) {
          forwards = update s.forwards id (some (record fw { last_lag = sub.lag }));
        })
        (event sub.topic e)
    else send s (event sub.topic e)

module _ {S : Type 0} (api : StoreApi S) where
  unfoldable pub handle_subscribe : Broker S → Session → InMsg → Broker S × Session
  unfolding send send_all
  handle_subscribe b s m = elim (lookup m.topic s.subs) [
    | some other ↦ (b, send s (error (text "already subscribed") m.topic m.req_id))
    | none ↦
        let (b', started) = Broker.subscribe api b m.topic (parse_from m.from m.from_seq) in
        elim started [
          | err x ↦ (b', send s (error (of_error x) m.topic m.req_id))
          | ok (id, backfill, fence) ↦ (
            b',
            record (send (send_all s m.topic backfill) (ack m.topic fence m.req_id)) {
              subs = insert m.topic id s.subs;
              forwards =
                  update s.forwards id
                    (some (record { fence = fence; last_lag = 0; cancelled = false }));
            },
          )
        ]
  ]

  unfoldable pub handle_unsubscribe : Broker S → Session → String → Broker S × Session
  handle_unsubscribe b s topic = elim (lookup topic s.subs) [
    | none ↦ (b, s)
    | some id ↦ (
      Broker.unsubscribe api b id,
      record s {
        subs = remove topic s.subs;
        forwards = update s.forwards id (cancel (s.forwards id));
      },
    )
  ]

  -- The loop over the subscriptions, in the order in which the map is read.
  unfoldable pub close_subs : Broker S → Session → List (String × ℕ) → Broker S × Session
  close_subs b s [] = (b, s)
  close_subs b s ((topic, id) ∷ subs) =
      close_subs (Broker.unsubscribe api b id)
        (record s { forwards = update s.forwards id (cancel (s.forwards id)) }) subs

  unfoldable pub close_all_subs : Broker S → Session → Broker S × Session
  close_all_subs b s = close_subs b (record s { subs = [] }) s.subs

  unfoldable pub handle_get_state : Broker S → Session → InMsg → Session
  handle_get_state b s m = elim (Broker.get_state api b m.topic) [
    | err x ↦ send s (error (of_error x) m.topic m.req_id)
    | ok raw ↦ send s (state m.topic raw m.req_id)
  ]

  unfoldable pub handle_publish : Broker S → Session → Env → InMsg → Broker S × Session
  handle_publish b s env m =
      let (b', done) = Broker.publish api b env (requested m env.now) "ws" in
      elim done [
        | err x ↦ (b', send s (error (of_error x) m.topic m.req_id))
        | ok e ↦ (b', send s (ack m.topic e.seq m.req_id))
      ]

  -- One round of `readPump`.
  unfoldable pub handle : Broker S → Session → Env → InMsg → Broker S × Session
  unfolding handle_subscribe handle_unsubscribe handle_get_state handle_publish
  handle b s env m =
      if m.op =ₛ "subscribe"
      then handle_subscribe b s m
      else if m.op =ₛ "unsubscribe"
      then handle_unsubscribe b s m.topic
      else if m.op =ₛ "get_state"
      then (b, handle_get_state b s m)
      else if m.op =ₛ "publish"
      then handle_publish b s env m
      else if m.op =ₛ "ping"
      then (b, send s pong)
      else (b, send s (error (text "unknown op") "" m.req_id))

  -- A forwarder that has not returned takes the oldest event from the channel, if there is one.
  unfoldable pub forward : Broker S → Session → ℕ → Broker S × Session
  unfolding forward_event
  forward b s id = elim (s.forwards id) [
    | none ↦ (b, s)
    | some fw ↦ elim (Hub.receive b.hub id) [
      | none ↦ (b, s)
      | some (e, hub) ↦ elim (b.hub.objects id) [
        | none ↦ (b, s)
        | some sub ↦ (record b { hub = hub }, forward_event s id fw sub e)
      ]
    ]
  ]

-- A forwarder that is cancelled, or whose subscription is done, returns.
unfoldable pub returned : Session → ℕ → Option Subscription → Session
returned s id sub = elim (s.forwards id) [
  | none ↦ s
  | some fw ↦
      if fw.cancelled || (elim sub [ none ↦ false | some t ↦ t.done ])
      then record s { forwards = update s.forwards id none }
      else s
]

-- `writePump` takes the oldest frame.
unfoldable pub next_frame : Session → Option (OutMsg × Session)
next_frame s = elim s.out [ [] ↦ none | m ∷ ms ↦ some (m, record s { out = ms }) ]
