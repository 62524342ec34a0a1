-- ===== src/Client.antt =====
-- client/client.go: the Go client, one WebSocket connection that is dialled again when it drops.
-- Each public call, each frame that is dispatched and each frame that the writer takes is one step.
-- A callback is its id in the map of its topic; a call of it is a value. The order of an association
-- list, and of a topic's callbacks, stands for the order in which Go ranges over the map. A frame
-- that finds `sendCh` full waits for the writer: the step stands for the moment at which it enters.
pub mod Wire
pub mod Frames
pub mod Dispatch
pub mod Requests
pub mod Backoff
pub mod Upstream
pub mod Mirror
pub mod Resume
pub mod Fields
mod Tests
use event_watch.Base.{
  ℕ, zero, suc, ◌+◌, ◌*◌, ◌%◌, String, Bool, true, false, Option, none, some, List, [], ◌∷◌, ◌++◌,
  map, ltb, ltb_ℤ, ◌==◌, ◌=ₛ◌, if◌then◌else◌, lookup, insert, remove, add64, signed64, word_mod,
  not, ◌||◌,
}
use Prim.Native.String.{◌++◌ as ◌++ₛ◌}
use event_watch.Base.Decimal.{show_ℕ}
use event_watch.Core.{
  Event, Payload, RawMessage, From, latest, last_n, from_seq, Error, invalid_topic, Result, ok, err,
}
use event_watch.Core.Topic.{validate_topic}
use event_watch.Transport.Ws.{InMsg, OutMsg, Message, event, ack, state, error, lagging, pong}
use event_watch.Client.Wire.{
  OutFrame, received, InFrame, blank, decoded, blank_out, from_text, seq_of, subscribe_frame,
  publish_frame, get_state_frame,
}

-- `err` is set where the frame is an error.
pub record PendingResp : Type 0 where
  pub frame : InFrame
  pub failed : Bool

pub record TopicSub : Type 0 where
  pub from : From
  pub callbacks : List ℕ
  pub last_seen_seq : ℕ

-- `send_ch` is the content of the channel, oldest first; `pending` holds the ids of the requests
-- that wait. Durations are the bit patterns of an int64 of nanoseconds.
pub record Client : Type 0 where
  pub backoff_initial : ℕ
  pub backoff_max : ℕ
  pub send_ch : List OutFrame
  pub closed : Bool
  pub topics : List (String × TopicSub)
  pub next_id : ℕ
  pub pending : List (String × ℕ)
  pub next_req : ℕ

-- The defaults of `Dial`, 100 ms and 30 s.
unfoldable pub new : Client
new = record {
  backoff_initial = 100000000;
  backoff_max = 30000000000;
  send_ch = [];
  closed = false;
  topics = [];
  next_id = 0;
  pending = [];
  next_req = 0;
}

-- The option `WithReconnect`.
unfoldable pub with_reconnect : ℕ → ℕ → Client → Client
with_reconnect initial max c = record c { backoff_initial = initial; backoff_max = max }

-- `Close`: the first call closes `done`, and later ones change nothing.
unfoldable pub close : Client → Client
close c = record c { closed = true }

-- After `Close` no writer is left to read the channel.
unfoldable pub send : Client → OutFrame → Client
send c f = if c.closed then c else record c { send_ch = c.send_ch ++ f ∷ [] }

-- The topic's entry with one more callback.
abbrev pub joined : Option TopicSub → From → ℕ → TopicSub
joined none from id = record { from = from; callbacks = id ∷ []; last_seen_seq = 0 }
joined (some ts) from id = record ts { callbacks = ts.callbacks ++ id ∷ [] }

-- `Subscribe`, with the id of the handle that it returns.
unfoldable pub subscribe : Client → String → From → Client × Result ℕ
unfolding send subscribe_frame
subscribe c topic from =
    let id = add64 c.next_id 1 in
    let old = lookup topic c.topics in
    let c' = record c { next_id = id; topics = insert topic (joined old from id) c.topics } in
    if not (validate_topic topic)
    then (c, err invalid_topic)
    else elim old [ none ↦ (send c' (subscribe_frame topic from 0), ok id) | some ts ↦ (c', ok id) ]

abbrev pub delete_callback : ℕ → List ℕ → List ℕ
delete_callback id [] = []
delete_callback id (j ∷ ids) =
    if j == id then delete_callback id ids else j ∷ delete_callback id ids

-- `Handle.Close`, on a handle for a topic and an id.
unfoldable pub remove_callback : Client → String → ℕ → Client
unfolding send
remove_callback c topic id = elim (lookup topic c.topics) [
  | none ↦ c
  | some ts ↦ elim (delete_callback id ts.callbacks) [
    | [] ↦
        send (record c { topics = remove topic c.topics })
          (record blank_out { op = "unsubscribe"; topic = topic })
    | j ∷ ids ↦ record c { topics = insert topic (record ts { callbacks = j ∷ ids }) c.topics }
  ]
]

-- What a frame makes the client do: the callbacks of a topic are called with an event, or the
-- goroutine that waits for a request gets its response.
pub data Delivery : Type 0 where
  calls : String → List ℕ → Event → Delivery
  answers : String → PendingResp → Delivery

abbrev pub saw : TopicSub → Event → TopicSub
saw ts e = record ts {
  last_seen_seq = if ltb ts.last_seen_seq e.seq then e.seq else ts.last_seen_seq;
}

unfoldable pub on_event : Client → String → Option Event → Client × List Delivery
on_event c topic none = (c, [])
on_event c topic (some e) = elim (lookup topic c.topics) [
  | none ↦ (c, [])
  | some ts ↦
      (record c { topics = insert topic (saw ts e) c.topics }, calls topic ts.callbacks e ∷ [])
]

unfoldable pub on_response : Client → InFrame → Client × List Delivery
on_response c f = if f.req_id =ₛ "" then (c, []) else elim (lookup f.req_id c.pending) [
  | none ↦ (c, [])
  | some n ↦ (
    record c { pending = remove f.req_id c.pending },
    answers f.req_id (record { frame = f; failed = f.type =ₛ "error" }) ∷ [],
  )
]

unfoldable pub dispatch : Client → InFrame → Client × List Delivery
unfolding on_event on_response
dispatch c f =
    if f.type =ₛ "event"
    then on_event c f.topic f.event
    else if f.type =ₛ "state" || (f.type =ₛ "ack" || f.type =ₛ "error")
    then on_response c f
    else (c, [])

-- The loop of `reader`.
unfoldable pub dispatch_all : Client → List InFrame → Client × List Delivery
dispatch_all c [] = (c, [])
dispatch_all c (f ∷ fs) =
    let (c', ds) = dispatch c f in let (c'', more) = dispatch_all c' fs in (c'', ds ++ more)

-- `request` up to its wait, with the id under which it waits.
unfoldable pub request : Client → OutFrame → Client × String
unfolding send
request c f =
    let n = add64 c.next_req 1 in
    let id = "r" ++ₛ show_ℕ n in
    (
      send (record c { next_req = n; pending = insert id n c.pending }) (record f { req_id = id }),
      id,
    )

-- A request whose context ends stops waiting.
unfoldable pub cancel_request : Client → String → Client
cancel_request c id = record c { pending = remove id c.pending }

unfoldable pub publish : Client → Event → Client × String
publish c e = request c (publish_frame e)

unfoldable pub get_state : Client → String → Client × String
get_state c topic = request c (get_state_frame topic)

-- What `Publish` and `GetState` make of the response.
abbrev pub publish_result : PendingResp → Option ℕ
publish_result r = if r.failed then none else some r.frame.last_seq

abbrev pub state_result : PendingResp → Option RawMessage
state_result r = if r.failed then none else some r.frame.state

abbrev pub resume_seq : TopicSub → ℕ
resume_seq ts = if ltb 0 ts.last_seen_seq then add64 ts.last_seen_seq 1 else 0

abbrev pub resume_frame : String × TopicSub → OutFrame
resume_frame (topic, ts) = subscribe_frame topic ts.from (resume_seq ts)

unfoldable pub send_all : Client → List OutFrame → Client
unfolding send
send_all c [] = c
send_all c (f ∷ fs) = send_all (send c f) fs

unfoldable pub resubscribe_all : Client → Client
unfolding send_all
resubscribe_all c = send_all c (map resume_frame c.topics)

-- The writer takes the oldest frame.
unfoldable pub take_frame : Client → Option (OutFrame × Client)
take_frame c = elim c.send_ch [ [] ↦ none | f ∷ fs ↦ some (f, record c { send_ch = fs }) ]

-- `min` of two durations.
abbrev pub min_duration : ℕ → ℕ → ℕ
min_duration a b = if ltb_ℤ (signed64 a) (signed64 b) then a else b

-- The wait before the next dial, after one that failed.
unfoldable pub next_backoff : Client → ℕ → ℕ
next_backoff c backoff = min_duration ((backoff * 2) % word_mod) c.backoff_max

-- The wait before a dial, after some that failed in a row.
unfoldable pub backoff_after : Client → ℕ → ℕ
unfolding next_backoff
backoff_after c zero = c.backoff_initial
backoff_after c (suc k) = next_backoff c (backoff_after c k)
