-- ===== src/Transport/Http.antt =====
-- internal/transport/publish.go, field.go, admin.go and poll.go: the HTTP handlers. What a handler
-- reads of a request is an argument, already decoded: a body is the value that it decodes to, or
-- the error of reading or decoding it.
pub mod Laws
mod Tests
use event_watch.Base.{
  ℕ, suc, ◌+◌, String, Bool, Option, none, some, List, [], ◌∷◌, ◌++◌, ◌=ₛ◌, if◌then◌else◌, ltb, ℤ,
  pos, negsuc, lookup, insert,
}
use event_watch.Core.{Event, Payload, Value, str, num, RawMessage, Time, Error, Result, ok, err}
use event_watch.Core.Topic.{parse_object_type}
use event_watch.Objtypes.Codec.{number_as_int64}
use event_watch.Objtypes.Field.{string_of}
use event_watch.Store.{is_zero}
use event_watch.StoreApi.{StoreApi, Env}
use event_watch.Broker.{Broker}
use event_watch.Broker
use event_watch.Transport.Ws.{Message, text, of_error}

pub record PublishReq : Type 0 where
  pub topic : String
  pub type : String
  pub actor : String
  pub payload : Payload

-- The answers: `http.Error` with its status, status 202, and the JSON bodies of status 200.
pub data Response : Type 0 where
  http_error : Message → ℕ → Response
  accepted : Response
  published : String → ℕ → String → Response
  field_published : ℕ → String → String → Response
  state_body : RawMessage → Response
  events_body : List Event → Response
  topics_body : List String → Response
  poll_body : List Event → ℕ → Response

abbrev pub event_for : PublishReq → Time → Event
event_for req now = record {
  id = "";
  topic = req.topic;
  type = req.type;
  seq = 0;
  occurred_at = now;
  actor = req.actor;
  payload = req.payload;
  state = none;
}

-- A plugin of internal/webhook/plugin.go, at one request.
pub record Plugin : Type 0 where
  pub verify : Option Error
  pub transform : Result (List Event)

-- The registry of internal/webhook/plugin.go.
abbrev pub Plugins : Type 0
Plugins = List (String × Plugin)

unfoldable pub register_plugin : Plugins → String → Plugin → Plugins
register_plugin plugins name p = insert name p plugins

unfoldable pub get_plugin : Plugins → String → Option Plugin
get_plugin plugins name = lookup name plugins

unfoldable pub with_time : Event → Time → Event
with_time e now = record e { occurred_at = if is_zero e.occurred_at then now else e.occurred_at }

-- The greatest seq of a list of events.
unfoldable pub max_seq_from : ℕ → List Event → ℕ
max_seq_from m [] = m
max_seq_from m (e ∷ es) = max_seq_from (if ltb m e.seq then e.seq else m) es

unfoldable pub max_seq : List Event → ℕ
unfolding max_seq_from
max_seq es = max_seq_from 0 es

-- The wait of a poll, in milliseconds: from 0 to 60000.
unfoldable pub clamp_wait : ℤ → ℕ
clamp_wait (pos n) = if ltb 60000 n then 60000 else n
clamp_wait (negsuc n) = 0

-- A poll answers, or goes on to wait for an event, for at most some milliseconds.
pub data PollStep : Type 0 where
  responds : Response → PollStep
  waits : ℕ → PollStep

module _ {S : Type 0} (api : StoreApi S) where
  unfoldable pub publish_handler : Broker S → Env → String → Result PublishReq → Broker S × Response
  publish_handler b env method body =
      if method =ₛ "POST"
      then (elim body [
        | err x ↦ (b, http_error (of_error x) 400)
        | ok req ↦
            let (b', done) = Broker.publish api b env (event_for req env.now) "publish" in
            elim done [
              | err x ↦ (b', http_error (of_error x) 400)
              | ok e ↦ (b', published e.id e.seq e.topic)
            ]
      ])
      else (b, http_error (text "method not allowed") 405)

  -- The loop over the plugin's events, which stops at the first that the broker refuses.
  -- Each round has its own reading of the clock and its own new id.
  unfoldable pub publish_each : Broker S → (ℕ → Env) → List Event → Broker S × Response
  publish_each b envs [] = (b, accepted)
  publish_each b envs (e ∷ es) =
      let (b', done) = Broker.publish api b (envs 0) (with_time e (envs 0).now) "webhook" in
      let rest = publish_each b' (λ i. envs (suc i)) es in
      elim done [ err x ↦ (b', http_error (of_error x) 400) | ok e' ↦ rest ]

  unfoldable pub webhook_handler :
      Broker S → (ℕ → Env) → String → Plugins → String → Broker S × Response
  webhook_handler b envs method plugins name =
      if method =ₛ "POST"
      then (elim (get_plugin plugins name) [
        | none ↦ (b, http_error (text "unknown plugin") 404)
        | some p ↦ elim p.verify [
          | some x ↦ (b, http_error (text "signature invalid") 401)
          | none ↦ elim p.transform [
            | err x ↦ (b, http_error (of_error x) 400)
            | ok es ↦ publish_each b envs es
          ]
        ]
      ])
      else (b, http_error (text "method not allowed") 405)

  unfoldable pub state_handler : Broker S → String → Response
  state_handler b topic = elim (Broker.get_state api b topic) [
    | err x ↦ http_error (of_error x) 404
    | ok none ↦ state_body (some "null")
    | ok (some raw) ↦ state_body (some raw)
  ]

  unfoldable pub events_handler : Broker S → String → ℕ → ℤ → Response
  events_handler b topic from limit = elim (Broker.events api b topic from limit) [
    | err x ↦ http_error (of_error x) 400
    | ok es ↦ events_body es
  ]

  unfoldable pub topics_handler : Broker S → String → ℤ → Response
  topics_handler b prefix limit = elim (Broker.list_topics api b prefix limit) [
    | err x ↦ http_error (of_error x) 500
    | ok ts ↦ topics_body ts
  ]

  -- `publishField`; a nil payload decodes as an empty one.
  unfoldable pub publish_field : Broker S → Env → String → String → Payload → Broker S × Response
  publish_field b env topic type payload =
      let req : PublishReq = record { topic = topic; type = type; actor = ""; payload = payload } in
      let (b', done) = Broker.publish api b env (event_for req env.now) "field" in
      elim done [
        | err x ↦ (b', http_error (of_error x) 400)
        | ok e ↦ (b', field_published e.seq topic type)
      ]

  -- The first fetch of a poll: the events of the topics, topic after topic, or the first error.
  unfoldable pub fetch_all : Broker S → List String → ℕ → Result (List Event)
  fetch_all b [] from = ok []
  fetch_all b (t ∷ ts) from =
      let rest = fetch_all b ts from in
      elim (Broker.events api b t from (pos 0)) [
        | err x ↦ err x
        | ok es ↦ elim rest [ err x ↦ err x | ok more ↦ ok (es ++ more) ]
      ]

  -- A poll up to its wait.
  unfoldable pub poll_now : Broker S → List String → ℕ → ℤ → PollStep
  unfolding max_seq
  poll_now b [] from max_wait = responds (http_error (text "at least one topic= required") 400)
  poll_now b (t ∷ ts) from max_wait = elim (fetch_all b (t ∷ ts) from) [
    | err x ↦ responds (http_error (of_error x) 400)
    | ok [] ↦
        if ltb 0 (clamp_wait max_wait)
        then waits (clamp_wait max_wait)
        else responds (poll_body [] 0)
    | ok (e ∷ es) ↦ responds (poll_body (e ∷ es) (max_seq (e ∷ es)))
  ]
