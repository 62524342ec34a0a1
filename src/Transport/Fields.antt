-- ===== src/Transport/Fields.antt =====
-- internal/transport/field.go: the handlers of the scalar fields, each as the event type and the
-- payload that it publishes. A body is what it decodes to, or the error of reading or decoding it;
-- an empty body decodes as the empty map.
pub mod Laws
use event_watch.Base.{ℕ, String, Option, none, some, List, [], ◌∷◌, lookup}
use Prim.Native.String.{◌++◌}
use event_watch.Core.{Payload, Value, str, num, Error, Result, ok, err}
use event_watch.Core.Topic.{parse_object_type}
use event_watch.Objtypes.Codec.{get_str, number_as_int64}
use event_watch.StoreApi.{StoreApi, Env}
use event_watch.Broker.{Broker}
use event_watch.Transport.Ws.{text, of_error}
use event_watch.Transport.Http.{Response, http_error, publish_field}

-- `body, _ := readJSONBody(r)`: a map that is nil on an error.
abbrev pub or_nil_map : Result Payload → Payload
or_nil_map (err x) = []
or_nil_map (ok body) = body

abbrev pub number_or : ℕ → Option ℕ → ℕ
number_or default none = default
number_or default (some v) = v

-- `map[string]any{"delta": delta}`.
unfoldable pub delta_payload : Result Payload → Payload
delta_payload body =
    ("delta", num (number_or 1 (number_as_int64 (lookup "delta" (or_nil_map body))))) ∷ []

unfoldable pub seconds_payload : Result Payload → Payload
seconds_payload body =
    ("seconds", num (number_or 0 (number_as_int64 (lookup "seconds" (or_nil_map body))))) ∷ []

module _ {S : Type 0} (api : StoreApi S) (b : Broker S) (env : Env) (topic : String) where
  unfoldable pub string_set_handler : Result Payload → Broker S × Response
  string_set_handler (err x) = (b, http_error (of_error x) 400)
  string_set_handler (ok body) =
      publish_field api b env topic "str_set" (("value", str (get_str body "value")) ∷ [])

  unfoldable pub set_handler : Result Payload → Broker S × Response
  set_handler body = elim (parse_object_type topic) [
    | none ↦ (b, http_error (text "invalid topic") 400)
    | some ot ↦ elim body [
      | err x ↦ (b, http_error (of_error x) 400)
      | ok p ↦ publish_field api b env topic (ot ++ "_set") p
    ]
  ]

  unfoldable pub incr_handler : Result Payload → Broker S × Response
  incr_handler body = publish_field api b env topic "int_incr" (delta_payload body)

  unfoldable pub decr_handler : Result Payload → Broker S × Response
  decr_handler body = publish_field api b env topic "int_decr" (delta_payload body)

  unfoldable pub delete_handler : Broker S × Response
  delete_handler = elim (parse_object_type topic) [
    | none ↦ (b, http_error (text "invalid topic") 400)
    | some ot ↦ publish_field api b env topic (ot ++ "_delete") []
  ]

  unfoldable pub time_now_handler : Broker S × Response
  time_now_handler = publish_field api b env topic "time_now" []

  unfoldable pub time_add_handler : Result Payload → Broker S × Response
  time_add_handler body = publish_field api b env topic "time_add" (seconds_payload body)
