-- ===== src/Client/Fields.antt =====
-- client/field.go: the typed fields over `Publish` and `GetState`. A number that is marshalled
-- reaches the server's reducer through a float64: `through_json` is that conversion, on the bit
-- pattern of an int64.
pub mod Written
use event_watch.Base.{
  ℕ, ℤ, pos, negsuc, String, Bool, true, false, Option, none, some, List, [], ◌∷◌, if◌then◌else◌,
}
use event_watch.Core.{
  Event, Payload, Value, str, num, RawMessage, Time, Error, bad_json, Result, ok, err,
}
use event_watch.Objtypes.Codec.{Codec, has_bytes, bytes}
use event_watch.Objtypes.Field.{StringFieldState, IntFieldState, TimeFieldState}
use event_watch.Client.{Client, publish}

abbrev pub field_event : String → String → Payload → Event
field_event topic type payload = record {
  id = "";
  topic = topic;
  type = type;
  seq = 0;
  occurred_at = pos 0;
  actor = "";
  payload = payload;
  state = none;
}

-- The methods that write, each a constructor.
pub data StringCall : Type 0 where
  set : String → StringCall
  delete : StringCall

pub data IntCall : Type 0 where
  set incr decr : ℕ → IntCall
  delete : IntCall

-- `add` takes a duration in nanoseconds, as the bit pattern of its whole seconds.
pub data TimeCall : Type 0 where
  set : Time → TimeCall
  now : TimeCall
  add : ℕ → TimeCall
  delete : TimeCall

unfoldable pub string_event : String → StringCall → Event
string_event topic (StringCall.set v) = field_event topic "str_set" (("value", str v) ∷ [])
string_event topic StringCall.delete = field_event topic "str_delete" []

module _ (through_json : ℕ → ℕ) where
  unfoldable pub int_event : String → IntCall → Event
  int_event topic (IntCall.set v) =
      field_event topic "int_set" (("value", num (through_json v)) ∷ [])
  int_event topic (incr d) = field_event topic "int_incr" (("delta", num (through_json d)) ∷ [])
  int_event topic (decr d) = field_event topic "int_decr" (("delta", num (through_json d)) ∷ [])
  int_event topic IntCall.delete = field_event topic "int_delete" []

  -- `format_time` is `t.UTC().Format(time.RFC3339Nano)`.
  unfoldable pub time_event : (Time → String) → String → TimeCall → Event
  time_event format_time topic (TimeCall.set t) =
      field_event topic "time_set" (("value", str (format_time t)) ∷ [])
  time_event format_time topic now = field_event topic "time_now" []
  time_event format_time topic (add s) =
      field_event topic "time_add" (("seconds", num (through_json s)) ∷ [])
  time_event format_time topic TimeCall.delete = field_event topic "time_delete" []

  -- The request that a method makes, with the id under which it waits.
  unfoldable pub publish_int : Client → String → IntCall → Client × String
  publish_int c topic call = publish c (int_event topic call)

  unfoldable pub publish_time : (Time → String) → Client → String → TimeCall → Client × String
  publish_time format_time c topic call = publish c (time_event format_time topic call)

unfoldable pub publish_string : Client → String → StringCall → Client × String
publish_string c topic call = publish c (string_event topic call)

-- What `Get` makes of the state that `GetState` returns. `read` takes the value and the flag from
-- the decoded struct.
unfoldable pub get_field :
    {A V : Type 0} → Codec A → (A → V) → (A → Bool) → V → RawMessage → Result (V × Bool)
get_field c value exists zero raw =
    if has_bytes raw
    then (let (s, fine) = c.unmarshal (bytes raw) in
        if fine then ok (value s, exists s) else err bad_json)
    else ok (zero, false)

abbrev pub get_string : Codec StringFieldState → RawMessage → Result (String × Bool)
get_string c = get_field c (λ s. s.value) (λ s. s.exists) ""

abbrev pub get_int : Codec IntFieldState → RawMessage → Result (ℕ × Bool)
get_int c = get_field c (λ s. s.value) (λ s. s.exists) 0

abbrev pub get_time : Codec TimeFieldState → RawMessage → Result (Time × Bool)
get_time c = get_field c (λ s. s.value) (λ s. s.exists) (pos 0)
