-- ===== src/Samples.antt =====
-- Events and runs that the tests share.
use event_watch.Base.{ℕ, String, [], ◌∷◌, none, pos, Option}
use event_watch.Core.{Event, Payload, str}
use event_watch.StoreApi.{Env}
use event_watch.Computed.{Reducer}

-- An event as a publisher gives it, at an instant that is set.
abbrev pub event_of : String → String → Payload → ℕ → Event
event_of topic type payload at = record {
  id = "";
  topic = topic;
  type = type;
  seq = 0;
  occurred_at = pos at;
  actor = "";
  payload = payload;
  state = none;
}

abbrev pub opened : Event
opened = event_of "pr/o/r/1" "pr_opened" (("title", str "Fix") ∷ []) 7

abbrev pub env : Env
env = record { created = pos 5; now = pos 6; new_id = "01" }

-- A reducer whose state is the type of the last event.
abbrev pub last_type : Reducer
last_type = record { object_type = "pr"; apply = λ raw e. (Option.some e.type, none) }
