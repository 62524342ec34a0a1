-- ===== src/Objtypes/Build.antt =====
-- internal/objtypes/build.go: builds and their steps.
pub mod Laws
use event_watch.Base.{
  ℕ, ◌+◌, ◌≡◌, ◌≢◌, ap, String, Bool, true, false, ◌&&◌, Option, none, some, List, [], ◌∷◌, ◌++◌,
  ◌=ₛ◌, if◌then◌else◌, ℤ, pos, zero, lookup, insert, remove,
}
use event_watch.Core.{Event, Payload, Time}
use event_watch.Computed.{Reducer}
use event_watch.Objtypes.Codec.{Codec, apply_strict, get_str, sub_time, milliseconds}

-- The field `startedAt`, which nothing reads or writes, is left out.
pub record BuildStep : Type 0 where
  pub name : String
  pub status : String
  pub duration_ms : ℤ

pub record BuildState : Type 0 where
  pub status : String
  pub current_step : String
  pub steps : List BuildStep
  pub started_at : Time
  pub finished_at : Time
  pub duration_ms : ℤ
  pub step_starts : List (String × Time)

-- The struct that goes into the JSON.
pub record BuildStateWire : Type 0 where
  pub status : String
  pub current_step : String
  pub steps : List BuildStep
  pub started_at : Time
  pub finished_at : Time
  pub duration_ms : ℤ
  pub step_starts : List (String × Time)

unfoldable pub to_wire : BuildState → BuildStateWire
to_wire s = record {
  status = s.status;
  current_step = s.current_step;
  steps = s.steps;
  started_at = s.started_at;
  finished_at = s.finished_at;
  duration_ms = s.duration_ms;
  step_starts = s.step_starts;
}

unfoldable pub of_wire : BuildStateWire → BuildState
of_wire w = record {
  status = w.status;
  current_step = w.current_step;
  steps = w.steps;
  started_at = w.started_at;
  finished_at = w.finished_at;
  duration_ms = w.duration_ms;
  step_starts = w.step_starts;
}

unfoldable pub initial : BuildState
initial = record {
  status = "";
  current_step = "";
  steps = [];
  started_at = pos 0;
  finished_at = pos 0;
  duration_ms = pos 0;
  step_starts = [];
}

-- `UnmarshalJSON`, on what the wire struct decodes to. A text that does not decode leaves the state
-- as it was, which is zero.
unfoldable pub decoded : BuildStateWire × Bool → BuildState × Bool
decoded (w, fine) = if fine then (of_wire w, true) else (initial, false)

pub wire_round_trip :
    (c : Codec BuildStateWire) (s : BuildState) (t : String)
    → c.marshal (to_wire s) ≡ some t
    → (decoded (c.unmarshal t) ≡ (s, true)) × (t ≢ "")
unfolding to_wire of_wire decoded
wire_round_trip c s t m =
    (ap decoded (c.round_trip (to_wire s) t m).0, (c.round_trip (to_wire s) t m).1)

-- `MarshalJSON` and `UnmarshalJSON`, from the codec of the wire struct.
unfoldable pub build_codec : Codec BuildStateWire → Codec BuildState
build_codec c = record {
  marshal = λ s. c.marshal (to_wire s);
  unmarshal = λ t. decoded (c.unmarshal t);
  round_trip = wire_round_trip c;
}

-- The cases of `switch e.Type`.
pub data BuildEvent : Type 0 where
  build_queued build_started step_started step_finished build_finished unknown : BuildEvent

unfoldable pub build_event : String → BuildEvent
build_event t =
    if t =ₛ "build_queued"
    then build_queued
    else if t =ₛ "build_started"
    then build_started
    else if t =ₛ "step_started"
    then step_started
    else if t =ₛ "step_finished"
    then step_finished
    else if t =ₛ "build_finished"
    then build_finished
    else unknown

abbrev pub or_success : String → String
or_success v = if v =ₛ "" then "success" else v

-- The loop over `s.Steps`, which stops at the first running step of the name.
unfoldable pub finish_step : String → String → ℤ → List BuildStep → List BuildStep
finish_step name status dur [] = []
finish_step name status dur (st ∷ steps) =
    if st.name =ₛ name && st.status =ₛ "running"
    then record st { status = status; duration_ms = dur } ∷ steps
    else st ∷ finish_step name status dur steps

abbrev pub is_zero : Time → Bool
is_zero (pos zero) = true
is_zero _ = false

-- `e.OccurredAt.Sub(t).Milliseconds()`.
abbrev pub elapsed : Time → Option Time → ℤ
elapsed at none = pos 0
elapsed at (some t) = milliseconds (sub_time at t)

unfoldable pub on_event : BuildEvent → BuildState → Payload → Time → BuildState
on_event build_queued s p at = record s { status = "queued" }
on_event build_started s p at = record s { status = "running"; started_at = at }
on_event step_started s p at =
    let name = get_str p "step" in
    record s {
      current_step = name;
      step_starts = insert name at s.step_starts;
      steps = s.steps ++ record { name = name; status = "running"; duration_ms = pos 0 } ∷ [];
    }
on_event step_finished s p at =
    let name = get_str p "step" in
    let status = or_success (get_str p "status") in
    record s {
      step_starts = remove name s.step_starts;
      steps = finish_step name status (elapsed at (lookup name s.step_starts)) s.steps;
      current_step = if s.current_step =ₛ name then "" else s.current_step;
    }
on_event build_finished s p at = record s {
  status = or_success (get_str p "status");
  finished_at = at;
  duration_ms =
      if is_zero s.started_at then s.duration_ms else milliseconds (sub_time at s.started_at);
}
on_event unknown s p at = s

-- The body of `Apply` between decoding and encoding.
unfoldable pub step : BuildState → Event → BuildState
step s e = on_event (build_event e.type) s e.payload e.occurred_at

unfoldable pub reducer : Codec BuildStateWire → Reducer
reducer c = record { object_type = "build"; apply = apply_strict (build_codec c) step initial }
