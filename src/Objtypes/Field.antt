-- ===== src/Objtypes/Field.antt =====
-- internal/objtypes/field.go: the scalar fields.
pub mod Ints
pub mod Scalars
use event_watch.Base.{
  ℕ, ◌*◌, ◌%◌, String, Bool, true, false, Option, none, some, List, [], ◌∷◌, ◌=ₛ◌, if◌then◌else◌, ℤ,
  pos, add64, sub64, signed64, word_mod, lookup, ◌+ℤ◌,
}
use event_watch.Core.{Event, Payload, Time, Value, str}
use event_watch.Computed.{Reducer}
use event_watch.Objtypes.Codec.{Codec, apply_lenient, number_as_int64}

pub record StringFieldState : Type 0 where
  pub value : String
  pub exists : Bool
  pub updated_at : Time

-- `value` is the 64-bit pattern of an `int64`.
pub record IntFieldState : Type 0 where
  pub value : ℕ
  pub exists : Bool
  pub updated_at : Time

pub record TimeFieldState : Type 0 where
  pub value : Time
  pub exists : Bool
  pub updated_at : Time

unfoldable pub initial_string : StringFieldState
initial_string = record { value = ""; exists = false; updated_at = pos 0 }

unfoldable pub initial_int : IntFieldState
initial_int = record { value = 0; exists = false; updated_at = pos 0 }

unfoldable pub initial_time : TimeFieldState
initial_time = record { value = pos 0; exists = false; updated_at = pos 0 }

-- The string of `p["value"].(string)`, where it is one.
abbrev pub string_of : Option Value → Option String
string_of (some (str v)) = some v
string_of _ = none

unfoldable pub step_string : StringFieldState → Event → StringFieldState
step_string s e =
    let t = record s { updated_at = e.occurred_at } in
    if e.type =ₛ "str_set"
    then (elim (string_of (lookup "value" e.payload)) [
      | none ↦ t
      | some v ↦ record t { value = v; exists = true }
    ])
    else if e.type =ₛ "str_delete"
    then record t { value = ""; exists = false }
    else t

-- `delta := int64(1)`, unless the payload has a number.
unfoldable pub delta_of : Payload → ℕ
delta_of p = elim (number_as_int64 (lookup "delta" p)) [ none ↦ 1 | some v ↦ v ]

unfoldable pub step_int : IntFieldState → Event → IntFieldState
step_int s e =
    let t = record s { updated_at = e.occurred_at } in
    if e.type =ₛ "int_set"
    then (elim (number_as_int64 (lookup "value" e.payload)) [
      | none ↦ t
      | some v ↦ record t { value = v; exists = true }
    ])
    else if e.type =ₛ "int_incr"
    then record t { value = add64 s.value (delta_of e.payload); exists = true }
    else if e.type =ₛ "int_decr"
    then record t { value = sub64 s.value (delta_of e.payload); exists = true }
    else if e.type =ₛ "int_delete"
    then record t { value = 0; exists = false }
    else t

-- `time.Duration(v) * time.Second`, which wraps at 64 bits.
abbrev pub seconds : ℕ → ℤ
seconds v = signed64 (v * 1000000000 % word_mod)

-- `parse_time` is `time.Parse` for RFC 3339.
unfoldable pub step_time : (String → Option Time) → TimeFieldState → Event → TimeFieldState
step_time parse_time s e =
    let t = record s { updated_at = e.occurred_at } in
    if e.type =ₛ "time_set"
    then (elim (string_of (lookup "value" e.payload)) [
      | none ↦ t
      | some v ↦ elim (parse_time v) [ none ↦ t | some at ↦ record t { value = at; exists = true } ]
    ])
    else if e.type =ₛ "time_now"
    then record t { value = e.occurred_at; exists = true }
    else if e.type =ₛ "time_add"
    then (elim (number_as_int64 (lookup "seconds" e.payload)) [
      | none ↦ t
      | some v ↦ record t { value = s.value +ℤ seconds v; exists = true }
    ])
    else if e.type =ₛ "time_delete"
    then record t { value = pos 0; exists = false }
    else t

unfoldable pub string_reducer : Codec StringFieldState → Reducer
string_reducer c = record {
  object_type = "str";
  apply = apply_lenient c step_string initial_string;
}

unfoldable pub int_reducer : Codec IntFieldState → Reducer
int_reducer c = record { object_type = "int"; apply = apply_lenient c step_int initial_int }

unfoldable pub time_reducer : Codec TimeFieldState → (String → Option Time) → Reducer
time_reducer c parse_time = record {
  object_type = "time";
  apply = apply_lenient c (step_time parse_time) initial_time;
}
