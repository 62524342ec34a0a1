-- ===== src/Objtypes/Codec.antt =====
-- The frame of every `Apply` of internal/objtypes: decode the state, fold one event, encode.
pub mod Refine
use event_watch.Base.{
  ℕ, ◌+◌, ◌*◌, ◌/◌, ◌%◌, ◌≡◌, ◌≢◌, String, Bool, true, false, Option, none, some, List, [], ◌∷◌,
  lookup, ℤ, pos, negsuc, suc, ltb, leb, ◌-◌, if◌then◌else◌, ◌=ₛ◌, ◌-ℤ◌, zero,
}
use event_watch.Core.{Event, RawMessage, Time, Payload, Value, str, num, other, Error, bad_json}

-- `json.Marshal` may fail, as on a year past 9999. `json.Unmarshal` fills what it is given and
-- reports whether it succeeded. What was marshalled decodes to the same struct (an empty map or
-- slice counts as nil), and is not empty.
pub record Codec (A : Type 0) : Type 0 where
  pub marshal : A → Option String
  pub unmarshal : String → A × Bool
  pub round_trip : (a : A) (t : String) → marshal a ≡ some t → (unmarshal t ≡ (a, true)) × (t ≢ "")

-- `len(raw) > 0`.
abbrev pub has_bytes : RawMessage → Bool
has_bytes none = false
has_bytes (some t) = if t =ₛ "" then false else true

abbrev pub bytes : RawMessage → String
bytes none = ""
bytes (some t) = t

module _ {A : Type 0} (c : Codec A) where
  -- `return json.Marshal(s)`.
  abbrev pub encoded : A → RawMessage × Option Error
  encoded s = elim (c.marshal s) [ none ↦ (none, some bad_json) | some t ↦ (some t, none) ]

  -- A state that does not decode is an error, and is returned as it came.
  unfoldable pub apply_strict : (A → Event → A) → A → RawMessage → Event → RawMessage × Option Error
  apply_strict step init raw e =
      if has_bytes raw
      then (let (s, fine) = c.unmarshal (bytes raw) in
          if fine then encoded (step s e) else (raw, some bad_json))
      else encoded (step init e)

  -- The field reducers go on with whatever was decoded.
  unfoldable pub apply_lenient :
      (A → Event → A) → A → RawMessage → Event → RawMessage × Option Error
  apply_lenient step init raw e =
      if has_bytes raw then encoded (step (c.unmarshal (bytes raw)).0 e) else encoded (step init e)

-- `v, _ := p[k].(string)`.
abbrev as_string : Option Value → String
as_string (some (str v)) = v
as_string _ = ""

unfoldable pub get_str : Payload → String → String
get_str p k = as_string (lookup k p)

-- `getInt` of job.go: the `int` of a number, or 0.
abbrev as_int : Option Value → ℕ
as_int (some (num n)) = n
as_int _ = 0

unfoldable pub get_int : Payload → String → ℕ
get_int p k = as_int (lookup k p)

-- `numberAsInt64` of field.go, on `p[k]`.
abbrev pub number_as_int64 : Option Value → Option ℕ
number_as_int64 (some (num n)) = some n
number_as_int64 _ = none

-- `if v != "" { field = v }`.
abbrev pub set_if_given : String → String → String
set_if_given old v = if v =ₛ "" then old else v

-- `t.Sub(u)`, held within an int64 of nanoseconds.
abbrev pub clamp64 : ℤ → ℤ
clamp64 (pos n) = if ltb n 9223372036854775808 then pos n else pos 9223372036854775807
clamp64 (negsuc n) = if ltb n 9223372036854775808 then negsuc n else negsuc 9223372036854775807

unfoldable pub sub_time : Time → Time → ℤ
sub_time t u = clamp64 (t -ℤ u)

abbrev negated : ℕ → ℤ
negated zero = pos 0
negated (suc n) = negsuc n

-- `Duration.Milliseconds`, which truncates towards zero.
unfoldable pub milliseconds : ℤ → ℤ
milliseconds (pos n) = pos (n / 1000000)
milliseconds (negsuc n) = negated ((n + 1) / 1000000)
