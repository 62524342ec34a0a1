-- ===== src/Webhook/Json.antt =====
-- What `json.Unmarshal` leaves in a `map[string]any`, and the type assertions on it. The code reads
-- a number only as `int64(v)`: a number is kept as that conversion's 64-bit pattern.
use event_watch.Base.{ℕ, String, Bool, false, Option, none, some, ◌=ₛ◌, if◌then◌else◌}

mutual
  pub data Json : Type 0 where
    null : Json
    boolean : Bool → Json
    number : ℕ → Json
    text : String → Json
    array : Items → Json
    object : Fields → Json

  pub data Items : Type 0 where
    nil : Items
    cons : Json → Items → Items

  -- The keys of a map are distinct.
  pub data Fields : Type 0 where
    end : Fields
    field : String → Json → Fields → Fields

-- `m[k]`, also on a nil map.
unfoldable pub get : Option Fields → String → Option Json
get none k = none
get (some end) k = none
get (some (field j v m)) k = if j =ₛ k then some v else get (some m) k

-- `v, _ := x.(map[string]any)`: none is the nil map.
abbrev pub as_object : Option Json → Option Fields
as_object (some (object m)) = some m
as_object _ = none

abbrev pub as_text : Option Json → Option String
as_text (some (text s)) = some s
as_text _ = none

abbrev pub as_number : Option Json → Option ℕ
as_number (some (number n)) = some n
as_number _ = none

-- `v, _ := x.([]any)`.
abbrev pub as_array : Option Json → Items
as_array (some (array xs)) = xs
as_array _ = nil

-- `v, _ := x.(bool)`.
abbrev pub as_bool : Option Json → Bool
as_bool (some (boolean b)) = b
as_bool _ = false

-- The zero value of a failed assertion.
abbrev pub or_empty : Option String → String
or_empty none = ""
or_empty (some s) = s

abbrev pub or_zero : Option ℕ → ℕ
or_zero none = 0
or_zero (some n) = n
