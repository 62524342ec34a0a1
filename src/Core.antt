-- ===== src/Core.antt =====
-- internal/core/event.go and internal/core/sub.go: the data that every component passes around.
pub mod Topic
use event_watch.Base.{ℕ, ℤ, String, Option, none, some, List, ◌≡◌}

-- The Go errors that the modelled code returns, by the value or the message that it returns.
pub data Error : Type 0 where
  invalid_topic unknown_type not_found type_required unauthenticated : Error
  bad_json missing_signature signature_mismatch missing_repository missing_number redis_error :
      Error

pub data Result {ℓ} (A : Type ℓ) : Type ℓ where
  ok : A → Result A
  err : Error → Result A

-- `json.RawMessage`: `none` is the nil slice, `some` the bytes.
abbrev pub RawMessage : Type 0
RawMessage = Option String

-- A value of a decoded payload, `any` after `json.Unmarshal` into a map. The code reads a payload
-- by `.(string)`, and reads a number only as `int64(x)`: a number is kept as that conversion's
-- 64-bit pattern. `other` is every value that fails both tests.
pub data Value : Type 0 where
  str : String → Value
  num : ℕ → Value
  other : Value

-- The map that `json.Unmarshal(e.Payload, &p)` leaves in `p`, empty if the bytes do not decode.
abbrev pub Payload : Type 0
Payload = List (String × Value)

-- `time.Time` is an instant in nanoseconds from the zero time.
abbrev pub Time : Type 0
Time = ℤ

pub record Event : Type 0 where
  pub id : String
  pub topic : String
  pub type : String
  pub seq : ℕ
  pub occurred_at : Time
  pub actor : String
  pub payload : Payload
  pub state : RawMessage

-- `ttl` is a `time.Duration`, in nanoseconds.
pub record TopicMeta : Type 0 where
  pub topic : String
  pub object_type : String
  pub ttl : ℤ
  pub created_at : Time
  pub last_event_at : Time
  pub last_seq : ℕ

-- `core.From`, its kind and value together.
pub data From : Type 0 where
  latest : From
  last_n from_seq : ℕ → From
