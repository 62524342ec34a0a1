-- ===== src/Core/Topic.antt =====
-- internal/core/topic.go: the syntax of topics.
pub mod Split
pub mod Laws
mod Tests
use Prim.Native.Char.{Char, code}
use Prim.Native.String.{[], ◌∷◌, len}
use event_watch.Base.{
  ℕ, ◌<◌, String, Bool, true, false, ◌&&◌, ◌||◌, Option, none, some, List, [], ◌∷◌, ltb, leb, ◌==◌,
  ◌=ₛ◌, if◌then◌else◌, length,
}

abbrev first_cons : Char → Option (String × String) → Option (String × String)
first_cons c none = none
first_cons c (some (a, b)) = some (c ∷ a, b)

-- `strings.IndexByte(topic, '/')`, as the texts before and after the slash.
unfoldable pub cut_slash : String → Option (String × String)
cut_slash [] = none
cut_slash (c ∷ s) = if code c == b'/' then some ("", s) else first_cons c (cut_slash s)

abbrev head_cons : Char → List String → List String
head_cons c [] = (c ∷ "") ∷ []
head_cons c (p ∷ ps) = (c ∷ p) ∷ ps

-- `strings.Split(topic, "/")`.
unfoldable pub split_slash : String → List String
split_slash [] = "" ∷ []
split_slash (c ∷ s) = if code c == b'/' then "" ∷ split_slash s else head_cons c (split_slash s)

-- `i <= 0` is a slash that is absent or first, `i == len(topic)-1` one that is last.
unfoldable pub parse_object_type : String → Option String
unfolding cut_slash
parse_object_type topic = elim (cut_slash topic) [
  | none ↦ none
  | some (a, b) ↦ if a =ₛ "" || b =ₛ "" then none else some a
]

unfoldable pub is_topic_char : ℕ → Bool
is_topic_char r =
    leb b'a' r && leb r b'z'
    || leb b'A' r && leb r b'Z'
    || leb b'0' r && leb r b'9'
    || r == b'-'
    || r == b'_'
    || r == b'.'

unfoldable pub all_topic_chars : String → Bool
unfolding is_topic_char
all_topic_chars [] = true
all_topic_chars (c ∷ s) = is_topic_char (code c) && all_topic_chars s

-- The loop over the parts.
unfoldable pub all_segments : List String → Bool
unfolding all_topic_chars
all_segments [] = true
all_segments (p ∷ ps) = if p =ₛ "" then false else all_topic_chars p && all_segments ps

-- True where `ValidateTopic` returns nil.
unfoldable pub validate_topic : String → Bool
unfolding split_slash all_segments
validate_topic topic =
    if topic =ₛ "" || ltb 512 (len topic)
    then false
    else if ltb (length (split_slash topic)) 2
    then false
    else all_segments (split_slash topic)
