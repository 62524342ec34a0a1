-- ===== src/Core/Topic/Tests.antt =====
-- The cases of internal/core/topic_test.go.
use Prim.Native.String.{len}
use event_watch.Base.{◌≡◌, ◌↔◌, ◌≤◌, refl, true, false, some, none, length, All}
use event_watch.Core.Topic.{validate_topic, parse_object_type, split_slash}
use event_watch.Core.Topic.Laws.{IsSegment, validate_topic_iff}

accepted :
    (validate_topic "pr/octocat/hello/1" ≡ true)
    × (validate_topic "chat/room.general" ≡ true)
    × (validate_topic "job/abc_123" ≡ true)
unfolding validate_topic
accepted = (refl, refl, refl)

refused :
    (validate_topic "" ≡ false)
    × (validate_topic "/" ≡ false)
    × (validate_topic "pr" ≡ false)
    × (validate_topic "pr/" ≡ false)
    × (validate_topic "/x" ≡ false)
    × (validate_topic "pr//1" ≡ false)
    × (validate_topic "pr/hello world/1" ≡ false)
unfolding validate_topic
refused = (refl, refl, refl, refl, refl, refl, refl)

parsed : (parse_object_type "pr/octocat/hello/1" ≡ some "pr") × (parse_object_type "" ≡ none)
unfolding parse_object_type
parsed = (refl, refl)

validate_topic_iff_example :
    (validate_topic "pr/o" ≡ true)
    ↔ ((len "pr/o" ≤ 512) × (2 ≤ length (split_slash "pr/o")) × All IsSegment (split_slash "pr/o"))
validate_topic_iff_example = validate_topic_iff "pr/o"
