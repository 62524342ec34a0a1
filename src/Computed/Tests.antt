-- ===== src/Computed/Tests.antt =====
-- The registry at a concrete reducer.
use event_watch.Base.{◌≡◌, refl, some}
use event_watch.Core.Topic.{parse_object_type}

parsed : parse_object_type "pr/o/r/1" ≡ some "pr"
unfolding parse_object_type
parsed = refl
