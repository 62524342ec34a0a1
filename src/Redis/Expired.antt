-- ===== src/Redis/Expired.antt =====
-- What `Expire` takes away, and what it counts.
use event_watch.Base.{◌≡◌, String, false, List, [], ◌∷◌}
use event_watch.Objtypes.Codec.{Codec}
use event_watch.Redis.Server.{has}

-- No member of a set stands twice.
abbrev pub IsDistinct : List String → Type 0
IsDistinct [] = Unit
IsDistinct (m ∷ ms) = (has m ms ≡ false) × IsDistinct ms
