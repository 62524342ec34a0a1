-- ===== src/Core/Topic/Split.antt =====
-- How the two ways of taking a topic apart agree.
use Prim.Native.String.{[], ◌∷◌}
use event_watch.Base.{◌≡◌, refl, String, none, some, [], ◌∷◌, arith}
use event_watch.Core.Topic.{cut_slash, split_slash}

-- The first slash splits off the first part.
pub split_slash-cut_slash :
    (s : String)
    → split_slash s ≡ elim (cut_slash s) [ none ↦ s ∷ [] | some (a, b) ↦ a ∷ split_slash b ]
unfolding cut_slash split_slash
split_slash-cut_slash [] = refl
split_slash-cut_slash (c ∷ s) = ground (arith, split_slash-cut_slash s)
