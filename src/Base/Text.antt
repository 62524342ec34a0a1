-- ===== src/Base/Text.antt =====
-- What the code does with the texts of package strings.
use Prim.Native.Char.{code}
use Prim.Native.String.{String, [], ◌∷◌}
use mathlib.Core.Option.{Option, none, some}
use event_watch.Base.Tests.{◌==◌, if◌then◌else◌}

-- What follows a prefix: `strings.CutPrefix`.
abbrev pub cut_prefix : String → String → Option String
cut_prefix [] s = some s
cut_prefix (c ∷ p) [] = none
cut_prefix (c ∷ p) (d ∷ s) = if code c == code d then cut_prefix p s else none
