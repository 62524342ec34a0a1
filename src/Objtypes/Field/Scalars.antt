-- ===== src/Objtypes/Field/Scalars.antt =====
-- Strings and times: what the last of the field's own events leaves.
use event_watch.Base.{
  ◌≡◌, refl, ap, ◌∙◌, String, Bool, Option-cases, true, false, inl, inr, Option, none, some, List,
  [], ◌∷◌, ◌=ₛ◌, if◌then◌else◌, arith, eq_iff, lookup,
}
use event_watch.Core.{Event}
use event_watch.Objtypes.Field.{StringFieldState, step_string, string_of}

unfoldable pub run : StringFieldState → List Event → StringFieldState
run s [] = s
run s (e ∷ es) = run (step_string s e) es

abbrev pub contents : StringFieldState → String × Bool
contents s = (s.value, s.exists)

-- The write that an event is, if it is one: the value and the existence that it leaves.
unfoldable pub written : Event → Option (String × Bool)
written e =
    if e.type =ₛ "str_set"
    then (elim (string_of (lookup "value" e.payload)) [ none ↦ none | some v ↦ some (v, true) ])
    else if e.type =ₛ "str_delete"
    then some ("", false)
    else none

-- The last write of a list of events, after an earlier one.
unfoldable pub last_written : String × Bool → List Event → String × Bool
last_written w [] = w
last_written w (e ∷ es) = last_written (elim (written e) [ none ↦ w | some v ↦ v ]) es

step_string-written :
    (s : StringFieldState) (e : Event)
    → contents (step_string s e) ≡ elim (written e) [ none ↦ contents s | some v ↦ v ]
unfolding written step_string
step_string-written s e = elim (Option-cases (string_of (lookup "value" e.payload))) [
  | inl n ↦ ground (arith, n, eq_iff e.type "str_set", eq_iff e.type "str_delete")
  | inr (v, y) ↦ ground (arith, y, eq_iff e.type "str_set", eq_iff e.type "str_delete")
]

-- A string field has the value of the last `str_set` with a string, and exists, unless a
-- `str_delete` came after it, which leaves it empty and absent. Without either it is as it was.
pub run-last_written :
    (s : StringFieldState) (es : List Event) → contents (run s es) ≡ last_written (contents s) es
unfolding run last_written
run-last_written s [] = refl
run-last_written s (e ∷ es) =
    run-last_written (step_string s e) es ∙ ap (λ w. last_written w es) (step_string-written s e)
