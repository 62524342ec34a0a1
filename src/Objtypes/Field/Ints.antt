-- ===== src/Objtypes/Field/Ints.antt =====
-- Counters: increments and decrements in any order.
use mathlib.Core.List.{Perm, Permᴰ}
use mathlib.Core.Logic.{∥∥₁_elim}
use native.Mathlib.Nat.{ℕ_set}
use event_watch.Base.{
  ℕ, ◌+◌, ◌-◌, ◌%◌, ◌<◌, ◌≡◌, refl, sym, ap, subst, ◌∙◌, true, ◌⊎◌, List, [], ◌∷◌, ◌=ₛ◌,
  if◌then◌else◌, arith, eq_iff, word_mod, All,
}
use event_watch.Core.{Event}
use event_watch.Objtypes.Field.{IntFieldState, step_int, delta_of}

unfoldable pub run : IntFieldState → List Event → IntFieldState
run s [] = s
run s (e ∷ es) = run (step_int s e) es

abbrev pub IsMath : Event → Type 0
IsMath e = (e.type ≡ "int_incr") ⊎ (e.type ≡ "int_decr")

-- What a math event adds, as a 64-bit pattern.
abbrev pub amount : Event → ℕ
amount e =
    if e.type =ₛ "int_incr" then delta_of e.payload else word_mod - delta_of e.payload % word_mod

abbrev pub total : List Event → ℕ
total [] = 0
total (e ∷ es) = amount e + total es

step_int-value :
    (s : IntFieldState) (e : Event)
    → IsMath e
    → ((step_int s e).value ≡ (s.value + amount e) % word_mod) × ((step_int s e).exists ≡ true)
unfolding step_int
step_int-value s e m = ground (
  arith,
  eq_iff e.type "int_set",
  eq_iff e.type "int_incr",
  eq_iff e.type "int_decr",
  eq_iff "int_incr" "int_set",
  eq_iff "int_decr" "int_set",
  eq_iff "int_decr" "int_incr",
)

run-total :
    (s : IntFieldState) (es : List Event)
    → s.value < word_mod
    → All IsMath es
    → (run s es).value ≡ (s.value + total es) % word_mod
unfolding run
run-total s [] l m = omega arith
run-total s (e ∷ es) l (m, ms) = ground (arith, step_int-value s e m, run-total (step_int s e) es)

total-Permᴰ : {es es' : List Event} → Permᴰ es es' → total es ≡ total es'
total-Permᴰ Permᴰ.nil = refl
total-Permᴰ (Permᴰ.cons p d) = ground (arith, total-Permᴰ d, ap amount p)
total-Permᴰ (Permᴰ.swap p q) = ground (arith, ap amount p, ap amount q)
total-Permᴰ (Permᴰ.trans d d') = total-Permᴰ d ∙ total-Permᴰ d'

IsMath-Permᴰ : {es es' : List Event} → Permᴰ es es' → All IsMath es → All IsMath es'
IsMath-Permᴰ Permᴰ.nil m = tt
IsMath-Permᴰ (Permᴰ.cons p d) (m, ms) = (subst IsMath p m, IsMath-Permᴰ d ms)
IsMath-Permᴰ (Permᴰ.swap p q) (m, (n, ms)) = (subst IsMath q n, (subst IsMath p m, ms))
IsMath-Permᴰ (Permᴰ.trans d d') m = IsMath-Permᴰ d' (IsMath-Permᴰ d m)

-- A counter that gets the same increments and decrements in any two orders has the same value in
-- the end, whatever their deltas and whether or not the value wraps.
pub run_unordered :
    (s : IntFieldState) (es es' : List Event)
    → s.value < word_mod
    → All IsMath es
    → Perm es es'
    → (run s es).value ≡ (run s es').value
run_unordered s es es' l m p = ∥∥₁_elim p (ℕ_set _ _) (λ d.
    run-total s es l m
    ∙ ap (λ n. (s.value + n) % word_mod) (total-Permᴰ d)
    ∙ sym (run-total s es' l (IsMath-Permᴰ d m)))
