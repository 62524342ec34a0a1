-- ===== src/Transport/Fields/Laws.antt =====
-- How the payloads of the handlers are read by the reducers.
use event_watch.Base.{◌<◌, ◌≡◌, refl, arith, eq_iff, lookup, word_mod, add64, sub64, ap, ◌∙◌}
use event_watch.Core.{Event, Payload, Result}
use event_watch.Objtypes.Codec.{number_as_int64}
use event_watch.Objtypes.Field.{IntFieldState, step_int, delta_of}
use event_watch.Transport.Fields.{delta_payload, number_or, or_nil_map}

delta_of-delta_payload :
    (body : Result Payload)
    → delta_of (delta_payload body)
      ≡ number_or 1 (number_as_int64 (lookup "delta" (or_nil_map body)))
unfolding delta_of delta_payload lookup
delta_of-delta_payload body = refl

step_int-incr :
    (s : IntFieldState) (e : Event)
    → e.type ≡ "int_incr"
    → (step_int s e).value ≡ add64 s.value (delta_of e.payload)
unfolding step_int
step_int-incr s e h =
    ground (arith, eq_iff e.type "int_set", eq_iff e.type "int_incr", eq_iff "int_incr" "int_set")

step_int-decr :
    (s : IntFieldState) (e : Event)
    → e.type ≡ "int_decr"
    → (step_int s e).value ≡ sub64 s.value (delta_of e.payload)
unfolding step_int
step_int-decr s e h = ground (
  arith,
  eq_iff e.type "int_set",
  eq_iff e.type "int_incr",
  eq_iff e.type "int_decr",
  eq_iff "int_decr" "int_set",
  eq_iff "int_decr" "int_incr",
)

-- The reducer reads from the payload of the increment handler the number that the handler read from
-- the body, or 1 where there was none, whatever the body; and a decrement with the same body takes
-- the counter back to where it was, also where it wraps.
pub delta_payload_undone :
    (s : IntFieldState) (body : Result Payload) (up down : Event)
    → s.value < word_mod
    → up.type ≡ "int_incr"
    → up.payload ≡ delta_payload body
    → down.type ≡ "int_decr"
    → down.payload ≡ delta_payload body
    → ((step_int s up).value
        ≡ add64 s.value (number_or 1 (number_as_int64 (lookup "delta" (or_nil_map body)))))
      × ((step_int (step_int s up) down).value ≡ s.value)
delta_payload_undone s body up down l ht hp kt kp =
    let d = number_or 1 (number_as_int64 (lookup "delta" (or_nil_map body))) in
    let one = step_int-incr s up ht in
    let two = step_int-decr (step_int s up) down kt in
    let du : delta_of up.payload ≡ d = ap delta_of hp ∙ delta_of-delta_payload body in
    let dd : delta_of down.payload ≡ d = ap delta_of kp ∙ delta_of-delta_payload body in
    (omega (arith, one, du), omega (arith, one, two, du, dd, l))
