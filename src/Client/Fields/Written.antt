-- ===== src/Client/Fields/Written.antt =====
-- What a field reads after it was written.
use event_watch.Base.{
  ℕ, ◌≡◌, refl, ap, ◌∙◌, String, Bool, true, false, some, arith, eq_iff, lookup, add64, sub64,
}
use event_watch.Core.{Event, RawMessage, ok}
use event_watch.Objtypes.Codec.{Codec, encoded}
use event_watch.Objtypes.Codec.Refine.{Encodes, apply_lenient-encoded}
use event_watch.Objtypes.Field.{
  StringFieldState, IntFieldState, initial_string, initial_int, step_string, step_int, delta_of,
  string_reducer, int_reducer,
}
use event_watch.Client.Fields.{
  StringCall, IntCall, string_event, int_event, get_field, get_string, get_int,
}

-- A struct that was marshalled is read back.
get_field-marshal :
    {A V : Type 0} (c : Codec A) (value : A → V) (exists : A → Bool) (zero : V) (s : A) (t : String)
    → c.marshal s ≡ some t
    → get_field c value exists zero (some t) ≡ ok (value s, exists s)
unfolding get_field
get_field-marshal c value exists zero s t m = ground (arith, c.round_trip s t m, eq_iff t "")

module _ (c : Codec IntFieldState) (through_json : ℕ → ℕ) where
  -- What the methods of `IntField` mean for the value and the flag.
  abbrev pub after_int : IntCall → IntFieldState → ℕ × Bool
  after_int (IntCall.set v) s = (through_json v, true)
  after_int (IntCall.incr d) s = (add64 s.value (through_json d), true)
  after_int (IntCall.decr d) s = (sub64 s.value (through_json d), true)
  after_int IntCall.delete s = (0, false)

  step_int-after :
      (topic : String) (call : IntCall) (s : IntFieldState) (e : Event)
      → e.type ≡ (int_event through_json topic call).type
      → e.payload ≡ (int_event through_json topic call).payload
      → ((step_int s e).value, (step_int s e).exists) ≡ after_int call s
  unfolding step_int int_event delta_of lookup
  step_int-after topic (IntCall.set v) s e t p = rw (t, p, step_int) refl
  step_int-after topic (IntCall.incr d) s e t p = rw (t, p, step_int) refl
  step_int-after topic (IntCall.decr d) s e t p = rw (t, p, step_int) refl
  step_int-after topic IntCall.delete s e t p = rw (t, step_int) refl

  -- A client that writes an integer field and then reads its state, with no write between, gets
  -- what it wrote: the value that it set, the old value with the delta added or taken off, modulo
  -- 2 ^ 64, or no value after a delete. Numbers are those that arrive through JSON, and the new
  -- state is one that can be marshalled.
  pub int_written :
      (topic : String) (call : IntCall) (raw : RawMessage) (s : IntFieldState) (e : Event)
      (t : String)
      → Encodes c step_int initial_int raw s
      → e.type ≡ (int_event through_json topic call).type
      → e.payload ≡ (int_event through_json topic call).payload
      → c.marshal (step_int s e) ≡ some t
      → get_int c ((int_reducer c).apply raw e).0 ≡ ok (after_int call s)
  unfolding int_reducer
  int_written topic call raw s e t h type payload m =
      let applied = ap (λ r. r.0) (apply_lenient-encoded c step_int initial_int raw s e h) in
      let kept : (encoded c (step_int s e)).0 ≡ some t = ground (arith, m) in
      ap (get_int c) (applied ∙ kept)
      ∙ get_field-marshal c (λ s. s.value) (λ s. s.exists) 0 (step_int s e) t m
      ∙ ap ok (step_int-after topic call s e type payload)

module _ (c : Codec StringFieldState) where
  abbrev pub after_string : StringCall → String × Bool
  after_string (StringCall.set v) = (v, true)
  after_string StringCall.delete = ("", false)

  step_string-after :
      (topic : String) (call : StringCall) (s : StringFieldState) (e : Event)
      → e.type ≡ (string_event topic call).type
      → e.payload ≡ (string_event topic call).payload
      → ((step_string s e).value, (step_string s e).exists) ≡ after_string call
  unfolding step_string string_event lookup
  step_string-after topic (StringCall.set v) s e t p = rw (t, p, step_string) refl
  step_string-after topic StringCall.delete s e t p = rw (t, step_string) refl

  -- A client that writes a string field and then reads its state gets what it wrote.
  pub string_written :
      (topic : String) (call : StringCall) (raw : RawMessage) (s : StringFieldState) (e : Event)
      (t : String)
      → Encodes c step_string initial_string raw s
      → e.type ≡ (string_event topic call).type
      → e.payload ≡ (string_event topic call).payload
      → c.marshal (step_string s e) ≡ some t
      → get_string c ((string_reducer c).apply raw e).0 ≡ ok (after_string call)
  unfolding string_reducer
  string_written topic call raw s e t h type payload m =
      let applied = ap (λ r. r.0) (apply_lenient-encoded c step_string initial_string raw s e h) in
      let kept : (encoded c (step_string s e)).0 ≡ some t = ground (arith, m) in
      ap (get_string c) (applied ∙ kept)
      ∙ get_field-marshal c (λ s. s.value) (λ s. s.exists) "" (step_string s e) t m
      ∙ ap ok (step_string-after topic call s e type payload)
