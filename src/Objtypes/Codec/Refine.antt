-- ===== src/Objtypes/Codec/Refine.antt =====
-- A reducer over encoded states does what its step does on the structs.
use event_watch.Base.{◌≡◌, none, some, arith, eq_iff}
use event_watch.Core.{Event, RawMessage}
use event_watch.Objtypes.Codec.{Codec, encoded, apply_strict, apply_lenient}

module _ {A : Type 0} (c : Codec A) (step : A → Event → A) (init : A) where
  -- What a raw state stands for: the initial struct where there is none yet, or the struct that it
  -- encodes.
  abbrev pub Encodes : RawMessage → A → Type 0
  Encodes none s = s ≡ init
  Encodes (some t) s = c.marshal s ≡ some t

  pub apply_strict-encoded :
      (raw : RawMessage) (s : A) (e : Event)
      → Encodes raw s
      → apply_strict c step init raw e ≡ encoded c (step s e)
  unfolding apply_strict
  apply_strict-encoded none s e h = ground arith
  apply_strict-encoded (some t) s e h = ground (arith, c.round_trip s t h, eq_iff t "")

  pub apply_lenient-encoded :
      (raw : RawMessage) (s : A) (e : Event)
      → Encodes raw s
      → apply_lenient c step init raw e ≡ encoded c (step s e)
  unfolding apply_lenient
  apply_lenient-encoded none s e h = ground arith
  apply_lenient-encoded (some t) s e h = ground (arith, c.round_trip s t h, eq_iff t "")
