-- ===== src/Broker/Typed.antt =====
-- The deep state of a topic, decoded: the fold of its reducer's step over the log.
use event_watch.Base.{◌≡◌, sym, ap, subst, ◌∙◌, String, Option, none, some, List, [], ◌∷◌, All}
use event_watch.Core.{Event, RawMessage, Error, bad_json}
use event_watch.Core.Topic.{parse_object_type}
use event_watch.Computed
use event_watch.Computed.{Reducer, Registry, new_registry, register}
use event_watch.Computed.Laws.{last_of, apply-register, reduced_by}
use event_watch.Broker.Accepted.{kept_state}
use event_watch.Broker.Fold.{fold_log}
use event_watch.Objtypes.Codec.{Codec, apply_strict, encoded}
use event_watch.Objtypes.Codec.Refine.{Encodes, apply_strict-encoded}

module _ {A : Type 0} (c : Codec A) (step : A → Event → A) (init : A) where
  abbrev pub fold_typed : A → List Event → A
  fold_typed s [] = s
  fold_typed s (e ∷ es) = fold_typed (step s e) es

  step-Encodes :
      (raw : RawMessage) (s : A) (e : Event) (t : String)
      → Encodes c step init raw s
      → c.marshal (step s e) ≡ some t
      → Encodes c step init (kept_state raw (apply_strict c step init raw e)) (step s e)
  step-Encodes raw s e t h m =
      let done : encoded c (step s e) ≡ (some t, none) =
        ap (λ o. elim o [ none ↦ (none, some bad_json) | some u ↦ (some u, none) ]) m in
      subst (λ (r : RawMessage × Option Error). Encodes c step init (kept_state raw r) (step s e))
        (sym (apply_strict-encoded c step init raw s e h ∙ done)) m

  -- Each state that a log leads to can be encoded.
  abbrev pub AllEncoded : A → List Event → Type 0
  AllEncoded s [] = Unit
  AllEncoded s (e ∷ es) =
      ((t : String) × (c.marshal (step s e) ≡ some t)) × AllEncoded (step s e) es

  -- Where the reducer registered last for an object type is one that decodes its state, applies a
  -- step and encodes it again: on a log of events of that type, each of whose states can be encoded,
  -- the encoded state that the broker keeps is the encoding of the fold of the step over the log.
  pub fold_log-Encodes :
      (reds : List Reducer) (ot : String) (raw : RawMessage) (s : A) (es : List Event)
      → last_of ot reds none ≡ some (record { object_type = ot; apply = apply_strict c step init })
      → All (λ e. parse_object_type e.topic ≡ some ot) es
      → AllEncoded s es
      → Encodes c step init raw s
      → Encodes c step init (fold_log (register new_registry reds) raw es) (fold_typed s es)
  fold_log-Encodes reds ot raw s [] last own all h = h
  fold_log-Encodes reds ot raw s (e ∷ es) last (here, own) ((t, m), all) h =
      let applied : Computed.apply (register new_registry reds) raw e
          ≡ apply_strict c step init raw e =
        apply-register reds ot raw e here ∙ ap (λ o. reduced_by o raw e) last in
      fold_log-Encodes reds ot (kept_state raw (Computed.apply (register new_registry reds) raw e))
        (step s e) es last own all
        (subst
          (λ (r : RawMessage × Option Error). Encodes c step init (kept_state raw r) (step s e))
          (sym applied) (step-Encodes raw s e t h m))
