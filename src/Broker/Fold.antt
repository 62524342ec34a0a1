-- ===== src/Broker/Fold.antt =====
-- The deep state of a topic is the fold of its log.
use event_watch.Base.{
  ◌≡◌, refl, sym, ap, ◌∙◌, String, none, List, [], ◌∷◌, ◌++◌, ◌=ₛ◌, Bool-cases, inl, inr,
}
use event_watch.Core.{Event, RawMessage, ok}
use event_watch.Computed.{Registry}
use event_watch.Computed
use event_watch.StoreApi.{StoreApi, Env, IsStore}
use event_watch.Broker.{Broker, publish, or_nil}
use event_watch.Broker.Accepted.{kept_state, publish-IsAccepted}

-- The state after the reducers have seen a list of events, oldest first.
abbrev pub fold_log : Registry → RawMessage → List Event → RawMessage
fold_log r raw [] = raw
fold_log r raw (e ∷ es) = fold_log r (kept_state raw (Computed.apply r raw e)) es

pub fold_log-snoc :
    (r : Registry) (raw : RawMessage) (es : List Event) (e : Event)
    → fold_log r raw (es ++ e ∷ [])
      ≡ kept_state (fold_log r raw es) (Computed.apply r (fold_log r raw es) e)
fold_log-snoc r raw [] e = refl
fold_log-snoc r raw (x ∷ es) e = fold_log-snoc r (kept_state raw (Computed.apply r raw x)) es e

module _ {S : Type 0} (api : StoreApi S) (Valid : S → Type 0) (events : S → String → List Event)
    (law : IsStore api Valid events) where
  pub record IsFolded (b : Broker S) : Type 0 where
    pub same :
        (t : String)
        → or_nil (api.get_state b.store t) ≡ fold_log b.reducers none (events b.store t)

  -- Over any store that meets its contract, an accepted publish keeps every topic's state equal to
  -- the fold of the reducers over the topic's log.
  pub publish-IsFolded :
      (b b' : Broker S) (env : Env) (e e' : Event) (source : String)
      → Valid b.store
      → IsFolded b
      → publish api b env e source ≡ (b', ok e')
      → IsFolded b'
  publish-IsFolded b b' env e e' source v folded eq = record {
    same = λ t.
        let done = publish-IsAccepted api Valid events law b b' env e e' source v eq in
        let log = events b.store t in
        elim (Bool-cases (e.topic =ₛ t)) [
          | inl same ↦
              (rw same at (done.state t))
              ∙ ap (λ raw. kept_state raw (Computed.apply b.reducers raw e')) (folded.same t)
              ∙ sym (fold_log-snoc b.reducers none log e')
              ∙ ap (fold_log b.reducers none) (sym (rw same at (done.log t)))
              ∙ ap (λ r. fold_log r none (events b'.store t)) (sym done.same_reducers)
          | inr other ↦
              (rw other at (done.state t))
              ∙ folded.same t
              ∙ ap (fold_log b.reducers none) (sym (rw other at (done.log t)))
              ∙ ap (λ r. fold_log r none (events b'.store t)) (sym done.same_reducers)
        ];
  }
