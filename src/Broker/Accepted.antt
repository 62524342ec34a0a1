-- ===== src/Broker/Accepted.antt =====
-- What an accepted publish does to the store and the hub, by the store's contract.
use event_watch.Base.{
  ◌+◌, ◌≡◌, refl, sym, ap, ◌∙◌, String, Option, none, some, List, [], ◌∷◌, ◌++◌, length, ◌=ₛ◌,
  if◌then◌else◌, arith, eq_iff,
}
use event_watch.Core.{Event, RawMessage, Error, Result, ok}
use mathlib.Core.Path.{subst₂}
use event_watch.Computed.{Registry}
use event_watch.Computed
use event_watch.Hub
use event_watch.StoreApi.{StoreApi, Env, IsStore, stamped}
use event_watch.Broker.{Broker, or_nil, save, fan_out, publish, meta_of}
use event_watch.Broker.Publish.{Published, refused, failed, accepted, publish-Published, reduced}

-- The state that stays after a reducer has answered: its answer, unless it failed or is nil.
abbrev pub kept_state : RawMessage → RawMessage × Option Error → RawMessage
kept_state raw (none, rerr) = raw
kept_state raw (some next, none) = some next
kept_state raw (some next, some x) = raw

module _ {S : Type 0} (api : StoreApi S) (Valid : S → Type 0) (events : S → String → List Event)
    (law : IsStore api Valid events) where
  abbrev pub state_of : S → String → RawMessage
  state_of s t = or_nil (api.get_state s t)

  pub record IsAccepted (b b' : Broker S) (env : Env) (e e' : Event) : Type 0 where
    pub valid : Valid b'.store
    pub stamp : e' ≡ stamped e (length (events b.store e.topic) + 1) env
    pub log :
        (t : String)
        → events b'.store t
          ≡ (if e.topic =ₛ t then events b.store t ++ e' ∷ [] else events b.store t)
    pub state :
        (t : String)
        → state_of b'.store t ≡ (
            if e.topic =ₛ t
            then kept_state (state_of b.store t) (Computed.apply b.reducers (state_of b.store t) e')
            else state_of b.store t)
    pub fanned :
        b'.hub
        ≡ Hub.publish b.hub
            (record e' { state = (Computed.apply b.reducers (state_of b.store e.topic) e').0 })
    pub same_reducers : b'.reducers ≡ b.reducers

  module _ (b : Broker S) (env : Env) (e : Event) (ot : String) (valid : Valid b.store) where
    meta_keeps :
        (s : S)
        → Valid s
        → ((t : String) → events s t ≡ events b.store t)
        → let s' = api.upsert_meta s env (meta_of e.topic ot b.default_ttl) in
          Valid s' × ((t : String) → events s' t ≡ events b.store t)
    meta_keeps s v same =
        let kept = law.upsert_meta_ok s env (meta_of e.topic ot b.default_ttl) v in
        (kept.0, λ t. kept.1 t ∙ same t)

    meta_state :
        (s : S)
        → Valid s
        → (t : String)
        → state_of (api.upsert_meta s env (meta_of e.topic ot b.default_ttl)) t ≡ state_of s t
    meta_state s v t =
        ap or_nil ((law.upsert_meta_ok s env (meta_of e.topic ot b.default_ttl) v).2 t)

    save_valid :
        (r : RawMessage × Option Error)
        → Valid (save api b env e ot r).store
          × ((t : String) → events (save api b env e ot r).store t ≡ events b.store t)
    unfolding save
    save_valid (none, none) = meta_keeps b.store valid (λ t. refl)
    save_valid (none, some x) = meta_keeps b.store valid (λ t. refl)
    save_valid (some next, none) =
        let set = law.set_state_ok b.store env e.topic (some next) valid in
        meta_keeps (api.set_state b.store env e.topic (some next)) set.0 set.1
    save_valid (some next, some x) = meta_keeps b.store valid (λ t. refl)

    save_state :
        (r : RawMessage × Option Error) (t : String)
        → state_of (save api b env e ot r).store t
          ≡ (if e.topic =ₛ t then kept_state (state_of b.store t) r else state_of b.store t)
    unfolding save
    save_state (none, none) t = ground (arith, meta_state b.store valid t)
    save_state (none, some x) t = ground (arith, meta_state b.store valid t)
    save_state (some next, none) t =
        let set = law.set_state_ok b.store env e.topic (some next) valid in
        ground (arith, meta_state (api.set_state b.store env e.topic (some next)) set.0 t, set.2 t)
    save_state (some next, some x) t = ground (arith, meta_state b.store valid t)

  module _ (b : Broker S) (env : Env) (e : Event) (ot source : String) (s : S) (e' : Event)
      (v : Valid b.store) (a : api.append b.store env e ≡ (s, ok e')) where
    appended :
        Valid s
        × (e' ≡ stamped e (length (events b.store e.topic) + 1) env)
        × ((t : String)
            → events s t ≡ (if e.topic =ₛ t then events b.store t ++ e' ∷ [] else events b.store t))
        × ((t : String) → api.get_state s t ≡ api.get_state b.store t)
    appended = law.append_ok b.store s env e e' v a

    reduced_same :
        reduced api b env e s e' ≡ Computed.apply b.reducers (state_of b.store e.topic) e'
    reduced_same =
        ap (λ (r : Result RawMessage). Computed.apply b.reducers (or_nil r) e') (appended.3 e.topic)

    accepted_state :
        (t : String)
        → state_of (save api (record b { store = s }) env e ot (reduced api b env e s e')).store t
          ≡ (if e.topic =ₛ t
              then kept_state
                  (state_of b.store t)
                  (Computed.apply b.reducers (state_of b.store t) e')
              else state_of b.store t)
    accepted_state t = ground (
      arith,
      save_state (record b { store = s }) env e ot appended.0 (reduced api b env e s e') t,
      ap or_nil (appended.3 t),
      reduced_same,
      eq_iff e.topic t,
      λ (same : e.topic ≡ t). ap (λ u. Computed.apply b.reducers (state_of b.store u) e') same,
    )

    accepted_lem :
        IsAccepted b
          (fan_out api
            (save api (record b { store = s }) env e ot (reduced api b env e s e'))
            (record e' { state = (reduced api b env e s e').0 })
            ot
            source)
          env
          e
          e'
    unfolding fan_out save
    accepted_lem =
        let kept =
          save_valid (record b { store = s }) env e ot appended.0 (reduced api b env e s e') in
        record {
          valid = kept.0;
          stamp = appended.1;
          log = λ t. kept.1 t ∙ appended.2 t;
          state = accepted_state;
          fanned =
              ap (λ (r : RawMessage × Option Error). Hub.publish b.hub (record e' { state = r.0 }))
                reduced_same;
          same_reducers = refl;
        }

  -- The clauses of `Published` that end in an error are excluded by the result.
  IsAccepted-of :
      (b b' : Broker S) (env : Env) (e e' : Event) (source : String)
      → Valid b.store
      → publish api b env e source ≡ (b', ok e')
      → Published api b env e source (publish api b env e source)
      → IsAccepted b b' env e e'
  IsAccepted-of b b' env e e' source v eq (refused x h r) = absurd (cc)
  IsAccepted-of b b' env e e' source v eq (failed s x h r) = absurd (cc)
  IsAccepted-of b b' env e e' source v eq (accepted ot s e'' h a r) =
      subst₂ (λ c x. IsAccepted b c env e x)
        (ap (λ (p : Broker S × Result Event). p.0) (sym r ∙ eq)) (cc)
        (accepted_lem b env e ot source s e'' v a)

  -- Over any store that meets its contract, a publish that is accepted gives its event the next
  -- seq of the topic and the id and time that it lacks, adds it to the log of its topic and to no
  -- other, replaces the state of that topic by what the topic's reducer makes of it and the event
  -- where this is no error and not nil, leaves every other state as it was, and hands the hub a
  -- copy of the event that carries the reducer's answer.
  pub publish-IsAccepted :
      (b b' : Broker S) (env : Env) (e e' : Event) (source : String)
      → Valid b.store
      → publish api b env e source ≡ (b', ok e')
      → IsAccepted b b' env e e'
  publish-IsAccepted b b' env e e' source v eq =
      IsAccepted-of b b' env e e' source v eq (publish-Published api b env e source)
