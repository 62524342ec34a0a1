-- ===== src/Broker/Publish.antt =====
-- How a publish ends, and what it leaves of the broker.
use event_watch.Base.{◌≡◌, ◌≢◌, ap, refl, String, true, ◌⊎◌, inl, inr, Option, arith, eq_iff, ◌↔◌}
use event_watch.Core.{Event, RawMessage, Error, Result, ok, err}
use event_watch.Core.Topic.{validate_topic}
use event_watch.Core.Topic.Laws.{validate_topic-parse_object_type}
use event_watch.Computed
use event_watch.StoreApi.{StoreApi, Env}
use event_watch.Broker.{Broker, or_nil, check, save, ingest, fan_out, publish}

pub Result-cases {ℓ} :
    {A : Type ℓ} (r : Result A) → ((x : Error) × (r ≡ err x)) ⊎ ((a : A) × (r ≡ ok a))
Result-cases (ok a) = inr (a, refl)
Result-cases (err x) = inl (x, refl)

module _ {S : Type 0} (api : StoreApi S) where
  -- The checks pass exactly for a valid topic and a type.
  check_iff :
      (e : Event)
      → ((ot : String) × (check api e ≡ ok ot)) ↔ ((validate_topic e.topic ≡ true) × (e.type ≢ ""))
  unfolding check
  check_iff e = (
    λ (ot, h). ground (arith, eq_iff e.type ""),
    λ (valid, typed).
        let (ot, parsed, _) = validate_topic-parse_object_type e.topic valid in
        (ot, ground (arith, eq_iff e.type "")),
  )

  -- The state that a publish computes, and any error of the reducer.
  abbrev pub reduced : Broker S → Env → Event → S → Event → RawMessage × Option Error
  reduced b env e stored e' = Computed.apply b.reducers (or_nil (api.get_state stored e.topic)) e'

  pub data Published (b : Broker S) (env : Env) (e : Event) (source : String)
      (r : Broker S × Result Event) : Type 0 where
    refused : (x : Error) → check api e ≡ err x → r ≡ (b, err x) → Published b env e source r
    failed :
        (s : S) (x : Error)
        → api.append b.store env e ≡ (s, err x)
        → r ≡ (record b { store = s }, err x)
        → Published b env e source r
    accepted :
        (ot : String) (s : S) (e' : Event)
        → check api e ≡ ok ot
        → api.append b.store env e ≡ (s, ok e')
        → r ≡ (
          fan_out api
              (save api (record b { store = s }) env e ot (reduced b env e s e'))
              (record e' { state = (reduced b env e s e').0 })
              ot
              source,
          ok e',
        )
        → Published b env e source r

  ingest_failed :
      (b : Broker S) (env : Env) (e : Event) (ot : String) (s : S) (x : Error)
      → api.append b.store env e ≡ (s, err x)
      → ingest api b env e ot ≡ (record b { store = s }, err x)
  unfolding ingest
  ingest_failed b env e ot s x h = ground arith

  ingest_ok :
      (b : Broker S) (env : Env) (e : Event) (ot : String) (s : S) (e' : Event)
      → api.append b.store env e ≡ (s, ok e')
      → ingest api b env e ot ≡ (
        save api (record b { store = s }) env e ot (reduced b env e s e'),
        ok (e', record e' { state = (reduced b env e s e').0 }),
      )
  unfolding ingest
  ingest_ok b env e ot s e' h = ground arith

  pub publish-Published :
      (b : Broker S) (env : Env) (e : Event) (source : String)
      → Published b env e source (publish api b env e source)
  unfolding publish
  publish-Published b env e source = elim (Result-cases (check api e)) [
    | inl (x, refusal) ↦ refused x refusal (rw (refusal, publish))
    | inr (ot, passed) ↦ elim (Result-cases (api.append b.store env e).1) [
      | inl (x, fault) ↦
          let s = (api.append b.store env e).0 in
          let a : api.append b.store env e ≡ (s, err x) = ground arith in
          failed s x a (ground (arith, ingest_failed b env e ot s x a))
      | inr (e', kept) ↦
          let s = (api.append b.store env e).0 in
          let a : api.append b.store env e ≡ (s, ok e') = ground arith in
          accepted ot s e' passed a (ground (arith, ingest_ok b env e ot s e' a))
    ]
  ]

  pub accepted-eq :
      (b : Broker S) (env : Env) (e : Event) (source ot : String) (s : S) (e' : Event)
      → publish api b env e source ≡ (
        fan_out api
            (save api (record b { store = s }) env e ot (reduced b env e s e'))
            (record e' { state = (reduced b env e s e').0 })
            ot
            source,
        ok e',
      )
      → publish api b env e source ≡ ((publish api b env e source).0, ok e')
  accepted-eq b env e source ot s e' r =
      ap (λ (x : Result Event). ((publish api b env e source).0, x))
        (ap (λ (p : Broker S × Result Event). p.1) r)
