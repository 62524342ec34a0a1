-- ===== src/Redis/Contract.antt =====
-- The store over Redis meets the contract of the interface.
use event_watch.Base.{
  ◌+◌, ◌≡◌, refl, ap, ◌∙◌, String, true, Option, some, [], ◌∷◌, ◌++◌, length, ◌<◌, arith, lookup,
  if◌then◌else◌, ◌=ₛ◌, eq_iff, Bool-cases, inl, inr,
}
use event_watch.Core.{Event, ok}
use event_watch.Objtypes.Codec.{Codec}
use event_watch.StoreApi.{Env, IsStore, stamped}
use event_watch.Redis.Server.{Item, integer, RedisApi, IsRedis, Values, members_of, fine, added}
use event_watch.Redis.Store.{
  stream_key, meta_key, seq_key, topics_set, redis, append, get_state, decode_entry,
}
use event_watch.Redis.Append.{Appended, append-Appended, append-succeeds}
use event_watch.Base.Decimal.{show_ℕ}
use event_watch.Redis.Logs.{IsLog, log_of, IsLog-added, log_of-added}
use event_watch.Redis.Writes.{
  events_of, IsValid, IsLog-same, redis_read, get_state_at, redis_set_state, redis_upsert_meta,
}

module _ {R : Type 0} (api : RedisApi R) (at : R → String → Option Item) (laws : IsRedis api at)
    (c : Codec Event) where
  -- The entry that an append adds is read back as the event.
  appended_entry :
      (e : Event) (body : String)
      → c.marshal e ≡ some body
      → decode_entry c (("e", body) ∷ ("seq", show_ℕ e.seq) ∷ []) ≡ some e
  unfolding lookup
  appended_entry e body m = ground (arith, c.round_trip e body m)

  append-IsLog :
      (r r' : R) (env : Env) (e e' : Event) (t : String)
      → IsValid api at laws c r
      → Appended api at laws c r r' env e e' (length (events_of api at laws c r e.topic))
      → IsLog c (at r' (stream_key t)) (at r' (seq_key t)) (at r' (meta_key t))
  append-IsLog r r' env e e' t v a = elim (Bool-cases (e.topic =ₛ t)) [
    | inl same ↦
        let topic : e.topic ≡ t = ground (arith, eq_iff e.topic t, same) in
        let fields : Values = ("e", a.body) ∷ ("seq", show_ℕ e'.seq) ∷ [] in
        let log : at r' (stream_key t) ≡ added fields (at r (stream_key t)) =
          a.logs t ∙ rw same refl in
        let count : at r' (seq_key t) ≡ some (integer (length (events_of api at laws c r t) + 1)) =
          a.counts t
          ∙ rw same (ap (λ u. some (integer (length (events_of api at laws c r u) + 1))) topic) in
        let seq : e'.seq ≡ 1 + length (events_of api at laws c r t) =
          ap (λ (x : Event). x.seq) a.given
          ∙ ap (λ u. length (events_of api at laws c r u) + 1) topic
          ∙ omega arith in
        rw (log, count)
          (IsLog-added c fields e' (at r (stream_key t)) (at r (seq_key t)) (at r (meta_key t))
            (at r' (meta_key t)) (v t) (appended_entry e' a.body a.marshalled) seq (a.hashes t))
    | inr other ↦
        IsLog-same api at laws c r r' t (a.logs t ∙ rw other refl) (a.counts t ∙ rw other refl)
          (a.hashes t) (v t)
  ]

  append_events :
      (r r' : R) (env : Env) (e e' : Event) (t : String)
      → IsValid api at laws c r
      → Appended api at laws c r r' env e e' (length (events_of api at laws c r e.topic))
      → events_of api at laws c r' t ≡ (
          if e.topic =ₛ t
          then events_of api at laws c r t ++ e' ∷ []
          else events_of api at laws c r t)
  append_events r r' env e e' t v a = elim (Bool-cases (e.topic =ₛ t)) [
    | inl same ↦
        let fields : Values = ("e", a.body) ∷ ("seq", show_ℕ e'.seq) ∷ [] in
        let log : at r' (stream_key t) ≡ added fields (at r (stream_key t)) =
          a.logs t ∙ rw same refl in
        rw same (
          ap (log_of c) log
          ∙ log_of-added c fields (at r (stream_key t)) e' (v t).typed
              (appended_entry e' a.body a.marshalled))
    | inr other ↦
        let log : at r' (stream_key t) ≡ at r (stream_key t) = a.logs t ∙ rw other refl in
        rw other (ap (log_of c) log)
  ]

  redis_append :
      (r r' : R) (env : Env) (e e' : Event)
      → IsValid api at laws c r
      → append api c r env e ≡ (r', ok e')
      → IsValid api at laws c r'
        × (e' ≡ stamped e (length (events_of api at laws c r e.topic) + 1) env)
        × ((t : String)
            → events_of api at laws c r' t ≡ (
                if e.topic =ₛ t
                then events_of api at laws c r t ++ e' ∷ []
                else events_of api at laws c r t))
        × ((t : String) → get_state api r' t ≡ get_state api r t)
  redis_append r r' env e e' v h =
      let a =
        append-Appended api at laws c r r' env e e' (length (events_of api at laws c r e.topic))
          (v e.topic).counted h in
      (
        λ t. append-IsLog r r' env e e' t v a,
        a.given,
        λ t. append_events r r' env e e' t v a,
        λ t. get_state_at api at laws c r r' t (a.kept t),
      )

  -- On a Redis server that answers every command and whose keys are as this code leaves them, an
  -- append succeeds with the next seq of the topic, if the event can be marshalled, the set of topics
  -- is a set, and the counter has not reached 2 ^ 63 - 1.
  pub append_succeeds :
      (r : R) (env : Env) (e : Event) (body : String)
      → IsValid api at laws c r
      → fine (members_of (at r topics_set)) ≡ true
      → length (events_of api at laws c r e.topic) + 1 < 9223372036854775808
      → c.marshal (stamped e (length (events_of api at laws c r e.topic) + 1) env) ≡ some body
      → (append api c r env e).1
        ≡ ok (stamped e (length (events_of api at laws c r e.topic) + 1) env)
  append_succeeds r env e body v typed small m =
      append-succeeds api at laws c r env e (length (events_of api at laws c r e.topic)) body
        (v e.topic).counted (ap fine (v e.topic).typed) (v e.topic).hashed typed small m

  -- The store over a Redis server that answers every command and on which only this code writes
  -- its keys keeps the contract of a store.
  pub redis-IsStore : IsStore (redis api c) (IsValid api at laws c) (events_of api at laws c)
  unfolding redis
  redis-IsStore = record {
    append_ok = redis_append;
    read_ok = redis_read api at laws c;
    set_state_ok = redis_set_state api at laws c;
    upsert_meta_ok = λ r env meta v. redis_upsert_meta api at laws c r meta v;
    numbered = λ r t v. (v t).numbered;
  }
