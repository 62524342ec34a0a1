-- ===== src/Redis/Writes.antt =====
-- What the reads return, and what the writes other than `Append` change.
use event_watch.Base.{
  ℕ, ℤ, ◌≡◌, refl, ap, sym, ◌∙◌, subst, String, false, Option, none, some, List, [], ◌∷◌, ◌++◌,
  filter, leb, if◌then◌else◌, ◌=ₛ◌, ◌==◌, Bool-cases, inl, inr,
}
use event_watch.Core.{Event, TopicMeta, RawMessage, ok}
use event_watch.Objtypes.Codec.{Codec, bytes}
use event_watch.Store.{limited, copied}
use event_watch.StoreApi.{Env}
use event_watch.Redis.Server.{
  Item, text, RedisApi, IsRedis, Values, string_of, hash_of, fine, set_in,
}
use event_watch.Redis.Store
use event_watch.Redis.Store.{
  stream_key, state_key, meta_key, seq_key, topics_set, append_commands, redis, append, read,
  get_state, set_state, on_ok, found, upsert_meta, h_set_some, decode_entry, type_fields,
  ttl_fields,
}
use event_watch.Redis.Keys.{
  Family, key, mark, prefix, streams, states, metas, seqs, key-inj, key-key_apart,
}
use event_watch.Redis.Reads.{read_entries-limited}
use event_watch.Redis.Logs.{entries_of, IsLog, log_of, set_in-hash}

bytes-copied : (raw : RawMessage) → ok (some (bytes raw)) ≡ ok (copied raw)
bytes-copied none = refl
bytes-copied (some t) = refl

module _ {R : Type 0} (api : RedisApi R) (at : R → String → Option Item) (laws : IsRedis api at)
    (c : Codec Event) where
  -- The events of a topic.
  abbrev pub events_of : R → String → List Event
  events_of r t = log_of c (at r (stream_key t))

  -- Every topic's keys are as this code leaves them.
  abbrev pub IsValid : R → Type 0
  IsValid r = (t : String) → IsLog c (at r (stream_key t)) (at r (seq_key t)) (at r (meta_key t))

  -- A write that leaves the keys of a log as they are.
  pub IsLog-same :
      (r r' : R) (t : String)
      → at r' (stream_key t) ≡ at r (stream_key t)
      → at r' (seq_key t) ≡ at r (seq_key t)
      → fine (hash_of (at r' (meta_key t))) ≡ fine (hash_of (at r (meta_key t)))
      → IsLog c (at r (stream_key t)) (at r (seq_key t)) (at r (meta_key t))
      → IsLog c (at r' (stream_key t)) (at r' (seq_key t)) (at r' (meta_key t))
  IsLog-same r r' t log count hash l = record {
    typed = rw log l.typed;
    counted = rw (log, count) l.counted;
    numbered = rw log l.numbered;
    hashed = hash ∙ l.hashed;
  }

  pub redis_read :
      (r : R) (t : String) (from : ℕ) (limit : ℤ) {out : List Event}
      → IsValid r
      → read api c r t from limit ≡ ok out
      → out ≡ limited limit (filter (λ e. leb from e.seq) (events_of r t))
  unfolding read
  redis_read r t from limit {out} v h =
      let entries = entries_of (at r (stream_key t)) in
      let got =
        ap (on_ok (Store.read_entries c from limit 0))
          (laws.x_range_ok r (stream_key t) ∙ (v t).typed) in
      let same : out ≡ Store.read_entries c from limit 0 entries = cc in
      same ∙ read_entries-limited c from limit entries

  pub get_state_at :
      (r r' : R) (t : String)
      → at r' (state_key t) ≡ at r (state_key t)
      → get_state api r' t ≡ get_state api r t
  unfolding get_state
  get_state_at r r' t h =
      ap found (laws.get_ok r' (state_key t) ∙ ap string_of h ∙ sym (laws.get_ok r (state_key t)))

  set_state_read :
      (r r' : R) (t u : String) (raw : RawMessage)
      → at r' (state_key u) ≡ (if t =ₛ u then some (text (bytes raw)) else at r (state_key u))
      → get_state api r' u ≡ (if t =ₛ u then ok (copied raw) else get_state api r u)
  unfolding get_state
  set_state_read r r' t u raw h = elim (Bool-cases (t =ₛ u)) [
    | inl same ↦
        let written : at r' (state_key u) ≡ some (text (bytes raw)) = h ∙ rw same refl in
        rw same (ap found (laws.get_ok r' (state_key u) ∙ ap string_of written) ∙ bytes-copied raw)
    | inr other ↦ rw other (get_state_at r r' u (h ∙ rw other refl))
  ]

  pub redis_set_state :
      (r : R) (env : Env) (t : String) (raw : RawMessage)
      → IsValid r
      → IsValid (set_state api r t raw).0
        × ((t' : String) → events_of (set_state api r t raw).0 t' ≡ events_of r t')
        × ((t' : String)
            → get_state api (set_state api r t raw).0 t'
              ≡ (if t =ₛ t' then ok (copied raw) else get_state api r t'))
  unfolding set_state
  redis_set_state r env t raw v =
      let r' = (set_state api r t raw).0 in
      let kept =
        λ (f : Family) (u : String) (d : (mark (prefix states) == mark (prefix f)) ≡ false).
          subst (λ b. at r' (key f u) ≡ (if b then some (text (bytes raw)) else at r (key f u)))
            (key-key_apart states f t u d) (laws.set_ok r (state_key t) (bytes raw) (key f u)) in
      (
        λ u.
            IsLog-same r r' u (kept streams u refl) (kept seqs u refl)
              (ap (λ i. fine (hash_of i)) (kept metas u refl)) (v u),
        λ u. ap (log_of c) (kept streams u refl),
        λ u. set_state_read r r' t u raw (
            subst
              (λ b.
                at r' (state_key u) ≡ (if b then some (text (bytes raw)) else at r (state_key u)))
              (key-inj states t u) (laws.set_ok r (state_key t) (bytes raw) (state_key u))),
      )

  -- `HSET` on a topic's hash changes only that hash, which stays one.
  h_set_some_kept :
      (r : R) (m : String) (fs : Values) (f : Family) (u : String)
      → (mark (prefix metas) == mark (prefix f)) ≡ false
      → at (h_set_some api r (meta_key m) fs).0 (key f u) ≡ at r (key f u)
  h_set_some_kept r m [] f u d = refl
  h_set_some_kept r m (g ∷ gs) f u d =
      laws.h_set_ok r (meta_key m) (g ∷ gs) (key f u) ∙ rw (key-key_apart metas f m u d) refl

  h_set_some_hash :
      (r : R) (m : String) (fs : Values) (u : String)
      → fine (hash_of (at (h_set_some api r (meta_key m) fs).0 (meta_key u)))
        ≡ fine (hash_of (at r (meta_key u)))
  h_set_some_hash r m [] u = refl
  h_set_some_hash r m (g ∷ gs) u = elim (Bool-cases (meta_key m =ₛ meta_key u)) [
    | inl same ↦
        let set : at (api.h_set r (meta_key m) (g ∷ gs)).0 (meta_key u)
            ≡ set_in (g ∷ gs) (at r (meta_key u)) =
          laws.h_set_ok r (meta_key m) (g ∷ gs) (meta_key u) ∙ rw same refl in
        ap (λ i. fine (hash_of i)) set ∙ set_in-hash (g ∷ gs) (at r (meta_key u))
    | inr other ↦
        let kept : at (api.h_set r (meta_key m) (g ∷ gs)).0 (meta_key u) ≡ at r (meta_key u) =
          laws.h_set_ok r (meta_key m) (g ∷ gs) (meta_key u) ∙ rw other refl in
        ap (λ i. fine (hash_of i)) kept
  ]

  pub redis_upsert_meta :
      (r : R) (meta : TopicMeta)
      → IsValid r
      → IsValid (upsert_meta api r meta).0
        × ((t : String) → events_of (upsert_meta api r meta).0 t ≡ events_of r t)
        × ((t : String) → get_state api (upsert_meta api r meta).0 t ≡ get_state api r t)
  unfolding upsert_meta
  redis_upsert_meta r meta v =
      let fs = type_fields meta.object_type ++ ttl_fields meta.ttl in
      let r' = (h_set_some api r (meta_key meta.topic) fs).0 in
      let kept = h_set_some_kept r meta.topic fs in
      (
        λ u.
            IsLog-same r r' u (kept streams u refl) (kept seqs u refl)
              (h_set_some_hash r meta.topic fs u) (v u),
        λ u. ap (log_of c) (kept streams u refl),
        λ u. get_state_at r r' u (kept states u refl),
      )
