-- ===== src/Redis/Deletes.antt =====
-- What `DeleteTopic` and `Expire` leave.
use event_watch.Base.{
  ◌≡◌, refl, ap, sym, ◌∙◌, String, Bool, true, false, ◌&&◌, Option, none, some, List, [], ◌∷◌, ◌=ₛ◌,
  if◌then◌else◌, Bool-cases, inl, inr, arith, eq_iff,
}
use event_watch.Core.{Event, Time, Error, err, not_found}
use event_watch.Objtypes.Codec.{Codec}
use event_watch.Redis.Server.{Item, RedisApi, IsRedis, has, string_of, hash_of}
use event_watch.Redis.Store.{
  stream_key, state_key, meta_key, seq_key, delete_commands, delete_topic, is_idle, after_delete,
  expire_topic, expire_topics, get_state, get_meta, found, as_meta, decode_entries,
}
use event_watch.Redis.Keys.{
  Family, streams, states, metas, seqs, key, key-inj, key-key_apart, set-key_apart,
}
use event_watch.Redis.Logs.{IsLog, log_of}
use event_watch.Redis.Writes.{events_of, IsValid}

-- The deleted keys are those of the topic.
pub has-deleted :
    (f : Family) (u t : String)
    → has (key f t) (stream_key u ∷ state_key u ∷ meta_key u ∷ seq_key u ∷ []) ≡ (u =ₛ t)
has-deleted streams u t =
    rw
      (
        key-inj streams u t,
        key-key_apart states streams u t refl,
        key-key_apart metas streams u t refl,
        key-key_apart seqs streams u t refl,
      )
      (ground arith)
has-deleted states u t =
    rw
      (
        key-key_apart streams states u t refl,
        key-inj states u t,
        key-key_apart metas states u t refl,
        key-key_apart seqs states u t refl,
      )
      (ground arith)
has-deleted metas u t =
    rw
      (
        key-key_apart streams metas u t refl,
        key-key_apart states metas u t refl,
        key-inj metas u t,
        key-key_apart seqs metas u t refl,
      )
      (ground arith)
has-deleted seqs u t =
    rw
      (
        key-key_apart streams seqs u t refl,
        key-key_apart states seqs u t refl,
        key-key_apart metas seqs u t refl,
        key-inj seqs u t,
      )
      (ground arith)

module _ {R : Type 0} (api : RedisApi R) (at : R → String → Option Item) (laws : IsRedis api at)
    (c : Codec Event) where
  deleted_at :
      (r : R) (u : String) (f : Family) (t : String)
      → at (delete_topic api r u).0 (key f t) ≡ (if u =ₛ t then none else at r (key f t))
  unfolding delete_topic
  deleted_at r u f t =
      laws.exec_ok r (delete_commands u) (key f t) ∙ rw (has-deleted f u t, set-key_apart f t) refl

  empty-IsLog : IsLog c none none none
  unfolding decode_entries
  empty-IsLog = record { typed = refl; counted = refl; numbered = tt; hashed = refl }

  get_state_lem : (r : R) (t : String) → get_state api r t ≡ found (string_of (at r (state_key t)))
  unfolding get_state
  get_state_lem r t = ap found (laws.get_ok r (state_key t))

  pub get_meta_lem :
      (r : R) (t : String) → get_meta api r t ≡ as_meta t (hash_of (at r (meta_key t)))
  unfolding get_meta
  get_meta_lem r t = ap (as_meta t) (laws.h_get_all_ok r (meta_key t))

  -- What a topic reads as when its three keys are gone, and when they are as they were.
  abbrev pub IsGoneOrKept : R → R → String → Bool → Type 0
  IsGoneOrKept r r' t gone =
      IsLog c (at r' (stream_key t)) (at r' (seq_key t)) (at r' (meta_key t))
      × (events_of api at laws c r' t ≡ (if gone then [] else events_of api at laws c r t))
      × (get_state api r' t ≡ (if gone then err not_found else get_state api r t))
      × (get_meta api r' t ≡ (if gone then err not_found else get_meta api r t))

  pub read_deleted :
      (r r' : R) (t : String) (gone : Bool)
      → IsLog c (at r (stream_key t)) (at r (seq_key t)) (at r (meta_key t))
      → ((f : Family) → at r' (key f t) ≡ (if gone then none else at r (key f t)))
      → IsGoneOrKept r r' t gone
  unfolding decode_entries
  read_deleted r r' t true l h = (
    rw (h streams, h seqs, h metas) empty-IsLog,
    ap (log_of c) (h streams),
    get_state_lem r' t ∙ ap (λ i. found (string_of i)) (h states),
    get_meta_lem r' t ∙ ap (λ i. as_meta t (hash_of i)) (h metas),
  )
  read_deleted r r' t false l h = (
    rw (h streams, h seqs, h metas) l,
    ap (log_of c) (h streams),
    get_state_lem r' t ∙ ap (λ i. found (string_of i)) (h states) ∙ sym (get_state_lem r t),
    get_meta_lem r' t ∙ ap (λ i. as_meta t (hash_of i)) (h metas) ∙ sym (get_meta_lem r t),
  )

  -- A topic that is deleted has no events, no state and no metadata, and starts again at seq 1; the
  -- other topics are as they were. All keys stay as this code leaves them.
  pub delete_topic_lem :
      (r : R) (u : String)
      → IsValid api at laws c r
      → (t : String) → IsGoneOrKept r (delete_topic api r u).0 t (u =ₛ t)
  delete_topic_lem r u v t =
      read_deleted r (delete_topic api r u).0 t (u =ₛ t) (v t) (λ f. deleted_at r u f t)

  pub after_delete_lem : (p : R × Option Error) → (after_delete api p).0 ≡ p.0
  after_delete_lem (r, none) = refl
  after_delete_lem (r, some x) = refl

  expire_topic_at :
      (r : R) (u : String) (cutoff : Time) (f : Family) (t : String)
      → at (expire_topic api r u cutoff).0 (key f t)
        ≡ (if u =ₛ t && is_idle cutoff (get_meta api r u) then none else at r (key f t))
  unfolding expire_topic
  expire_topic_at r u cutoff f t = elim (Bool-cases (is_idle cutoff (get_meta api r u))) [
    | inl idle ↦ rw idle (
        ap (λ s. at s (key f t)) (after_delete_lem (delete_topic api r u))
        ∙ deleted_at r u f t
        ∙ ground arith)
    | inr busy ↦ rw busy (ground arith)
  ]

  pub idle_after :
      (r : R) (u : String) (cutoff : Time) (t : String)
      → is_idle cutoff (get_meta api (expire_topic api r u cutoff).0 t) ≡ (
          if u =ₛ t && is_idle cutoff (get_meta api r u)
          then false
          else is_idle cutoff (get_meta api r t))
  idle_after r u cutoff t =
      let gone = u =ₛ t && is_idle cutoff (get_meta api r u) in
      let r₁ = (expire_topic api r u cutoff).0 in
      let read = λ (i : Option Item) (h : at r₁ (meta_key t) ≡ i).
        ap (is_idle cutoff) (get_meta_lem r₁ t ∙ ap (λ j. as_meta t (hash_of j)) h) in
      elim (Bool-cases gone) [
        | inl g ↦ rw g (read none (expire_topic_at r u cutoff metas t ∙ rw g refl))
        | inr k ↦ rw k (
            read (at r (meta_key t)) (expire_topic_at r u cutoff metas t ∙ rw k refl)
            ∙ ap (is_idle cutoff) (sym (get_meta_lem r t)))
      ]

  pub expire_topics_at :
      (ts : List String) (r : R) (cutoff : Time) (f : Family) (t : String)
      → at (expire_topics api r ts cutoff).0 (key f t)
        ≡ (if has t ts && is_idle cutoff (get_meta api r t) then none else at r (key f t))
  unfolding expire_topics
  expire_topics_at [] r cutoff f t = refl
  expire_topics_at (u ∷ ts) r cutoff f t =
      let r₁ = (expire_topic api r u cutoff).0 in
      ground (
        arith,
        eq_iff u t,
        expire_topics_at ts r₁ cutoff f t,
        expire_topic_at r u cutoff f t,
        idle_after r u cutoff t,
        λ (same : u ≡ t). ap (λ x. is_idle cutoff (get_meta api r x)) same,
      )
