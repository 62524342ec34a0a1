-- ===== src/Archiver/Laws.antt =====
-- What a sweep leaves of an in-memory store.
use event_watch.Base.{
  ltb_ℤ, Bool, ◌+◌, ◌≡◌, refl, ap, String, false, Option, none, some, List, [], ◌∷◌, if◌then◌else◌,
  length, ltb, arith, ◌=ₛ◌, eq_iff, lookup, lookup-remove, remove, HasDistinctKeys,
  remove-HasDistinctKeys, is_some, pos,
}
use event_watch.Core.{Time}
use event_watch.Objtypes.Codec.{sub_time}
use event_watch.Store.{is_zero, Store, TopicData, get_meta, delete_topic, list_topics}
use event_watch.Store.Log.{IsWellFormed}
use event_watch.Store.Expiry.{count, list_topics_lem}
use event_watch.StoreApi.Memory.{memory}
use event_watch.Archiver.{Archiver, is_stale, sweep_topic, sweep_topics, sweep}

-- The topic has had an event, and none for longer than its own time to live or, where it has none,
-- the default.
abbrev pub is_idle : Archiver → Time → TopicData → Bool
is_idle a now td =
    if is_zero td.meta.last_event_at
    then false
    else if is_zero td.meta.ttl
    then ltb_ℤ a.default_ttl (sub_time now td.meta.last_event_at)
    else ltb_ℤ td.meta.ttl (sub_time now td.meta.last_event_at)

-- What a sweep leaves of one topic's data.
abbrev pub swept : Archiver → Time → Option TopicData → Option TopicData
swept a now none = none
swept a now (some td) = if is_idle a now td then none else some td

module _ (a : Archiver) (now : Time) where
  swept_twice : (o : Option TopicData) → swept a now (swept a now o) ≡ swept a now o
  swept_twice none = refl
  swept_twice (some td) = ground arith

  lookup-sweep_topic :
      (s : Store) (u t : String)
      → lookup t (sweep_topic memory a s now u).0.topics
        ≡ (if u =ₛ t then swept a now (lookup t s.topics) else lookup t s.topics)
  unfolding sweep_topic get_meta delete_topic is_stale
  lookup-sweep_topic s u t = ground (
    arith,
    lookup-remove u t s.topics,
    eq_iff u t,
    λ (same : u ≡ t). ap (λ k. lookup k s.topics) same,
  )

  lookup-sweep_topics :
      (s : Store) (ts : List String) (t : String)
      → lookup t (sweep_topics memory a s now ts).0.topics
        ≡ (if ltb 0 (count t ts) then swept a now (lookup t s.topics) else lookup t s.topics)
  unfolding sweep_topics
  lookup-sweep_topics s [] t = refl
  lookup-sweep_topics s (u ∷ ts) t = ground (
    arith,
    lookup-sweep_topics (sweep_topic memory a s now u).0 ts t,
    lookup-sweep_topic s u t,
    swept_twice (lookup t s.topics),
  )

  length-remove :
      (k : String) (m : List (String × TopicData))
      → HasDistinctKeys m
      → length (remove k m) + (if is_some (lookup k m) then 1 else 0) ≡ length m
  unfolding remove lookup
  length-remove k [] d = refl
  length-remove k ((j, td) ∷ m) (n, d) =
      ground (arith, length-remove k m d, eq_iff j k, λ (same : j ≡ k). ap (λ i. lookup i m) same)

  sweep_topic_count :
      (s : Store) (u : String)
      → HasDistinctKeys s.topics
      → HasDistinctKeys (sweep_topic memory a s now u).0.topics
        × (length (sweep_topic memory a s now u).0.topics + (sweep_topic memory a s now u).1
            ≡ length s.topics)
  unfolding sweep_topic get_meta delete_topic is_stale
  sweep_topic_count s u d =
      ground (arith, length-remove u s.topics d, remove-HasDistinctKeys u s.topics d)

  sweep_topics_count :
      (s : Store) (ts : List String)
      → HasDistinctKeys s.topics
      → length (sweep_topics memory a s now ts).0.topics + (sweep_topics memory a s now ts).1
        ≡ length s.topics
  unfolding sweep_topics
  sweep_topics_count s [] d = omega arith
  sweep_topics_count s (u ∷ ts) d =
      let (d', one) = sweep_topic_count s u d in
      omega (arith, one, sweep_topics_count (sweep_topic memory a s now u).0 ts d')

  swept_none : (o : Option TopicData) → is_some o ≡ false → swept a now o ≡ o
  swept_none none h = refl
  swept_none (some td) h = absurd (cc)

  -- A sweep of a well-formed in-memory store removes exactly the topics that have had an event and
  -- are idle for longer than their time to live, or than the default where they have none; it keeps
  -- every other topic as it was, and returns the number removed.
  pub sweep_exact :
      (s : Store) (t : String)
      → IsWellFormed s
      → (lookup t (sweep memory a s now).0.topics ≡ swept a now (lookup t s.topics))
        × (length (sweep memory a s now).0.topics + (sweep memory a s now).1 ≡ length s.topics)
  unfolding sweep
  sweep_exact s t w =
      let listed = list_topics s "" (pos 0) in
      let (_, times) = list_topics_lem s "" (pos 0) t w in
      (
        ground (
          arith,
          lookup-sweep_topics s listed t,
          times,
          swept_none (lookup t s.topics),
          eq_iff "" "",
        ),
        sweep_topics_count s listed w.distinct,
      )
