-- ===== src/Archiver.antt =====
-- internal/archiver/archiver.go: the sweep that expires topics, over any store of the interface.
pub mod Laws
mod Tests
use event_watch.Base.{
  ℕ, ◌+◌, String, Bool, not, ◌&&◌, if◌then◌else◌, ℤ, pos, ltb_ℤ, List, [], ◌∷◌, Option, none, some,
}
use event_watch.Core.{Event, Time, TopicMeta, Result, ok, err}
use event_watch.Objtypes.Codec.{sub_time}
use event_watch.Store.{is_zero}
use event_watch.StoreApi.{StoreApi}

pub record Archiver : Type 0 where
  pub interval : ℤ
  pub default_ttl : ℤ

-- 168 hours, in nanoseconds.
unfoldable pub new : ℤ → Archiver
new interval = record { interval = interval; default_ttl = pos 604800000000000 }

-- The test of the loop, on the metadata of one topic.
unfoldable pub is_stale : Archiver → Time → TopicMeta → Bool
is_stale a now meta =
    let ttl = if is_zero meta.ttl then a.default_ttl else meta.ttl in
    not (is_zero meta.last_event_at) && ltb_ℤ ttl (sub_time now meta.last_event_at)

module _ {S : Type 0} (api : StoreApi S) (a : Archiver) where
  -- One round of the loop: the store, and 1 where a topic was expired.
  unfoldable pub sweep_topic : S → Time → String → S × ℕ
  sweep_topic s now t = elim (api.get_meta s t) [
    | err x ↦ (s, 0)
    | ok meta ↦
        if is_stale a now meta
        then (let (s', failed) = api.delete_topic s t in
            elim failed [ none ↦ (s', 1) | some x ↦ (s', 0) ])
        else (s, 0)
  ]

  unfoldable pub sweep_topics : S → Time → List String → S × ℕ
  sweep_topics s now [] = (s, 0)
  sweep_topics s now (t ∷ ts) =
      let (s', n) = sweep_topic s now t in
      let (s'', rest) = sweep_topics s' now ts in (s'', n + rest)

  unfoldable pub sweep : S → Time → S × ℕ
  sweep s now = elim (api.list_topics s "" (pos 0)) [
    | err x ↦ (s, 0)
    | ok topics ↦ sweep_topics s now topics
  ]
