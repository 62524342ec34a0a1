-- ===== src/Broker/Sections.antt =====
-- The store calls of `Publish` in internal/broker/broker.go, each a lock section of the store of its
-- own, and `Store.DeleteTopic` of the archiver, which does not take the ingest lock and so may come
-- between any two of them.
pub mod Folded
pub mod Saved
pub mod Run
pub mod Whole
use event_watch.Base.{String, Bool, false, not, ◌&&◌, Option, ℤ, is_some, if◌then◌else◌, ◌=ₛ◌}
use event_watch.Core.{Event, RawMessage, Error, Result, ok, err}
use event_watch.Computed.{Registry}
use event_watch.Computed
use event_watch.StoreApi.{StoreApi, Env}
use event_watch.Broker.{check, or_nil, meta_of}

-- How far the publish that holds the ingest lock has come: what it has appended, with the object
-- type, then also what the reducer has answered, then past the save. The rest of `Publish`, from
-- `Hub.Publish` to the unlock, makes no call of the store.
pub data Stage : Type 0 where
  free : Stage
  appended : Event → String → Stage
  reduced : Event → String → RawMessage × Option Error → Stage
  saved : Event → String → Stage

pub record Ingest (S : Type 0) : Type 0 where
  pub store : S
  pub stage : Stage
  pub reducers : Registry
  pub default_ttl : ℤ

pub data Section : Type 0 where
  appends : Env → Event → Section
  reduces : Section
  saves upserts : Env → Section
  deletes : String → Section

module _ {S : Type 0} (api : StoreApi S) where
  after_append : Ingest S → String → S × Result Event → Ingest S
  after_append i ot (stored, err x) = record i { store = stored }
  after_append i ot (stored, ok e') = record i { store = stored; stage = appended e' ot }

  -- The checks and `Append`. While another publish holds the ingest lock, nothing happens.
  abbrev append_section : Ingest S → Env → Event → Stage → Ingest S
  append_section i env e free = elim (check api e) [
    | err x ↦ i
    | ok ot ↦ after_append i ot (api.append i.store env e)
  ]
  append_section i env e (appended e' ot) = i
  append_section i env e (reduced e' ot r) = i
  append_section i env e (saved e' ot) = i

  -- `GetState`, and the reducer on what it gives.
  abbrev reduce_section : Ingest S → Stage → Ingest S
  reduce_section i free = i
  reduce_section i (appended e ot) = record i {
    stage = reduced e ot (Computed.apply i.reducers (or_nil (api.get_state i.store e.topic)) e);
  }
  reduce_section i (reduced e ot r) = i
  reduce_section i (saved e ot) = i

  -- `SetState`, unless the reducer failed or answered nil.
  abbrev save_section : Ingest S → Env → Stage → Ingest S
  save_section i env free = i
  save_section i env (appended e ot) = i
  save_section i env (reduced e ot (next, rerr)) = record i {
    store =
        if not (is_some rerr) && is_some next
        then api.set_state i.store env e.topic next
        else i.store;
    stage = saved e ot;
  }
  save_section i env (saved e ot) = i

  -- `UpsertMeta`.
  abbrev upsert_section : Ingest S → Env → Stage → Ingest S
  upsert_section i env free = i
  upsert_section i env (appended e ot) = i
  upsert_section i env (reduced e ot r) = i
  upsert_section i env (saved e ot) = record i {
    store = api.upsert_meta i.store env (meta_of e.topic ot i.default_ttl);
    stage = free;
  }

  unfoldable pub section : Ingest S → Section → Ingest S
  unfolding after_append
  section i (appends env e) = append_section i env e i.stage
  section i reduces = reduce_section i i.stage
  section i (saves env) = save_section i env i.stage
  section i (upserts env) = upsert_section i env i.stage
  section i (deletes t) = record i { store = (api.delete_topic i.store t).0 }

-- Whether a publish to this topic is between its `Append` and its `SetState`.
abbrev pub is_between : Stage → String → Bool
is_between free t = false
is_between (appended e ot) t = e.topic =ₛ t
is_between (reduced e ot r) t = e.topic =ₛ t
is_between (saved e ot) t = false

-- Whether a section deletes a topic between the `Append` and the `SetState` of a publish to it.
abbrev pub is_tearing : Stage → Section → Bool
is_tearing st (deletes t) = is_between st t
is_tearing st (appends env e) = false
is_tearing st reduces = false
is_tearing st (saves env) = false
is_tearing st (upserts env) = false
