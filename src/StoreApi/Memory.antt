-- ===== src/StoreApi/Memory.antt =====
-- The in-memory store meets the contract.
use event_watch.Base.{
  none, ◌+◌, ◌≡◌, subst, sym, ap, ◌∙◌, String, arith, length, if◌then◌else◌, ◌=ₛ◌, lookup,
  lookup-insert, eq_iff, ◌++◌, ◌∷◌, [],
}
use event_watch.Core.{Event, TopicMeta, RawMessage, Result, ok}
use mathlib.Core.Path.{subst₂}
use event_watch.Store
use event_watch.Store.{
  Store, TopicData, get, events_of, get_state, get_meta, set_state, upsert_meta, merged_meta,
  copied,
}
use event_watch.Store.Log.{
  IsWellFormed, append_log, append-IsWellFormed, set_state-IsWellFormed, upsert_meta-IsWellFormed,
}
use event_watch.Store.Reads.{read_log, events_of-Numbered}
use event_watch.StoreApi.{Env, StoreApi, IsStore, stamped}

-- The calls of the in-memory store never fail, but for a state that is not there.
abbrev pub memory : StoreApi Store
memory = record {
  append = λ s env e. let (s', e') = Store.append s e env.created env.now env.new_id in (s', ok e');
  read = λ s t from limit. ok (Store.read s t from limit);
  latest = λ s t n. ok (Store.latest s t n);
  get_state = get_state;
  set_state = λ s env t raw. set_state s t raw env.now;
  upsert_meta = λ s env meta. upsert_meta s meta env.created env.now;
  get_meta = get_meta;
  expire = λ s cutoff. let (s', n) = Store.expire s cutoff in (s', ok n);
  delete_topic = λ s t. (Store.delete_topic s t, none);
  list_topics = λ s prefix limit. ok (Store.list_topics s prefix limit);
}

set_state_events :
    (s : Store) (env : Env) (t : String) (raw : RawMessage) (t' : String)
    → events_of (set_state s t raw env.now) t' ≡ events_of s t'
unfolding set_state get
set_state_events s env t raw t' = ground (
  arith,
  lookup-insert t t' (record (get s t env.now) { state = copied raw }) s.topics,
  eq_iff t t',
  λ (same : t ≡ t'). ap (λ k. lookup k s.topics) same,
)

set_state_state :
    (s : Store) (env : Env) (t : String) (raw : RawMessage) (t' : String)
    → get_state (set_state s t raw env.now) t'
      ≡ (if t =ₛ t' then ok (copied raw) else get_state s t')
unfolding set_state get_state get
set_state_state s env t raw t' =
    ground (arith, lookup-insert t t' (record (get s t env.now) { state = copied raw }) s.topics)

upsert_meta_events :
    (s : Store) (env : Env) (meta : TopicMeta) (t' : String)
    → events_of (upsert_meta s meta env.created env.now) t' ≡ events_of s t'
unfolding upsert_meta get
upsert_meta_events s env meta t' = ground (
  arith,
  lookup-insert meta.topic t'
      (record (get s meta.topic env.created) {
        meta = merged_meta (get s meta.topic env.created).meta meta env.now;
      })
      s.topics,
  eq_iff meta.topic t',
  λ (same : meta.topic ≡ t'). ap (λ k. lookup k s.topics) same,
)

upsert_meta_state :
    (s : Store) (env : Env) (meta : TopicMeta) (t' : String)
    → get_state (upsert_meta s meta env.created env.now) t' ≡ get_state s t'
unfolding upsert_meta get_state get
upsert_meta_state s env meta t' = ground (
  arith,
  lookup-insert meta.topic t'
      (record (get s meta.topic env.created) {
        meta = merged_meta (get s meta.topic env.created).meta meta env.now;
      })
      s.topics,
  eq_iff meta.topic t',
  λ (same : meta.topic ≡ t'). ap (λ k. lookup k s.topics) same,
)

append_state :
    (s : Store) (env : Env) (e : Event) (t : String)
    → get_state (Store.append s e env.created env.now env.new_id).0 t ≡ get_state s t
unfolding Store.append Store.stamp Store.extended get get_state
append_state s env e t = ground (
  arith,
  lookup-insert e.topic t
      (Store.extended (get s e.topic env.created)
        (Store.stamp (get s e.topic env.created) e env.now env.new_id))
      s.topics,
  eq_iff e.topic t,
  λ (same : e.topic ≡ t). ap (λ k. lookup k s.topics) same,
)

memory_append :
    (s s' : Store) (env : Env) (e e' : Event)
    → IsWellFormed s
    → memory.append s env e ≡ (s', ok e')
    → IsWellFormed s'
      × (e' ≡ stamped e (length (events_of s e.topic) + 1) env)
      × ((t : String)
          → events_of s' t ≡ (if e.topic =ₛ t then events_of s t ++ e' ∷ [] else events_of s t))
      × ((t : String) → get_state s' t ≡ get_state s t)
memory_append s s' env e e' w eq =
    let r = Store.append s e env.created env.now env.new_id in
    let same : r.0 ≡ s' = ap (λ (p : Store × Result Event). p.0) eq in
    let also : r.1 ≡ e' = cc in
    let law = append_log s e env.created env.now env.new_id in
    (
      subst IsWellFormed same (append-IsWellFormed s e env.created env.now env.new_id w),
      sym also ∙ (law e.topic).1,
      λ t.
          subst₂
            (λ u x.
              events_of u t ≡ (if e.topic =ₛ t then events_of s t ++ x ∷ [] else events_of s t))
            same also (law t).0,
      λ t. subst (λ u. get_state u t ≡ get_state s t) same (append_state s env e t),
    )

-- The in-memory store meets the contract of the interface, on well-formed stores: `Append` gives
-- the next seq of the topic and extends that topic's log alone, `Read` returns the logged events
-- from a seq on, and writing state or metadata leaves every log as it was.
pub memory-IsStore : IsStore memory IsWellFormed events_of
memory-IsStore = record {
  append_ok = memory_append;
  read_ok = λ s t from limit {out} w eq. sym (cc (read_log s t from limit w));
  set_state_ok = λ s env t raw w. (
    set_state-IsWellFormed s t raw env.now w,
    set_state_events s env t raw,
    set_state_state s env t raw,
  );
  upsert_meta_ok = λ s env meta w. (
    upsert_meta-IsWellFormed s meta env.created env.now w,
    upsert_meta_events s env meta,
    upsert_meta_state s env meta,
  );
  numbered = events_of-Numbered;
}
