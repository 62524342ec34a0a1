-- ===== src/StoreApi.antt =====
-- internal/store/store.go: the interface between the broker and a store, its documented contract,
-- and the in-memory store as an implementation of it.
pub mod Memory
use event_watch.Base.{
  ℕ, ◌+◌, ◌≡◌, String, Option, Bool, List, [], ◌∷◌, ◌++◌, length, filter, leb, if◌then◌else◌, ◌=ₛ◌,
  ℤ, pos,
}
use event_watch.Core.{Event, TopicMeta, RawMessage, Time, Error, Result, ok, err}
use event_watch.Store.{is_zero, limited, copied}
use event_watch.Store.Search.{Numbered}

-- What a call finds outside the store: two readings of the clock and a new random id.
pub record Env : Type 0 where
  pub created : Time
  pub now : Time
  pub new_id : String

-- `append` gives the event as its caller sees it afterwards. Writes whose error the broker
-- ignores give the new state alone.
pub record StoreApi (S : Type 0) : Type 0 where
  pub append : S → Env → Event → S × Result Event
  pub read : S → String → ℕ → ℤ → Result (List Event)
  pub latest : S → String → ℤ → Result (List Event)
  pub get_state : S → String → Result RawMessage
  pub set_state : S → Env → String → RawMessage → S
  pub upsert_meta : S → Env → TopicMeta → S
  pub get_meta : S → String → Result TopicMeta
  pub expire : S → Time → S × Result ℕ
  pub delete_topic : S → String → S × Option Error
  pub list_topics : S → String → ℤ → Result (List String)

-- What `Append` assigns to an event that becomes number `seq` of its topic.
abbrev pub stamped : Event → ℕ → Env → Event
stamped e seq env = record e {
  seq = seq;
  id = if e.id =ₛ "" then env.new_id else e.id;
  occurred_at = if is_zero e.occurred_at then env.now else e.occurred_at;
}

-- The contract, over the log of each topic and an invariant of the store.
pub record IsStore {S : Type 0} (api : StoreApi S) (Valid : S → Type 0)
    (events : S → String → List Event) : Type 0 where
  pub append_ok :
      (s s' : S) (env : Env) (e e' : Event)
      → Valid s
      → api.append s env e ≡ (s', ok e')
      → Valid s'
        × (e' ≡ stamped e (length (events s e.topic) + 1) env)
        × ((t : String)
            → events s' t ≡ (if e.topic =ₛ t then events s t ++ e' ∷ [] else events s t))
        × ((t : String) → api.get_state s' t ≡ api.get_state s t)
  pub read_ok :
      (s : S) (t : String) (from : ℕ) (limit : ℤ) {out : List Event}
      → Valid s
      → api.read s t from limit ≡ ok out
      → out ≡ limited limit (filter (λ e. leb from e.seq) (events s t))
  pub set_state_ok :
      (s : S) (env : Env) (t : String) (raw : RawMessage)
      → Valid s
      → Valid (api.set_state s env t raw)
        × ((t' : String) → events (api.set_state s env t raw) t' ≡ events s t')
        × ((t' : String)
            → api.get_state (api.set_state s env t raw) t'
              ≡ (if t =ₛ t' then ok (copied raw) else api.get_state s t'))
  pub upsert_meta_ok :
      (s : S) (env : Env) (meta : TopicMeta)
      → Valid s
      → Valid (api.upsert_meta s env meta)
        × ((t : String) → events (api.upsert_meta s env meta) t ≡ events s t)
        × ((t : String) → api.get_state (api.upsert_meta s env meta) t ≡ api.get_state s t)
  pub numbered : (s : S) (t : String) → Valid s → Numbered 1 (events s t)
