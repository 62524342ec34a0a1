-- ===== src/Redis/Store.antt =====
-- internal/store/redis/store.go, over a server that is a parameter and the JSON of an event. `Close`
-- and the dial of `New` only call the client.
use text.Mathlib.Text.{starts_with}
use mathlib.Core.List.{reverse}
use Prim.Native.String.{◌++◌}
use mathlib.Core.List.{◌++◌ as ◌++ₗ◌}
use event_watch.Base.{
  ℕ, ℤ, suc, pos, negsuc, ◌+◌, ◌*◌, ◌/◌, ◌%◌, String, Bool, true, false, ◌&&◌, ◌||◌, not, Option,
  none, some, List, [], ◌∷◌, filter, leb, ltb, ltb_ℤ, ◌=ₛ◌, if◌then◌else◌, lookup, is_positive,
  signed64, word_mod,
}
use event_watch.Base.Decimal.{show_ℕ}
use event_watch.Core.{
  Event, TopicMeta, RawMessage, Time, Error, bad_json, not_found, Result, ok, err,
}
use event_watch.Core.Topic.{parse_object_type}
use event_watch.Objtypes.Codec.{Codec, bytes}
use event_watch.Store.{is_zero, limited}
use event_watch.StoreApi.{Env, StoreApi, stamped}
use event_watch.Redis.Server.{RedisApi, Command, x_add, h_set, h_set_nx, s_add, s_rem, del, Values}
use event_watch.Redis.Numbers.{parse_uint, parse_int, unix, show_time}

unfoldable pub stream_key : String → String
stream_key topic = "ew:stream:" ++ topic

unfoldable pub state_key : String → String
state_key topic = "ew:state:" ++ topic

unfoldable pub meta_key : String → String
meta_key topic = "ew:meta:" ++ topic

unfoldable pub seq_key : String → String
seq_key topic = "ew:seq:" ++ topic

abbrev pub topics_set : String
topics_set = "ew:topics"

abbrev pub or_empty : Option String → String
or_empty none = ""
or_empty (some s) = s

-- The transaction of `Append`, with the reading of the clock for `created_at`.
abbrev pub meta_fields : Event → Values
meta_fields e =
    ("object_type", or_empty (parse_object_type e.topic))
    ∷ ("last_seq", show_ℕ e.seq)
    ∷ ("last_event_at", show_time e.occurred_at)
    ∷ []

abbrev pub append_commands : Event → String → Time → List Command
append_commands e body now =
    x_add (stream_key e.topic) (("e", body) ∷ ("seq", show_ℕ e.seq) ∷ [])
    ∷ h_set (meta_key e.topic) (meta_fields e)
    ∷ h_set_nx (meta_key e.topic) "created_at" (show_time now)
    ∷ s_add topics_set e.topic
    ∷ []

-- `limit > 0 && len(out) >= limit`.
abbrev pub is_full : ℤ → ℕ → Bool
is_full (pos n) len = ltb 0 n && leb n len
is_full (negsuc n) len = false

module _ (c : Codec Event) where
  abbrev decode_body : Option String → Option Event
  decode_body none = none
  decode_body (some body) = let (e, fine) = c.unmarshal body in if fine then some e else none

  -- None is any error.
  abbrev pub decode_entry : Values → Option Event
  decode_entry en = decode_body (lookup "e" en)

  -- The loop of `Read`, with the number of events in `out`.
  unfoldable pub read_entries : ℕ → ℤ → ℕ → List Values → List Event
  read_entries from limit len [] = []
  read_entries from limit len (en ∷ ens) =
      let skipped = read_entries from limit len ens in
      let more = read_entries from limit (len + 1) ens in
      elim (decode_entry en) [
        | none ↦ skipped
        | some e ↦
            if ltb e.seq from then skipped else e ∷ (if is_full limit (len + 1) then [] else more)
      ]

  -- The loop of `Latest`.
  unfoldable pub decode_entries : List Values → List Event
  decode_entries [] = []
  decode_entries (en ∷ ens) = elim (decode_entry en) [
    | none ↦ decode_entries ens
    | some e ↦ e ∷ decode_entries ens
  ]

-- `if v, err := strconv.ParseInt(m[k], 10, 64); err == nil` for the two times.
abbrev time_field : Values → String → Time
time_field m k = elim (parse_int (or_empty (lookup k m))) [ none ↦ pos 0 | some v ↦ unix v ]

abbrev ttl_field : Option ℕ → ℤ
ttl_field none = pos 0
ttl_field (some v) = if is_positive v then signed64 ((v * 1000000000) % word_mod) else pos 0

abbrev or_zero : Option ℕ → ℕ
or_zero none = 0
or_zero (some n) = n

unfoldable pub meta_of : String → Values → TopicMeta
unfolding parse_uint parse_int
meta_of topic m = record {
  topic = topic;
  object_type = or_empty (lookup "object_type" m);
  ttl = ttl_field (parse_int (or_empty (lookup "ttl_seconds" m)));
  created_at = time_field m "created_at";
  last_event_at = time_field m "last_event_at";
  last_seq = or_zero (parse_uint (or_empty (lookup "last_seq" m)));
}

-- The fields that `UpsertMeta` sets.
abbrev pub type_fields : String → Values
type_fields t = if t =ₛ "" then [] else ("object_type", t) ∷ []

abbrev pub ttl_fields : ℤ → Values
ttl_fields (pos (suc n)) = ("ttl_seconds", show_ℕ (suc n / 1000000000)) ∷ []
ttl_fields _ = []

-- The transaction of `DeleteTopic`.
abbrev pub delete_commands : String → List Command
delete_commands topic =
    del (stream_key topic ∷ state_key topic ∷ meta_key topic ∷ seq_key topic ∷ [])
    ∷ s_rem topics_set topic
    ∷ []

abbrev pub as_meta : String → Result Values → Result TopicMeta
as_meta topic (err e) = err e
as_meta topic (ok []) = err not_found
as_meta topic (ok (f ∷ fs)) = ok (meta_of topic (f ∷ fs))

-- `LastEventAt` is set and before the cutoff.
abbrev pub is_idle : Time → Result TopicMeta → Bool
is_idle cutoff (err e) = false
is_idle cutoff (ok meta) = not (is_zero meta.last_event_at) && ltb_ℤ meta.last_event_at cutoff

-- What is done with a reply that is no error.
abbrev pub on_ok : {A B : Type 0} → (A → B) → Result A → Result B
on_ok f (ok x) = ok (f x)
on_ok f (err e) = err e

-- The reply nil is `ErrNotFound`.
abbrev pub found : Result (Option String) → Result RawMessage
found (err e) = err e
found (ok none) = err not_found
found (ok (some v)) = ok (some v)

module _ {R : Type 0} (api : RedisApi R) where
  abbrev pub after_exec : Event → R × Option Error → R × Result Event
  after_exec e (r, none) = (r, ok e)
  after_exec e (r, some x) = (r, err x)

  abbrev pub after_marshal : R → Event → Time → Option String → R × Result Event
  after_marshal r e now none = (r, err bad_json)
  after_marshal r e now (some body) = after_exec e (api.exec r (append_commands e body now))

  abbrev pub after_incr : Codec Event → R → Env → Event → Result ℕ → R × Result Event
  after_incr c r env e (err x) = (r, err x)
  after_incr c r env e (ok n) =
      after_marshal r (stamped e n env) env.created (c.marshal (stamped e n env))

  -- The counter goes up also where the rest fails.
  unfoldable pub append : Codec Event → R → Env → Event → R × Result Event
  append c r env e = let (r₁, seq) = api.incr r (seq_key e.topic) in after_incr c r₁ env e seq

  unfoldable pub read : Codec Event → R → String → ℕ → ℤ → Result (List Event)
  unfolding read_entries
  read c r topic from limit = on_ok (read_entries c from limit 0) (api.x_range r (stream_key topic))

  -- Newest first from the server, and reversed.
  unfoldable pub latest : Codec Event → R → String → ℤ → Result (List Event)
  unfolding decode_entries
  latest c r topic (pos (suc n)) =
      on_ok (λ entries. decode_entries c (reverse entries))
        (api.x_rev_range_n r (stream_key topic) (suc n))
  latest c r topic _ = ok []

  unfoldable pub get_state : R → String → Result RawMessage
  get_state r topic = found (api.get r (state_key topic))

  unfoldable pub set_state : R → String → RawMessage → R × Option Error
  set_state r topic state = api.set r (state_key topic) (bytes state)

  unfoldable pub get_meta : R → String → Result TopicMeta
  get_meta r topic = as_meta topic (api.h_get_all r (meta_key topic))

  -- `HSET` unless there is no field to set.
  abbrev pub h_set_some : R → String → Values → R × Option Error
  h_set_some r k [] = (r, none)
  h_set_some r k (f ∷ fs) = api.h_set r k (f ∷ fs)

  unfoldable pub upsert_meta : R → TopicMeta → R × Option Error
  upsert_meta r meta =
      h_set_some r (meta_key meta.topic) (type_fields meta.object_type ++ₗ ttl_fields meta.ttl)

  unfoldable pub list_topics : R → String → ℤ → Result (List String)
  list_topics r prefix limit =
      on_ok (λ ms. limited limit (filter (λ m. prefix =ₛ "" || starts_with m prefix) ms))
        (api.s_members r topics_set)

  unfoldable pub delete_topic : R → String → R × Option Error
  delete_topic r topic = api.exec r (delete_commands topic)

  abbrev pub after_delete : R × Option Error → R × Bool
  after_delete (r, none) = (r, true)
  after_delete (r, some x) = (r, false)

  -- The body of the loop of `Expire`: whether the topic was idle and is deleted.
  unfoldable pub expire_topic : R → String → Time → R × Bool
  unfolding get_meta delete_topic
  expire_topic r topic cutoff =
      if is_idle cutoff (get_meta r topic) then after_delete (delete_topic r topic) else (r, false)

  unfoldable pub expire_topics : R → List String → Time → R × ℕ
  unfolding expire_topic
  expire_topics r [] cutoff = (r, 0)
  expire_topics r (t ∷ ts) cutoff =
      let (r', gone) = expire_topic r t cutoff in
      let (r'', n) = expire_topics r' ts cutoff in (r'', if gone then n + 1 else n)

  abbrev pub expire_listed : R → Time → Result (List String) → R × Result ℕ
  expire_listed r cutoff (err x) = (r, err x)
  expire_listed r cutoff (ok topics) = let (r', n) = expire_topics r topics cutoff in (r', ok n)

  unfoldable pub expire : R → Time → R × Result ℕ
  expire r cutoff = expire_listed r cutoff (list_topics r "" (pos 0))

  -- The store as the broker uses it.
  unfoldable pub redis : Codec Event → StoreApi R
  redis c = record {
    append = append c;
    read = read c;
    latest = latest c;
    get_state = get_state;
    set_state = λ r env topic state. (set_state r topic state).0;
    upsert_meta = λ r env meta. (upsert_meta r meta).0;
    get_meta = get_meta;
    expire = expire;
    delete_topic = delete_topic;
    list_topics = list_topics;
  }
