-- ===== src/Store.antt =====
-- internal/store/memory/store.go: the in-memory store. The clock and `core.NewID` are arguments; a
-- call that reads the clock twice takes both readings. The map is an association list, and so is
-- the order in which Go ranges over it.
pub mod Search
pub mod Numbered
pub mod Log
pub mod Reads
pub mod Expiry
mod Tests
use Prim.Native.String.{compare}
use text.Mathlib.Text.{starts_with, is_le}
use event_watch.Base.{
  ℕ, zero, suc, ◌+◌, ◌-◌, ◌/◌, String, Bool, true, false, not, ◌&&◌, ◌||◌, Option, none, some, List,
  [], ◌∷◌, ◌++◌, map, ltb, leb, ◌==◌, ◌=ₛ◌, if◌then◌else◌, length, take, drop, filter, get_elem?,
  lookup, insert, remove, ℤ, pos, negsuc, ltb_ℤ,
}
use event_watch.Core.{Event, TopicMeta, RawMessage, Time, Result, ok, err, not_found}
use event_watch.Core.Topic.{parse_object_type}

pub record TopicData : Type 0 where
  pub events : List Event
  pub state : RawMessage
  pub meta : TopicMeta

pub record Store : Type 0 where
  pub topics : List (String × TopicData)

unfoldable pub new : Store
new = record { topics = [] }

-- `time.Time.IsZero`.
abbrev pub is_zero : Time → Bool
is_zero (pos zero) = true
is_zero _ = false

abbrev pub fresh_topic : String → Time → TopicData
fresh_topic topic now = record {
  events = [];
  state = none;
  meta = record {
    topic = topic;
    object_type = "";
    ttl = pos 0;
    created_at = now;
    last_event_at = pos 0;
    last_seq = 0;
  };
}

-- `Store.get` makes a missing topic; its caller writes through the pointer, which is `insert`.
unfoldable pub get : Store → String → Time → TopicData
get s topic now = elim (lookup topic s.topics) [ none ↦ fresh_topic topic now | some td ↦ td ]

abbrev or_object_type : String → Option String → String
or_object_type ot none = ot
or_object_type ot (some parsed) = parsed

-- The event with what `Append` assigns. A slice never has 2 ^ 63 elements, so `seq` does not wrap.
unfoldable pub stamp : TopicData → Event → Time → String → Event
stamp td e now new_id = record e {
  seq = length td.events + 1;
  id = if e.id =ₛ "" then new_id else e.id;
  occurred_at = if is_zero e.occurred_at then now else e.occurred_at;
}

unfoldable pub extended : TopicData → Event → TopicData
extended td e = record td {
  events = td.events ++ e ∷ [];
  meta = record td.meta {
    last_event_at = e.occurred_at;
    last_seq = e.seq;
    object_type =
        if td.meta.object_type =ₛ ""
        then or_object_type td.meta.object_type (parse_object_type e.topic)
        else td.meta.object_type;
  };
}

-- Returns the store, and the event as the caller sees it afterwards; its `seq` is the result.
unfoldable pub append : Store → Event → Time → Time → String → Store × Event
unfolding stamp extended get
append s e created now new_id =
    let td = get s e.topic created in
    let e' = stamp td e now new_id in
    (record s { topics = insert e.topic (extended td e') s.topics }, e')

-- The loop of `sort.Search` on [i, j), with fuel.
unfoldable pub search_from : ℕ → (ℕ → Bool) → ℕ → ℕ → ℕ
search_from zero f i j = i
search_from (suc fuel) f i j =
    let h = (i + j) / 2 in
    let lower = search_from fuel f i h in
    let upper = search_from fuel f (h + 1) j in
    if ltb i j then (if f h then lower else upper) else i

-- `sort.Search(n, f)`; the interval shrinks in every round.
unfoldable pub search : ℕ → (ℕ → Bool) → ℕ
unfolding search_from
search n f = search_from n f 0 n

-- The test at an index; an index out of range would panic, and is not asked for.
abbrev pub seq_at_least : List Event → ℕ → ℕ → Bool
seq_at_least events from i = elim (get_elem? events i) [ none ↦ true | some e ↦ leb from e.seq ]

-- `if limit > 0 && len(out) > limit { out = out[:limit] }`.
abbrev pub limited {ℓ} : {A : Type ℓ} → ℤ → List A → List A
limited (pos n) out = if ltb 0 n && ltb n (length out) then take n out else out
limited (negsuc n) out = out

abbrev pub events_of : Store → String → List Event
events_of s topic = elim (lookup topic s.topics) [ none ↦ [] | some td ↦ td.events ]

unfoldable pub read : Store → String → ℕ → ℤ → List Event
unfolding search
read s topic from limit = elim (lookup topic s.topics) [
  | none ↦ []
  | some td ↦
      limited limit (drop (search (length td.events) (seq_at_least td.events from)) td.events)
]

abbrev start_of : ℤ → ℕ → ℕ
start_of (pos n) len = if ltb 0 n && ltb n len then len - n else 0
start_of (negsuc n) len = 0

unfoldable pub latest : Store → String → ℤ → List Event
latest s topic n = elim (lookup topic s.topics) [
  | none ↦ []
  | some td ↦ drop (start_of n (length td.events)) td.events
]

abbrev or_not_found : RawMessage → Result RawMessage
or_not_found none = err not_found
or_not_found (some raw) = ok (some raw)

unfoldable pub get_state : Store → String → Result RawMessage
get_state s topic = elim (lookup topic s.topics) [
  | none ↦ err not_found
  | some td ↦ or_not_found td.state
]

-- `make` and `copy` turn a nil slice into an empty one.
abbrev pub copied : RawMessage → RawMessage
copied none = some ""
copied (some raw) = some raw

unfoldable pub set_state : Store → String → RawMessage → Time → Store
unfolding get
set_state s topic state now = record s {
  topics = insert topic (record (get s topic now) { state = copied state }) s.topics;
}

unfoldable pub get_meta : Store → String → Result TopicMeta
get_meta s topic = elim (lookup topic s.topics) [ none ↦ err not_found | some td ↦ ok td.meta ]

abbrev pub merged_meta : TopicMeta → TopicMeta → Time → TopicMeta
merged_meta old meta now = record old {
  created_at = if is_zero old.created_at then now else old.created_at;
  object_type = if meta.object_type =ₛ "" then old.object_type else meta.object_type;
  ttl = if is_zero meta.ttl then old.ttl else meta.ttl;
}

unfoldable pub upsert_meta : Store → TopicMeta → Time → Time → Store
unfolding get
upsert_meta s meta created now =
    let td = get s meta.topic created in
    record s {
      topics = insert meta.topic (record td { meta = merged_meta td.meta meta now }) s.topics;
    }

-- `sort.Strings`, by insertion.
unfoldable pub insert_sorted : String → List String → List String
insert_sorted t [] = t ∷ []
insert_sorted t (u ∷ us) = if is_le (compare t u) then t ∷ u ∷ us else u ∷ insert_sorted t us

unfoldable pub sort_strings : List String → List String
unfolding insert_sorted
sort_strings [] = []
sort_strings (t ∷ ts) = insert_sorted t (sort_strings ts)

abbrev pub keys : List (String × TopicData) → List String
keys = map λ p. p.0

unfoldable pub list_topics : Store → String → ℤ → List String
unfolding sort_strings
list_topics s prefix limit =
    limited limit
      (sort_strings (filter (λ t. prefix =ₛ "" || starts_with t prefix) (keys s.topics)))

-- `LastEventAt` is set and before the cutoff.
abbrev pub is_expired : Time → TopicData → Bool
is_expired cutoff td = not (is_zero td.meta.last_event_at) && ltb_ℤ td.meta.last_event_at cutoff

-- Returns the number of topics removed.
unfoldable pub expire_from : Time → List (String × TopicData) → List (String × TopicData) × ℕ
expire_from cutoff [] = ([], 0)
expire_from cutoff ((t, td) ∷ m) =
    let (rest, n) = expire_from cutoff m in
    if is_expired cutoff td then (rest, n + 1) else ((t, td) ∷ rest, n)

unfoldable pub expire : Store → Time → Store × ℕ
unfolding expire_from
expire s cutoff = let (topics, n) = expire_from cutoff s.topics in (record s { topics = topics }, n)

unfoldable pub delete_topic : Store → String → Store
delete_topic s topic = record s { topics = remove topic s.topics }

-- The calls that change a store, with the readings of the clock and the id that each is given.
pub data StoreCall : Type 0 where
  appends : Event → Time → Time → String → StoreCall
  sets_state : String → RawMessage → Time → StoreCall
  upserts : TopicMeta → Time → Time → StoreCall
  expires : Time → StoreCall
  deletes : String → StoreCall

unfoldable pub step : Store → StoreCall → Store
step s (appends e created now new_id) = (append s e created now new_id).0
step s (sets_state topic state now) = set_state s topic state now
step s (upserts meta created now) = upsert_meta s meta created now
step s (expires cutoff) = (expire s cutoff).0
step s (deletes topic) = delete_topic s topic

unfoldable pub run : Store → List StoreCall → Store
unfolding step
run s [] = s
run s (c ∷ cs) = run (step s c) cs
