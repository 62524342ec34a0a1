-- ===== src/Store/Log.antt =====
-- Every topic of a store is a log numbered from 1, whatever calls were made.
use event_watch.Base.{
  ltb_ℤ, ◌+◌, ◌≡◌, refl, String, Option, none, some, List, [], ◌∷◌, ◌++◌, if◌then◌else◌, length,
  length-append, All, All-append, arith, lookup, insert, lookup-insert, lookup-remove,
  HasDistinctKeys, insert-HasDistinctKeys, remove-HasDistinctKeys, ◌=ₛ◌, eq_iff, Bool-cases, inl,
  inr, subst, ap,
}
use event_watch.Core.{Event, RawMessage, TopicMeta, Time}
use event_watch.Store.{
  Store, TopicData, StoreCall, appends, sets_state, upserts, expires, deletes, fresh_topic, get,
  stamp, extended, append, set_state, upsert_meta, expire_from, expire, delete_topic, step, run,
  new, is_expired, is_zero, events_of,
}
use event_watch.Store.Search.{Numbered, Numbered-snoc}

pub record IsLog (t : String) (td : TopicData) : Type 0 where
  pub numbered : Numbered 1 td.events
  pub last : td.meta.last_seq ≡ length td.events
  pub named : td.meta.topic ≡ t
  pub own : All (λ e. e.topic ≡ t) td.events

pub record IsWellFormed (s : Store) : Type 0 where
  pub distinct : HasDistinctKeys s.topics
  pub logs : (t : String) (td : TopicData) → lookup t s.topics ≡ some td → IsLog t td

pub new-IsWellFormed : IsWellFormed new
unfolding new lookup
new-IsWellFormed = record { distinct = tt; logs = λ t td e. cc }

fresh_topic-IsLog : (t : String) (now : Time) → IsLog t (fresh_topic t now)
fresh_topic-IsLog t now = record { numbered = tt; last = refl; named = refl; own = tt }

get-IsLog : (s : Store) (t : String) (now : Time) → IsWellFormed s → IsLog t (get s t now)
unfolding get
get-IsLog s t now w = go (lookup t s.topics) refl
  where
    go :
        (o : Option TopicData)
        → lookup t s.topics ≡ o
        → IsLog t (elim o [ none ↦ fresh_topic t now | some td ↦ td ])
    go none e = fresh_topic-IsLog t now
    go (some td) e = w.logs t td e

-- Writing a log under its topic keeps the store well-formed.
insert-IsWellFormed :
    (s : Store) (t : String) (td : TopicData)
    → IsWellFormed s
    → IsLog t td
    → IsWellFormed (record s { topics = insert t td s.topics })
insert-IsWellFormed s t td w l = record {
  distinct = insert-HasDistinctKeys t td s.topics w.distinct;
  logs = λ t' td' e. elim (Bool-cases (t =ₛ t')) [
    | inl same ↦
        subst₂' t t' ((eq_iff t t').0 same) td td' (ground (arith, lookup-insert t t' td s.topics))
          l
    | inr other ↦ w.logs t' td' (ground (arith, lookup-insert t t' td s.topics))
  ];
}
  where
    subst₂' : (t t' : String) → t ≡ t' → (td td' : TopicData) → td ≡ td' → IsLog t td → IsLog t' td'
    subst₂' t t' e td td' f l = subst (λ u. IsLog u td') e (subst (IsLog t) f l)

extended-IsLog :
    (td : TopicData) (e : Event) (now : Time) (new_id : String)
    → IsLog e.topic td
    → IsLog e.topic (extended td (stamp td e now new_id))
unfolding extended stamp
extended-IsLog td e now new_id l = record {
  numbered = Numbered-snoc 1 td.events _ l.numbered (omega arith);
  last = omega (arith, length-append td.events (stamp td e now new_id ∷ []));
  named = l.named;
  own = All-append (λ x. x.topic ≡ e.topic) td.events _ l.own (refl, tt);
}

lookup-expire_from :
    (cutoff : Time) (t : String) (m : List (String × TopicData))
    → HasDistinctKeys m
    → lookup t (expire_from cutoff m).0
      ≡ elim (lookup t m) [ none ↦ none | some td ↦ if is_expired cutoff td then none else some td ]
unfolding expire_from lookup
lookup-expire_from cutoff t [] d = refl
lookup-expire_from cutoff t ((j, td) ∷ m) (n, d) = ground (
  arith,
  eq_iff j t,
  lookup-expire_from cutoff t m d,
  λ (same : j ≡ t). ap (λ k. lookup k m) same,
)

expire_from-none :
    (cutoff : Time) (t : String) (m : List (String × TopicData))
    → HasDistinctKeys m
    → lookup t m ≡ none
    → lookup t (expire_from cutoff m).0 ≡ none
expire_from-none cutoff t m d e = ground (arith, lookup-expire_from cutoff t m d)

expire_from-HasDistinctKeys :
    (cutoff : Time) (m : List (String × TopicData))
    → HasDistinctKeys m
    → HasDistinctKeys (expire_from cutoff m).0
unfolding expire_from
expire_from-HasDistinctKeys cutoff [] d = tt
expire_from-HasDistinctKeys cutoff ((j, td) ∷ m) (n, d) =
    ground (arith, expire_from-none cutoff j m d n, expire_from-HasDistinctKeys cutoff m d)

-- What a sweep leaves of a topic's data: nothing where the last event is set and before the cutoff.
abbrev pub unexpired : Time → Option TopicData → Option TopicData
unexpired cutoff none = none
unexpired cutoff (some td) =
    if is_zero td.meta.last_event_at
    then some td
    else if ltb_ℤ td.meta.last_event_at cutoff
    then none
    else some td

pub lookup-expire :
    (s : Store) (cutoff : Time) (t : String)
    → IsWellFormed s
    → lookup t (expire s cutoff).0.topics ≡ unexpired cutoff (lookup t s.topics)
unfolding expire
lookup-expire s cutoff t w = ground (arith, lookup-expire_from cutoff t s.topics w.distinct)

expire-IsWellFormed :
    (s : Store) (cutoff : Time) → IsWellFormed s → IsWellFormed (expire s cutoff).0
unfolding expire
expire-IsWellFormed s cutoff w = record {
  distinct = expire_from-HasDistinctKeys cutoff s.topics w.distinct;
  logs = λ t td e. w.logs t td (ground (arith, lookup-expire_from cutoff t s.topics w.distinct));
}

pub delete_topic-IsWellFormed :
    (s : Store) (t : String) → IsWellFormed s → IsWellFormed (delete_topic s t)
unfolding delete_topic
delete_topic-IsWellFormed s t w = record {
  distinct = remove-HasDistinctKeys t s.topics w.distinct;
  logs = λ t' td e. w.logs t' td (ground (arith, lookup-remove t t' s.topics));
}

pub set_state-IsWellFormed :
    (s : Store) (t : String) (state : RawMessage) (now : Time)
    → IsWellFormed s
    → IsWellFormed (set_state s t state now)
unfolding set_state
set_state-IsWellFormed s t state now w =
    let l = get-IsLog s t now w in
    insert-IsWellFormed s t _ w
      (record { numbered = l.numbered; last = l.last; named = l.named; own = l.own })

pub upsert_meta-IsWellFormed :
    (s : Store) (meta : TopicMeta) (created now : Time)
    → IsWellFormed s
    → IsWellFormed (upsert_meta s meta created now)
unfolding upsert_meta
upsert_meta-IsWellFormed s meta created now w =
    let l = get-IsLog s meta.topic created w in
    insert-IsWellFormed s meta.topic _ w
      (record { numbered = l.numbered; last = l.last; named = l.named; own = l.own })

pub append-IsWellFormed :
    (s : Store) (e : Event) (created now : Time) (new_id : String)
    → IsWellFormed s
    → IsWellFormed (append s e created now new_id).0
unfolding append
append-IsWellFormed s e created now new_id w =
    insert-IsWellFormed s e.topic _ w
      (extended-IsLog (get s e.topic created) e now new_id (get-IsLog s e.topic created w))

-- Every call keeps a store well-formed.
pub step-IsWellFormed : (s : Store) (c : StoreCall) → IsWellFormed s → IsWellFormed (step s c)
unfolding step
step-IsWellFormed s (appends e created now new_id) w = append-IsWellFormed s e created now new_id w
step-IsWellFormed s (sets_state topic state now) w = set_state-IsWellFormed s topic state now w
step-IsWellFormed s (upserts meta created now) w = upsert_meta-IsWellFormed s meta created now w
step-IsWellFormed s (expires cutoff) w = expire-IsWellFormed s cutoff w
step-IsWellFormed s (deletes topic) w = delete_topic-IsWellFormed s topic w

run-IsWellFormed' : (s : Store) (cs : List StoreCall) → IsWellFormed s → IsWellFormed (run s cs)
unfolding run
run-IsWellFormed' s [] w = w
run-IsWellFormed' s (c ∷ cs) w = run-IsWellFormed' (step s c) cs (step-IsWellFormed s c w)

-- Whatever calls were made on a new store, in any order: no topic stands twice, and the events of
-- each topic carry the seqs 1, 2, 3, … in order and the topic's own name, with `LastSeq` equal to
-- their number.
pub run-IsWellFormed : (cs : List StoreCall) → IsWellFormed (run new cs)
run-IsWellFormed cs = run-IsWellFormed' new cs new-IsWellFormed

-- Appending adds the event at the end of its topic's log, with the next seq of that log, the
-- caller's id and time or, where these are unset, a new id and the time of the call; the caller's
-- event is the stored one, and the log of every other topic is as it was.
pub append_log :
    (s : Store) (e : Event) (created now : Time) (new_id : String) (t : String)
    → let (s', e') = append s e created now new_id in
      (events_of s' t ≡ (if e.topic =ₛ t then events_of s t ++ e' ∷ [] else events_of s t))
      × (e' ≡ record e {
        seq = length (events_of s e.topic) + 1;
        id = if e.id =ₛ "" then new_id else e.id;
        occurred_at = if is_zero e.occurred_at then now else e.occurred_at;
      })
unfolding append stamp extended get
append_log s e created now new_id t =
    let td' = extended (get s e.topic created) (stamp (get s e.topic created) e now new_id) in
    (
      ground (
        arith,
        lookup-insert e.topic t td' s.topics,
        eq_iff e.topic t,
        λ (same : e.topic ≡ t). ap (λ k. lookup k s.topics) same,
      ),
      ground arith,
    )
