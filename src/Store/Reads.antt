-- ===== src/Store/Reads.antt =====
-- What `Read` and `Latest` return of a topic's log.
use Prim.Native.Nat.{min}
use event_watch.Base.{
  ℕ, zero, suc, ◌+◌, ◌-◌, ◌≤◌, ◌≡◌, refl, String, Option, none, some, List, [], ◌∷◌, ◌++◌, leb,
  length, take, drop, drop_nil, filter, filter-append, take-append-drop, length-drop, arith, lookup,
  ℤ, pos, negsuc, eq_iff, ap, sym, ◌∙◌,
}
use event_watch.Core.{Event, Time}
use event_watch.Store.{
  Store, TopicData, append, read, latest, limited, events_of, search, seq_at_least, start_of,
}
use event_watch.Store.Log.{IsWellFormed, append_log, append-IsWellFormed}
use event_watch.Store.Search.{Numbered, drop-search}

pub events_of-Numbered : (s : Store) (t : String) → IsWellFormed s → Numbered 1 (events_of s t)
events_of-Numbered s t w = go (lookup t s.topics) refl
  where
    go :
        (o : Option TopicData)
        → lookup t s.topics ≡ o
        → Numbered 1 (elim o [ none ↦ [] | some td ↦ td.events ])
    go none e = tt
    go (some td) e = (w.logs t td e).numbered

limited_nil {ℓ} : {A : Type ℓ} (limit : ℤ) → limited {A = A} limit [] ≡ []
limited_nil (pos n) = ground arith
limited_nil (negsuc n) = refl

-- A missing topic reads as an empty log.
read_events :
    (s : Store) (t : String) (from : ℕ) (limit : ℤ) (o : Option TopicData)
    → lookup t s.topics ≡ o
    → read s t from limit
      ≡ limited limit (
          drop
            (search (length (events_of s t)) (seq_at_least (events_of s t) from))
            (events_of s t))
unfolding read
read_events s t from limit none e =
    rw (e, read, events_of)
      (sym (ap (limited limit) (drop_nil (search 0 (seq_at_least [] from))) ∙ limited_nil limit))
read_events s t from limit (some td) e = rw (e, read, events_of) refl

latest_events :
    (s : Store) (t : String) (n : ℤ) (o : Option TopicData)
    → lookup t s.topics ≡ o
    → latest s t n ≡ drop (start_of n (length (events_of s t))) (events_of s t)
unfolding latest
latest_events s t n none e = rw (e, latest, events_of) (sym (drop_nil (start_of n 0)))
latest_events s t n (some td) e = rw (e, latest, events_of) refl

-- In a well-formed store the binary search of `Read` is exact: the result is the events of the
-- topic with a seq of at least `from`, oldest first, cut to the first `limit` of them where the
-- limit is positive; a missing topic reads as an empty log.
pub read_log :
    (s : Store) (t : String) (from : ℕ) (limit : ℤ)
    → IsWellFormed s
    → read s t from limit ≡ limited limit (filter (λ e. leb from e.seq) (events_of s t))
read_log s t from limit w =
    read_events s t from limit (lookup t s.topics) refl
    ∙ ap (limited limit) (drop-search 1 (events_of s t) from (events_of-Numbered s t w))

filter_below :
    (k from : ℕ) (es : List Event)
    → Numbered k es
    → k + length es ≤ from
    → filter (λ e. leb from e.seq) es ≡ []
filter_below k from [] n l = refl
filter_below k from (e ∷ es) (p, n) l = ground (arith, filter_below (suc k) from es n)

-- An event that was appended is what a read from its seq returns, alone.
pub read-append :
    (s : Store) (e : Event) (created now : Time) (new_id : String)
    → IsWellFormed s
    → let (s', e') = append s e created now new_id in read s' e.topic e'.seq (pos 0) ≡ e' ∷ []
read-append s e created now new_id w =
    let w' = append-IsWellFormed s e created now new_id w in
    let (log, stamped) = append_log s e created now new_id e.topic in
    let l = events_of s e.topic in
    let (s', e') = append s e created now new_id in
    let p = λ (x : Event). leb e'.seq x.seq in
    let grown : events_of s' e.topic ≡ l ++ e' ∷ [] = ground (arith, log, eq_iff e.topic e.topic) in
    let numbered : e'.seq ≡ length l + 1 = ap (λ (x : Event). x.seq) stamped in
    let older : filter p l ≡ [] =
      filter_below 1 e'.seq l (events_of-Numbered s e.topic w) (omega arith) in
    read_log s' e.topic e'.seq (pos 0) w'
    ∙ ap (filter p) grown
    ∙ filter-append p l (e' ∷ [])
    ∙ ground (arith, older)

abbrev pub kept_of : ℤ → ℕ → ℕ
kept_of (pos zero) len = len
kept_of (pos (suc k)) len = min (suc k) len
kept_of (negsuc k) len = len

start_of_lem : (n : ℤ) (len : ℕ) → len - start_of n len ≡ kept_of n len
start_of_lem (pos zero) len = ground arith
start_of_lem (pos (suc k)) len = ground arith
start_of_lem (negsuc k) len = ground arith

-- `Latest` returns the last n events of the log where n is positive and the log is longer, and
-- the whole log otherwise: also for n = 0 and for a negative n.
pub latest_lem :
    (s : Store) (t : String) (n : ℤ)
    → (older : List Event) × (events_of s t ≡ older ++ latest s t n)
      × (length (latest s t n) ≡ kept_of n (length (events_of s t)))
latest_lem s t n =
    let l = events_of s t in
    let start = start_of n (length l) in
    let same = latest_events s t n (lookup t s.topics) refl in
    (
      take start l,
      rw same (sym (take-append-drop start l)),
      rw same (length-drop start l ∙ start_of_lem n (length l)),
    )
