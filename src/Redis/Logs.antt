-- ===== src/Redis/Logs.antt =====
-- The keys of one topic on the server, when only this code writes them.
use event_watch.Base.{
  ◌+◌, ◌≡◌, refl, ap, sym, Bool-cases, inl, inr, ◌∙◌, subst, String, true, Option, none, some, List,
  [], ◌∷◌, ◌++◌, length, length-append, arith, if◌then◌else◌, ◌=ₛ◌,
}
use event_watch.Base.Decimal.{show_ℕ}
use event_watch.Core.{Event, Time, ok}
use event_watch.Objtypes.Codec.{Codec}
use event_watch.Store.Search.{Numbered, Numbered-snoc}
use event_watch.Redis.Server.{
  Item, integer, text, stream, hash, members, Values, effects, stream_of, counter_of, hash_of, fine,
  added, set_in, set_new,
}
use event_watch.Redis.Store.{
  stream_key, state_key, meta_key, seq_key, append_commands, decode_entry, decode_entries,
  meta_fields,
}
use event_watch.Redis.Numbers.{show_time}
use event_watch.Redis.Keys.{streams, states, metas, seqs, key-inj, key-key_apart, set-key_apart}
use event_watch.Redis.Reads.{decode_entries-append}

-- The entries of a stream; a missing key is an empty stream.
abbrev pub entries_of : Option Item → List Values
entries_of (some (stream es)) = es
entries_of _ = []

-- A topic's stream, counter and hash have their types, the stream holds events numbered from 1, and
-- the counter is their number.
pub record IsLog (c : Codec Event) (log count meta : Option Item) : Type 0 where
  pub typed : stream_of log ≡ ok (entries_of log)
  pub counted : counter_of count ≡ some (length (decode_entries c (entries_of log)))
  pub numbered : Numbered 1 (decode_entries c (entries_of log))
  pub hashed : fine (hash_of meta) ≡ true

-- The effect of an append's transaction on each key.
pub append-stream :
    (e : Event) (body : String) (now : Time) (t : String) (i : Option Item)
    → effects (append_commands e body now) (stream_key t) i
      ≡ (if e.topic =ₛ t then added (("e", body) ∷ ("seq", show_ℕ e.seq) ∷ []) i else i)
append-stream e body now t i =
    rw
      (
        key-inj streams e.topic t,
        key-key_apart metas streams e.topic t refl,
        set-key_apart streams t,
      )
      refl

pub append-seq :
    (e : Event) (body : String) (now : Time) (t : String) (i : Option Item)
    → effects (append_commands e body now) (seq_key t) i ≡ i
append-seq e body now t i =
    rw
      (
        key-key_apart streams seqs e.topic t refl,
        key-key_apart metas seqs e.topic t refl,
        set-key_apart seqs t,
      )
      refl

pub append-state :
    (e : Event) (body : String) (now : Time) (t : String) (i : Option Item)
    → effects (append_commands e body now) (state_key t) i ≡ i
append-state e body now t i =
    rw
      (
        key-key_apart streams states e.topic t refl,
        key-key_apart metas states e.topic t refl,
        set-key_apart states t,
      )
      refl

-- A hash stays a hash.
pub set_in-hash : (fs : Values) (i : Option Item) → fine (hash_of (set_in fs i)) ≡ fine (hash_of i)
set_in-hash fs none = refl
set_in-hash fs (some (integer n)) = refl
set_in-hash fs (some (text v)) = refl
set_in-hash fs (some (stream es)) = refl
set_in-hash fs (some (hash m)) = refl
set_in-hash fs (some (members ms)) = refl

set_new-hash : (f v : String) (i : Option Item) → fine (hash_of (set_new f v i)) ≡ fine (hash_of i)
set_new-hash f v none = refl
set_new-hash f v (some (integer n)) = refl
set_new-hash f v (some (text w)) = refl
set_new-hash f v (some (stream es)) = refl
set_new-hash f v (some (hash m)) = refl
set_new-hash f v (some (members ms)) = refl

pub append-meta :
    (e : Event) (body : String) (now : Time) (t : String) (i : Option Item)
    → fine (hash_of (effects (append_commands e body now) (meta_key t) i)) ≡ fine (hash_of i)
append-meta e body now t i =
    rw (key-key_apart streams metas e.topic t refl, set-key_apart metas t)
      (elim (Bool-cases (meta_key e.topic =ₛ meta_key t)) [
        | inl same ↦ rw same (
            set_new-hash "created_at" (show_time now) (set_in (meta_fields e) i)
            ∙ set_in-hash (meta_fields e) i)
        | inr other ↦ rw other refl
      ])

entries_of-added :
    (fs : Values) (i : Option Item)
    → stream_of i ≡ ok (entries_of i)
    → (entries_of (added fs i) ≡ entries_of i ++ fs ∷ [])
      × (stream_of (added fs i) ≡ ok (entries_of (added fs i)))
entries_of-added fs none h = (refl, refl)
entries_of-added fs (some (stream es)) h = (refl, refl)
entries_of-added fs (some (integer n)) h = cc
entries_of-added fs (some (text v)) h = cc
entries_of-added fs (some (hash m)) h = cc
entries_of-added fs (some (members ms)) h = cc

module _ (c : Codec Event) where
  -- The events of a topic.
  abbrev pub log_of : Option Item → List Event
  log_of i = decode_entries c (entries_of i)

  pub log_of-added :
      (fs : Values) (i : Option Item) (e : Event)
      → stream_of i ≡ ok (entries_of i)
      → decode_entry c fs ≡ some e
      → log_of (added fs i) ≡ log_of i ++ e ∷ []
  unfolding decode_entries
  log_of-added fs i e h d =
      ap (decode_entries c) (entries_of-added fs i h).0
      ∙ decode_entries-append c (entries_of i) (fs ∷ [])
      ∙ ground (arith, d)

  pub IsLog-added :
      (fs : Values) (e : Event) (log count meta meta' : Option Item)
      → IsLog c log count meta
      → decode_entry c fs ≡ some e
      → e.seq ≡ 1 + length (log_of log)
      → fine (hash_of meta') ≡ fine (hash_of meta)
      → IsLog c (added fs log) (some (integer (length (log_of log) + 1))) meta'
  IsLog-added fs e log count meta meta' l d n m =
      let same = log_of-added fs log e l.typed d in
      record {
        typed = (entries_of-added fs log l.typed).1;
        counted = ap (λ n. some n) (sym (ap length same ∙ length-append (log_of log) (e ∷ [])));
        numbered = subst (Numbered 1) (sym same) (Numbered-snoc 1 (log_of log) e l.numbered n);
        hashed = m ∙ l.hashed;
      }
