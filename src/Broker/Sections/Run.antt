-- ===== src/Broker/Sections/Run.antt =====
-- A server with the in-memory store, from an empty store through any store calls of its publishes
-- and of the archiver.
use event_watch.Base.{◌≡◌, refl, ◌∙◌, String, false, ℤ, arith, lookup, subst}
use event_watch.Computed.{Registry}
use event_watch.Store
use event_watch.Store.{Store, get_state, delete_topic, events_of}
use event_watch.Store.Log.{IsWellFormed, new-IsWellFormed}
use event_watch.StoreApi.Memory.{memory}
use event_watch.Broker.Sections.{
  Ingest, Stage, free, appended, reduced, saved, Section, appends, reduces, saves, upserts, deletes,
  section, is_between, is_tearing,
}
use event_watch.Broker.Sections.Folded.{IsTracked, IsFoldedAt, appends-IsTracked, deletes-IsTracked}
use event_watch.Broker.Sections.Saved.{reduces-IsTracked, saves-IsTracked, upserts-IsTracked}

section-IsTracked :
    (i : Ingest Store) (c : Section)
    → is_tearing i.stage c ≡ false
    → IsTracked i
    → IsTracked (section memory i c)
section-IsTracked i (appends env e) whole k = appends-IsTracked i i.stage env e k
section-IsTracked i reduces whole k = reduces-IsTracked i i.stage k
section-IsTracked i (saves env) whole k = saves-IsTracked i i.stage env k
section-IsTracked i (upserts env) whole k = upserts-IsTracked i i.stage env k
section-IsTracked i (deletes t) whole k = deletes-IsTracked i k t whole

section_reducers :
    (i : Ingest Store) (st : Stage) (c : Section)
    → (section memory (record i { stage = st }) c).reducers ≡ i.reducers
unfolding section
section_reducers i free (appends env e) = ground arith
section_reducers i (appended e' ot) (appends env e) = refl
section_reducers i (reduced e' ot a) (appends env e) = refl
section_reducers i (saved e' ot) (appends env e) = refl
section_reducers i free reduces = refl
section_reducers i (appended e' ot) reduces = refl
section_reducers i (reduced e' ot a) reduces = refl
section_reducers i (saved e' ot) reduces = refl
section_reducers i free (saves env) = refl
section_reducers i (appended e' ot) (saves env) = refl
section_reducers i (reduced e' ot a) (saves env) = ground arith
section_reducers i (saved e' ot) (saves env) = refl
section_reducers i free (upserts env) = refl
section_reducers i (appended e' ot) (upserts env) = refl
section_reducers i (reduced e' ot a) (upserts env) = refl
section_reducers i (saved e' ot) (upserts env) = refl
section_reducers i st (deletes t) = refl

abbrev pub start : Registry → ℤ → Ingest Store
start reducers ttl = record {
  store = Store.new;
  stage = free;
  reducers = reducers;
  default_ttl = ttl;
}

start-IsTracked : (reducers : Registry) (ttl : ℤ) → IsTracked (start reducers ttl)
unfolding Store.new Store.get_state lookup
start-IsTracked reducers ttl = record {
  store_ok = new-IsWellFormed;
  folded = λ t f. refl;
  pending = tt;
}

-- What store calls lead to from an empty store, as long as no topic is deleted between the `Append`
-- and the `SetState` of a publish to that very topic.
pub data Reach (reducers : Registry) (ttl : ℤ) : Ingest Store → Type 0 where
  here : Reach reducers ttl (start reducers ttl)
  next :
      {i : Ingest Store}
      → Reach reducers ttl i
      → (c : Section) → is_tearing i.stage c ≡ false
      → Reach reducers ttl (section memory i c)

Reach-IsTracked :
    (reducers : Registry) (ttl : ℤ) (i : Ingest Store) → Reach reducers ttl i → IsTracked i
Reach-IsTracked reducers ttl _ here = start-IsTracked reducers ttl
Reach-IsTracked reducers ttl _ (next {i = i} r c whole) =
    section-IsTracked i c whole (Reach-IsTracked reducers ttl i r)

Reach-reducers :
    (reducers : Registry) (ttl : ℤ) (i : Ingest Store)
    → Reach reducers ttl i
    → i.reducers ≡ reducers
Reach-reducers reducers ttl _ here = refl
Reach-reducers reducers ttl _ (next {i = i} r c whole) =
    section_reducers i i.stage c ∙ Reach-reducers reducers ttl i r

-- From an empty in-memory store with any reducers, after any store calls of publishes and of the
-- archiver, a step for each, in any order that the ingest lock allows: the log of every topic is
-- numbered from 1, and the state of every topic is the fold of the reducers over the topic's log,
-- but for the topic of a publish that has appended its event and not saved the new state yet. The
-- condition is that no topic is deleted between the `Append` and the `SetState` of a publish to
-- that very topic; deletes of it at any other point, and of other topics at any point, are covered.
pub Reach-IsFoldedAt :
    (reducers : Registry) (ttl : ℤ) (i : Ingest Store)
    → Reach reducers ttl i
    → IsWellFormed i.store
      × ((t : String) → is_between i.stage t ≡ false → IsFoldedAt reducers i.store t)
Reach-IsFoldedAt reducers ttl i r =
    let k = Reach-IsTracked reducers ttl i r in
    (
      k.store_ok,
      λ t f. subst (λ rs. IsFoldedAt rs i.store t) (Reach-reducers reducers ttl i r) (k.folded t f),
    )
