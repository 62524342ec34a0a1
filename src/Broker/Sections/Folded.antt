-- ===== src/Broker/Sections/Folded.antt =====
-- The states and logs of a server with the in-memory store, between any two store calls of its
-- publishes and of the archiver.
use event_watch.Base.{
  ◌≡◌, refl, sym, ap, ◌∙◌, String, false, none, List, [], ◌∷◌, ◌++◌, ◌=ₛ◌, if◌then◌else◌, arith,
  lookup-remove, eq_iff, Bool-cases, inl, inr, subst,
}
use event_watch.Core.{Event, RawMessage, Error, ok, err}
use event_watch.Computed.{Registry}
use event_watch.Computed
use event_watch.Store.{Store, get_state, delete_topic, events_of}
use event_watch.Store.Log.{IsWellFormed, delete_topic-IsWellFormed}
use event_watch.StoreApi.{Env}
use event_watch.StoreApi.Memory.{memory, memory-IsStore}
use event_watch.Broker.{check, or_nil}
use event_watch.Broker.Publish.{Result-cases}
use event_watch.Broker.Fold.{fold_log}
use event_watch.Broker.Sections.{
  Ingest, Stage, free, appended, reduced, saved, appends, deletes, section, is_between,
}

abbrev pub state_of : Store → String → RawMessage
state_of s t = or_nil (get_state s t)

-- The topic's state is the fold of the reducers over its log.
abbrev pub IsFoldedAt : Registry → Store → String → Type 0
IsFoldedAt r s t = state_of s t ≡ fold_log r none (events_of s t)

-- A topic whose last event the state has not seen yet.
pub record IsBehind (r : Registry) (s : Store) (e : Event) : Type 0 where
  pub before : List Event
  pub log : events_of s e.topic ≡ before ++ e ∷ []
  pub state : state_of s e.topic ≡ fold_log r none before

abbrev pub IsPending : Registry → Store → Stage → Type 0
IsPending r s free = Unit
IsPending r s (appended e ot) = IsBehind r s e
IsPending r s (reduced e ot a) = IsBehind r s e × (a ≡ Computed.apply r (state_of s e.topic) e)
IsPending r s (saved e ot) = Unit

pub record IsTracked (i : Ingest Store) : Type 0 where
  pub store_ok : IsWellFormed i.store
  pub folded : (t : String) → is_between i.stage t ≡ false → IsFoldedAt i.reducers i.store t
  pub pending : IsPending i.reducers i.store i.stage

deleted :
    (s : Store) (t t' : String)
    → (state_of (delete_topic s t) t' ≡ (if t =ₛ t' then none else state_of s t'))
      × (events_of (delete_topic s t) t' ≡ (if t =ₛ t' then [] else events_of s t'))
unfolding delete_topic get_state
deleted s t t' =
    (ground (arith, lookup-remove t t' s.topics), ground (arith, lookup-remove t t' s.topics))

deleted-IsFoldedAt :
    (r : Registry) (s : Store) (t t' : String)
    → (t =ₛ t' ≡ false → IsFoldedAt r s t')
    → IsFoldedAt r (delete_topic s t) t'
deleted-IsFoldedAt r s t t' f = elim (Bool-cases (t =ₛ t')) [
  | inl gone ↦
      rw gone at (deleted s t t').0 ∙ ap (fold_log r none) (sym (rw gone at (deleted s t t').1))
  | inr kept ↦
      rw kept at (deleted s t t').0
      ∙ f kept
      ∙ ap (fold_log r none) (sym (rw kept at (deleted s t t').1))
]

other-IsBehind :
    (r : Registry) (s : Store) (t : String) (e : Event)
    → e.topic =ₛ t ≡ false
    → IsBehind r s e
    → IsBehind r (delete_topic s t) e
other-IsBehind r s t e other b = record {
  before = b.before;
  log = ground (arith, (deleted s t e.topic).1, b.log, eq_iff t e.topic, eq_iff e.topic t);
  state = ground (arith, (deleted s t e.topic).0, b.state, eq_iff t e.topic, eq_iff e.topic t);
}

delete-IsPending :
    (r : Registry) (s : Store) (st : Stage) (t : String)
    → is_between st t ≡ false
    → IsPending r s st
    → IsPending r (delete_topic s t) st
delete-IsPending r s free t whole p = tt
delete-IsPending r s (appended e ot) t whole p = other-IsBehind r s t e whole p
delete-IsPending r s (reduced e ot a) t whole (b, same) = (
  other-IsBehind r s t e whole b,
  same
      ∙ ap (λ raw. Computed.apply r raw e)
          (ground (arith, (deleted s t e.topic).0, eq_iff t e.topic, eq_iff e.topic t)),
)
delete-IsPending r s (saved e ot) t whole p = tt

module _ (i : Ingest Store) (k : IsTracked i) where
  pub deletes-IsTracked :
      (t : String) → is_between i.stage t ≡ false → IsTracked (section memory i (deletes t))
  unfolding section
  deletes-IsTracked t whole = record {
    store_ok = delete_topic-IsWellFormed i.store t k.store_ok;
    folded = λ t' f. deleted-IsFoldedAt i.reducers i.store t t' (λ other. k.folded t' f);
    pending = delete-IsPending i.reducers i.store i.stage t whole k.pending;
  }

  appends_free :
      (env : Env) (e e' : Event) (ot : String) (s : Store)
      → i.stage ≡ free
      → memory.append i.store env e ≡ (s, ok e')
      → IsTracked (record i { store = s; stage = appended e' ot })
  appends_free env e e' ot s f a =
      let (valid, stamp, log, state) = memory-IsStore.append_ok i.store s env e e' k.store_ok a in
      let topic : e'.topic ≡ e.topic = ap (λ (x : Event). x.topic) stamp in
      record {
        store_ok = valid;
        folded = λ t other.
            let other' : e.topic =ₛ t ≡ false = rw topic at other in
            ap or_nil (state t)
            ∙ k.folded t (rw f refl)
            ∙ ap (fold_log i.reducers none) (sym (rw other' at (log t)));
        pending = record {
          before = events_of i.store e.topic;
          log = rw topic (ground (arith, log e.topic, eq_iff e.topic e.topic));
          state = rw topic (ap or_nil (state e.topic) ∙ k.folded e.topic (rw f refl));
        };
      }

append_refused :
    (i : Ingest Store) (env : Env) (e : Event) (x : Error)
    → check memory e ≡ err x
    → section memory (record i { stage = free }) (appends env e) ≡ record i { stage = free }
unfolding section
append_refused i env e x h = ground arith

append_taken :
    (i : Ingest Store) (env : Env) (e e' : Event) (ot : String) (s : Store)
    → check memory e ≡ ok ot
    → memory.append i.store env e ≡ (s, ok e')
    → section memory (record i { stage = free }) (appends env e)
      ≡ record i { store = s; stage = appended e' ot }
unfolding section
append_taken i env e e' ot s passed a = ground arith

pub appends-IsTracked :
    (i : Ingest Store) (st : Stage) (env : Env) (e : Event)
    → IsTracked (record i { stage = st })
    → IsTracked (section memory (record i { stage = st }) (appends env e))
unfolding section
appends-IsTracked i free env e k = elim (Result-cases (check memory e)) [
  | inl (x, refusal) ↦ subst IsTracked (sym (append_refused i env e x refusal)) k
  | inr (ot, passed) ↦ elim (Result-cases (memory.append i.store env e).1) [
    | inl (x, fault) ↦ absurd (cc)
    | inr (e', done) ↦
        let s = (memory.append i.store env e).0 in
        let a : memory.append i.store env e ≡ (s, ok e') = ground arith in
        subst IsTracked (sym (append_taken i env e e' ot s passed a))
          (appends_free (record i { stage = free }) k env e e' ot s refl a)
  ]
]
appends-IsTracked i (appended e' ot) env e k = k
appends-IsTracked i (reduced e' ot a) env e k = k
appends-IsTracked i (saved e' ot) env e k = k
