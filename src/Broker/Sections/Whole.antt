-- ===== src/Broker/Sections/Whole.antt =====
-- The store calls of a publish with nothing in between are those of `publish` in Broker.antt.
use event_watch.Base.{◌≡◌, refl, String, arith, ap, ◌∙◌, sym}
use event_watch.Core.{Event, Error, ok, err}
use event_watch.Store.{Store}
use event_watch.Store.Log.{IsWellFormed}
use event_watch.StoreApi.{Env}
use event_watch.StoreApi.Memory.{memory, memory-IsStore}
use event_watch.Broker.{Broker, check, save, fan_out, publish}
use event_watch.Broker.Publish.{refused, failed, accepted, publish-Published, reduced as reduced_by}
use event_watch.Broker.Sections.{Ingest, free, appends, reduces, saves, upserts, section, appended}

abbrev pub of_broker : Broker Store → Ingest Store
of_broker b = record {
  store = b.store;
  stage = free;
  reducers = b.reducers;
  default_ttl = b.default_ttl;
}

abbrev pub run_sections : Ingest Store → Env → Event → Ingest Store
run_sections i env e =
    section memory
      (section memory (section memory (section memory i (appends env e)) reduces) (saves env))
      (upserts env)

first_section :
    (b : Broker Store) (env : Env) (e e' : Event) (ot : String) (s : Store)
    → check memory e ≡ ok ot
    → memory.append b.store env e ≡ (s, ok e')
    → section memory (of_broker b) (appends env e)
      ≡ record (of_broker b) { store = s; stage = appended e' ot }
unfolding section
first_section b env e e' ot s passed a = ground arith

accepted_sections :
    (b : Broker Store) (env : Env) (e e' : Event) (ot : String) (s : Store)
    → e'.topic ≡ e.topic
    → let i : Ingest Store = record (of_broker b) { store = s; stage = appended e' ot } in
      section memory (section memory (section memory i reduces) (saves env)) (upserts env)
      ≡ record (of_broker b) {
        store =
            (save memory (record b { store = s }) env e ot (reduced_by memory b env e s e')).store;
      }
unfolding section save
accepted_sections b env e e' ot s same = rw same refl

refused_sections :
    (b : Broker Store) (env : Env) (e : Event) (x : Error)
    → check memory e ≡ err x
    → run_sections (of_broker b) env e ≡ of_broker b
unfolding section
refused_sections b env e x h = ground arith

-- On a well-formed in-memory store, the store calls of a publish that has the ingest lock, with
-- nothing in between, leave the store as `publish` does and the lock free, whether the event is
-- refused or accepted.
pub whole_ingest :
    (b : Broker Store) (env : Env) (e : Event) (source : String)
    → IsWellFormed b.store
    → run_sections (of_broker b) env e ≡ of_broker (publish memory b env e source).0
unfolding fan_out save
whole_ingest b env e source w = elim (publish-Published memory b env e source) [
  | refused x h r ↦ refused_sections b env e x h ∙ ap (λ p. of_broker p.0) (sym r)
  | failed s x h r ↦ absurd (cc)
  | accepted ot s e' h a r ↦
      ap (λ i. section memory (section memory (section memory i reduces) (saves env)) (upserts env))
        (first_section b env e e' ot s h a)
      ∙ accepted_sections b env e e' ot s
          (ap (λ (x : Event). x.topic) (memory-IsStore.append_ok b.store s env e e' w a).1)
      ∙ ap (λ p. of_broker p.0) (sym r)
]
