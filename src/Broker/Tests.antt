-- ===== src/Broker/Tests.antt =====
-- A publish on a new broker, and the theorems at it.
use event_watch.Base.{
  ◌≡◌, refl, [], ◌∷◌, lookup, insert, pos, List, ℕ, String, length, map, filter, leb, some, arith,
  ◌=ₛ◌, eq_iff, Bool-cases, inl, inr, ℤ, Option, ap, sym, Bool, true, false, none, ◌≢◌, remove,
}
use event_watch.Core.{Event, Result, ok, str}
use event_watch.Computed
use event_watch.Computed.{Registry, Reducer, new_registry, register}
use event_watch.Core.Topic.{validate_topic, parse_object_type}
use event_watch.Hub
use event_watch.Store
use event_watch.Store.{Store, events_of}
use event_watch.Store.Log.{IsWellFormed, new-IsWellFormed}
use event_watch.StoreApi.{Env}
use event_watch.StoreApi.Memory.{memory, memory-IsStore}
use event_watch.Broker.{
  Broker, new, publish, publish_all, check, save, ingest, fan_out, attach, start_from, backfill,
}
use event_watch.Broker.Accepted.{IsAccepted, publish-IsAccepted}
use event_watch.Broker.Typed.{fold_typed, fold_log-Encodes}
use native.Mathlib.Decide.{ℕ_discrete}
use event_watch.Objtypes.Codec.{Codec}
use event_watch.Objtypes.Deploy
use event_watch.Objtypes.Deploy.{DeployState}
use event_watch.Objtypes.Codec.Refine.{Encodes}
use event_watch.Broker.Fold.{fold_log, IsFolded, publish-IsFolded}
use event_watch.Broker.Stream.{plain}
use event_watch.Broker.Backfill.{seen, started, at_end, subscribe_gapless}
use event_watch.Hub.{Subscription}
use event_watch.Broker.Sections
use event_watch.Broker.Sections.{Ingest, section, appends, reduces, saves, deletes, is_between}
use event_watch.Broker.Sections.Folded.{IsFoldedAt}
use event_watch.Broker.Sections.Run.{Reach, here, next, Reach-IsFoldedAt}
use event_watch.Broker.Run.{IsConsistent, publish_all-IsConsistent}
use event_watch.Samples.{event_of, opened, env, last_type}

abbrev start : Broker Store
start = new Store.new Hub.new (register new_registry (last_type ∷ [])) (pos 0)

abbrev after : Broker Store × Result Event
after = publish memory start env opened "http"

start_store : IsWellFormed start.store
unfolding new
start_store = record { distinct = new-IsWellFormed.distinct; logs = new-IsWellFormed.logs }

is_ok : after ≡ (after.0, ok (record opened { id = "01"; seq = 1 }))
unfolding publish new check ingest save fan_out Store.new validate_topic parse_object_type
    Store.append lookup
is_ok = refl

abbrev reducers : Registry
reducers = register new_registry (last_type ∷ [])

abbrev empty_ingest : Ingest Store
empty_ingest = Sections.Run.start reducers (pos 0)

abbrev appended_one : Ingest Store
appended_one = section memory empty_ingest (appends env opened)

abbrev reduced_one : Ingest Store
reduced_one = section memory (section memory appended_one (deletes "job/b")) reduces

stage_after_append :
    appended_one.stage ≡ Sections.appended (record opened { id = "01"; seq = 1 }) "pr"
unfolding section check validate_topic parse_object_type Store.append Store.new lookup
stage_after_append = refl

-- The archiver deletes another topic while the publish is between its calls.
sections-Reach : Reach reducers (pos 0) (section memory reduced_one (saves env))
sections-Reach =
    next
      (next
        (next (next here (appends env opened) refl) (deletes "job/b") (rw stage_after_append refl))
        reduces refl)
      (saves env) refl

Reach-IsFoldedAt_example :
    IsWellFormed (section memory reduced_one (saves env)).store
    × ((t : String)
        → is_between (section memory reduced_one (saves env)).stage t ≡ false
        → IsFoldedAt reducers (section memory reduced_one (saves env)).store t)
Reach-IsFoldedAt_example =
    Reach-IsFoldedAt reducers (pos 0) (section memory reduced_one (saves env)) sections-Reach

-- The delete of the very topic between `Append` and `SetState`: a state is saved, and the log is
-- empty.
torn :
    let s =
      (section memory
        (section memory (section memory appended_one (deletes "pr/o/r/1")) reduces)
        (saves env)).store in
    (Store.get_state s "pr/o/r/1" ≡ ok (some "pr_opened")) × (events_of s "pr/o/r/1" ≡ [])
unfolding section check validate_topic parse_object_type Store.append Store.new lookup insert
    Store.delete_topic remove Store.set_state Store.get_state Computed.apply register new_registry
torn = (refl, refl)

publish-IsAccepted_example :
    IsAccepted memory IsWellFormed events_of memory-IsStore start after.0 env opened
      (record opened { id = "01"; seq = 1 })
publish-IsAccepted_example =
    publish-IsAccepted memory IsWellFormed events_of memory-IsStore start after.0 env opened
      (record opened { id = "01"; seq = 1 }) "http" start_store is_ok

start-IsFolded : IsFolded memory IsWellFormed events_of memory-IsStore start
unfolding new Store.new lookup Store.get_state
start-IsFolded = record { same = λ t. refl }

publish-IsFolded_example : IsFolded memory IsWellFormed events_of memory-IsStore after.0
publish-IsFolded_example =
    publish-IsFolded memory IsWellFormed events_of memory-IsStore start after.0 env opened
      (record opened { id = "01"; seq = 1 }) "http" start_store start-IsFolded is_ok

start-IsConsistent : IsConsistent start
unfolding publish_all
start-IsConsistent = publish_all-IsConsistent (register new_registry (last_type ∷ [])) (pos 0) []

abbrev one : List (Env × Event × String)
one = (env, opened, "http") ∷ []

logged : length (events_of (at_end start "pr/o/r/1" 1 one one).store "pr/o/r/1") ≡ 2
unfolding publish_all publish new check ingest save fan_out Store.new validate_topic
    parse_object_type Store.append lookup attach start_from backfill Store.upsert_meta
    Store.get_state Store.set_state insert Computed.apply register new_registry Hub.new
    Hub.subscribe Hub.publish
logged = refl

subscribe_gapless_example :
    (back : List Event) × (fence : ℕ) × (sub : Subscription) × ((started start "pr/o/r/1" 1 one
        one).1
      ≡ ok ((attach memory start "pr/o/r/1").1, back, fence))
    × ((at_end start "pr/o/r/1" 1 one one).hub.objects (attach memory start "pr/o/r/1").1
        ≡ some sub)
    × (sub.topic ≡ "pr/o/r/1")
    × (map plain (seen fence back sub.queue)
        ≡ map plain (
            filter
              (λ e. leb 1 e.seq)
              (events_of (at_end start "pr/o/r/1" 1 one one).store "pr/o/r/1")))
unfolding new Store.new Hub.new lookup
subscribe_gapless_example =
    subscribe_gapless start "pr/o/r/1" 1 one one start-IsConsistent (omega arith) (omega arith)
      (omega (arith, logged))

-- A codec that writes one state only, here the state of a deployment after its first event.
ℤ-discrete : Discrete ℤ
ℤ-discrete = hlevel ℕ_discrete

String-discrete : Discrete String
String-discrete s t = elim (Bool-cases (s =ₛ t)) [
  | inl same ↦ yes (ground (arith, eq_iff s t))
  | inr other ↦ no (λ (e : s ≡ t). ground (arith, eq_iff s t))
]

DeployState-discrete : Discrete DeployState
DeployState-discrete = hlevel (ℤ-discrete, String-discrete)

abbrev begun : Event
begun = event_of "deploy/prod/api" "deploy_started" (("version", str "v2") ∷ []) 7

abbrev deploying : DeployState
deploying = Deploy.step Deploy.initial begun

abbrev one_text : (s : DeployState) → Dec (s ≡ deploying) → Option String
one_text s (yes p) = some "v2"
one_text s (no q) = none

one_text_lem :
    (s : DeployState) (d : Dec (s ≡ deploying)) (t : String)
    → one_text s d ≡ some t
    → (◌≡◌ {A = DeployState × Bool} (deploying, true) (s, true)) × (t ≢ "")
one_text_lem s (yes p) t h =
    let text : Option.some "v2" ≡ some t = h in (ap (λ x. (x, true)) (sym p), λ empty. cc)
one_text_lem s (no q) t h = cc

abbrev single : Codec DeployState
single = record {
  marshal = λ s. one_text s (DeployState-discrete s deploying);
  unmarshal = λ t. (deploying, true);
  round_trip = λ s t h. one_text_lem s (DeployState-discrete s deploying) t h;
}

one_text_at : (d : Dec (deploying ≡ deploying)) → one_text deploying d ≡ some "v2"
one_text_at (yes p) = refl
one_text_at (no q) = absurd (q refl)

named : parse_object_type "deploy/prod/api" ≡ some "deploy"
unfolding parse_object_type
named = refl

fold_log-Encodes_example :
    Encodes single Deploy.step Deploy.initial
      (fold_log (register new_registry (Deploy.reducer single ∷ [])) none (begun ∷ []))
      (fold_typed single Deploy.step Deploy.initial Deploy.initial (begun ∷ []))
unfolding Deploy.reducer
fold_log-Encodes_example =
    fold_log-Encodes single Deploy.step Deploy.initial (Deploy.reducer single ∷ []) "deploy" none
      Deploy.initial (begun ∷ []) refl (named, tt)
      (("v2", one_text_at (DeployState-discrete deploying deploying)), tt) refl
