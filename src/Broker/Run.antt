-- ===== src/Broker/Run.antt =====
-- A server with the in-memory store, from its start through any publishes.
use event_watch.Base.{◌≡◌, refl, sym, ap, subst, String, List, [], ◌∷◌, ℤ, lookup}
use event_watch.Core.{Event, Result, ok}
use event_watch.Computed.{Registry}
use event_watch.Hub
use event_watch.Hub.Invariant as HubInvariant
use event_watch.Store
use event_watch.Store.{Store, events_of}
use event_watch.Store.Log.{IsWellFormed, new-IsWellFormed}
use event_watch.StoreApi.{Env}
use event_watch.StoreApi.Memory.{memory, memory-IsStore}
use event_watch.Broker.{Broker, new, publish, publish_all}
use event_watch.Broker.Publish.{Published, refused, failed, accepted, publish-Published}
use event_watch.Broker.Accepted.{publish-IsAccepted}
use event_watch.Broker.Fold.{IsFolded, publish-IsFolded}

pub record IsConsistent (b : Broker Store) : Type 0 where
  pub store_ok : IsWellFormed b.store
  pub hub_ok : HubInvariant.IsWellFormed b.hub
  pub folded : IsFolded memory IsWellFormed events_of memory-IsStore b

pub new-IsConsistent :
    (reducers : Registry) (ttl : ℤ) → IsConsistent (new Store.new Hub.new reducers ttl)
unfolding new Store.new Hub.new Store.get_state lookup
new-IsConsistent reducers ttl = record {
  store_ok = new-IsWellFormed;
  hub_ok =
      let w = HubInvariant.new-IsWellFormed in
      record {
        listed = w.listed;
        distinct = w.distinct;
        kept = w.kept;
        fresh = w.fresh;
        fits = w.fits;
      };
  folded = record { same = λ t. refl };
}

pub publish-IsConsistent :
    (b : Broker Store) (env : Env) (e : Event) (source : String)
    → IsConsistent b
    → Published memory b env e source (publish memory b env e source)
    → IsConsistent (publish memory b env e source).0
publish-IsConsistent b env e source c (refused x h r) = rw r c
publish-IsConsistent b env e source c (failed s x h r) = absurd (cc)
publish-IsConsistent b env e source c (accepted ot s e' h a r) =
    let eq : publish memory b env e source ≡ ((publish memory b env e source).0, ok e') =
      ap (λ (x : Result Event). ((publish memory b env e source).0, x))
        (ap (λ (p : Broker Store × Result Event). p.1) r) in
    let done =
      publish-IsAccepted memory IsWellFormed events_of memory-IsStore b _ env e e' source c.store_ok
        eq in
    record {
      store_ok = done.valid;
      hub_ok =
          subst HubInvariant.IsWellFormed (sym done.fanned)
            (HubInvariant.publish-IsWellFormed b.hub _ c.hub_ok);
      folded =
          publish-IsFolded memory IsWellFormed events_of memory-IsStore b _ env e e' source
            c.store_ok c.folded eq;
    }

pub publish_all-IsConsistent' :
    (b : Broker Store) (ps : List (Env × Event × String))
    → IsConsistent b
    → IsConsistent (publish_all memory b ps)
unfolding publish_all
publish_all-IsConsistent' b [] c = c
publish_all-IsConsistent' b ((env, e, source) ∷ ps) c =
    publish_all-IsConsistent' (publish memory b env e source).0 ps
      (publish-IsConsistent b env e source c (publish-Published memory b env e source))

-- A broker that starts with an empty in-memory store and any reducers, after any publishes, the
-- refused ones among them: the logs are numbered from 1, the hub is well-formed, and the state of
-- every topic is the fold of the reducers over the topic's log.
pub publish_all-IsConsistent :
    (reducers : Registry) (ttl : ℤ) (ps : List (Env × Event × String))
    → IsConsistent (publish_all memory (new Store.new Hub.new reducers ttl) ps)
publish_all-IsConsistent reducers ttl ps =
    publish_all-IsConsistent' (new Store.new Hub.new reducers ttl) ps
      (new-IsConsistent reducers ttl)
