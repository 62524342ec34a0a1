-- ===== src/Broker/Sections/Saved.antt =====
-- The store calls of a publish after its `Append`, with the reducer between them.
use event_watch.Base.{
  ◌≡◌, refl, sym, ap, ◌∙◌, String, true, Option, none, some, ◌=ₛ◌, eq_iff, Bool-cases, inl, inr,
  subst,
}
use event_watch.Core.{Event, RawMessage, Error}
use event_watch.Computed.{Registry}
use event_watch.Computed
use event_watch.Store.{Store, events_of}
use event_watch.StoreApi.{Env}
use event_watch.StoreApi.Memory.{memory, memory-IsStore}
use event_watch.Broker.{or_nil, meta_of}
use event_watch.Broker.Accepted.{kept_state}
use event_watch.Broker.Fold.{fold_log, fold_log-snoc}
use event_watch.Broker.Sections.{
  Ingest, Stage, free, appended, reduced, saved, reduces, saves, upserts, section,
}
use event_watch.Broker.Sections.Folded.{state_of, IsFoldedAt, IsBehind, IsTracked}

pub reduces-IsTracked :
    (i : Ingest Store) (st : Stage)
    → IsTracked (record i { stage = st })
    → IsTracked (section memory (record i { stage = st }) reduces)
unfolding section
reduces-IsTracked i free k = k
reduces-IsTracked i (appended e ot) k = record {
  store_ok = k.store_ok;
  folded = k.folded;
  pending = (k.pending, refl);
}
reduces-IsTracked i (reduced e ot a) k = k
reduces-IsTracked i (saved e ot) k = k

pub upserts-IsTracked :
    (i : Ingest Store) (st : Stage) (env : Env)
    → IsTracked (record i { stage = st })
    → IsTracked (section memory (record i { stage = st }) (upserts env))
unfolding section
upserts-IsTracked i free env k = k
upserts-IsTracked i (appended e ot) env k = k
upserts-IsTracked i (reduced e ot a) env k = k
upserts-IsTracked i (saved e ot) env k =
    let (valid, log, state) =
      memory-IsStore.upsert_meta_ok i.store env (meta_of e.topic ot i.default_ttl) k.store_ok in
    record {
      store_ok = valid;
      folded =
          λ t f. ap or_nil (state t) ∙ k.folded t f ∙ ap (fold_log i.reducers none) (sym (log t));
      pending = tt;
    }

-- What the reducer's answer makes of the state, once it is saved.
caught_up :
    (r : Registry) (s : Store) (e : Event)
    → IsBehind r s e
    → kept_state (state_of s e.topic) (Computed.apply r (state_of s e.topic) e)
      ≡ fold_log r none (events_of s e.topic)
caught_up r s e b =
    ap (λ raw. kept_state raw (Computed.apply r raw e)) b.state
    ∙ sym (fold_log-snoc r none b.before e)
    ∙ ap (fold_log r none) (sym b.log)

same_topic :
    (r : Registry) (s : Store) (t t' : String)
    → t =ₛ t' ≡ true
    → IsFoldedAt r s t
    → IsFoldedAt r s t'
same_topic r s t t' same f = subst (IsFoldedAt r s) ((eq_iff t t').0 same) f

-- An answer that is not saved is one that keeps the state.
unsaved :
    (i : Ingest Store) (e : Event) (ot : String) (a : RawMessage × Option Error)
    → IsTracked (record i { stage = reduced e ot a })
    → kept_state (state_of i.store e.topic) a ≡ state_of i.store e.topic
    → IsTracked (record i { stage = saved e ot })
unsaved i e ot a k kept =
    let (behind, same) = k.pending in
    record {
      store_ok = k.store_ok;
      folded = λ t f. elim (Bool-cases (e.topic =ₛ t)) [
        | inl here ↦ same_topic i.reducers i.store e.topic t here (
            sym kept
            ∙ ap (kept_state (state_of i.store e.topic)) same
            ∙ caught_up i.reducers i.store e behind)
        | inr other ↦ k.folded t other
      ];
      pending = tt;
    }

pub saves-IsTracked :
    (i : Ingest Store) (st : Stage) (env : Env)
    → IsTracked (record i { stage = st })
    → IsTracked (section memory (record i { stage = st }) (saves env))
unfolding section
saves-IsTracked i free env k = k
saves-IsTracked i (appended e ot) env k = k
saves-IsTracked i (reduced e ot (some next, none)) env k =
    let (valid, log, state) =
      memory-IsStore.set_state_ok i.store env e.topic (some next) k.store_ok in
    let (behind, same) = k.pending in
    record {
      store_ok = valid;
      folded = λ t f. elim (Bool-cases (e.topic =ₛ t)) [
        | inl here ↦
            ap or_nil (rw here at (state t))
            ∙ ap (kept_state (state_of i.store e.topic)) same
            ∙ caught_up i.reducers i.store e behind
            ∙ ap (λ u. fold_log i.reducers none (events_of i.store u)) ((eq_iff e.topic t).0 here)
            ∙ ap (fold_log i.reducers none) (sym (log t))
        | inr other ↦
            ap or_nil (rw other at (state t))
            ∙ k.folded t other
            ∙ ap (fold_log i.reducers none) (sym (log t))
      ];
      pending = tt;
    }
saves-IsTracked i (reduced e ot (none, none)) env k = unsaved i e ot (none, none) k refl
saves-IsTracked i (reduced e ot (none, some x)) env k = unsaved i e ot (none, some x) k refl
saves-IsTracked i (reduced e ot (some next, some x)) env k =
    unsaved i e ot (some next, some x) k refl
saves-IsTracked i (saved e ot) env k = k
