-- ===== src/Transport/Http/Laws.antt =====
-- What the handlers answer.
use event_watch.Base.{
  ℕ, ℤ, zero, suc, ◌≤◌, ◌≡◌, refl, String, List, [], ◌∷◌, ◌++◌, take, filter, leb, ltb, arith,
  if◌then◌else◌, All, inl, inr, ◌⊎◌,
}
use event_watch.Core.{Event, ok, err, Error}
use event_watch.Store.{Store, events_of}
use event_watch.StoreApi.{StoreApi, Env}
use event_watch.Broker.{Broker, publish, publish_all}
use event_watch.Broker
use event_watch.Broker.Publish.{Result-cases}
use event_watch.Transport.Ws.{of_error}
use event_watch.Transport.Http.{
  http_error, accepted, poll_body, with_time, publish_each, clamp_wait, PollStep, responds, waits,
}

-- The publishes that a webhook's events ask for.
abbrev pub asked : (ℕ → Env) → List Event → List (Env × Event × String)
asked envs [] = []
asked envs (e ∷ es) = (envs 0, with_time e (envs 0).now, "webhook") ∷ asked (λ i. envs (suc i)) es

module _ {S : Type 0} (api : StoreApi S) where
  -- The broker accepts all of some publishes, one after another.
  abbrev pub AllAccepted : Broker S → List (Env × Event × String) → Type 0
  AllAccepted b [] = Unit
  AllAccepted b ((env, e, source) ∷ qs) =
      ((e' : Event) × ((publish api b env e source).1 ≡ ok e'))
      × AllAccepted (publish api b env e source).0 qs

  -- The broker accepts the first `k` of some publishes and refuses the next with an error.
  abbrev pub RefusedAt : Broker S → List (Env × Event × String) → ℕ → Error → Type 0
  RefusedAt b [] k x = ⊥
  RefusedAt b ((env, e, source) ∷ qs) zero x = (publish api b env e source).1 ≡ err x
  RefusedAt b ((env, e, source) ∷ qs) (suc k) x =
      ((e' : Event) × ((publish api b env e source).1 ≡ ok e'))
      × RefusedAt (publish api b env e source).0 qs k x

  -- A webhook hands the broker the events of its plugin in order. If the broker accepts all of them,
  -- it answers with status 202. Else it stops at the first that the broker refuses, hands it none of
  -- the later ones, and answers with that refusal and status 400.
  pub publish_each_prefix :
      (b : Broker S) (envs : ℕ → Env) (es : List Event)
      → (AllAccepted b (asked envs es)
          × (publish_each api b envs es ≡ (publish_all api b (asked envs es), accepted)))
        ⊎ ((k : ℕ) × (x : Error) × RefusedAt b (asked envs es) k x
            × (publish_each api b envs es
                ≡ (publish_all api b (take (suc k) (asked envs es)), http_error (of_error x) 400)))
  unfolding publish_each publish_all
  publish_each_prefix b envs [] = inl (tt, refl)
  publish_each_prefix b envs (e ∷ es) =
      let first = publish api b (envs 0) (with_time e (envs 0).now) "webhook" in
      elim (Result-cases first.1) [
        | inl (x, refusal) ↦ inr (0, x, refusal, rw (refusal, publish_each) refl)
        | inr (e', done) ↦ elim (publish_each_prefix first.0 (λ i. envs (suc i)) es) [
          | inl (all, same) ↦ inl (((e', done), all), rw (done, publish_each) same)
          | inr (k, x, stop, same) ↦
              inr (suc k, x, ((e', done), stop), rw (done, publish_each) same)
        ]
      ]

abbrev pub IsAtMost : ℕ → Event → Type 0
IsAtMost m e = e.seq ≤ m

All-weaken : (m n : ℕ) (es : List Event) → m ≤ n → All (IsAtMost m) es → All (IsAtMost n) es
All-weaken m n [] l h = tt
All-weaken m n (e ∷ es) l (p, h) = (omega arith, All-weaken m n es l h)

abbrev pub seqs : List Event → List ℕ
seqs [] = []
seqs (e ∷ es) = e.seq ∷ seqs es

abbrev pub IsFrom : ℕ → Event → Type 0
IsFrom from e = from ≤ e.seq

filter-IsFrom : (from : ℕ) (es : List Event) → All (IsFrom from) (filter (λ e. leb from e.seq) es)
filter-IsFrom from [] = tt
filter-IsFrom from (e ∷ es) = ground (arith, filter-IsFrom from es)

-- The events of some topics from a seq on, topic after topic.
abbrev pub events_from : Store → List String → ℕ → List Event
events_from s [] from = []
events_from s (t ∷ ts) from = filter (λ e. leb from e.seq) (events_of s t) ++ events_from s ts from

abbrev if_none : ℤ → PollStep
if_none w = if ltb 0 (clamp_wait w) then waits (clamp_wait w) else responds (poll_body [] 0)
