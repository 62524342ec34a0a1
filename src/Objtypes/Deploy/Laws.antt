-- ===== src/Objtypes/Deploy/Laws.antt =====
-- Rollbacks and the health of a deployment.
use event_watch.Base.{
  ◌≡◌, ◌≢◌, refl, ap, String, false, ◌⊎◌, inl, inr, List, [], ◌∷◌, arith, eq_iff,
}
use event_watch.Core.{Event, Payload, Time}
use event_watch.Objtypes.Codec.{get_str}
use event_watch.Objtypes.Deploy.{
  DeployState, DeployEvent, deploy_started, health_check_pass, rollback, deploy_event, on_event,
  opened, step, initial,
}

deploy_event-rollback : (t : String) → t ≡ "rollback" → deploy_event t ≡ rollback
unfolding deploy_event
deploy_event-rollback t e = rw e refl

deploy_event-started : (t : String) → t ≡ "deploy_started" → deploy_event t ≡ deploy_started
unfolding deploy_event
deploy_event-started t e = rw e refl

step-rollback :
    (s : DeployState) (e : Event)
    → e.type ≡ "rollback"
    → step s e ≡ on_event rollback (opened s) e.payload e.occurred_at
unfolding step
step-rollback s e h =
    ap (λ k. on_event k (opened s) e.payload e.occurred_at) (deploy_event-rollback e.type h)

step-started :
    (s : DeployState) (e : Event)
    → e.type ≡ "deploy_started"
    → step s e ≡ on_event deploy_started (opened s) e.payload e.occurred_at
unfolding step
step-started s e h =
    ap (λ k. on_event k (opened s) e.payload e.occurred_at) (deploy_event-started e.type h)

-- A rollback with no target undoes the versions of the start of a deployment of a given version:
-- the version from before it is current again, the abandoned one is the previous one, and nothing
-- is in progress; and a second such rollback swaps them back.
pub rollback_undoes :
    (s : DeployState) (start back again : Event)
    → start.type ≡ "deploy_started"
    → get_str start.payload "version" ≢ ""
    → back.type ≡ "rollback"
    → get_str back.payload "to" ≡ ""
    → again.type ≡ "rollback"
    → get_str again.payload "to" ≡ ""
    → let t = step (step s start) back in
      let u = step t again in
      (t.current_version ≡ s.current_version)
      × (t.previous_version ≡ get_str start.payload "version")
      × (t.in_progress ≡ false)
      × (u.current_version ≡ get_str start.payload "version")
      × (u.previous_version ≡ s.current_version)
unfolding on_event
rollback_undoes s start back again hs v hb nb ha na = ground (
  arith,
  step-started s start hs,
  step-rollback (step s start) back hb,
  step-rollback (step (step s start) back) again ha,
  eq_iff (get_str start.payload "version") "",
  eq_iff (get_str back.payload "to") "",
  eq_iff (get_str again.payload "to") "",
)

abbrev pub IsHealth : String → Type 0
IsHealth h = (h ≡ "") ⊎ ((h ≡ "unknown") ⊎ ((h ≡ "healthy") ⊎ ((h ≡ "degraded") ⊎ (h ≡ "down"))))

on_event-IsHealth :
    (k : DeployEvent) (s : DeployState) (p : Payload) (at : Time)
    → IsHealth s.health
    → IsHealth (on_event k s p at).health
unfolding on_event
on_event-IsHealth health_check_pass s p at h = inr (inr (inl refl))
on_event-IsHealth k s p at h = ground arith

unfoldable pub run : DeployState → List Event → DeployState
run s [] = s
run s (e ∷ es) = run (step s e) es

opened-IsHealth : (s : DeployState) → IsHealth s.health → IsHealth (opened s).health
opened-IsHealth s h = ground arith

step-IsHealth : (s : DeployState) (e : Event) → IsHealth s.health → IsHealth (step s e).health
unfolding step
step-IsHealth s e h =
    on_event-IsHealth (deploy_event e.type) (opened s) e.payload e.occurred_at (opened-IsHealth s h)

run-IsHealth' : (s : DeployState) (es : List Event) → IsHealth s.health → IsHealth (run s es).health
unfolding run
run-IsHealth' s [] h = h
run-IsHealth' s (e ∷ es) h = run-IsHealth' (step s e) es (step-IsHealth s e h)

-- After any events from the start, the health is empty or one of the four documented words
-- `healthy`, `degraded`, `down` and `unknown`.
pub run-IsHealth : (es : List Event) → IsHealth (run initial es).health
unfolding initial
run-IsHealth es = run-IsHealth' initial es (inl refl)
