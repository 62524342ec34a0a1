-- ===== src/Objtypes/Deploy.antt =====
-- internal/objtypes/deploy.go: deployments of a service.
pub mod Laws
use event_watch.Base.{String, Bool, true, false, ◌||◌, List, [], ◌∷◌, ◌=ₛ◌, if◌then◌else◌, pos}
use event_watch.Core.{Event, Payload, Time}
use event_watch.Computed.{Reducer}
use event_watch.Objtypes.Codec.{Codec, apply_strict, get_str, set_if_given}

pub record DeployState : Type 0 where
  pub env : String
  pub service : String
  pub current_version : String
  pub previous_version : String
  pub health : String
  pub in_progress : Bool
  pub last_deploy_at : Time
  pub last_success_at : Time

unfoldable pub initial : DeployState
initial = record {
  env = "";
  service = "";
  current_version = "";
  previous_version = "";
  health = "";
  in_progress = false;
  last_deploy_at = pos 0;
  last_success_at = pos 0;
}

-- The cases of `switch e.Type`.
pub data DeployEvent : Type 0 where
  deploy_started health_check_pass health_check_fail rollback deploy_finished unknown : DeployEvent

unfoldable pub deploy_event : String → DeployEvent
deploy_event t =
    if t =ₛ "deploy_started"
    then deploy_started
    else if t =ₛ "health_check_pass"
    then health_check_pass
    else if t =ₛ "health_check_fail"
    then health_check_fail
    else if t =ₛ "rollback"
    then rollback
    else if t =ₛ "deploy_finished"
    then deploy_finished
    else unknown

abbrev with_version : DeployState → String → DeployState
with_version s v =
    if v =ₛ "" then s else record s { previous_version = s.current_version; current_version = v }

unfoldable pub on_event : DeployEvent → DeployState → Payload → Time → DeployState
on_event deploy_started s p at =
    let t =
      with_version (record s { in_progress = true; last_deploy_at = at }) (get_str p "version") in
    record t {
      env = set_if_given t.env (get_str p "env");
      service = set_if_given t.service (get_str p "service");
    }
on_event health_check_pass s p at = record s { health = "healthy" }
on_event health_check_fail s p at = record s {
  health = if s.health =ₛ "healthy" then "degraded" else "down";
}
on_event rollback s p at = record s {
  in_progress = false;
  current_version = set_if_given s.previous_version (get_str p "to");
  previous_version = s.current_version;
}
on_event deploy_finished s p at =
    if get_str p "status" =ₛ "success" || get_str p "status" =ₛ ""
    then record s {
      in_progress = false;
      last_success_at = at;
      health = if s.health =ₛ "" || s.health =ₛ "unknown" then "healthy" else s.health;
    }
    else record s { in_progress = false }
on_event unknown s p at = s

-- Before any event the health of a deployment is unknown.
abbrev pub opened : DeployState → DeployState
opened s = record s { health = if s.health =ₛ "" then "unknown" else s.health }

-- The body of `Apply` between decoding and encoding.
unfoldable pub step : DeployState → Event → DeployState
step s e = on_event (deploy_event e.type) (opened s) e.payload e.occurred_at

unfoldable pub reducer : Codec DeployState → Reducer
reducer c = record { object_type = "deploy"; apply = apply_strict c step initial }
