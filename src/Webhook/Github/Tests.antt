-- ===== src/Webhook/Github/Tests.antt =====
-- GitHub's plugin at concrete webhooks.
use Prim.Native.String.{◌++◌}
use event_watch.Base.{
  ℕ, ◌≡◌, ◌≢◌, refl, String, true, Option, none, some, List, [], ◌∷◌, ◌=ₛ◌, if◌then◌else◌, All,
  arith, pos, eq_iff, lookup,
}
use event_watch.Computed.{new_registry}
use event_watch.Core.{Event, ok, err}
use event_watch.Core.Topic.{cut_slash}
use event_watch.Base.Decimal.{cons-ne-nil, show_int64, show_from}
use event_watch.Hub
use event_watch.Store
use event_watch.Store.{Store}
use event_watch.StoreApi.{Env}
use event_watch.StoreApi.Memory.{memory}
use event_watch.Broker
use event_watch.Broker.{Broker}
use event_watch.Objtypes.Pr
use event_watch.Objtypes.Pr.Laws.{run}
use event_watch.Transport.Http.{Plugins, get_plugin, webhook_handler}
use event_watch.Webhook.Json.{Fields, number, text, boolean, object, end, field, get, as_object}
use event_watch.Webhook.Github.{
  Request, pr_event, pr_action, topic_for, pr_number_from, plugin, repo_from, transform_bytes,
  events_for, string_field,
}
use event_watch.Webhook.Github.Verified.{bytes_read, webhook_signed, publish_result, refused}
use event_watch.Webhook.Github.Checked.{AreNames, IsAcceptable, transform_acceptable}
use event_watch.Webhook.Github.Effects.{pull_request_delivered, delivered, stamped}
use event_watch.Samples.{env}

-- A merge of pull request 7 of octo/app.
abbrev merge : Option Fields
merge = some (
    field "action" (text "closed") (
      field "repository" (object (field "full_name" (text "octo/app") end)) (
        field "sender" (object (field "login" (text "ann") end)) (
          field "pull_request"
            (object (field "number" (number 7) (field "merged" (boolean true) end))) end))))

abbrev hmac : String → String → String
hmac secret body = secret ++ body

abbrev unmarshal : String → Option (Option Fields)
unmarshal body = if body =ₛ "{}" then some merge else none

abbrev request : Request
request = record { signature = "sha256=key{}"; event = "pull_request"; body = ok "{}" }

abbrev plugins : Plugins
plugins = ("github", plugin hmac unmarshal "key" request) ∷ []

abbrev fresh : Broker Store
fresh = Broker.new Store.new Hub.new new_registry (pos 0)

abbrev envs : ℕ → Env
envs i = env

plugins_github : get_plugin plugins "github" ≡ some (plugin hmac unmarshal "key" request)
unfolding get_plugin lookup
plugins_github = refl

key-ne-nil : ◌≢◌ {A = String} "key" ""
key-ne-nil = ground (arith, eq_iff "key" "")

webhook_signed_example :
    webhook_handler memory fresh envs "POST" plugins "github" ≡ elim (bytes_read request) [
      | err x ↦ refused memory fresh
      | ok body ↦
          if ("sha256=" ++ hmac "key" body) =ₛ "sha256=key{}"
          then publish_result memory fresh envs (transform_bytes unmarshal "pull_request" body)
          else refused memory fresh
    ]
webhook_signed_example =
    webhook_signed memory hmac unmarshal "key" request fresh envs plugins "github" key-ne-nil
      plugins_github

abbrev made : List Event
made =
    record {
      id = "";
      topic = "pr/octo/app/7";
      type = "pr_merged";
      seq = 0;
      occurred_at = pos 0;
      actor = "ann";
      payload = [];
      state = none;
    }
    ∷ []

merge_made : transform_bytes unmarshal "pull_request" "{}" ≡ ok made
unfolding transform_bytes repo_from cut_slash get events_for pr_event pr_action topic_for show_int64
    show_from
merge_made = refl

merge_names : AreNames (repo_from merge)
unfolding repo_from cut_slash get
merge_names = record {
  owner_ok = (cons-ne-nil "o" "cto", omega arith);
  repo_ok = (cons-ne-nil "a" "pp", omega arith);
  room = omega arith;
}

transform_acceptable_example : All (IsAcceptable memory (pos 6)) made
transform_acceptable_example =
    transform_acceptable memory (pos 6) unmarshal "pull_request" "{}" merge made refl merge_names
      merge_made

merge_numbered : pr_number_from merge "pull_request" ≢ 0
unfolding get
merge_numbered = omega arith

pull_request_delivered_example :
    (es : List Event) × (events_for "pull_request" merge "octo" "app" ≡ ok es)
    × (run Pr.initial (stamped (pos 6) es)
        ≡ delivered
            (string_field merge "action")
            merge
            (as_object (get merge "pull_request"))
            Pr.initial
            (pos 6))
pull_request_delivered_example =
    pull_request_delivered merge "octo" "app" Pr.initial (pos 6) merge_numbered
