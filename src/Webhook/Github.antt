-- ===== src/Webhook/Github.antt =====
-- internal/webhook/github/github.go: the plugin for GitHub. HMAC-SHA256 with its hexadecimal
-- encoding and the JSON decoder are arguments. A character of a body stands for a byte.
pub mod Verified
pub mod Topics
pub mod Checked
pub mod Effects
mod Tests
use Prim.Native.String.{[], ◌∷◌, ◌++◌}
use event_watch.Base.{
  ℕ, zero, suc, String, Bool, true, false, ◌||◌, Option, none, some, is_some, List, [], ◌∷◌, ◌==◌,
  ◌=ₛ◌, if◌then◌else◌, pos,
}
use event_watch.Base.Decimal.{show_int64}
use event_watch.Core.{
  Event, Payload, Value, str, Error, bad_json, missing_signature, signature_mismatch,
  missing_repository, missing_number, Result, ok, err,
}
use event_watch.Core.Topic.{cut_slash}
use event_watch.Transport.Http.{Plugin}
use event_watch.Webhook.Json.{
  Json, Items, nil, cons, Fields, get, as_object, as_text, as_number, as_array, as_bool, or_empty,
  or_zero,
}

-- What the plugin reads of a request: two headers, and the body, as what is left of it to read or
-- the error of reading it.
pub record Request : Type 0 where
  pub signature : String
  pub event : String
  pub body : Result String

-- 5 << 20.
abbrev pub body_limit : ℕ
body_limit = 5242880

unfoldable pub take_text : ℕ → String → String
take_text zero s = []
take_text (suc n) [] = []
take_text (suc n) (c ∷ s) = c ∷ take_text n s

unfoldable pub drop_text : ℕ → String → String
drop_text zero s = s
drop_text (suc n) [] = []
drop_text (suc n) (c ∷ s) = drop_text n s

-- `io.ReadAll(io.LimitReader(r.Body, 5<<20))`, and the request that it leaves: what was read is gone
-- from the body.
unfoldable pub read_body : Request → Result String × Request
unfolding take_text drop_text
read_body r = elim r.body [
  | err x ↦ (err x, r)
  | ok s ↦ (ok (take_text body_limit s), record r { body = ok (drop_text body_limit s) })
]

-- The error, and the request as it is left: the body that was read is put back.
unfoldable pub verify : (String → String → String) → String → Request → Option Error × Request
unfolding read_body
verify hmac secret r =
    if secret =ₛ ""
    then (none, r)
    else if r.signature =ₛ ""
    then (some missing_signature, r)
    else (let (read, r') = read_body r in
        elim read [
          | err x ↦ (some x, r')
          | ok body ↦ (
            if ("sha256=" ++ hmac secret body) =ₛ r'.signature
                then none
                else some signature_mismatch,
            record r' { body = ok body },
          )
        ])

abbrev pub string_field : Option Fields → String → String
string_field m k = or_empty (as_text (get m k))

abbrev pub owner_login : Option Fields → String → String × String
owner_login owner name = elim (as_text (get owner "login")) [
  | none ↦ ("", name)
  | some l ↦ (l, name)
]

-- The first slash of `full_name` splits it; without one, `owner.login` and `name` are read.
unfoldable pub repo_from : Option Fields → String × String
unfolding cut_slash get
repo_from raw = elim (as_object (get raw "repository")) [
  | none ↦ ("", "")
  | some m ↦
      let parts : String × String =
        owner_login (as_object (get (some m) "owner")) (string_field (some m) "name") in
      elim (as_text (get (some m) "full_name")) [
        | none ↦ parts
        | some v ↦ elim (cut_slash v) [ none ↦ parts | some halves ↦ halves ]
      ]
]

abbrev pub pr_number_from : Option Fields → String → ℕ
pr_number_from raw key = or_zero (as_number (get (as_object (get raw key)) "number"))

unfoldable pub topic_for : String → String → ℕ → String
topic_for owner repo num = "pr" ++ ("/" ∷ (owner ++ ("/" ∷ (repo ++ ("/" ∷ show_int64 num)))))

abbrev pub event_of : String → String → String → Payload → Event
event_of topic type actor payload = record {
  id = "";
  topic = topic;
  type = type;
  seq = 0;
  occurred_at = pos 0;
  actor = actor;
  payload = payload;
  state = none;
}

-- The `switch action` of `prEvent`.
unfoldable pub pr_action : String → Option Fields → Option Fields → String → String → List Event
unfolding get
pr_action action raw pr topic actor =
    if action =ₛ "opened" || action =ₛ "reopened"
    then event_of topic "pr_opened" actor (
        ("title", str (string_field pr "title"))
        ∷ ("author", str (string_field (as_object (get pr "user")) "login"))
        ∷ ("base", str (string_field (as_object (get pr "base")) "ref"))
        ∷ ("head", str (string_field (as_object (get pr "head")) "sha"))
        ∷ [])
      ∷ []
    else if action =ₛ "synchronize"
    then event_of topic "pr_sync" actor
        (("head", str (string_field (as_object (get pr "head")) "sha")) ∷ [])
      ∷ []
    else if action =ₛ "review_requested"
    then event_of topic "pr_review_requested" actor
        (("reviewer", str (string_field (as_object (get raw "requested_reviewer")) "login")) ∷ [])
      ∷ []
    else if action =ₛ "labeled"
    then event_of topic "pr_labeled" actor
        (("label", str (string_field (as_object (get raw "label")) "name")) ∷ [])
      ∷ []
    else if action =ₛ "unlabeled"
    then event_of topic "pr_unlabeled" actor
        (("label", str (string_field (as_object (get raw "label")) "name")) ∷ [])
      ∷ []
    else if action =ₛ "closed"
    then event_of topic (if as_bool (get pr "merged") then "pr_merged" else "pr_closed") actor []
      ∷ []
    else []

unfoldable pub pr_event : Option Fields → String → String → Result (List Event)
pr_event raw owner repo =
    let num = pr_number_from raw "pull_request" in
    if num == 0
    then err missing_number
    else ok (
        pr_action (string_field raw "action") raw (as_object (get raw "pull_request"))
          (topic_for owner repo num) (string_field (as_object (get raw "sender")) "login"))

unfoldable pub pr_review_event : Option Fields → String → String → List Event
unfolding get
pr_review_event raw owner repo =
    let num = pr_number_from raw "pull_request" in
    if string_field raw "action" =ₛ "submitted"
    then (if num == 0
        then []
        else event_of (topic_for owner repo num) "pr_reviewed"
            (string_field (as_object (get raw "sender")) "login")
            (("state", str (string_field (as_object (get raw "review")) "state")) ∷ [])
          ∷ [])
    else []

-- Only the comments on an issue that is a pull request.
unfoldable pub issue_comment_event : Option Fields → String → String → List Event
unfolding get
issue_comment_event raw owner repo =
    let issue = as_object (get raw "issue") in
    if string_field raw "action" =ₛ "created"
    then (if is_some (get issue "pull_request")
        then event_of (topic_for owner repo (or_zero (as_number (get issue "number"))))
            "pr_commented" (string_field (as_object (get raw "sender")) "login") []
          ∷ []
        else [])
    else []

-- The loop over the pull requests of a check run.
unfoldable pub check_run_events : Option Fields → String → String → Items → List Event
unfolding get
check_run_events cr owner repo nil = []
check_run_events cr owner repo (cons x xs) =
    let rest = check_run_events cr owner repo xs in
    let num = or_zero (as_number (get (as_object (some x)) "number")) in
    if num == 0
    then rest
    else event_of (topic_for owner repo num) "check_run_completed" "" (
        ("conclusion", str (string_field cr "conclusion"))
        ∷ ("name", str (string_field cr "name"))
        ∷ [])
      ∷ rest

unfoldable pub check_run_event : Option Fields → String → String → List Event
unfolding check_run_events
check_run_event raw owner repo =
    let cr = as_object (get raw "check_run") in
    if string_field raw "action" =ₛ "completed"
    then check_run_events cr owner repo (as_array (get cr "pull_requests"))
    else []

-- The `switch event`, after the repository is known.
unfoldable pub events_for : String → Option Fields → String → String → Result (List Event)
events_for event raw owner repo =
    if event =ₛ "pull_request"
    then pr_event raw owner repo
    else if event =ₛ "pull_request_review"
    then ok (pr_review_event raw owner repo)
    else if event =ₛ "issue_comment"
    then ok (issue_comment_event raw owner repo)
    else if event =ₛ "check_run"
    then ok (check_run_event raw owner repo)
    else ok []

-- `unmarshal` gives the map, `some none` where it is nil, or none where it fails.
unfoldable pub transform_bytes :
    (String → Option (Option Fields)) → String → String → Result (List Event)
transform_bytes unmarshal event body = elim (unmarshal body) [
  | none ↦ err bad_json
  | some raw ↦
      let (owner, repo) = repo_from raw in
      if owner =ₛ "" || repo =ₛ "" then err missing_repository else events_for event raw owner repo
]

unfoldable pub transform : (String → Option (Option Fields)) → Request → Result (List Event)
transform unmarshal r = elim (read_body r).0 [
  | err x ↦ err x
  | ok body ↦ transform_bytes unmarshal r.event body
]

-- The plugin at one request, called in the handler's order.
unfoldable pub plugin :
    (String → String → String) → (String → Option (Option Fields)) → String → Request → Plugin
plugin hmac unmarshal secret r =
    let (e, r') = verify hmac secret r in record { verify = e; transform = transform unmarshal r' }
