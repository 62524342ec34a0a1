-- ===== src/Webhook/Github/Effects.antt =====
-- A pull request's state after the events that GitHub's plugin makes of a `pull_request` webhook.
use event_watch.Base.{
  ◌≡◌, ◌≢◌, refl, String, Bool, true, false, Option, List, [], ◌=ₛ◌, ◌||◌, map, if◌then◌else◌,
  eq_iff, arith, Bool-cases, inl, inr, lookup,
}
use event_watch.Core.{Event, Time, Payload, ok}
use event_watch.Objtypes.Codec.{get_str, set_if_given}
use event_watch.Objtypes.Sets.{add_unique, remove_string}
use event_watch.Objtypes.Pr.{PrState, opened, step, on_event}
use event_watch.Objtypes.Pr as Pr
use event_watch.Objtypes.Pr.Laws.{run}
use event_watch.Transport.Http.{with_time}
use event_watch.Webhook.Json.{Fields, get, as_object, as_bool}
use event_watch.Webhook.Github.{
  string_field, pr_action, pr_event, event_of, events_for, topic_for, pr_number_from,
}

-- The time is noted, and a state that is missing becomes open.
abbrev pub noted : PrState → Time → PrState
noted s now = record s { state = if s.state =ₛ "" then "open" else s.state; updated_at = now }

abbrev pub with_given : List String → String → List String
with_given xs v = if v =ₛ "" then xs else add_unique xs v

abbrev pub without_given : List String → String → List String
without_given xs v = if v =ₛ "" then xs else remove_string xs v

-- What a webhook with an action means for the state of its pull request.
abbrev pub delivered : String → Option Fields → Option Fields → PrState → Time → PrState
delivered action raw pr s now =
    if action =ₛ "opened" || action =ₛ "reopened"
    then record (noted s now) {
      title = set_if_given s.title (string_field pr "title");
      author = set_if_given s.author (string_field (as_object (get pr "user")) "login");
      base = set_if_given s.base (string_field (as_object (get pr "base")) "ref");
      head = set_if_given s.head (string_field (as_object (get pr "head")) "sha");
      state = "open";
    }
    else if action =ₛ "synchronize"
    then record (noted s now) {
      head = set_if_given s.head (string_field (as_object (get pr "head")) "sha");
    }
    else if action =ₛ "review_requested"
    then record (noted s now) {
      reviewers =
          with_given s.reviewers (string_field (as_object (get raw "requested_reviewer")) "login");
    }
    else if action =ₛ "labeled"
    then record (noted s now) {
      labels = with_given s.labels (string_field (as_object (get raw "label")) "name");
    }
    else if action =ₛ "unlabeled"
    then record (noted s now) {
      labels = without_given s.labels (string_field (as_object (get raw "label")) "name");
    }
    else if action =ₛ "closed"
    then if as_bool (get pr "merged")
      then record (noted s now) { state = "merged"; merged_at = now }
      else record (noted s now) {
        state = if (noted s now).state =ₛ "merged" then "merged" else "closed";
      }
    else s

abbrev pub stamped : Time → List Event → List Event
stamped now es = map (λ e. with_time e now) es

module _ (topic actor : String) (s : PrState) (now : Time) where
  -- The state after one event.
  abbrev after : String → Payload → PrState
  after type p = step s (with_time (event_of topic type actor p) now)

  after_closed :
      (merged : Bool)
      → after (if merged then "pr_merged" else "pr_closed") [] ≡ (
          if merged
          then record (noted s now) { state = "merged"; merged_at = now }
          else record (noted s now) {
            state = if (noted s now).state =ₛ "merged" then "merged" else "closed";
          })
  unfolding step Pr.pr_event on_event with_time
  after_closed true = refl
  after_closed false = ground (arith, eq_iff (noted s now).state "merged")

  pr_action-delivered :
      (action : String) (raw pr : Option Fields)
      → run s (stamped now (pr_action action raw pr topic actor)) ≡ delivered action raw pr s now
  unfolding run pr_action step Pr.pr_event on_event with_time get_str lookup
  pr_action-delivered action raw pr =
      elim (Bool-cases (action =ₛ "opened" || action =ₛ "reopened")) [
        | inl e ↦ rw e refl
        | inr n1 ↦ elim (Bool-cases (action =ₛ "synchronize")) [
          | inl e ↦ rw (n1, e) refl
          | inr n2 ↦ elim (Bool-cases (action =ₛ "review_requested")) [
            | inl e ↦ rw (n1, n2, e) refl
            | inr n3 ↦ elim (Bool-cases (action =ₛ "labeled")) [
              | inl e ↦ rw (n1, n2, n3, e) refl
              | inr n4 ↦ elim (Bool-cases (action =ₛ "unlabeled")) [
                | inl e ↦ rw (n1, n2, n3, n4, e) refl
                | inr n5 ↦ elim (Bool-cases (action =ₛ "closed")) [
                  | inl e ↦ rw (n1, n2, n3, n4, n5, e) (after_closed (as_bool (get pr "merged")))
                  | inr n6 ↦ rw (n1, n2, n3, n4, n5, n6) refl
                ]
              ]
            ]
          ]
        ]
      ]

-- A `pull_request` webhook with a number becomes events after which the reducer's state is what the
-- action means, whatever the state was: opened and reopened, new commits, a review request, labels,
-- a merge and a close; any other action becomes no event. The keys of the payloads are those that
-- the reducer reads.
pub pull_request_delivered :
    (raw : Option Fields) (owner repo : String) (s : PrState) (now : Time)
    → pr_number_from raw "pull_request" ≢ 0
    → (es : List Event) × (events_for "pull_request" raw owner repo ≡ ok es)
      × (run s (stamped now es)
          ≡ delivered (string_field raw "action") raw (as_object (get raw "pull_request")) s now)
unfolding events_for pr_event
pull_request_delivered raw owner repo s now numbered =
    let topic = topic_for owner repo (pr_number_from raw "pull_request") in
    let actor = string_field (as_object (get raw "sender")) "login" in
    let pr = as_object (get raw "pull_request") in
    (
      pr_action (string_field raw "action") raw pr topic actor,
      ground arith,
      pr_action-delivered topic actor s now (string_field raw "action") raw pr,
    )
