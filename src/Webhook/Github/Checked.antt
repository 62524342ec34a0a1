-- ===== src/Webhook/Github/Checked.antt =====
-- What `Publish` checks of the events that GitHub's plugin makes.
use Prim.Native.String.{[], ◌∷◌, ◌++◌, len}
use text.Mathlib.TextLemmas.{nil-append, cons-append, append-ne-nil_of_right_ne-nil}
use event_watch.Base.{
  ℕ, ◌+◌, ◌≤◌, ◌≡◌, ◌≢◌, String, Bool, true, false, Option, some, List, [], ◌∷◌, if◌then◌else◌,
  eq_iff, arith, subst, All,
}
use event_watch.Base.Decimal.{show_int64, cons-ne-nil}
use event_watch.Core.{Event, Payload, str, Time, Result, ok, err}
use event_watch.Core.Topic.{parse_object_type}
use event_watch.Core.Topic.Laws.{IsSegment}
use event_watch.StoreApi.{StoreApi}
use event_watch.Broker.{check}
use event_watch.Transport.Http.{with_time}
use event_watch.Webhook.Json.{
  Fields, Items, nil, cons, get, as_object, as_number, as_array, or_zero, as_bool,
}
use event_watch.Webhook.Github.{
  pr_number_from, topic_for, event_of, pr_action, pr_event, pr_review_event, issue_comment_event,
  check_run_events, check_run_event, events_for, repo_from, transform_bytes, string_field,
}
use event_watch.Webhook.Github.Topics.{topic_for_valid}

parse-pr : (t : String) → t ≢ "" → parse_object_type ("pr" ++ ("/" ∷ t)) ≡ some "pr"
unfolding parse_object_type
parse-pr t h =
    rw (cons-append, cons-append, nil-append) (ground (arith, eq_iff t "", eq_iff "pr" ""))

parse-topic_for :
    (owner repo : String) (n : ℕ) → parse_object_type (topic_for owner repo n) ≡ some "pr"
unfolding topic_for
parse-topic_for owner repo n =
    let rest : String = repo ++ ("/" ∷ show_int64 n) in
    parse-pr (owner ++ ("/" ∷ rest))
      (append-ne-nil_of_right_ne-nil owner {t = "/" ∷ rest} (cons-ne-nil "/" rest))

-- The two names that a topic is made of are segments, and leave room in it for the rest.
pub record AreNames (names : String × String) : Type 0 where
  pub owner_ok : IsSegment names.0
  pub repo_ok : IsSegment names.1
  pub room : len names.0 + len names.1 ≤ 486

module _ {S : Type 0} (api : StoreApi S) (now : Time) where
  -- `Publish` accepts the event that the webhook handler makes of it, for the reducer of `pr`.
  abbrev pub IsAcceptable : Event → Type 0
  IsAcceptable e = check api (with_time e now) ≡ ok "pr"

  abbrev OkAll : Result (List Event) → Type 0
  OkAll (ok es) = All IsAcceptable es
  OkAll (err x) = Unit

  module _ (owner repo : String) (names : AreNames (owner, repo)) where
    one :
        (n : ℕ) (type actor : String) (p : Payload)
        → type ≢ ""
        → IsAcceptable (event_of (topic_for owner repo n) type actor p)
    unfolding with_time check
    one n type actor p typed = ground (
      arith,
      eq_iff type "",
      topic_for_valid owner repo n names.owner_ok names.repo_ok names.room,
      parse-topic_for owner repo n,
    )

    closed-ne-nil :
        (merged : Bool) → ◌≢◌ {A = String} (if merged then "pr_merged" else "pr_closed") ""
    closed-ne-nil true = cons-ne-nil "p" "r_merged"
    closed-ne-nil false = cons-ne-nil "p" "r_closed"

    pr_action-All :
        (action : String) (raw pr : Option Fields) (n : ℕ) (actor : String)
        → All IsAcceptable (pr_action action raw pr (topic_for owner repo n) actor)
    unfolding pr_action
    pr_action-All action raw pr n actor = grind (
      arith,
      one,
      cons-ne-nil "p" "r_opened",
      cons-ne-nil "p" "r_sync",
      cons-ne-nil "p" "r_review_requested",
      cons-ne-nil "p" "r_labeled",
      cons-ne-nil "p" "r_unlabeled",
      closed-ne-nil (as_bool (get pr "merged")),
    )

    check_run_events-All :
        (cr : Option Fields) (xs : Items) → All IsAcceptable (check_run_events cr owner repo xs)
    unfolding check_run_events
    check_run_events-All cr nil = tt
    check_run_events-All cr (cons x xs) =
        let rest = check_run_events-All cr xs in
        let n = or_zero (as_number (get (as_object (some x)) "number")) in
        ground (
          arith,
          rest,
          one n "check_run_completed" ""
              (("conclusion", str (string_field cr "conclusion"))
                ∷ ("name", str (string_field cr "name"))
                ∷ [])
              (cons-ne-nil "c" "heck_run_completed"),
        )

    pr_review_event-All : (raw : Option Fields) → All IsAcceptable (pr_review_event raw owner repo)
    unfolding pr_review_event
    pr_review_event-All raw = grind (arith, one, cons-ne-nil "p" "r_reviewed")

    issue_comment_event-All :
        (raw : Option Fields) → All IsAcceptable (issue_comment_event raw owner repo)
    unfolding issue_comment_event
    issue_comment_event-All raw = grind (arith, one, cons-ne-nil "p" "r_commented")

    check_run_event-All : (raw : Option Fields) → All IsAcceptable (check_run_event raw owner repo)
    unfolding check_run_event
    check_run_event-All raw =
        let cr = as_object (get raw "check_run") in
        ground (arith, check_run_events-All cr (as_array (get cr "pull_requests")))

    pr_event-All : (raw : Option Fields) → OkAll (pr_event raw owner repo)
    unfolding pr_event
    pr_event-All raw =
        let n = pr_number_from raw "pull_request" in
        ground (
          arith,
          pr_action-All (string_field raw "action") raw (as_object (get raw "pull_request")) n
              (string_field (as_object (get raw "sender")) "login"),
        )

    events_for-All :
        (event : String) (raw : Option Fields) → OkAll (events_for event raw owner repo)
    unfolding events_for
    events_for-All event raw = ground (
      arith,
      pr_event-All raw,
      pr_review_event-All raw,
      issue_comment_event-All raw,
      check_run_event-All raw,
    )

  -- `Publish` accepts, for the reducer of `pr`, every event that the plugin makes of a body of any
  -- kind, if the repository that the body names has an owner and a name that a topic can hold.
  pub transform_acceptable :
      (unmarshal : String → Option (Option Fields)) (event body : String) (raw : Option Fields)
      (es : List Event)
      → unmarshal body ≡ some raw
      → AreNames (repo_from raw)
      → transform_bytes unmarshal event body ≡ ok es
      → All IsAcceptable es
  unfolding transform_bytes
  transform_acceptable unmarshal event body raw es decoded names made =
      let (owner, repo) = repo_from raw in
      let all = events_for-All owner repo names event raw in
      let same : events_for event raw owner repo ≡ ok es =
        ground (arith, eq_iff owner "", eq_iff repo "", names.owner_ok.0, names.repo_ok.0) in
      subst OkAll same all
