-- ===== src/Objtypes/Pr.antt =====
-- internal/objtypes/pr.go: pull requests.
pub mod Laws
pub mod Lifecycle
use event_watch.Base.{
  ℕ, ◌+◌, String, Bool, true, false, ◌||◌, Option, List, [], ◌∷◌, ◌=ₛ◌, if◌then◌else◌, add64, sub64,
  is_positive, ℤ, pos,
}
use event_watch.Core.{Event, Payload, Time, RawMessage, Error}
use event_watch.Computed.{Reducer}
use event_watch.Objtypes.Codec.{Codec, apply_strict, get_str, set_if_given}
use event_watch.Objtypes.Sets.{add_unique, remove_string}

-- Every `int` is its 64-bit pattern.
pub record PrChecks : Type 0 where
  pub passed : ℕ
  pub failed : ℕ
  pub pending : ℕ

pub record PrState : Type 0 where
  pub title : String
  pub author : String
  pub base : String
  pub head : String
  pub state : String
  pub reviewers : List String
  pub approvals : ℕ
  pub changes_requested : ℕ
  pub labels : List String
  pub checks : PrChecks
  pub comments : ℕ
  pub merged_at : Time
  pub updated_at : Time

unfoldable pub initial : PrState
initial = record {
  title = "";
  author = "";
  base = "";
  head = "";
  state = "";
  reviewers = [];
  approvals = 0;
  changes_requested = 0;
  labels = [];
  checks = record { passed = 0; failed = 0; pending = 0 };
  comments = 0;
  merged_at = pos 0;
  updated_at = pos 0;
}

-- The cases of `switch e.Type`.
pub data PrEvent : Type 0 where
  pr_opened pr_sync pr_review_requested pr_reviewed pr_commented pr_labeled pr_unlabeled : PrEvent
  pr_merged pr_closed check_run_completed unknown : PrEvent

unfoldable pub pr_event : String → PrEvent
pr_event t =
    if t =ₛ "pr_opened"
    then pr_opened
    else if t =ₛ "pr_sync"
    then pr_sync
    else if t =ₛ "pr_review_requested"
    then pr_review_requested
    else if t =ₛ "pr_reviewed"
    then pr_reviewed
    else if t =ₛ "pr_commented"
    then pr_commented
    else if t =ₛ "pr_labeled"
    then pr_labeled
    else if t =ₛ "pr_unlabeled"
    then pr_unlabeled
    else if t =ₛ "pr_merged"
    then pr_merged
    else if t =ₛ "pr_closed"
    then pr_closed
    else if t =ₛ "check_run_completed"
    then check_run_completed
    else unknown

-- `if s.Checks.Pending > 0 { s.Checks.Pending-- }`.
abbrev one_less_pending : PrChecks → PrChecks
one_less_pending c = if is_positive c.pending then record c { pending = sub64 c.pending 1 } else c

unfoldable pub check_completed : PrChecks → String → PrChecks
check_completed c conclusion =
    if conclusion =ₛ "success"
    then one_less_pending (record c { passed = add64 c.passed 1 })
    else if conclusion =ₛ "failure" || (conclusion =ₛ "timed_out" || conclusion =ₛ "cancelled")
    then one_less_pending (record c { failed = add64 c.failed 1 })
    else if conclusion =ₛ "pending" || (conclusion =ₛ "queued" || conclusion =ₛ "in_progress")
    then record c { pending = add64 c.pending 1 }
    else c

unfoldable pub reviewed : PrState → String → PrState
reviewed s verdict =
    if verdict =ₛ "approved"
    then record s { approvals = add64 s.approvals 1 }
    else if verdict =ₛ "changes_requested"
    then record s { changes_requested = add64 s.changes_requested 1 }
    else s

abbrev add_if_given : List String → String → List String
add_if_given xs v = if v =ₛ "" then xs else add_unique xs v

abbrev remove_if_given : List String → String → List String
remove_if_given xs v = if v =ₛ "" then xs else remove_string xs v

unfoldable pub on_event : PrEvent → PrState → Payload → Time → PrState
unfolding reviewed check_completed
on_event pr_opened s p at = record s {
  title = set_if_given s.title (get_str p "title");
  author = set_if_given s.author (get_str p "author");
  base = set_if_given s.base (get_str p "base");
  head = set_if_given s.head (get_str p "head");
  state = "open";
}
on_event pr_sync s p at = record s { head = set_if_given s.head (get_str p "head") }
on_event pr_review_requested s p at = record s {
  reviewers = add_if_given s.reviewers (get_str p "reviewer");
}
on_event pr_reviewed s p at = reviewed s (get_str p "state")
on_event pr_commented s p at = record s { comments = add64 s.comments 1 }
on_event pr_labeled s p at = record s { labels = add_if_given s.labels (get_str p "label") }
on_event pr_unlabeled s p at = record s { labels = remove_if_given s.labels (get_str p "label") }
on_event pr_merged s p at = record s { state = "merged"; merged_at = at }
on_event pr_closed s p at = record s { state = if s.state =ₛ "merged" then s.state else "closed" }
on_event check_run_completed s p at = record s {
  checks = check_completed s.checks (get_str p "conclusion");
}
on_event unknown s p at = s

-- What every event does first: a missing state is open, and the time is noted.
abbrev pub opened : PrState → Event → PrState
opened s e = record s {
  state = if s.state =ₛ "" then "open" else s.state;
  updated_at = e.occurred_at;
}

-- The body of `Apply` between decoding and encoding.
unfoldable pub step : PrState → Event → PrState
step s e = on_event (pr_event e.type) (opened s e) e.payload e.occurred_at

unfoldable pub reducer : Codec PrState → Reducer
reducer c = record { object_type = "pr"; apply = apply_strict c step initial }
