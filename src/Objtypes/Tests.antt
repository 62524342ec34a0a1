-- ===== src/Objtypes/Tests.antt =====
-- Runs of the reducers' steps, and the theorems at them.
use mathlib.Core.List.Perm
use event_watch.Base.{
  ◌≡◌, refl, String, none, [], ◌∷◌, ◌++◌, arith, ◌%◌, word_mod, inl, inr, lookup, eq_iff,
}
use event_watch.Core.{Event, str, num}
use event_watch.Objtypes.Codec.{get_str, sub_time, milliseconds}
use event_watch.Objtypes.Capped.{last_part}
use event_watch.Objtypes.Pr
use event_watch.Objtypes.Pr.Laws as PrLaws
use event_watch.Objtypes.Pr.Laws.{run_counts, is_approval, is_comment, is_success, count}
use event_watch.Objtypes.Pr.Lifecycle
use event_watch.Objtypes.Pr.Lifecycle.{run-IsSound, run_stays_merged, run_merged_by}
use event_watch.Objtypes.Job
use event_watch.Objtypes.Job.Laws as JobLaws
use event_watch.Objtypes.Job.Laws.{run_logs, lines}
use event_watch.Objtypes.Chat
use event_watch.Objtypes.Chat.Laws as ChatLaws
use event_watch.Objtypes.Chat.Laws.{run-IsRoom, step_deleted}
use event_watch.Objtypes.Build
use event_watch.Objtypes.Build.Laws.{timed, timed_steps, steps_of}
use event_watch.Objtypes.Field.{initial_int}
use event_watch.Objtypes.Field.Ints as Ints
use event_watch.Objtypes.Field.Ints.{run_unordered}
use event_watch.Samples.{event_of}

abbrev approval : Event
approval = event_of "pr/o/r/1" "pr_reviewed" (("state", str "approved") ∷ []) 3

abbrev merge : Event
merge = event_of "pr/o/r/1" "pr_merged" [] 4

abbrev closing : Event
closing = event_of "pr/o/r/1" "pr_closed" [] 5

run_counts_example :
    ((PrLaws.run Pr.initial (approval ∷ merge ∷ [])).approvals
      ≡ count is_approval (approval ∷ merge ∷ []) % word_mod)
    × ((PrLaws.run Pr.initial (approval ∷ merge ∷ [])).comments
        ≡ count is_comment (approval ∷ merge ∷ []) % word_mod)
    × ((PrLaws.run Pr.initial (approval ∷ merge ∷ [])).checks.passed
        ≡ count is_success (approval ∷ merge ∷ []) % word_mod)
run_counts_example = run_counts (approval ∷ merge ∷ [])

run-IsSound_example : Lifecycle.IsSound (PrLaws.run Pr.initial (approval ∷ merge ∷ []))
run-IsSound_example = run-IsSound (approval ∷ merge ∷ [])

abbrev merged : Pr.PrState
merged = PrLaws.run Pr.initial (merge ∷ [])

merged_state : merged.state ≡ "merged"
unfolding PrLaws.run Pr.step Pr.on_event Pr.pr_event Pr.initial
merged_state = refl

run_stays_merged_example : (PrLaws.run merged (closing ∷ [])).state ≡ "merged"
run_stays_merged_example =
    run_stays_merged merged (closing ∷ []) merged_state
      (ground (arith, eq_iff "pr_closed" "pr_opened"))

closed_state : (PrLaws.run merged (closing ∷ [])).state ≡ "merged"
unfolding PrLaws.run Pr.step Pr.on_event Pr.pr_event Pr.initial
closed_state = refl

abbrev deployment : Event
deployment = event_of "deploy/prod" "deploy_started" (("version", str "v2") ∷ []) 3

abbrev undo : Event
undo = event_of "deploy/prod" "rollback" [] 4

abbrev line : Event
line = event_of "job/1" "job_log" (("line", str "done") ∷ []) 3

run_logs_example :
    (JobLaws.run Job.initial (line ∷ [])).logs ≡ last_part Job.job_log_cap (lines (line ∷ []))
run_logs_example = run_logs (line ∷ [])

abbrev post : Event
post = event_of "chat/a" "msg_posted" (("id", str "m1") ∷ ("text", str "hi") ∷ []) 3

abbrev removal : Event
removal = event_of "chat/a" "msg_deleted" (("id", str "m1") ∷ []) 4

run-IsRoom_example : ChatLaws.IsRoom (ChatLaws.run Chat.initial (post ∷ removal ∷ []))
run-IsRoom_example = run-IsRoom (post ∷ removal ∷ [])

abbrev room : Chat.ChatState
room = Chat.step Chat.initial post

abbrev starting : String → Event
starting n = event_of "build/1" "step_started" (("step", str n) ∷ []) 1000000

abbrev ending : Event
ending = event_of "build/1" "step_finished" (("step", str "test") ∷ []) 9000000

timed_steps_example :
    (steps_of "test" (timed Build.initial (starting "test") (starting "lint" ∷ []) ending).steps
      ≡ steps_of "test" Build.initial.steps
        ++ record {
          name = "test";
          status = Build.or_success (get_str ending.payload "status");
          duration_ms = milliseconds (sub_time ending.occurred_at (starting "test").occurred_at);
        }
          ∷ [])
    × (lookup "test"
          (timed Build.initial (starting "test") (starting "lint" ∷ []) ending).step_starts
        ≡ none)
unfolding Build.initial get_str lookup Build.build_event
timed_steps_example =
    timed_steps Build.initial "test" (starting "test") (starting "lint" ∷ []) ending refl refl refl
      refl (refl, tt) tt

abbrev up : Event
up = event_of "int/a" "int_incr" (("delta", num 5) ∷ []) 1

abbrev down : Event
down = event_of "int/a" "int_decr" [] 2

run_unordered_example :
    (Ints.run initial_int (up ∷ down ∷ [])).value ≡ (Ints.run initial_int (down ∷ up ∷ [])).value
unfolding initial_int
run_unordered_example =
    run_unordered initial_int (up ∷ down ∷ []) (down ∷ up ∷ []) (omega arith)
      (inl refl, (inr refl, tt)) (Perm.swap down up [])
