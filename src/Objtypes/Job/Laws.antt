-- ===== src/Objtypes/Job/Laws.antt =====
-- The log and the progress of a job.
use event_watch.Base.{
  ◌≡◌, ◌≢◌, refl, sym, ap, ◌∙◌, String, inl, inr, List, [], ◌∷◌, ◌++◌, ◌=ₛ◌, if◌then◌else◌, arith,
  eq_iff, Bool-cases,
}
use mathlib.Core.List.{append_assoc, append-nil}
use event_watch.Core.{Event, Payload, Time}
use event_watch.Objtypes.Capped.{append_capped, last_part, append_capped-last_part}
use event_watch.Objtypes.Codec.{get_str}
use event_watch.Objtypes.Job.{
  JobState, JobLog, JobEvent, job_log, job_event, on_event, step, initial, job_log_cap,
}

unfoldable pub run : JobState → List Event → JobState
run s [] = s
run s (e ∷ es) = run (step s e) es

-- Every line that was logged, oldest first.
abbrev pub lines : List Event → List JobLog
lines [] = []
lines (e ∷ es) =
    if e.type =ₛ "job_log"
    then record { at = e.occurred_at; line = get_str e.payload "line" } ∷ lines es
    else lines es

job_event-log : (t : String) → t ≡ "job_log" → job_event t ≡ job_log
unfolding job_event
job_event-log t e = rw e refl

job_event-other : (t : String) → t ≢ "job_log" → job_event t ≢ job_log
unfolding job_event
job_event-other t n = ground (arith, eq_iff t "job_log")

on_event-other :
    (k : JobEvent) (s : JobState) (p : Payload) (at : Time)
    → k ≢ job_log
    → (on_event k s p at).logs ≡ s.logs
unfolding on_event
on_event-other job_log s p at n = absurd (n refl)
on_event-other _ s p at n = refl

step-logs :
    (s : JobState) (e : Event)
    → ((e.type ≡ "job_log")
        → (step s e).logs
          ≡ append_capped job_log_cap s.logs
              (record { at = e.occurred_at; line = get_str e.payload "line" }))
      × (e.type ≢ "job_log" → (step s e).logs ≡ s.logs)
unfolding step on_event
step-logs s e = (
  λ h. ap (λ k. (on_event k s e.payload e.occurred_at).logs) (job_event-log e.type h),
  λ n. on_event-other (job_event e.type) s e.payload e.occurred_at (job_event-other e.type n),
)

run_logs' :
    (s : JobState) (before : List JobLog) (es : List Event)
    → s.logs ≡ last_part job_log_cap before
    → (run s es).logs ≡ last_part job_log_cap (before ++ lines es)
unfolding run
run_logs' s before [] h = h ∙ ap (last_part job_log_cap) (sym (append-nil before))
run_logs' s before (e ∷ es) h = elim (Bool-cases (e.type =ₛ "job_log")) [
  | inl same ↦
      let x : JobLog = record { at = e.occurred_at; line = get_str e.payload "line" } in
      rw same (
        run_logs' (step s e) (before ++ x ∷ []) es (
          (step-logs s e).0 ((eq_iff e.type "job_log").0 same)
          ∙ ap (λ l. append_capped job_log_cap l x) h
          ∙ append_capped-last_part job_log_cap before x)
        ∙ ap (last_part job_log_cap) (append_assoc before (x ∷ []) (lines es)))
  | inr other ↦ rw other (
      run_logs' (step s e) before es
        ((step-logs s e).1 (ground (arith, eq_iff e.type "job_log")) ∙ h))
]

-- After any events from the start, the log tail is the last fifty of all the lines that were
-- logged, oldest first, each with the time of its event.
pub run_logs : (es : List Event) → (run initial es).logs ≡ last_part job_log_cap (lines es)
unfolding initial
run_logs es = run_logs' initial [] es refl
