-- ===== src/Objtypes/Job.antt =====
-- internal/objtypes/job.go: background jobs.
pub mod Laws
use event_watch.Base.{
  ℕ, ◌+◌, ◌-◌, String, Bool, List, [], ◌∷◌, ◌++◌, ◌=ₛ◌, if◌then◌else◌, pos, ltb, length, drop,
  is_positive,
}
use event_watch.Core.{Event, Payload, Time}
use event_watch.Computed.{Reducer}
use event_watch.Objtypes.Capped.{append_capped}
use event_watch.Objtypes.Codec.{Codec, apply_strict, get_str, get_int, set_if_given}

abbrev pub job_log_cap : ℕ
job_log_cap = 50

pub record JobLog : Type 0 where
  pub at : Time
  pub line : String

-- `percent` and `eta_seconds` are 64-bit patterns of an `int`.
pub record JobState : Type 0 where
  pub name : String
  pub percent : ℕ
  pub eta_seconds : ℕ
  pub status : String
  pub logs : List JobLog
  pub started_at : Time
  pub finished_at : Time

unfoldable pub initial : JobState
initial = record {
  name = "";
  percent = 0;
  eta_seconds = 0;
  status = "";
  logs = [];
  started_at = pos 0;
  finished_at = pos 0;
}

-- The cases of `switch e.Type`.
pub data JobEvent : Type 0 where
  job_started job_progress job_log job_finished job_failed unknown : JobEvent

unfoldable pub job_event : String → JobEvent
job_event t =
    if t =ₛ "job_started"
    then job_started
    else if t =ₛ "job_progress"
    then job_progress
    else if t =ₛ "job_log"
    then job_log
    else if t =ₛ "job_finished"
    then job_finished
    else if t =ₛ "job_failed"
    then job_failed
    else unknown

-- `if v > 0 { field = v }`.
abbrev set_if_positive : ℕ → ℕ → ℕ
set_if_positive old v = if is_positive v then v else old

unfoldable pub on_event : JobEvent → JobState → Payload → Time → JobState
on_event job_started s p at = record s {
  status = "running";
  started_at = at;
  name = set_if_given s.name (get_str p "name");
}
on_event job_progress s p at = record s {
  percent = set_if_positive s.percent (get_int p "percent");
  eta_seconds = set_if_positive s.eta_seconds (get_int p "eta_seconds");
}
on_event job_log s p at = record s {
  logs = append_capped job_log_cap s.logs (record { at = at; line = get_str p "line" });
}
on_event job_finished s p at = record s { status = "succeeded"; percent = 100; finished_at = at }
on_event job_failed s p at = record s { status = "failed"; finished_at = at }
on_event unknown s p at = s

-- The body of `Apply` between decoding and encoding.
unfoldable pub step : JobState → Event → JobState
step s e = on_event (job_event e.type) s e.payload e.occurred_at

unfoldable pub reducer : Codec JobState → Reducer
reducer c = record { object_type = "job"; apply = apply_strict c step initial }
