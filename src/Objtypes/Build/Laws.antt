-- ===== src/Objtypes/Build/Laws.antt =====
-- The steps of a build, which may overlap, and their durations.
use event_watch.Base.{
  ◌≡◌, refl, ap, ◌∙◌, String, Bool, true, false, ◌&&◌, none, some, List, [], ◌∷◌, ◌++◌, ◌=ₛ◌,
  if◌then◌else◌, arith, eq_iff, lookup, lookup-insert, lookup-remove, filter, filter-append, All, ℤ,
  pos,
}
use mathlib.Core.List.{append-nil}
use event_watch.Core.{Event, Payload, Time}
use event_watch.Objtypes.Codec.{get_str, sub_time, milliseconds}
use event_watch.Objtypes.Build.{
  BuildStep, BuildState, BuildEvent, step_started, step_finished, build_event, or_success,
  finish_step, elapsed, on_event, step,
}

unfoldable pub run : BuildState → List Event → BuildState
run s [] = s
run s (e ∷ es) = run (step s e) es

-- The steps of one name, oldest first.
abbrev pub steps_of : String → List BuildStep → List BuildStep
steps_of n steps = filter (λ st. st.name =ₛ n) steps

abbrev pub is_step : BuildEvent → Bool
is_step step_started = true
is_step step_finished = true
is_step _ = false

-- The event starts or finishes a step of the name.
abbrev pub concerns : String → Event → Bool
concerns n e = is_step (build_event e.type) && get_str e.payload "step" =ₛ n

abbrev pub IsNotRunning : BuildStep → Type 0
IsNotRunning st = (st.status =ₛ "running") ≡ false

build_event-started : (t : String) → t ≡ "step_started" → build_event t ≡ step_started
unfolding build_event
build_event-started t e = rw e refl

build_event-finished : (t : String) → t ≡ "step_finished" → build_event t ≡ step_finished
unfolding build_event
build_event-finished t e = rw e refl

-- The entry that the start of a step adds.
abbrev pub begun : String → BuildStep
begun n = record { name = n; status = "running"; duration_ms = pos 0 }

steps_of-snoc :
    (n : String) (steps : List BuildStep) (st : BuildStep)
    → steps_of n (steps ++ st ∷ [])
      ≡ (if st.name =ₛ n then steps_of n steps ++ st ∷ [] else steps_of n steps)
steps_of-snoc n steps st =
    ground (arith, filter-append (λ x. x.name =ₛ n) steps (st ∷ []), append-nil (steps_of n steps))

steps_of-finish_step_other :
    (n m status : String) (dur : ℤ) (steps : List BuildStep)
    → (m =ₛ n) ≡ false
    → steps_of n (finish_step m status dur steps) ≡ steps_of n steps
unfolding finish_step
steps_of-finish_step_other n m status dur [] h = refl
steps_of-finish_step_other n m status dur (st ∷ steps) h =
    ground (arith, eq_iff st.name m, steps_of-finish_step_other n m status dur steps h)

-- The loop over all steps does on those of the name what it does on them alone.
steps_of-finish_step :
    (n status : String) (dur : ℤ) (steps : List BuildStep)
    → steps_of n (finish_step n status dur steps) ≡ finish_step n status dur (steps_of n steps)
unfolding finish_step
steps_of-finish_step n status dur [] = refl
steps_of-finish_step n status dur (st ∷ steps) =
    ground (arith, eq_iff st.name n, steps_of-finish_step n status dur steps)

finish_step-last :
    (n status : String) (dur : ℤ) (steps : List BuildStep) (last : BuildStep)
    → All IsNotRunning steps
    → last.name ≡ n
    → last.status ≡ "running"
    → finish_step n status dur (steps ++ last ∷ [])
      ≡ steps ++ record last { status = status; duration_ms = dur } ∷ []
unfolding finish_step
finish_step-last n status dur [] last h named running =
    ground (arith, eq_iff last.name n, eq_iff last.status "running")
finish_step-last n status dur (st ∷ steps) last (h, hs) named running =
    ground (arith, finish_step-last n status dur steps last hs named running)

-- The starting and the finishing of a step, as the cases of the switch do them.
step-step_started :
    (s : BuildState) (e : Event)
    → e.type ≡ "step_started"
    → step s e ≡ on_event step_started s e.payload e.occurred_at
unfolding step
step-step_started s e h =
    ap (λ k. on_event k s e.payload e.occurred_at) (build_event-started e.type h)

step-step_finished :
    (s : BuildState) (e : Event)
    → e.type ≡ "step_finished"
    → step s e ≡ on_event step_finished s e.payload e.occurred_at
unfolding step
step-step_finished s e h =
    ap (λ k. on_event k s e.payload e.occurred_at) (build_event-finished e.type h)

-- An event that does not concern a step leaves its entries and its start.
on_event-other :
    (k : BuildEvent) (n : String) (s : BuildState) (p : Payload) (at : Time)
    → (is_step k && get_str p "step" =ₛ n) ≡ false
    → (steps_of n (on_event k s p at).steps ≡ steps_of n s.steps)
      × (lookup n (on_event k s p at).step_starts ≡ lookup n s.step_starts)
unfolding on_event
on_event-other step_started n s p at h = (
  ground (arith, steps_of-snoc n s.steps (begun (get_str p "step"))),
  ground (arith, lookup-insert (get_str p "step") n at s.step_starts),
)
on_event-other step_finished n s p at h = (
  steps_of-finish_step_other n (get_str p "step") (or_success (get_str p "status")) _ s.steps h,
  ground (arith, lookup-remove (get_str p "step") n s.step_starts),
)
on_event-other _ n s p at h = (refl, refl)

run-other :
    (n : String) (s : BuildState) (es : List Event)
    → All (λ e. concerns n e ≡ false) es
    → (steps_of n (run s es).steps ≡ steps_of n s.steps)
      × (lookup n (run s es).step_starts ≡ lookup n s.step_starts)
unfolding run step
run-other n s [] h = (refl, refl)
run-other n s (e ∷ es) (h, hs) =
    let (a, b) = run-other n (step s e) es hs in
    let (c, d) = on_event-other (build_event e.type) n s e.payload e.occurred_at h in (a ∙ c, b ∙ d)

started_lem :
    (s : BuildState) (n : String) (e : Event)
    → e.type ≡ "step_started"
    → get_str e.payload "step" ≡ n
    → (steps_of n (step s e).steps ≡ steps_of n s.steps ++ begun n ∷ [])
      × (lookup n (step s e).step_starts ≡ some e.occurred_at)
unfolding on_event
started_lem s n e t p =
    rw (step-step_started s e t, p)
      (
        ground (arith, eq_iff n n, steps_of-snoc n s.steps (begun n)),
        ground (arith, eq_iff n n, lookup-insert n n e.occurred_at s.step_starts),
      )

finished_lem :
    (s : BuildState) (n : String) (e : Event)
    → e.type ≡ "step_finished"
    → get_str e.payload "step" ≡ n
    → (steps_of n (step s e).steps
        ≡ finish_step n
            (or_success (get_str e.payload "status"))
            (elapsed e.occurred_at (lookup n s.step_starts))
            (steps_of n s.steps))
      × (lookup n (step s e).step_starts ≡ none)
unfolding on_event
finished_lem s n e t p =
    rw (step-step_finished s e t, p)
      (
        steps_of-finish_step n _ _ s.steps,
        ground (arith, eq_iff n n, lookup-remove n n s.step_starts),
      )

-- The start of a step `n`, events that do not concern it (other steps start and finish among them),
-- and its end.
abbrev pub timed : BuildState → Event → List Event → Event → BuildState
timed s start es finish = step (run (step s start) es) finish

-- Where no step of the name is running, a step that starts and later finishes, with any events of
-- other steps and of the build between, gets one entry after the earlier ones of its name, with the
-- status of the second event, `success` if that has none, and the time between the two events in
-- whole milliseconds; and its start is forgotten.
pub timed_steps :
    (s : BuildState) (n : String) (start : Event) (es : List Event) (finish : Event)
    → start.type ≡ "step_started"
    → get_str start.payload "step" ≡ n
    → finish.type ≡ "step_finished"
    → get_str finish.payload "step" ≡ n
    → All (λ e. concerns n e ≡ false) es
    → All IsNotRunning (steps_of n s.steps)
    → (steps_of n (timed s start es finish).steps
        ≡ steps_of n s.steps
          ++ record {
            name = n;
            status = or_success (get_str finish.payload "status");
            duration_ms = milliseconds (sub_time finish.occurred_at start.occurred_at);
          }
            ∷ [])
      × (lookup n (timed s start es finish).step_starts ≡ none)
timed_steps s n start es finish t p t' p' others idle =
    let status = or_success (get_str finish.payload "status") in
    let (kept, time) = run-other n (step s start) es others in
    let (began, at) = started_lem s n start t p in
    let (ended, gone) = finished_lem (run (step s start) es) n finish t' p' in
    (
      ended
          ∙ ap
              (λ t.
                finish_step n status (elapsed finish.occurred_at t)
                  (steps_of n (run (step s start) es).steps))
              (time ∙ at)
          ∙ ap (finish_step n status _) (kept ∙ began)
          ∙ finish_step-last n status _ (steps_of n s.steps) _ idle refl refl,
      gone,
    )
