-- ===== src/Objtypes/Pr/Laws.antt =====
-- What the state of a pull request says of the events that made it.
use event_watch.Base.{
  ℕ, suc, ◌+◌, ◌%◌, ◌<◌, ◌≡◌, ◌≢◌, refl, sym, ap, ◌∙◌, ◌↔◌, String, Bool, true, ◌&&◌, ◌⊎◌, inl, inr,
  List, [], ◌∷◌, ◌=ₛ◌, if◌then◌else◌, arith, eq_iff, word_mod, add64,
}
use event_watch.Core.{Event, Payload, Time}
use event_watch.Objtypes.Codec.{get_str}
use event_watch.Objtypes.Pr.{
  PrState, PrEvent, pr_opened, pr_sync, pr_review_requested, pr_reviewed, pr_commented, pr_labeled,
  pr_unlabeled, pr_merged, pr_closed, check_run_completed, unknown, pr_event, on_event, opened,
  step, initial,
}

-- The state after a list of events, oldest first.
unfoldable pub run : PrState → List Event → PrState
run s [] = s
run s (e ∷ es) = run (step s e) es

-- The number of events that pass a test.
abbrev pub count : (Event → Bool) → List Event → ℕ
count p [] = 0
count p (e ∷ es) = if p e then suc (count p es) else count p es

-- The text of each case of the switch.
abbrev pub name : PrEvent → String
name pr_opened = "pr_opened"
name pr_sync = "pr_sync"
name pr_review_requested = "pr_review_requested"
name pr_reviewed = "pr_reviewed"
name pr_commented = "pr_commented"
name pr_labeled = "pr_labeled"
name pr_unlabeled = "pr_unlabeled"
name pr_merged = "pr_merged"
name pr_closed = "pr_closed"
name check_run_completed = "check_run_completed"
name unknown = ""

pr_event-name : (k : PrEvent) → pr_event (name k) ≡ k
unfolding pr_event
pr_event-name pr_opened = refl
pr_event-name _ = refl

name-pr_event : (t : String) → (pr_event t ≡ unknown) ⊎ (t ≡ name (pr_event t))
unfolding pr_event
name-pr_event t = ground (
  arith,
  eq_iff t "pr_opened",
  eq_iff t "pr_sync",
  eq_iff t "pr_review_requested",
  eq_iff t "pr_reviewed",
  eq_iff t "pr_commented",
  eq_iff t "pr_labeled",
  eq_iff t "pr_unlabeled",
  eq_iff t "pr_merged",
  eq_iff t "pr_closed",
  eq_iff t "check_run_completed",
)

unfoldable pub is_approval : Event → Bool
is_approval e = e.type =ₛ "pr_reviewed" && get_str e.payload "state" =ₛ "approved"

unfoldable pub is_comment : Event → Bool
is_comment e = e.type =ₛ "pr_commented"

unfoldable pub is_success : Event → Bool
is_success e = e.type =ₛ "check_run_completed" && get_str e.payload "conclusion" =ₛ "success"

-- A type has the text of a case exactly where the switch takes that case.
pub is_name : (t : String) (k : PrEvent) → k ≢ unknown → (t =ₛ name k ≡ true) ↔ (pr_event t ≡ k)
is_name t k known = (
  λ same. ap pr_event ((eq_iff t (name k)).0 same) ∙ pr_event-name k,
  λ e. elim (name-pr_event t) [
    | inl u ↦ absurd (known (sym e ∙ u))
    | inr n ↦ (eq_iff t (name k)).1 (n ∙ ap name e)
  ],
)

on_event-approvals :
    (k : PrEvent) (s : PrState) (p : Payload) (at : Time)
    → (k ≡ pr_reviewed
        → (on_event k s p at).approvals
          ≡ (if get_str p "state" =ₛ "approved" then add64 s.approvals 1 else s.approvals))
      × (k ≢ pr_reviewed → (on_event k s p at).approvals ≡ s.approvals)
unfolding on_event
on_event-approvals pr_reviewed s p at = (λ e. ground arith, λ n. absurd (n refl))
on_event-approvals _ s p at = (λ e. cc, λ n. refl)

on_event-comments :
    (k : PrEvent) (s : PrState) (p : Payload) (at : Time)
    → (k ≡ pr_commented → (on_event k s p at).comments ≡ add64 s.comments 1)
      × (k ≢ pr_commented → (on_event k s p at).comments ≡ s.comments)
unfolding on_event
on_event-comments pr_commented s p at = (λ e. refl, λ n. absurd (n refl))
on_event-comments pr_reviewed s p at = (λ e. cc, λ n. ground arith)
on_event-comments _ s p at = (λ e. cc, λ n. refl)

on_event-passed :
    (k : PrEvent) (s : PrState) (p : Payload) (at : Time)
    → (k ≡ check_run_completed
        → (on_event k s p at).checks.passed ≡ (
            if get_str p "conclusion" =ₛ "success"
            then add64 s.checks.passed 1
            else s.checks.passed))
      × (k ≢ check_run_completed → (on_event k s p at).checks.passed ≡ s.checks.passed)
unfolding on_event
on_event-passed check_run_completed s p at = (λ e. ground arith, λ n. absurd (n refl))
on_event-passed pr_reviewed s p at = (λ e. cc, λ n. ground arith)
on_event-passed _ s p at = (λ e. cc, λ n. refl)

step-approvals :
    (s : PrState) (e : Event)
    → (step s e).approvals ≡ (if is_approval e then add64 s.approvals 1 else s.approvals)
unfolding step is_approval
step-approvals s e = ground (
  arith,
  is_name e.type pr_reviewed,
  on_event-approvals (pr_event e.type) (opened s e) e.payload e.occurred_at,
)

step-comments :
    (s : PrState) (e : Event)
    → (step s e).comments ≡ (if is_comment e then add64 s.comments 1 else s.comments)
unfolding step is_comment
step-comments s e = ground (
  arith,
  is_name e.type pr_commented,
  on_event-comments (pr_event e.type) (opened s e) e.payload e.occurred_at,
)

step-passed :
    (s : PrState) (e : Event)
    → (step s e).checks.passed ≡ (if is_success e then add64 s.checks.passed 1 else s.checks.passed)
unfolding step is_success
step-passed s e = ground (
  arith,
  is_name e.type check_run_completed,
  on_event-passed (pr_event e.type) (opened s e) e.payload e.occurred_at,
)

-- A field that one kind of event increments counts those events, modulo 2 ^ 64.
run_counter :
    (get : PrState → ℕ) (p : Event → Bool)
    → ((s : PrState) (e : Event) → get (step s e) ≡ (if p e then add64 (get s) 1 else get s))
    → (s : PrState) (es : List Event) → get s < word_mod
    → get (run s es) ≡ (get s + count p es) % word_mod
unfolding run
run_counter get p law s [] l = omega arith
run_counter get p law s (e ∷ es) l = ground (arith, law s e, run_counter get p law (step s e) es)

-- After any events from the start, `approvals` is the number of `pr_reviewed` events whose state
-- is `approved`, `comments` the number of `pr_commented` events, and `checks.passed` the number of
-- `check_run_completed` events that conclude in `success`, each modulo 2 ^ 64.
pub run_counts :
    (es : List Event)
    → ((run initial es).approvals ≡ count is_approval es % word_mod)
      × ((run initial es).comments ≡ count is_comment es % word_mod)
      × ((run initial es).checks.passed ≡ count is_success es % word_mod)
unfolding initial
run_counts es = (
  ground (arith, run_counter (λ s. s.approvals) is_approval step-approvals initial es),
  ground (arith, run_counter (λ s. s.comments) is_comment step-comments initial es),
  ground (arith, run_counter (λ s. s.checks.passed) is_success step-passed initial es),
)
