-- ===== src/Objtypes/Pr/Lifecycle.antt =====
-- What holds of the state of a pull request between events.
use event_watch.Base.{◌≡◌, ◌≢◌, refl, ◌⊎◌, inl, List, [], ◌∷◌, arith, eq_iff, All}
use event_watch.Core.{Event, Payload, Time}
use event_watch.Objtypes.Codec.{get_str}
use event_watch.Objtypes.Sets.{IsDistinct, add_unique-IsDistinct, remove_string-IsDistinct}
use event_watch.Objtypes.Pr.{
  PrState, PrEvent, pr_opened, pr_review_requested, pr_reviewed, pr_labeled, pr_unlabeled,
  pr_merged, pr_closed, pr_event, on_event, opened, step, initial,
}
use event_watch.Objtypes.Pr.Laws.{run, is_name}

pub record IsSound (s : PrState) : Type 0 where
  pub reviewers : IsDistinct s.reviewers
  pub labels : IsDistinct s.labels
  pub lifecycle :
      (s.state ≡ "") ⊎ ((s.state ≡ "open") ⊎ ((s.state ≡ "closed") ⊎ (s.state ≡ "merged")))

opened-IsSound : (s : PrState) (e : Event) → IsSound s → IsSound (opened s e)
opened-IsSound s e h = record {
  reviewers = h.reviewers;
  labels = h.labels;
  lifecycle = ground (arith, h.lifecycle);
}

on_event-IsSound :
    (k : PrEvent) (s : PrState) (p : Payload) (at : Time) → IsSound s → IsSound (on_event k s p at)
unfolding on_event
on_event-IsSound pr_review_requested s p at h =
    ground (arith, add_unique-IsDistinct s.reviewers (get_str p "reviewer"))
on_event-IsSound pr_labeled s p at h =
    ground (arith, add_unique-IsDistinct s.labels (get_str p "label"))
on_event-IsSound pr_unlabeled s p at h =
    ground (arith, remove_string-IsDistinct s.labels (get_str p "label"))
on_event-IsSound k s p at h = ground arith

step-IsSound : (s : PrState) (e : Event) → IsSound s → IsSound (step s e)
unfolding step
step-IsSound s e h =
    on_event-IsSound (pr_event e.type) (opened s e) e.payload e.occurred_at (opened-IsSound s e h)

run-IsSound' : (s : PrState) (es : List Event) → IsSound s → IsSound (run s es)
unfolding run
run-IsSound' s [] h = h
run-IsSound' s (e ∷ es) h = run-IsSound' (step s e) es (step-IsSound s e h)

-- After any events from the start, no reviewer and no label stands twice, and the state is empty,
-- `open`, `closed` or `merged`.
pub run-IsSound : (es : List Event) → IsSound (run initial es)
unfolding initial
run-IsSound es =
    run-IsSound' initial es (record { reviewers = tt; labels = tt; lifecycle = inl refl })

on_event-merged :
    (k : PrEvent) (s : PrState) (p : Payload) (at : Time)
    → (s.state ≡ "merged" → k ≢ pr_opened → (on_event k s p at).state ≡ "merged")
      × ((on_event k s p at).state ≡ "merged" → k ≢ pr_merged → s.state ≡ "merged")
unfolding on_event
on_event-merged pr_opened s p at =
    (λ e n. absurd (n refl), λ e n. absurd (ground (arith, eq_iff "open" "merged")))
on_event-merged pr_merged s p at = (λ e n. refl, λ e n. absurd (n refl))
on_event-merged pr_closed s p at = (
  ground (arith, eq_iff s.state "merged"),
  λ e n. ground (arith, eq_iff s.state "merged", eq_iff "closed" "merged"),
)
on_event-merged pr_reviewed s p at = (λ e n. ground arith, λ e n. ground arith)
on_event-merged k s p at = (λ e n. e, λ e n. e)

step-merged :
    (s : PrState) (e : Event)
    → (s.state ≡ "merged" → e.type ≢ "pr_opened" → (step s e).state ≡ "merged")
      × ((step s e).state ≡ "merged" → e.type ≢ "pr_merged" → s.state ≡ "merged")
unfolding step
step-merged s e = ground (
  arith,
  on_event-merged (pr_event e.type) (opened s e) e.payload e.occurred_at,
  is_name e.type pr_opened,
  is_name e.type pr_merged,
  eq_iff e.type "pr_opened",
  eq_iff e.type "pr_merged",
  eq_iff s.state "",
  eq_iff "open" "merged",
  eq_iff "" "merged",
)

-- A merged pull request stays merged, closed or not, through events none of which opens it again.
pub run_stays_merged :
    (s : PrState) (es : List Event)
    → s.state ≡ "merged"
    → All (λ e. e.type ≢ "pr_opened") es
    → (run s es).state ≡ "merged"
unfolding run
run_stays_merged s [] h a = h
run_stays_merged s (e ∷ es) h (n, a) = run_stays_merged (step s e) es ((step-merged s e).0 h n) a

-- A pull request that is merged after some events, none of them `pr_merged`, was merged before.
pub run_merged_by :
    (s : PrState) (es : List Event)
    → (run s es).state ≡ "merged"
    → All (λ e. e.type ≢ "pr_merged") es
    → s.state ≡ "merged"
unfolding run
run_merged_by s [] h a = h
run_merged_by s (e ∷ es) h (n, a) = (step-merged s e).1 (run_merged_by (step s e) es h a) n
