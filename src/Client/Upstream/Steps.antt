-- ===== src/Client/Upstream/Steps.antt =====
-- The steps of the client, each with the frames that it sends.
use event_watch.Base.{
  ℕ, ◌≡◌, refl, sym, ap, ◌∙◌, String, Bool, true, false, ◌||◌, Option, none, some, List, [], ◌∷◌,
  ◌++◌, map, ◌=ₛ◌, if◌then◌else◌, eq_iff, arith, lookup, insert, remove, lookup-insert,
  lookup-remove, is_some, Bool-cases, Option-cases, add64, inl, inr, All,
}
use mathlib.Core.List.{append-nil, append_assoc}
use event_watch.Core.{Event, From}
use event_watch.Core.Topic.{validate_topic}
use event_watch.Client.{
  Client, TopicSub, resume_frame, resume_seq, send, send_all, subscribe, joined, remove_callback,
  delete_callback, saw, on_event, on_response, dispatch, request, resubscribe_all,
}
use event_watch.Client.Wire.{OutFrame, InFrame, blank_out, subscribe_frame}
use event_watch.Client.Upstream.{
  after_queue, has_topic, IsSubscribable, Advances, quiet_step, send-closed, send-topics,
  send-queue, one_step, replaced,
}

subscribe_frame-head :
    (t : String) (from : From) (n : ℕ)
    → ((subscribe_frame t from n).op ≡ "subscribe") × ((subscribe_frame t from n).topic ≡ t)
unfolding subscribe_frame
subscribe_frame-head t from n = ground arith

pub subscribe-Advances : (c : Client) (t : String) (from : From) → Advances c (subscribe c t from).0
unfolding subscribe
subscribe-Advances c t from = elim (Bool-cases (validate_topic t)) [
  | inr bad ↦ rw (bad, subscribe) (quiet_step c c refl refl (λ u. refl))
  | inl valid ↦ elim (Option-cases (lookup t c.topics)) [
    | inl free ↦
        rw (valid, free, subscribe)
          (one_step c _ _ refl refl (λ e. valid)
            (λ u. ground (
              arith,
              lookup-insert t u (joined (lookup t c.topics) from (add64 c.next_id 1)) c.topics,
            )))
    | inr (ts, there) ↦
        rw (valid, there, subscribe)
          (quiet_step c _ refl refl (λ u.
            replaced c.topics t u ts (joined (lookup t c.topics) from (add64 c.next_id 1)) there))
  ]
]

pub remove_callback-Advances :
    (c : Client) (t : String) (id : ℕ) → Advances c (remove_callback c t id)
unfolding remove_callback
remove_callback-Advances c t id = elim (Option-cases (lookup t c.topics)) [
  | inl free ↦ rw (free, remove_callback) (quiet_step c c refl refl (λ u. refl))
  | inr (ts, there) ↦ rw (there, remove_callback) (left (delete_callback id ts.callbacks) ts there)
]
  where
    left :
        (ids : List ℕ) (ts : TopicSub)
        → lookup t c.topics ≡ some ts
        → Advances c (elim ids [
          | [] ↦
              send
                (record c { topics = remove t c.topics })
                (record blank_out { op = "unsubscribe"; topic = t })
          | j ∷ js ↦ record c { topics = insert t (record ts { callbacks = j ∷ js }) c.topics }
        ])
    left [] ts there =
        one_step c (record c { topics = remove t c.topics })
          (record blank_out { op = "unsubscribe"; topic = t }) refl refl (λ e. cc e)
          (λ u. ground (arith, lookup-remove t u c.topics))
    left (j ∷ js) ts there =
        quiet_step c _ refl refl
          (λ u. replaced c.topics t u ts (record ts { callbacks = j ∷ js }) there)

on_response-same :
    (c : Client) (f : InFrame)
    → ((on_response c f).0.closed ≡ c.closed)
      × ((on_response c f).0.send_ch ≡ c.send_ch)
      × ((on_response c f).0.topics ≡ c.topics)
unfolding on_response
on_response-same c f = (ground arith, ground arith, ground arith)

pub dispatch-Advances : (c : Client) (f : InFrame) → Advances c (dispatch c f).0
unfolding dispatch
dispatch-Advances c f = elim (Bool-cases (f.type =ₛ "event")) [
  | inl e ↦ rw (e, dispatch) (event_step f.event)
  | inr n ↦ elim (Bool-cases (f.type =ₛ "state" || (f.type =ₛ "ack" || f.type =ₛ "error"))) [
    | inl r ↦ rw (n, r, dispatch) response_step
    | inr o ↦ rw (n, o, dispatch) (quiet_step c c refl refl (λ u. refl))
  ]
]
  where
    event_step : (e : Option Event) → Advances c (on_event c f.topic e).0
    event_step none = quiet_step c c refl refl (λ u. refl)
    event_step (some e) = elim (Option-cases (lookup f.topic c.topics)) [
      | inl free ↦ rw (free, on_event) (quiet_step c c refl refl (λ u. refl))
      | inr (ts, there) ↦
          rw (there, on_event)
            (quiet_step c _ refl refl (λ u. replaced c.topics f.topic u ts (saw ts e) there))
    ]

    response_step : Advances c (on_response c f).0
    response_step =
        let (closed, queue, topics) = on_response-same c f in
        quiet_step c (on_response c f).0 closed queue (λ u. ap (λ m. is_some (lookup u m)) topics)

-- A request sends a frame that is neither a `subscribe` nor an `unsubscribe`.
pub request-Advances :
    (c : Client) (f : OutFrame)
    → (f.op =ₛ "subscribe") ≡ false
    → (f.op =ₛ "unsubscribe") ≡ false
    → Advances c (request c f).0
unfolding request
request-Advances c f no_sub no_unsub =
    one_step c _ _ refl refl (λ e. absurd (ground arith)) (λ u. ground arith)

pub resumes :
    (t : String) (m : List (String × TopicSub)) (before : Bool)
    → after_queue t before (map resume_frame m) ≡ (is_some (lookup t m) || before)
unfolding lookup
resumes t [] before = refl
resumes t ((u, ts) ∷ m) before =
    let (op, topic) = subscribe_frame-head u ts.from (resume_seq ts) in
    rw (op, topic)
      (elim (Bool-cases (u =ₛ t)) [
        | inl same ↦ rw (same) (ground (arith, resumes t m true))
        | inr other ↦ rw (other) (resumes t m before)
      ])

send_all-queue :
    (fs : List OutFrame) (c : Client)
    → ((send_all c fs).closed ≡ c.closed)
      × ((send_all c fs).topics ≡ c.topics)
      × ((send_all c fs).send_ch ≡ (if c.closed then c.send_ch else c.send_ch ++ fs))
unfolding send_all
send_all-queue [] c = (
  refl,
  refl,
  elim (Bool-cases c.closed) [ inl e ↦ rw e refl | inr e ↦ rw e (sym (append-nil c.send_ch)) ],
)
send_all-queue (f ∷ fs) c =
    let (closed, topics, queue) = send_all-queue fs (send c f) in
    (
      closed ∙ send-closed c f,
      topics ∙ send-topics c f,
      queue
          ∙ rw (send-closed c f, send-queue c f)
              (elim (Bool-cases c.closed) [
                | inl e ↦ rw e refl
                | inr e ↦ rw e (append_assoc c.send_ch (f ∷ []) fs)
              ]),
    )

resumes_valid :
    (m : List (String × TopicSub))
    → ((t : String) → is_some (lookup t m) ≡ true → validate_topic t ≡ true)
    → All IsSubscribable (map resume_frame m)
unfolding lookup
resumes_valid [] valid = tt
resumes_valid ((u, ts) ∷ m) valid =
    let (op, topic) = subscribe_frame-head u ts.from (resume_seq ts) in
    (
      λ is_sub. ap validate_topic topic ∙ valid u (ground (arith, eq_iff u u)),
      resumes_valid m (λ t h. valid t (ground arith)),
    )

pub resubscribe_all-Advances :
    (c : Client)
    → ((t : String) → has_topic c t ≡ true → validate_topic t ≡ true)
    → (a : Advances c (resubscribe_all c)) × (a.added ≡ map resume_frame c.topics)
unfolding resubscribe_all
resubscribe_all-Advances c valid =
    let (closed, topics, queue) = send_all-queue (map resume_frame c.topics) c in
    (
      record {
        added = map resume_frame c.topics;
        closed_same = closed;
        queue = queue;
        keys = λ t.
            ap (λ m. is_some (lookup t m)) topics
            ∙ ground (arith, resumes t c.topics (has_topic c t));
        subscribable = resumes_valid c.topics valid;
        valid = λ t h. inl (ap (λ m. is_some (lookup t m)) (sym topics) ∙ h);
      },
      refl,
    )
