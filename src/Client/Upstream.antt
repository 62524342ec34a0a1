-- ===== src/Client/Upstream.antt =====
-- The topics of the client, and the frames about them that it sends.
pub mod Steps
use event_watch.Base.{
  ℕ, ◌≡◌, ◌≢◌, refl, sym, ap, ◌∙◌, String, Bool, true, false, ◌||◌, ◌⊎◌, Option, none, some, List,
  [], ◌∷◌, ◌++◌, map, ltb, ◌=ₛ◌, if◌then◌else◌, eq_iff, arith, lookup, insert, remove,
  lookup-insert, lookup-remove, is_some, Bool-cases, Option-cases, add64, inl, inr, All, All-append,
}
use mathlib.Core.List.{append-nil, append_assoc}
use event_watch.Core.{Event, From, ok, err}
use event_watch.Core.Topic.{validate_topic}
use event_watch.Client.{
  Client, TopicSub, resume_frame, resume_seq, send, send_all, subscribe, joined, remove_callback,
  delete_callback, saw, on_event, on_response, dispatch, request, resubscribe_all,
}
use event_watch.Client.Wire.{OutFrame, InFrame, blank_out, subscribe_frame}

-- Whether a topic is subscribed after a frame, if it was before.
abbrev pub served : String → OutFrame → Bool → Bool
served t f before =
    if f.topic =ₛ t
    then (if f.op =ₛ "subscribe" then true else if f.op =ₛ "unsubscribe" then false else before)
    else before

abbrev pub after_queue : String → Bool → List OutFrame → Bool
after_queue t before [] = before
after_queue t before (f ∷ fs) = after_queue t (served t f before) fs

abbrev pub has_topic : Client → String → Bool
has_topic c t = is_some (lookup t c.topics)

-- A frame that subscribes names a valid topic.
abbrev pub IsSubscribable : OutFrame → Type 0
IsSubscribable f = (f.op =ₛ "subscribe") ≡ true → validate_topic f.topic ≡ true

pub after_queue-append :
    (t : String) (before : Bool) (xs ys : List OutFrame)
    → after_queue t before (xs ++ ys) ≡ after_queue t (after_queue t before xs) ys
after_queue-append t before [] ys = refl
after_queue-append t before (f ∷ xs) ys = after_queue-append t (served t f before) xs ys

-- What ends unsubscribed from a subscribed topic does so from any.
pub after_queue-false :
    (t : String) (before : Bool) (fs : List OutFrame)
    → after_queue t true fs ≡ false
    → after_queue t before fs ≡ false
after_queue-false t true fs h = h
after_queue-false t false [] h = refl
after_queue-false t false (f ∷ fs) h = elim (Bool-cases (served t f true)) [
  | inl kept ↦
      after_queue-false t (served t f false) fs (ap (λ b. after_queue t b fs) (sym kept) ∙ h)
  | inr gone ↦
      let same : served t f false ≡ false = ground arith in
      ap (λ b. after_queue t b fs) (same ∙ sym gone) ∙ h
]

-- A step of the client: the frames that it sends, if it is not closed, say what it does to the
-- topics that have callbacks.
pub record Advances (c c' : Client) : Type 0 where
  pub added : List OutFrame
  pub closed_same : c'.closed ≡ c.closed
  pub queue : c'.send_ch ≡ (if c.closed then c.send_ch else c.send_ch ++ added)
  pub keys : (t : String) → has_topic c' t ≡ after_queue t (has_topic c t) added
  pub subscribable : All IsSubscribable added
  pub valid :
      (t : String) → has_topic c' t ≡ true → (has_topic c t ≡ true) ⊎ (validate_topic t ≡ true)

-- A step that sends nothing and keeps the topics.
pub quiet_step :
    (c c' : Client)
    → c'.closed ≡ c.closed
    → c'.send_ch ≡ c.send_ch
    → ((t : String) → has_topic c' t ≡ has_topic c t)
    → Advances c c'
quiet_step c c' closed queue keys = record {
  added = [];
  closed_same = closed;
  queue = queue ∙ same;
  keys = keys;
  subscribable = tt;
  valid = λ t h. inl (sym (keys t) ∙ h);
}
  where
    same : c.send_ch ≡ (if c.closed then c.send_ch else c.send_ch ++ [])
    same = elim (Bool-cases c.closed) [
      | inl e ↦ rw e refl
      | inr e ↦ rw e (sym (append-nil c.send_ch))
    ]

pub send-closed : (c : Client) (f : OutFrame) → (send c f).closed ≡ c.closed
unfolding send
send-closed c f = ground arith

pub send-topics : (c : Client) (f : OutFrame) → (send c f).topics ≡ c.topics
unfolding send
send-topics c f = ground arith

pub send-queue :
    (c : Client) (f : OutFrame)
    → (send c f).send_ch ≡ (if c.closed then c.send_ch else c.send_ch ++ f ∷ [])
unfolding send
send-queue c f = ground arith

served_valid :
    (t : String) (f : OutFrame) (before : Bool)
    → IsSubscribable f
    → served t f before ≡ true
    → (before ≡ true) ⊎ (validate_topic t ≡ true)
served_valid t f before ok_frame h = elim (Bool-cases (f.topic =ₛ t)) [
  | inl e ↦ elim (Bool-cases (f.op =ₛ "subscribe")) [
    | inl sub ↦ inr (ap validate_topic (sym ((eq_iff f.topic t).0 e)) ∙ ok_frame sub)
    | inr other ↦ inl (ground arith)
  ]
  | inr n ↦ inl (ground arith)
]

-- A step that changes the topics and sends one frame.
pub one_step :
    (c c' : Client) (f : OutFrame)
    → c'.closed ≡ c.closed
    → c'.send_ch ≡ c.send_ch
    → IsSubscribable f
    → ((t : String) → has_topic c' t ≡ served t f (has_topic c t))
    → Advances c (send c' f)
one_step c c' f closed queue ok_frame keys = record {
  added = f ∷ [];
  closed_same = send-closed c' f ∙ closed;
  queue = send-queue c' f ∙ rw (closed, queue) refl;
  keys = λ t. ap (λ m. is_some (lookup t m)) (send-topics c' f) ∙ keys t;
  subscribable = (ok_frame, tt);
  valid = λ t h.
      served_valid t f (has_topic c t) ok_frame
        (sym (keys t) ∙ ap (λ m. is_some (lookup t m)) (sym (send-topics c' f)) ∙ h);
}

-- The value of a key that is there is replaced.
pub replaced :
    (m : List (String × TopicSub)) (k t : String) (old new : TopicSub)
    → lookup k m ≡ some old
    → is_some (lookup t (insert k new m)) ≡ is_some (lookup t m)
replaced m k t old new there =
    ground (arith, lookup-insert k t new m, eq_iff k t, λ (e : k ≡ t). ap (λ j. lookup j m) e)
