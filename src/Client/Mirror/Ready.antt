-- ===== src/Client/Mirror/Ready.antt =====
-- What each step of the client or of its session keeps, of the client alone and of the two.
use event_watch.Base.{
  ◌≡◌, refl, sym, ap, ◌∙◌, subst, String, Bool, true, false, ◌||◌, Option, none, some, List, ◌∷◌,
  ◌++◌, lookup, is_some, Bool-cases, inl, inr, All, All-append, All-if,
}
use event_watch.Core.Topic.{validate_topic}
use event_watch.Store.{Store}
use event_watch.StoreApi.{Env}
use event_watch.StoreApi.Memory.{memory}
use event_watch.Broker.{Broker}
use event_watch.Transport.Ws.{Session, handle, forward, close_all_subs}
use event_watch.Transport.Ws as Ws
use event_watch.Client.{Client, resubscribe_all}
use event_watch.Client.Wire.{OutFrame, received}
use event_watch.Client.Upstream.{
  served, after_queue, after_queue-append, after_queue-false, has_topic, IsSubscribable, Advances,
}
use event_watch.Client.Upstream.Steps.{resubscribe_all-Advances, resumes}
use event_watch.Client.Mirror.Server.{handle-served}

-- Whether the session of a connection watches a topic.
abbrev pub watches : Session → String → Bool
watches s t = is_some (lookup t s.subs)

-- The client alone: what it sends names valid topics, and, unless it is closed, a topic without
-- callbacks is not left subscribed by the frames that wait.
pub record IsReady (c : Client) : Type 0 where
  pub frames_ok : All IsSubscribable c.send_ch
  pub topics_ok : (t : String) → has_topic c t ≡ true → validate_topic t ≡ true
  pub settled :
      c.closed ≡ false
      → (t : String) → has_topic c t ≡ false
      → after_queue t false c.send_ch ≡ false

-- With a session: unless the client is closed, the session watches, once it has handled the frames
-- that wait, the topics that have callbacks, and no others.
abbrev pub IsMirroredBy : Client → Session → Type 0
IsMirroredBy c s =
    c.closed ≡ false → (t : String) → after_queue t (watches s t) c.send_ch ≡ has_topic c t

abbrev pub IsMirroredBy? : Client → Option Session → Type 0
IsMirroredBy? c none = Unit
IsMirroredBy? c (some s) = IsMirroredBy c s

queue_open :
    {c c' : Client} (a : Advances c c') → c.closed ≡ false → c'.send_ch ≡ c.send_ch ++ a.added
queue_open {c} {c'} a o = a.queue ∙ rw o refl

pub advance-IsReady : {c c' : Client} → Advances c c' → IsReady c → IsReady c'
advance-IsReady {c} {c'} a r = record {
  frames_ok = subst (All IsSubscribable) (sym a.queue) (
      All-if IsSubscribable c.closed _ _ r.frames_ok
        (All-append IsSubscribable c.send_ch a.added r.frames_ok a.subscribable));
  topics_ok = λ t h. elim (a.valid t h) [ inl old ↦ r.topics_ok t old | inr valid ↦ valid ];
  settled = λ o t h.
      let open_before : c.closed ≡ false = sym a.closed_same ∙ o in
      let left = after_queue t false c.send_ch in
      let parts : after_queue t false c'.send_ch ≡ after_queue t left a.added =
        ap (after_queue t false) (queue_open a open_before)
        ∙ after_queue-append t false c.send_ch a.added in
      let gone : after_queue t (has_topic c t) a.added ≡ false = sym (a.keys t) ∙ h in
      elim (Bool-cases (has_topic c t)) [
        | inl there ↦
            parts
            ∙ after_queue-false t left a.added
                (ap (λ b. after_queue t b a.added) (sym there) ∙ gone)
        | inr free ↦
            parts
            ∙ ap (λ b. after_queue t b a.added) (r.settled open_before t free ∙ sym free)
            ∙ gone
      ];
}

pub advance-IsMirroredBy :
    {c c' : Client} (s : Session) → Advances c c' → IsMirroredBy c s → IsMirroredBy c' s
advance-IsMirroredBy {c} {c'} s a m o t =
    let open_before : c.closed ≡ false = sym a.closed_same ∙ o in
    ap (after_queue t (watches s t)) (queue_open a open_before)
    ∙ after_queue-append t (watches s t) c.send_ch a.added
    ∙ ap (λ b. after_queue t b a.added) (m open_before t)
    ∙ sym (a.keys t)

pub taken-IsReady :
    (c : Client) (f : OutFrame) (fs : List OutFrame)
    → c.send_ch ≡ f ∷ fs
    → IsReady c
    → IsReady (record c { send_ch = fs })
taken-IsReady c f fs e r = record {
  frames_ok = (subst (All IsSubscribable) e r.frames_ok).1;
  topics_ok = r.topics_ok;
  settled = λ o t h. elim (Bool-cases (served t f false)) [
    | inl kept ↦ after_queue-false t false fs (
        ap (λ b. after_queue t b fs) (sym kept)
        ∙ ap (after_queue t false) (sym e)
        ∙ r.settled o t h)
    | inr gone ↦
        ap (λ b. after_queue t b fs) (sym gone) ∙ ap (after_queue t false) (sym e) ∙ r.settled o t h
  ];
}

pub write-IsMirroredBy :
    (c : Client) (b : Broker Store) (s : Session) (env : Env) (f : OutFrame) (fs : List OutFrame)
    → c.send_ch ≡ f ∷ fs
    → IsReady c
    → IsMirroredBy c s
    → IsMirroredBy (record c { send_ch = fs }) (handle memory b s env (received f)).1
write-IsMirroredBy c b s env f fs e r m o t =
    let ok_frame = (subst (All IsSubscribable) e r.frames_ok).0 in
    ap (λ w. after_queue t w fs) (handle-served b s env f t ok_frame)
    ∙ ap (after_queue t (watches s t)) (sym e)
    ∙ m o t

new-watches : (t : String) → watches Ws.new t ≡ false
unfolding Ws.new lookup
new-watches t = refl

joined_left : (k left : Bool) → (k ≡ false → left ≡ false) → (k || left) ≡ k
joined_left true left h = refl
joined_left false left h = h refl

or_self : (k : Bool) → (k || k) ≡ k
or_self true = refl
or_self false = refl

pub reconnect-IsMirroredBy : (c : Client) → IsReady c → IsMirroredBy (resubscribe_all c) Ws.new
reconnect-IsMirroredBy c r o t =
    let (a, same) = resubscribe_all-Advances c r.topics_ok in
    let open_before : c.closed ≡ false = sym a.closed_same ∙ o in
    let left = after_queue t false c.send_ch in
    ap (λ w. after_queue t w (resubscribe_all c).send_ch) (new-watches t)
    ∙ ap (after_queue t false) (queue_open a open_before)
    ∙ after_queue-append t false c.send_ch a.added
    ∙ ap (after_queue t left) same
    ∙ resumes t c.topics left
    ∙ joined_left (has_topic c t) left (r.settled open_before t)
    ∙ sym (
        a.keys t
        ∙ ap (after_queue t (has_topic c t)) same
        ∙ resumes t c.topics (has_topic c t)
        ∙ or_self (has_topic c t))
