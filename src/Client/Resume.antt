-- ===== src/Client/Resume.antt =====
-- What a client gets that dials again after its connection has dropped.
use event_watch.Base.{
  ℕ, ◌+◌, ◌≤◌, ◌<◌, ◌≡◌, refl, sym, ap, subst, ◌∙◌, String, true, some, List, [], ◌∷◌, map, filter,
  length, leb, arith, lookup, word_mod,
}
use event_watch.Core.{Event}
use event_watch.Core.Topic.{validate_topic}
use event_watch.Store.{Store, events_of}
use event_watch.StoreApi.{Env}
use event_watch.StoreApi.Memory.{memory}
use event_watch.Broker.{Broker, publish_all, attach}
use event_watch.Broker.Run.{IsConsistent}
use event_watch.Broker.Stream.{plain}
use event_watch.Broker.Backfill.{at_end}
use event_watch.Transport.Ws.{OutMsg, out_buf, handle_subscribe}
use event_watch.Transport.Ws as Ws
use event_watch.Transport.Ws.Frames.{forward_times}
use event_watch.Transport.Ws.Subscribe.{events_in, channel}
use event_watch.Transport.Ws.Gapless.{session_gapless}
use event_watch.Client.{Client, TopicSub, Delivery, calls, answers, resume_frame, dispatch_all}
use event_watch.Client.Wire.{OutFrame, received, decoded, blank_out, subscribe_frame}
use event_watch.Client.Dispatch.{calls_in, dispatch_all-called}

resume_frame-eq :
    (t : String) (ts : TopicSub)
    → 0 < ts.last_seen_seq
    → ts.last_seen_seq + 1 < word_mod
    → resume_frame (t, ts)
      ≡ record blank_out { op = "subscribe"; topic = t; from_seq = ts.last_seen_seq + 1 }
unfolding subscribe_frame
resume_frame-eq t ts seen room = ground arith

-- The events that the callbacks are called with, without the state of the live copies.
abbrev pub heard : List Delivery → List (String × List ℕ × Event)
heard [] = []
heard (calls t ids e ∷ ds) = (t, ids, plain e) ∷ heard ds
heard (answers r p ∷ ds) = heard ds

heard-calls_in : (ds : List Delivery) → heard (calls_in ds) ≡ heard ds
heard-calls_in [] = refl
heard-calls_in (calls t ids e ∷ ds) = ap (λ l. (t, ids, plain e) ∷ l) (heard-calls_in ds)
heard-calls_in (answers r p ∷ ds) = heard-calls_in ds

heard-map :
    (t : String) (ids : List ℕ) (es : List Event)
    → heard (map (calls t ids) es) ≡ map (λ e. (t, ids, e)) (map plain es)
heard-map t ids [] = refl
heard-map t ids (e ∷ es) = ap (λ l. (t, ids, plain e) ∷ l) (heard-map t ids es)

-- A session that answers a frame, with what is published meanwhile: all the frames that it sends
-- once its forwarder has emptied the channel, and the broker.
abbrev pub answered :
    Broker Store → OutFrame → List (Env × Event × String) → List OutMsg × Broker Store
answered b f qs =
    let (b₁, s₁) = handle_subscribe memory b Ws.new (received f) in
    let b₂ = publish_all memory b₁ qs in
    let id = (attach memory b f.topic).1 in
    ((forward_times memory (length (channel (b₂.hub.objects id))) b₂ s₁ id).1.out, b₂)

module _ (b : Broker Store) (c : Client) (t : String) (ts : TopicSub)
    (qs : List (Env × Event × String)) where
  abbrev log_at_end : List Event
  log_at_end = events_of (at_end b t (ts.last_seen_seq + 1) [] qs).store t

  -- A client that has callbacks for a topic and has seen its events up to a seq dials again: the
  -- connection dropped, and what was published since is in the log of the server. Whatever is
  -- published once the server has handled the frame with which the client resumes, if that is no
  -- more than the subscription's buffer holds, and the events past that seq, however long the log is
  -- before them, leave two of the 512 places of the session's output free: the client calls all the
  -- callbacks of the topic, and no others, with every event of the log past that seq, in order and
  -- each once, but for the state of the live copies.
  pub resume_gapless :
      IsConsistent b
      → validate_topic t ≡ true
      → lookup t c.topics ≡ some ts
      → 0 < ts.last_seen_seq
      → ts.last_seen_seq ≤ length (events_of b.store t)
      → ts.last_seen_seq + 1 < word_mod
      → b.hub.next + 1 < word_mod
      → length log_at_end ≤ length (events_of b.store t) + b.hub.buf
      → length (filter (λ e. leb (ts.last_seen_seq + 1) e.seq) log_at_end) + 2 ≤ out_buf
      → let (sent, b₂) = answered b (resume_frame (t, ts)) qs in
        heard (dispatch_all c (map decoded sent)).1
        ≡ map
            (λ e. (t, ts.callbacks, e))
            (map plain (filter (λ e. leb (ts.last_seen_seq + 1) e.seq) (events_of b₂.store t)))
  resume_gapless ok valid there seen le word room fits small =
      let v = ts.last_seen_seq + 1 in
      let f : OutFrame = record blank_out { op = "subscribe"; topic = t; from_seq = v } in
      let (on, same) =
        session_gapless b (received f) qs ok valid (omega arith) room (omega arith) fits small in
      let sent = (answered b f qs).0 in
      let (left, called) = dispatch_all-called t sent c ts there on in
      subst
        (λ (g : OutFrame).
          heard (dispatch_all c (map decoded (answered b g qs).0)).1
          ≡ map (λ e. (t, ts.callbacks, e))
              (map plain (filter (λ e. leb v e.seq) (events_of (answered b g qs).1.store t))))
        (sym (resume_frame-eq t ts seen word))
        (sym (heard-calls_in (dispatch_all c (map decoded sent)).1)
          ∙ ap heard called
          ∙ heard-map t ts.callbacks (events_in sent)
          ∙ ap (map (λ e. (t, ts.callbacks, e))) same)
