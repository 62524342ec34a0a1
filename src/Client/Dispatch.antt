-- ===== src/Client/Dispatch.antt =====
-- What the client does with the frames of a session.
use event_watch.Base.{
  ℕ, ◌≡◌, refl, ap, ◌∙◌, String, some, List, [], ◌∷◌, ◌++◌, map, ltb, if◌then◌else◌, eq_iff, arith,
  lookup, insert, lookup-insert, All,
}
use event_watch.Core.{Event}
use event_watch.Transport.Ws.{OutMsg, event, ack, state, error, lagging, pong}
use event_watch.Transport.Ws.Subscribe.{events_in, IsOn}
use event_watch.Client.{
  Client, TopicSub, Delivery, calls, answers, saw, on_event, on_response, dispatch, dispatch_all,
}
use event_watch.Client.Wire.{InFrame, decoded}

-- The calls of callbacks, in order.
abbrev pub calls_in : List Delivery → List Delivery
calls_in [] = []
calls_in (calls t ids e ∷ ds) = calls t ids e ∷ calls_in ds
calls_in (answers r p ∷ ds) = calls_in ds

calls_in-append : (xs ys : List Delivery) → calls_in (xs ++ ys) ≡ calls_in xs ++ calls_in ys
calls_in-append [] ys = refl
calls_in-append (calls t ids e ∷ xs) ys = ap (λ l. calls t ids e ∷ l) (calls_in-append xs ys)
calls_in-append (answers r p ∷ xs) ys = calls_in-append xs ys

on_response-quiet :
    (c : Client) (f : InFrame)
    → ((on_response c f).0.topics ≡ c.topics) × (calls_in (on_response c f).1 ≡ [])
unfolding on_response
on_response-quiet c f = ground arith

-- The highest seq of the events, and of a number.
abbrev pub highest : ℕ → List Event → ℕ
highest n [] = n
highest n (e ∷ es) = highest (if ltb n e.seq then e.seq else n) es

abbrev pub saw_all : TopicSub → List Event → TopicSub
saw_all ts es = record ts { last_seen_seq = highest ts.last_seen_seq es }

module _ (t : String) where
  lookup_written :
      (ts : TopicSub) (m : List (String × TopicSub)) → lookup t (insert t ts m) ≡ some ts
  lookup_written ts m = ground (arith, lookup-insert t t ts m, eq_iff t t)

  on_event-called :
      (c : Client) (ts : TopicSub) (t' : String) (e : Event)
      → lookup t c.topics ≡ some ts
      → t' ≡ t
      → (lookup t (on_event c t' (some e)).0.topics ≡ some (saw ts e))
        × (calls_in (on_event c t' (some e)).1 ≡ calls t ts.callbacks e ∷ [])
  unfolding on_event
  on_event-called c ts t' e there same =
      rw same (rw (there, on_event) (lookup_written (saw ts e) c.topics, refl))

  step_quiet :
      (c : Client) (m : OutMsg)
      → IsOn t m
      → events_in (m ∷ []) ≡ []
      → ((dispatch c (decoded m)).0.topics ≡ c.topics) × (calls_in (dispatch c (decoded m)).1 ≡ [])
  unfolding dispatch
  step_quiet c (event t' e) on none_in = cc none_in
  step_quiet c (ack t' n r) on none_in = on_response-quiet c (decoded (ack t' n r))
  step_quiet c (state t' raw r) on none_in = on_response-quiet c (decoded (state t' raw r))
  step_quiet c (error x t' r) on none_in = on_response-quiet c (decoded (error x t' r))
  step_quiet c (lagging t' n) on none_in = (refl, refl)
  step_quiet c pong on none_in = (refl, refl)

  quiet :
      (c : Client) (ts : TopicSub) (m : OutMsg)
      → lookup t c.topics ≡ some ts
      → IsOn t m
      → events_in (m ∷ []) ≡ []
      → (lookup t (dispatch c (decoded m)).0.topics ≡ some (saw_all ts (events_in (m ∷ []))))
        × (calls_in (dispatch c (decoded m)).1 ≡ map (calls t ts.callbacks) (events_in (m ∷ [])))
  quiet c ts m there on none_in =
      let (same, called) = step_quiet c m on none_in in
      rw none_in (ap (lookup t) same ∙ there, called)

  saw_all-cons :
      (ts : TopicSub) (m : OutMsg) (ms : List OutMsg)
      → saw_all (saw_all ts (events_in (m ∷ []))) (events_in ms) ≡ saw_all ts (events_in (m ∷ ms))
  saw_all-cons ts (event t' e) ms = refl
  saw_all-cons ts (ack t' n r) ms = refl
  saw_all-cons ts (state t' raw r) ms = refl
  saw_all-cons ts (error x t' r) ms = refl
  saw_all-cons ts (lagging t' n) ms = refl
  saw_all-cons ts pong ms = refl

  map_cons :
      (m : OutMsg) (ms : List OutMsg) (ts : TopicSub)
      → map (calls t ts.callbacks) (events_in (m ∷ [])) ++ map (calls t ts.callbacks) (events_in ms)
        ≡ map (calls t ts.callbacks) (events_in (m ∷ ms))
  map_cons (event t' e) ms ts = refl
  map_cons (ack t' n r) ms ts = refl
  map_cons (state t' raw r) ms ts = refl
  map_cons (error x t' r) ms ts = refl
  map_cons (lagging t' n) ms ts = refl
  map_cons pong ms ts = refl

  -- One frame: the calls that it makes, and what is known of the topic afterwards.
  step_called :
      (c : Client) (ts : TopicSub) (m : OutMsg)
      → lookup t c.topics ≡ some ts
      → IsOn t m
      → (lookup t (dispatch c (decoded m)).0.topics ≡ some (saw_all ts (events_in (m ∷ []))))
        × (calls_in (dispatch c (decoded m)).1 ≡ map (calls t ts.callbacks) (events_in (m ∷ [])))
  unfolding dispatch
  step_called c ts (event t' e) there on = on_event-called c ts t' e there on
  step_called c ts (ack t' n r) there on = quiet c ts (ack t' n r) there on refl
  step_called c ts (state t' raw r) there on = quiet c ts (state t' raw r) there on refl
  step_called c ts (error x t' r) there on = quiet c ts (error x t' r) there on refl
  step_called c ts (lagging t' n) there on = quiet c ts (lagging t' n) there on refl
  step_called c ts pong there on = quiet c ts pong there on refl

  -- A client with callbacks for a topic calls all of them with every event of the frames of a
  -- session for it, in order and once, and remembers the highest seq.
  pub dispatch_all-called :
      (ms : List OutMsg) (c : Client) (ts : TopicSub)
      → lookup t c.topics ≡ some ts
      → All (IsOn t) ms
      → let (c', ds) = dispatch_all c (map decoded ms) in
        (lookup t c'.topics ≡ some (saw_all ts (events_in ms)))
        × (calls_in ds ≡ map (calls t ts.callbacks) (events_in ms))
  unfolding dispatch_all
  dispatch_all-called [] c ts there on = (there, refl)
  dispatch_all-called (m ∷ ms) c ts there (on, rest) =
      let (there', called) = step_called c ts m there on in
      let c' = (dispatch c (decoded m)).0 in
      let (there'', called') =
        dispatch_all-called ms c' (saw_all ts (events_in (m ∷ []))) there' rest in
      (
        there'' ∙ ap some (saw_all-cons ts m ms),
        calls_in-append (dispatch c (decoded m)).1 (dispatch_all c' (map decoded ms)).1
            ∙ rw (called, called') (map_cons m ms ts),
      )
