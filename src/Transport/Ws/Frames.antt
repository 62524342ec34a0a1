-- ===== src/Transport/Ws/Frames.antt =====
-- The frames that a subscription puts into the channel of its session.
use event_watch.Base.{
  ℕ, zero, suc, ◌≤◌, ◌≡◌, refl, sym, ap, ◌∙◌, String, true, false, some, List, [], ◌∷◌, ◌++◌, map,
  take, filter, length, ltb, leb, ==_iff, if◌then◌else◌, arith, sub64, Bool-cases, inl, inr,
  take-take-append, take-append_fits, take_full, length-take,
}
use mathlib.Core.List.{append_assoc, append-nil}
use event_watch.Core.{Event}
use event_watch.Hub.{Subscription, receive}
use event_watch.StoreApi.{StoreApi}
use event_watch.Broker.{Broker}
use event_watch.Transport.Ws.{
  Session, Forward, OutMsg, event, lagging, out_buf, update, send, send_all, forward, forward_event,
}

pub send-out :
    (s : Session) (m : OutMsg)
    → length s.out ≤ out_buf
    → (send s m).out ≡ take out_buf (s.out ++ m ∷ [])
unfolding send
send-out s m l = elim (Bool-cases (ltb (length s.out) out_buf)) [
  | inl room ↦ rw room (sym (take-append_fits out_buf s.out (m ∷ []) (ground arith)))
  | inr full ↦ rw full (sym (take_full out_buf s.out (m ∷ []) (ground arith)))
]

pub send-forwards : (s : Session) (m : OutMsg) → (send s m).forwards ≡ s.forwards
unfolding send
send-forwards s m = ground arith

pub length-send :
    (s : Session) (m : OutMsg) → length s.out ≤ out_buf → length (send s m).out ≤ out_buf
length-send s m l = omega (arith, ap length (send-out s m l), length-take out_buf (s.out ++ m ∷ []))

pub send_all-out :
    (s : Session) (topic : String) (es : List Event)
    → length s.out ≤ out_buf
    → ((send_all s topic es).out ≡ take out_buf (s.out ++ map (event topic) es))
      × (length (send_all s topic es).out ≤ out_buf)
unfolding send_all
send_all-out s topic [] l =
    (sym (take-append_fits out_buf s.out [] (omega arith) ∙ append-nil s.out), l)
send_all-out s topic (e ∷ es) l =
    let (same, fits) =
      send_all-out (send s (event topic e)) topic es (length-send s (event topic e) l) in
    (
      same
          ∙ ap (λ o. take out_buf (o ++ map (event topic) es)) (send-out s (event topic e) l)
          ∙ take-take-append out_buf (s.out ++ event topic e ∷ []) (map (event topic) es)
          ∙ ap (take out_buf) (append_assoc s.out (event topic e ∷ []) (map (event topic) es)),
      fits,
    )

-- The announcement of lost events, before the first event that is forwarded.
abbrev pub lead : Forward → Subscription → List Event → List OutMsg
lead fw sub [] = []
lead fw sub (e ∷ es) =
    if ltb fw.last_lag sub.lag then lagging sub.topic (sub64 sub.lag fw.last_lag) ∷ [] else []

abbrev pub past : Forward → List Event → List Event
past fw es = filter (λ e. ltb fw.fence e.seq) es

abbrev pub frames : Forward → Subscription → List Event → List OutMsg
frames fw sub es = lead fw sub (past fw es) ++ map (event sub.topic) (past fw es)

-- The forwarder takes `k` events.
unfoldable pub forward_times :
    {S : Type 0} → StoreApi S → ℕ → Broker S → Session → ℕ → Broker S × Session
forward_times api zero b s id = (b, s)
forward_times api (suc k) b s id = let (b', s') = forward api b s id in forward_times api k b' s' id

-- One event, taken from a channel that holds it first.
module _ {S : Type 0} (api : StoreApi S) (b : Broker S) (s : Session) (id : ℕ) (fw : Forward)
    (sub : Subscription) (e : Event) (es : List Event) (running : s.forwards id ≡ some fw)
    (found : b.hub.objects id ≡ some sub) (queued : sub.queue ≡ e ∷ es) where
  forward_taken :
      ((forward api b s id).1 ≡ forward_event s id fw sub e)
      × ((forward api b s id).0.hub.objects id ≡ some (record sub { queue = es }))
  unfolding forward receive
  forward_taken = ground (arith, ==_iff id id)

lead_none :
    (fw : Forward) (sub : Subscription) (es : List Event)
    → ltb fw.last_lag sub.lag ≡ false
    → lead fw sub es ≡ []
lead_none fw sub [] h = refl
lead_none fw sub (e ∷ es) h = rw h refl

-- What one event leaves: the forwarder `fw'`, and the frames `sent`.
record Advanced (s s' : Session) (id : ℕ) (fw : Forward) (sub : Subscription) (e : Event)
    (q : List Event) : Type 0 where
  fw' : Forward
  sent : List OutMsg
  running : s'.forwards id ≡ some fw'
  out : s'.out ≡ take out_buf (s.out ++ sent)
  rest : sent ++ frames fw' sub q ≡ frames fw sub (e ∷ q)

module _ (s : Session) (id : ℕ) (fw : Forward) (sub : Subscription) (e : Event) (q : List Event)
    (runs : s.forwards id ≡ some fw) (l : length s.out ≤ out_buf) where
  forward_event-skip :
      leb e.seq fw.fence ≡ true → Advanced s (forward_event s id fw sub e) id fw sub e q
  unfolding forward_event
  forward_event-skip h =
      rw (h, forward_event)
        (record {
          fw' = fw;
          sent = [];
          running = runs;
          out = sym (take-append_fits out_buf s.out [] (omega arith) ∙ append-nil s.out);
          rest = ground arith;
        })

  forward_event-lagging :
      leb e.seq fw.fence ≡ false
      → ltb fw.last_lag sub.lag ≡ true
      → Advanced s (forward_event s id fw sub e) id fw sub e q
  unfolding forward_event
  forward_event-lagging h lost =
      let first = lagging sub.topic (sub64 sub.lag fw.last_lag) in
      let fw' = record fw { last_lag = sub.lag } in
      let ev = event sub.topic e in
      let s₁ = record (send s first) { forwards = update s.forwards id (some fw') } in
      let passes : ltb fw.fence e.seq ≡ true = ground arith in
      rw (h, lost, forward_event)
        (record {
          fw' = fw';
          sent = first ∷ event sub.topic e ∷ [];
          running = ap (λ f. f id) (send-forwards s₁ ev) ∙ ground (arith, ==_iff id id);
          out =
              send-out s₁ ev (length-send s first l)
              ∙ ap (λ o. take out_buf (o ++ ev ∷ [])) (send-out s first l)
              ∙ take-take-append out_buf (s.out ++ first ∷ []) (ev ∷ [])
              ∙ ap (take out_buf) (append_assoc s.out (first ∷ []) (ev ∷ []));
          rest =
              ap (λ m. first ∷ event sub.topic e ∷ m ++ map (event sub.topic) (past fw q))
                (lead_none fw' sub (past fw q) (ground arith))
              ∙ rw (passes, lost) refl;
        })

  forward_event-plain :
      leb e.seq fw.fence ≡ false
      → ltb fw.last_lag sub.lag ≡ false
      → Advanced s (forward_event s id fw sub e) id fw sub e q
  unfolding forward_event
  forward_event-plain h none_lost =
      let ev = event sub.topic e in
      let passes : ltb fw.fence e.seq ≡ true = ground arith in
      rw (h, none_lost, forward_event)
        (record {
          fw' = fw;
          sent = event sub.topic e ∷ [];
          running = ap (λ f. f id) (send-forwards s ev) ∙ runs;
          out = send-out s (event sub.topic e) l;
          rest =
              ap (λ m. ev ∷ m ++ map (event sub.topic) (past fw q))
                (lead_none fw sub (past fw q) none_lost)
              ∙ rw (passes, none_lost) refl;
        })

  forward_event-Advanced : Advanced s (forward_event s id fw sub e) id fw sub e q
  forward_event-Advanced = elim (Bool-cases (leb e.seq fw.fence)) [
    | inl old ↦ forward_event-skip old
    | inr new ↦ elim (Bool-cases (ltb fw.last_lag sub.lag)) [
      | inl lost ↦ forward_event-lagging new lost
      | inr none_lost ↦ forward_event-plain new none_lost
    ]
  ]

-- Whatever the channel of a subscription holds, its forwarder empties it and sends, in order, the
-- events past the fence, after one frame with the number of events lost since the last such frame
-- if there are any and an event follows; a full channel of the session cuts the end off.
pub forward_times-frames :
    {S : Type 0} (api : StoreApi S) (q : List Event) (b : Broker S) (s : Session) (id : ℕ)
    (fw : Forward) (sub : Subscription)
    → s.forwards id ≡ some fw
    → b.hub.objects id ≡ some sub
    → sub.queue ≡ q
    → length s.out ≤ out_buf
    → let (b', s') = forward_times api (length q) b s id in
      (s'.out ≡ take out_buf (s.out ++ frames fw sub q))
      × (b'.hub.objects id ≡ some (record sub { queue = [] }))
unfolding forward_times
forward_times-frames api [] b s id fw sub running found queued l =
    (sym (take-append_fits out_buf s.out [] (omega arith) ∙ append-nil s.out), found ∙ cc queued)
forward_times-frames api (e ∷ q) b s id fw sub running found queued l =
    let (taken, left) = forward_taken api b s id fw sub e q running found queued in
    let b' = (forward api b s id).0 in
    let s' = (forward api b s id).1 in
    let one = forward_event-Advanced s id fw sub e q running l in
    let out : s'.out ≡ take out_buf (s.out ++ one.sent) =
      ap (λ (u : Session). u.out) taken ∙ one.out in
    let (sent, empty) =
      forward_times-frames api q b' s' id one.fw' (record sub { queue = q })
        (ap (λ (u : Session). u.forwards id) taken ∙ one.running) left refl
        (omega (arith, ap length out, length-take out_buf (s.out ++ one.sent))) in
    (
      sent
          ∙ ap (λ o. take out_buf (o ++ frames one.fw' sub q)) out
          ∙ take-take-append out_buf (s.out ++ one.sent) (frames one.fw' sub q)
          ∙ ap (take out_buf) (append_assoc s.out one.sent (frames one.fw' sub q))
          ∙ ap (λ o. take out_buf (s.out ++ o)) one.rest,
      empty,
    )
