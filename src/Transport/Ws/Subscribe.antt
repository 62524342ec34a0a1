-- ===== src/Transport/Ws/Subscribe.antt =====
-- What a `subscribe` frame answers, and the whole stream that follows it.
use event_watch.Base.{
  ℕ, suc, ◌+◌, ◌≤◌, ◌≡◌, refl, sym, ap, subst, All, All-append, ◌∙◌, String, false, Option, none,
  some, List, [], ◌∷◌, ◌++◌, map, take, length, ==_iff, arith, lookup, take-take-append,
  take-append_fits, length-take, length-append,
}
use mathlib.Core.List.{append-nil}
use event_watch.Core.{Event, Result, ok}
use event_watch.Hub.{Subscription}
use event_watch.Store.{Store}
use event_watch.StoreApi.{StoreApi}
use event_watch.StoreApi.Memory.{memory}
use event_watch.Broker.{Broker, publish_all, attach}
use event_watch.Broker
use event_watch.Broker.Backfill.{seen}
use event_watch.Transport.Ws.{
  Session, Forward, OutMsg, InMsg, event, ack, state, error, lagging, pong, out_buf, send_all,
  handle_subscribe,
}
use event_watch.Transport.Ws.Parse.{parse_from}
use event_watch.Transport.Ws.Frames.{
  send-out, send_all-out, frames, past, lead, forward_times, forward_times-frames,
}

-- The state of a new forwarder.
abbrev pub fresh : ℕ → Forward
fresh fence = record { fence = fence; last_lag = 0; cancelled = false }

-- A `subscribe` frame for a topic that the session does not watch, which the broker accepts: the
-- backfill is sent in order, then an acknowledgement with the fence, as far as the channel has
-- room; and a forwarder starts behind that fence.
pub handle_subscribe_accepted :
    {S : Type 0} (api : StoreApi S) (b b' : Broker S) (s : Session) (m : InMsg) (id fence : ℕ)
    (back : List Event)
    → lookup m.topic s.subs ≡ none
    → Broker.subscribe api b m.topic (parse_from m.from m.from_seq) ≡ (b', ok (id, back, fence))
    → length s.out ≤ out_buf
    → let (b'', s') = handle_subscribe api b s m in
      (b'' ≡ b')
      × (s'.out
          ≡ take out_buf (s.out ++ map (event m.topic) back ++ ack m.topic fence m.req_id ∷ []))
      × (s'.forwards id ≡ some (fresh fence))
unfolding handle_subscribe
handle_subscribe_accepted {S} api b b' s m id fence back free eq l =
    let (sent, fits) = send_all-out s m.topic back l in
    let a = ack m.topic fence m.req_id in
    rw (free, eq, handle_subscribe)
      (
        ap (λ (p : Broker S × Result (ℕ × List Event × ℕ)). p.0) eq,
        send-out (send_all s m.topic back) a fits
            ∙ ap (λ o. take out_buf (o ++ a ∷ [])) sent
            ∙ take-take-append out_buf (s.out ++ map (event m.topic) back) (a ∷ []),
        ground (arith, ==_iff id id),
      )

-- The events of the `event` frames, in order.
abbrev pub events_in : List OutMsg → List Event
events_in [] = []
events_in (event t e ∷ ms) = e ∷ events_in ms
events_in (_ ∷ ms) = events_in ms

events_in-append : (xs ys : List OutMsg) → events_in (xs ++ ys) ≡ events_in xs ++ events_in ys
events_in-append [] ys = refl
events_in-append (event t e ∷ xs) ys = ap (λ l. e ∷ l) (events_in-append xs ys)
events_in-append (ack t n r ∷ xs) ys = events_in-append xs ys
events_in-append (state t raw r ∷ xs) ys = events_in-append xs ys
events_in-append (error x t r ∷ xs) ys = events_in-append xs ys
events_in-append (lagging t n ∷ xs) ys = events_in-append xs ys
events_in-append (pong ∷ xs) ys = events_in-append xs ys

events_in-map : (t : String) (es : List Event) → events_in (map (event t) es) ≡ es
events_in-map t [] = refl
events_in-map t (e ∷ es) = ap (λ l. e ∷ l) (events_in-map t es)

events_in-frames :
    (fw : Forward) (sub : Subscription) (es : List Event)
    → events_in (frames fw sub es) ≡ past fw es
events_in-frames fw sub es =
    events_in-append (lead fw sub (past fw es)) (map (event sub.topic) (past fw es))
    ∙ ap (λ l. l ++ events_in (map (event sub.topic) (past fw es))) (no_events (past fw es))
    ∙ events_in-map sub.topic (past fw es)
  where
    no_events : (l : List Event) → events_in (lead fw sub l) ≡ []
    no_events [] = refl
    no_events (e ∷ l) = ground arith

length-map-event : (t : String) (l : List Event) → length (map (event t) l) ≡ length l
length-map-event t [] = refl
length-map-event t (e ∷ l) = ap suc (length-map-event t l)

length-frames :
    (fw : Forward) (sub : Subscription) (es : List Event)
    → length (frames fw sub es) ≤ length (past fw es) + 1
length-frames fw sub es = go (past fw es)
  where
    go : (l : List Event) → length (lead fw sub l ++ map (event sub.topic) l) ≤ length l + 1
    go [] = omega arith
    go (e ∷ l) = ground (arith, length-map-event sub.topic l)

-- What the channel of a subscription holds.
abbrev pub channel : Option Subscription → List Event
channel none = []
channel (some sub) = sub.queue

-- An `event` frame is for the topic.
abbrev pub IsOn : String → OutMsg → Type 0
IsOn t (event t' e) = t' ≡ t
IsOn t _ = Unit

map-IsOn : (t t' : String) (es : List Event) → t' ≡ t → All (IsOn t) (map (event t') es)
map-IsOn t t' [] e = tt
map-IsOn t t' (x ∷ es) e = (e, map-IsOn t t' es e)

frames-IsOn :
    (t : String) (fw : Forward) (sub : Subscription) (es : List Event)
    → sub.topic ≡ t
    → All (IsOn t) (frames fw sub es)
frames-IsOn t fw sub es e =
    All-append (IsOn t) (lead fw sub (past fw es)) (map (event sub.topic) (past fw es))
      (lead-IsOn (past fw es)) (map-IsOn t sub.topic (past fw es) e)
  where
    lead-IsOn : (l : List Event) → All (IsOn t) (lead fw sub l)
    lead-IsOn [] = tt
    lead-IsOn (e ∷ l) = ground arith

-- What is sent in all, once the forwarder of a new subscription has emptied its channel.
module _ (b : Broker Store) (s : Session) (t r : String) (id fence : ℕ) (sub : Subscription)
    (back : List Event) (runs : s.forwards id ≡ some (fresh fence))
    (found : b.hub.objects id ≡ some sub)
    (out : s.out ≡ take out_buf (map (event t) back ++ ack t fence r ∷ []))
    (room : length back + length (past (fresh fence) sub.queue) + 2 ≤ out_buf) where
  abbrev first : List OutMsg
  first = map (event t) back ++ ack t fence r ∷ []

  abbrev later : List OutMsg
  later = frames (fresh fence) sub sub.queue

  abbrev pub all_sent : List OutMsg
  all_sent = (forward_times memory (length (channel (b.hub.objects id))) b s id).1.out

  all_sent-eq : all_sent ≡ first ++ later
  all_sent-eq =
      let fw = fresh fence in
      let size : length first ≡ length back + 1 =
        length-append (map (event t) back) (ack t fence r ∷ [])
        ∙ ap (λ k. k + 1) (length-map-event t back) in
      let short : length s.out ≤ out_buf =
        omega (arith, ap length out, length-take out_buf first) in
      let (sent, empty) =
        forward_times-frames memory sub.queue b s id fw sub runs found refl short in
      ap (λ o. (forward_times memory (length (channel o)) b s id).1.out) found
      ∙ sent
      ∙ ap (λ o. take out_buf (o ++ later)) out
      ∙ take-take-append out_buf first later
      ∙ take-append_fits out_buf first later
          (omega (arith, size, room, length-frames fw sub sub.queue))

  pub all_sent-events : events_in all_sent ≡ seen fence back sub.queue
  all_sent-events =
      ap events_in all_sent-eq
      ∙ events_in-append first later
      ∙ ap (λ l. l ++ events_in later)
          (events_in-append (map (event t) back) (ack t fence r ∷ [])
            ∙ append-nil (events_in (map (event t) back))
            ∙ events_in-map t back)
      ∙ ap (λ l. back ++ l) (events_in-frames (fresh fence) sub sub.queue)

  pub all_sent-IsOn : sub.topic ≡ t → All (IsOn t) all_sent
  all_sent-IsOn named = subst (All (IsOn t)) (sym all_sent-eq) (
      All-append (IsOn t) first later
        (All-append (IsOn t) (map (event t) back) (ack t fence r ∷ []) (map-IsOn t t back refl)
          (tt, tt))
        (frames-IsOn t (fresh fence) sub sub.queue named))
