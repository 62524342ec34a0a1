-- ===== src/Client/Mirror/Invariant.antt =====
-- The session watches the topics for which the client has callbacks.
use event_watch.Base.{
  ℕ, ◌≡◌, refl, ap, ◌∙◌, subst, String, false, Option, none, some, List, [], ◌∷◌, lookup, is_some,
}
use event_watch.Store.{Store}
use event_watch.StoreApi.{Env}
use event_watch.Broker.{Broker}
use event_watch.Transport.Ws.{Session}
use event_watch.Client
use event_watch.Client.{
  Client, with_reconnect, subscribe, remove_callback, close, dispatch, publish, get_state,
  cancel_request, resubscribe_all, resume_frame, take_frame, request,
}
use event_watch.Client.Wire.{publish_frame, get_state_frame, OutFrame}
use event_watch.Client.Upstream.{after_queue, has_topic, Advances, quiet_step}
use event_watch.Client.Upstream.Steps.{
  subscribe-Advances, remove_callback-Advances, dispatch-Advances, request-Advances,
  resubscribe_all-Advances,
}
use event_watch.Client.Mirror.{
  Link, LinkCall, subscribes, closes_handle, publishes, gets_state, gives_up, dispatches, closes,
  writes, forwards, loses_frame, drops, reconnects, elsewhere, write, drop_link, lose_frame,
  reconnect, forward_link, step, Reach, here, next,
}
use event_watch.Client.Mirror.Server.{forward-subs}
use event_watch.Client.Mirror.Ready.{
  watches, IsReady, IsMirroredBy?, advance-IsReady, advance-IsMirroredBy, taken-IsReady,
  write-IsMirroredBy, reconnect-IsMirroredBy,
}

pub record IsMirrored (l : Link) : Type 0 where
  pub ready : IsReady l.client
  pub mirrored : IsMirroredBy? l.client l.session

abbrev link : Client → Broker Store → Option Session → Link
link c b o = record { client = c; broker = b; session = o }

write-IsMirrored :
    (c : Client) (b : Broker Store) (o : Option Session) (q : List OutFrame) (env : Env)
    → IsReady (record c { send_ch = q })
    → IsMirroredBy? (record c { send_ch = q }) o
    → IsMirrored (write (link (record c { send_ch = q }) b o) env)
unfolding write take_frame
write-IsMirrored c b none q env r m = record { ready = r; mirrored = m }
write-IsMirrored c b (some s) [] env r m = record { ready = r; mirrored = m }
write-IsMirrored c b (some s) (f ∷ fs) env r m = record {
  ready = taken-IsReady (record c { send_ch = f ∷ fs }) f fs refl r;
  mirrored = write-IsMirroredBy (record c { send_ch = f ∷ fs }) b s env f fs refl r m;
}

drop_link-IsMirrored :
    (c : Client) (b : Broker Store) (o : Option Session)
    → IsReady c
    → IsMirrored (drop_link (link c b o))
unfolding drop_link
drop_link-IsMirrored c b none r = record { ready = r; mirrored = tt }
drop_link-IsMirrored c b (some s) r = record { ready = r; mirrored = tt }

lose_frame-IsMirrored :
    (c : Client) (b : Broker Store) (o : Option Session) (q : List OutFrame)
    → IsReady (record c { send_ch = q })
    → IsMirrored (lose_frame (link (record c { send_ch = q }) b o))
unfolding lose_frame take_frame
lose_frame-IsMirrored c b none q r = record { ready = r; mirrored = tt }
lose_frame-IsMirrored c b (some s) [] r = record { ready = r; mirrored = tt }
lose_frame-IsMirrored c b (some s) (f ∷ fs) r = record {
  ready = taken-IsReady (record c { send_ch = f ∷ fs }) f fs refl r;
  mirrored = tt;
}

reconnect-IsMirrored :
    (c : Client) (b : Broker Store) (o : Option Session)
    → IsReady c
    → IsMirroredBy? c o
    → IsMirrored (reconnect (link c b o))
unfolding reconnect
reconnect-IsMirrored c b none r m = record {
  ready = advance-IsReady (resubscribe_all-Advances c r.topics_ok).0 r;
  mirrored = reconnect-IsMirroredBy c r;
}
reconnect-IsMirrored c b (some s) r m = record { ready = r; mirrored = m }

forward_link-IsMirrored :
    (c : Client) (b : Broker Store) (o : Option Session) (id : ℕ)
    → IsReady c
    → IsMirroredBy? c o
    → IsMirrored (forward_link (link c b o) id)
unfolding forward_link
forward_link-IsMirrored c b none id r m = record { ready = r; mirrored = m }
forward_link-IsMirrored c b (some s) id r m = record {
  ready = r;
  mirrored = λ o t.
      ap (λ subs. after_queue t (is_some (lookup t subs)) c.send_ch) (forward-subs b s id) ∙ m o t;
}

advance-IsMirrored :
    (l : Link) (c : Client)
    → Advances l.client c
    → IsMirrored l
    → IsMirrored (record l { client = c })
advance-IsMirrored l c a i = record {
  ready = advance-IsReady a i.ready;
  mirrored = go l.session i.mirrored;
}
  where
    go : (o : Option Session) → IsMirroredBy? l.client o → IsMirroredBy? c o
    go none m = tt
    go (some s) m = advance-IsMirroredBy s a m

close-IsMirrored : (l : Link) → IsMirrored l → IsMirrored (record l { client = close l.client })
unfolding close
close-IsMirrored l i = record {
  ready = record {
    frames_ok = i.ready.frames_ok;
    topics_ok = i.ready.topics_ok;
    settled = λ o t h. cc o;
  };
  mirrored = go l.session;
}
  where
    go : (o : Option Session) → IsMirroredBy? (close l.client) o
    go none = tt
    go (some s) = λ o t. cc o

step-IsMirrored : (l : Link) (call : LinkCall) → IsMirrored l → IsMirrored (step l call)
unfolding step publish get_state cancel_request
step-IsMirrored l (subscribes t from) i =
    advance-IsMirrored l _ (subscribe-Advances l.client t from) i
step-IsMirrored l (closes_handle t id) i =
    advance-IsMirrored l _ (remove_callback-Advances l.client t id) i
step-IsMirrored l (publishes e) i =
    advance-IsMirrored l _ (request-Advances l.client (publish_frame e) refl refl) i
step-IsMirrored l (gets_state t) i =
    advance-IsMirrored l _ (request-Advances l.client (get_state_frame t) refl refl) i
step-IsMirrored l (gives_up id) i =
    advance-IsMirrored l _ (quiet_step l.client _ refl refl (λ t. refl)) i
step-IsMirrored l (dispatches f) i = advance-IsMirrored l _ (dispatch-Advances l.client f) i
step-IsMirrored l closes i = close-IsMirrored l i
step-IsMirrored l (writes env) i =
    write-IsMirrored l.client l.broker l.session l.client.send_ch env i.ready i.mirrored
step-IsMirrored l (forwards id) i =
    forward_link-IsMirrored l.client l.broker l.session id i.ready i.mirrored
step-IsMirrored l loses_frame i =
    lose_frame-IsMirrored l.client l.broker l.session l.client.send_ch i.ready
step-IsMirrored l drops i = drop_link-IsMirrored l.client l.broker l.session i.ready
step-IsMirrored l reconnects i = reconnect-IsMirrored l.client l.broker l.session i.ready i.mirrored
step-IsMirrored l (elsewhere b) i = record { ready = i.ready; mirrored = i.mirrored }

start-IsReady : (initial max : ℕ) → IsReady (with_reconnect initial max Client.new)
unfolding with_reconnect Client.new lookup
start-IsReady initial max = record {
  frames_ok = tt;
  topics_ok = λ t h. cc h;
  settled = λ o t h. refl;
}

Reach-IsMirrored :
    {initial max : ℕ} {b : Broker Store} {l : Link} → Reach initial max b l → IsMirrored l
Reach-IsMirrored {initial} {max} here = record { ready = start-IsReady initial max; mirrored = tt }
Reach-IsMirrored (next {l} r call) = step-IsMirrored l call (Reach-IsMirrored r)

-- Through any public calls of a client, frames written, handled, forwarded and dispatched, frames
-- lost, connections dropped and made again, and changes that others make to the broker, in any
-- order and each as one step: while there is a connection and the client is not closed, the
-- server's session watches a topic, once it has handled the frames that wait in the client, exactly
-- if the client has callbacks for it.
pub Reach-mirrored :
    (initial max : ℕ) (b : Broker Store) (l : Link) (s : Session)
    → Reach initial max b l
    → l.session ≡ some s
    → l.client.closed ≡ false
    → (t : String) → after_queue t (watches s t) l.client.send_ch ≡ has_topic l.client t
Reach-mirrored initial max b l s r up o t =
    subst (IsMirroredBy? l.client) up (Reach-IsMirrored r).mirrored o t
