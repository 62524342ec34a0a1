-- ===== src/Client/Mirror.antt =====
-- The client and the server's session over one connection. The steps of both, the loss of the
-- connection and its renewal, and what others do to the broker, may come in any order; each public
-- call of the client is one step.
pub mod Server
pub mod Ready
pub mod Invariant
use event_watch.Base.{ℕ, String, Bool, Option, none, some, List, [], ◌∷◌}
use event_watch.Core.{Event, From}
use event_watch.Store.{Store}
use event_watch.StoreApi.{Env}
use event_watch.StoreApi.Memory.{memory}
use event_watch.Broker.{Broker}
use event_watch.Transport.Ws.{Session, handle, forward, close_all_subs, next_frame}
use event_watch.Transport.Ws as Ws
use event_watch.Client.{
  Client, with_reconnect, subscribe, remove_callback, close, dispatch, publish, get_state,
  cancel_request, resubscribe_all, take_frame,
}
use event_watch.Client.Wire.{OutFrame, InFrame, received}
use event_watch.Client

-- `session` is none while there is no connection.
pub record Link : Type 0 where
  pub client : Client
  pub broker : Broker Store
  pub session : Option Session

pub data LinkCall : Type 0 where
  subscribes : String → From → LinkCall
  closes_handle : String → ℕ → LinkCall
  publishes : Event → LinkCall
  gets_state : String → LinkCall
  gives_up : String → LinkCall
  dispatches : InFrame → LinkCall
  closes : LinkCall
  writes : Env → LinkCall
  forwards : ℕ → LinkCall
  loses_frame drops reconnects : LinkCall
  elsewhere : Broker Store → LinkCall

-- The writer takes a frame, and the server handles it.
unfoldable pub write : Link → Env → Link
write l env = elim l.session [
  | none ↦ l
  | some s ↦ elim (take_frame l.client) [
    | none ↦ l
    | some (f, c) ↦
        let (b, s') = handle memory l.broker s env (received f) in
        record { client = c; broker = b; session = some s' }
  ]
]

-- The connection drops: the server closes the session.
unfoldable pub drop_link : Link → Link
drop_link l = elim l.session [
  | none ↦ l
  | some s ↦ record l { broker = (close_all_subs memory l.broker s).0; session = none }
]

-- A frame that the writer has taken is lost with the connection.
unfoldable pub lose_frame : Link → Link
unfolding drop_link
lose_frame l = elim l.session [
  | none ↦ l
  | some s ↦ elim (take_frame l.client) [
    | none ↦ drop_link l
    | some (f, c) ↦ drop_link (record l { client = c })
  ]
]

-- A dial succeeds: the client sends what it subscribes, to a session that has nothing.
unfoldable pub reconnect : Link → Link
reconnect l = elim l.session [
  | none ↦ record l { client = resubscribe_all l.client; session = some Ws.new }
  | some s ↦ l
]

unfoldable pub forward_link : Link → ℕ → Link
forward_link l id = elim l.session [
  | none ↦ l
  | some s ↦
      let (b, s') = forward memory l.broker s id in record l { broker = b; session = some s' }
]

unfoldable pub step : Link → LinkCall → Link
step l (subscribes t from) = record l { client = (subscribe l.client t from).0 }
step l (closes_handle t id) = record l { client = remove_callback l.client t id }
step l (publishes e) = record l { client = (publish l.client e).0 }
step l (gets_state t) = record l { client = (get_state l.client t).0 }
step l (gives_up id) = record l { client = cancel_request l.client id }
step l (dispatches f) = record l { client = (dispatch l.client f).0 }
step l closes = record l { client = close l.client }
step l (writes env) = write l env
step l (forwards id) = forward_link l id
step l loses_frame = lose_frame l
step l drops = drop_link l
step l reconnects = reconnect l
step l (elsewhere b) = record l { broker = b }

-- The links that are reached with a broker, from a client before its first connection.
pub data Reach (initial max : ℕ) (b : Broker Store) : Link → Type 0 where
  here :
      Reach initial max b
        (record { client = with_reconnect initial max Client.new; broker = b; session = none })
  next : {l : Link} → Reach initial max b l → (call : LinkCall) → Reach initial max b (step l call)
