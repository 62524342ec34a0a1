-- ===== src/Transport/Http/Tests.antt =====
-- The handlers at concrete requests.
use event_watch.Base.{ℕ, zero, suc, ◌≡◌, List, [], ◌∷◌, ◌⊎◌, take, pos}
use event_watch.StoreApi.{Env}
use event_watch.Core.{Event, Error, num, ok, Result, Payload}
use event_watch.Computed.{new_registry, register}
use event_watch.Hub
use event_watch.Store
use event_watch.Store.{Store, appends}
use event_watch.StoreApi.Memory.{memory}
use event_watch.Broker
use event_watch.Broker.{Broker, publish_all}
use event_watch.Transport.Ws.{of_error}
use event_watch.Transport.Http.{accepted, http_error, publish_each}
use event_watch.Transport.Http.Laws.{publish_each_prefix, asked, AllAccepted, RefusedAt}
use event_watch.Transport.Fields.{delta_payload}
use event_watch.Samples.{opened, event_of, env, last_type}

abbrev start : Broker Store
start = Broker.new Store.new Hub.new (register new_registry (last_type ∷ [])) (pos 0)

abbrev pair : List Event
pair = opened ∷ event_of "pr" "pr_opened" [] 3 ∷ []

-- The second event of the pair has its own clock and id.
abbrev envs : ℕ → Env
envs zero = env
envs (suc i) = record { created = pos 8; now = pos 9; new_id = "02" }

publish_each_prefix_example :
    (AllAccepted memory start (asked envs pair)
      × (publish_each memory start envs pair
          ≡ (publish_all memory start (asked envs pair), accepted)))
    ⊎ ((k : ℕ) × (x : Error) × RefusedAt memory start (asked envs pair) k x
        × (publish_each memory start envs pair ≡ (
          publish_all memory start (take (suc k) (asked envs pair)),
          http_error (of_error x) 400,
        )))
publish_each_prefix_example = publish_each_prefix memory start envs pair

abbrev stored : Store
stored = Store.run Store.new (appends opened (pos 5) (pos 6) "01" ∷ [])

abbrev holding : Broker Store
holding = record {
  store = stored;
  hub = Hub.new;
  reducers = new_registry;
  default_ttl = pos 0;
  metrics = [];
}

abbrev body : Result Payload
body = ok (("delta", num 5) ∷ [])

abbrev up : Event
up = event_of "int/a" "int_incr" (delta_payload body) 1

abbrev down : Event
down = event_of "int/a" "int_decr" (delta_payload body) 2
