-- ===== src/Store/Tests.antt =====
-- A run of the in-memory store, and the theorems at it.
use event_watch.Base.{◌≡◌, refl, some, List, [], ◌∷◌, length, lookup, insert, leb, filter, ◌+◌, pos}
use event_watch.Store.{
  Store, StoreCall, new, run, append, set_state, read, latest, expire, appends, sets_state,
  events_of, limited,
}
use event_watch.Store.Log.{IsWellFormed, run-IsWellFormed, unexpired}
use event_watch.Store.Reads.{read_log}
use event_watch.Store.Expiry.{expire_exact}
use event_watch.Samples.{opened}

abbrev calls : List StoreCall
calls =
    appends opened (pos 5) (pos 6) "01"
    ∷ appends opened (pos 8) (pos 9) "02"
    ∷ sets_state "pr/o/r/1" (some "{}") (pos 9)
    ∷ []

abbrev two_events : Store
two_events = run new calls

two_events-IsWellFormed : IsWellFormed two_events
two_events-IsWellFormed = run-IsWellFormed calls

run-IsWellFormed_example : IsWellFormed two_events
run-IsWellFormed_example = run-IsWellFormed calls

read_log_example :
    read two_events "pr/o/r/1" 2 (pos 10)
    ≡ limited (pos 10) (filter (λ e. leb 2 e.seq) (events_of two_events "pr/o/r/1"))
read_log_example = read_log two_events "pr/o/r/1" 2 (pos 10) two_events-IsWellFormed

expire_exact_example :
    (lookup "pr/o/r/1" (expire two_events (pos 100)).0.topics
      ≡ unexpired (pos 100) (lookup "pr/o/r/1" two_events.topics))
    × (length (expire two_events (pos 100)).0.topics + (expire two_events (pos 100)).1
        ≡ length two_events.topics)
expire_exact_example = expire_exact two_events (pos 100) "pr/o/r/1" two_events-IsWellFormed

-- `last:0` gives the whole log.
latest_zero : length (latest two_events "pr/o/r/1" (pos 0)) ≡ 2
unfolding run new latest append lookup set_state insert
latest_zero = refl
