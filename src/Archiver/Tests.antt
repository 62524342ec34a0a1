-- ===== src/Archiver/Tests.antt =====
-- A sweep of a concrete store.
use event_watch.Base.{◌≡◌, ◌+◌, [], ◌∷◌, length, lookup, pos}
use event_watch.Store
use event_watch.Store.{Store, StoreCall, appends}
use event_watch.Store.Log.{run-IsWellFormed}
use event_watch.StoreApi.Memory.{memory}
use event_watch.Archiver.{Archiver, sweep}
use event_watch.Archiver.Laws.{swept, sweep_exact}
use event_watch.Samples.{opened}

abbrev one_event : Store
one_event = Store.run Store.new (appends opened (pos 5) (pos 6) "01" ∷ [])

abbrev hourly : Archiver
hourly = record { interval = pos 10; default_ttl = pos 100 }

sweep_exact_example :
    (lookup "pr/o/r/1" (sweep memory hourly one_event (pos 200)).0.topics
      ≡ swept hourly (pos 200) (lookup "pr/o/r/1" one_event.topics))
    × (length (sweep memory hourly one_event (pos 200)).0.topics
          + (sweep memory hourly one_event (pos 200)).1
        ≡ length one_event.topics)
sweep_exact_example =
    sweep_exact hourly (pos 200) one_event "pr/o/r/1"
      (run-IsWellFormed (appends opened (pos 5) (pos 6) "01" ∷ []))
