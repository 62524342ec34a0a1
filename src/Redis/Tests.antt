-- ===== src/Redis/Tests.antt =====
-- The store over a server that is a function from keys to items.
use event_watch.Base.{◌≡◌, refl, none, [], arith}
use event_watch.Core.{Event, ok}
use event_watch.StoreApi.{IsStore, stamped}
use event_watch.Redis.Store
use event_watch.Redis.Store.{redis, append}
use event_watch.Redis.Contract.{redis-IsStore, append_succeeds}
use event_watch.Redis.Writes.{IsValid, events_of}
use event_watch.Samples.{event_of, env}
use event_watch.Redis.Samples.{Keys, server, content, server-IsRedis, firsts}

redis-IsStore_example :
    IsStore
      (redis server firsts)
      (IsValid server content server-IsRedis firsts)
      (events_of server content server-IsRedis firsts)
redis-IsStore_example = redis-IsStore server content server-IsRedis firsts

abbrev empty : Keys
empty k = none

abbrev closed : Event
closed = event_of "pr/o/r/1" "pr_closed" [] 7

empty-IsValid : IsValid server content server-IsRedis firsts empty
unfolding Store.decode_entries
empty-IsValid t = record { typed = refl; counted = refl; numbered = tt; hashed = refl }

append_succeeds_example : (append server firsts empty env closed).1 ≡ ok (stamped closed 1 env)
unfolding Store.decode_entries
append_succeeds_example =
    append_succeeds server content server-IsRedis firsts empty env closed "first" empty-IsValid refl
      (omega arith) refl

-- The server after one append.
abbrev used : Keys
used = (append server firsts empty env closed).0
