-- ===== src/Redis/Server.antt =====
-- The commands of a Redis server that internal/store/redis calls through go-redis, and what the
-- server documents of them.
use event_watch.Base.{
  ℕ, ◌+◌, ◌≡◌, String, Bool, true, false, ◌&&◌, ◌||◌, not, Option, none, some, List, [], ◌∷◌, ◌++◌,
  ltb, if◌then◌else◌, ◌=ₛ◌, lookup, insert, filter, take, All, is_some,
}
use mathlib.Core.List.{reverse}
use event_watch.Base.Decimal.{show_ℕ}
use event_watch.Core.{Error, redis_error, Result, ok, err}

-- The values of a stream's entry, or of a hash.
abbrev pub Values : Type 0
Values = List (String × String)

-- What a key holds. `integer` is a string that `INCR` counts up.
pub data Item : Type 0 where
  integer : ℕ → Item
  text : String → Item
  stream : List Values → Item
  hash : Values → Item
  members : List String → Item

-- The commands of a transaction. An entry is added under an id that the server assigns.
pub data Command : Type 0 where
  x_add h_set : String → Values → Command
  h_set_nx : String → String → String → Command
  s_add s_rem : String → String → Command
  del : List String → Command

-- `get` gives none for the reply nil.
pub record RedisApi (R : Type 0) : Type 0 where
  pub incr : R → String → R × Result ℕ
  pub x_range : R → String → Result (List Values)
  pub x_rev_range_n : R → String → ℕ → Result (List Values)
  pub get : R → String → Result (Option String)
  pub set : R → String → String → R × Option Error
  pub h_get_all : R → String → Result Values
  pub h_set : R → String → Values → R × Option Error
  pub s_members : R → String → Result (List String)
  pub exec : R → List Command → R × Option Error

-- What the reads give; a key of another type is an error.
abbrev pub stream_of : Option Item → Result (List Values)
stream_of none = ok []
stream_of (some (stream es)) = ok es
stream_of _ = err redis_error

abbrev pub string_of : Option Item → Result (Option String)
string_of none = ok none
string_of (some (integer n)) = ok (some (show_ℕ n))
string_of (some (text v)) = ok (some v)
string_of _ = err redis_error

abbrev pub hash_of : Option Item → Result Values
hash_of none = ok []
hash_of (some (hash fs)) = ok fs
hash_of _ = err redis_error

abbrev pub members_of : Option Item → Result (List String)
members_of none = ok []
members_of (some (members ms)) = ok ms
members_of _ = err redis_error

-- What `INCR` counts up: a missing key is 0.
abbrev pub counter_of : Option Item → Option ℕ
counter_of none = some 0
counter_of (some (integer n)) = some n
counter_of _ = none

abbrev pub insert_all : Values → Values → Values
insert_all [] m = m
insert_all ((k, v) ∷ fs) m = insert_all fs (insert k v m)

abbrev pub has : String → List String → Bool
has k [] = false
has k (j ∷ ks) = j =ₛ k || has k ks

abbrev pub or_gone : List String → Option Item
or_gone [] = none
or_gone (m ∷ ms) = some (members (m ∷ ms))

-- What each command does to the item of its key, and whether the key has a type that it takes.
abbrev pub added : Values → Option Item → Option Item
added fields none = some (stream (fields ∷ []))
added fields (some (stream es)) = some (stream (es ++ fields ∷ []))
added fields (some i) = some i

abbrev pub set_in : Values → Option Item → Option Item
set_in fields none = some (hash (insert_all fields []))
set_in fields (some (hash m)) = some (hash (insert_all fields m))
set_in fields (some i) = some i

abbrev pub set_new : String → String → Option Item → Option Item
set_new f v none = some (hash ((f, v) ∷ []))
set_new f v (some (hash m)) = some (hash (if is_some (lookup f m) then m else insert f v m))
set_new f v (some i) = some i

abbrev pub joined : String → Option Item → Option Item
joined m none = some (members (m ∷ []))
joined m (some (members ms)) = some (members (if has m ms then ms else ms ++ m ∷ []))
joined m (some i) = some i

abbrev pub left : String → Option Item → Option Item
left m (some (members ms)) = or_gone (filter (λ x. not (m =ₛ x)) ms)
left m i = i

abbrev pub effect : Command → String → Option Item → Option Item
effect (x_add key fields) k i = if key =ₛ k then added fields i else i
effect (h_set key fields) k i = if key =ₛ k then set_in fields i else i
effect (h_set_nx key f v) k i = if key =ₛ k then set_new f v i else i
effect (s_add key m) k i = if key =ₛ k then joined m i else i
effect (s_rem key m) k i = if key =ₛ k then left m i else i
effect (del keys) k i = if has k keys then none else i

abbrev pub effects : List Command → String → Option Item → Option Item
effects [] k i = i
effects (c ∷ cs) k i = effects cs k (effect c k i)

abbrev pub fine {ℓ} : {A : Type ℓ} → Result A → Bool
fine (ok x) = true
fine (err e) = false

-- Whether a command finds a type that it takes, among keys none of which is deleted before.
abbrev pub fits : (String → Option Item) → Command → Bool
fits at (x_add key fields) = fine (stream_of (at key))
fits at (h_set key fields) = fine (hash_of (at key))
fits at (h_set_nx key f v) = fine (hash_of (at key))
fits at (s_add key m) = fine (members_of (at key))
fits at (s_rem key m) = fine (members_of (at key))
fits at (del keys) = true

-- A server that answers every command, with `at` for what its keys hold. A counter stops below
-- 2 ^ 63; a transaction runs its commands in order, also past one that fails.
pub record IsRedis {R : Type 0} (api : RedisApi R) (at : R → String → Option Item) : Type 0 where
  pub incr_ok :
      (r : R) (key : String) (n : ℕ)
      → counter_of (at r key) ≡ some n
      → ((api.incr r key).1
          ≡ (if ltb (n + 1) 9223372036854775808 then ok (n + 1) else err redis_error))
        × ((k : String)
            → at (api.incr r key).0 k ≡ (
                if key =ₛ k && ltb (n + 1) 9223372036854775808
                then some (integer (n + 1))
                else at r k))
  pub x_range_ok : (r : R) (key : String) → api.x_range r key ≡ stream_of (at r key)
  pub x_rev_range_n_ok :
      (r : R) (key : String) (n : ℕ) (es : List Values)
      → stream_of (at r key) ≡ ok es
      → api.x_rev_range_n r key n ≡ ok (take n (reverse es))
  pub get_ok : (r : R) (key : String) → api.get r key ≡ string_of (at r key)
  pub set_ok :
      (r : R) (key v k : String)
      → at (api.set r key v).0 k ≡ (if key =ₛ k then some (text v) else at r k)
  pub h_get_all_ok : (r : R) (key : String) → api.h_get_all r key ≡ hash_of (at r key)
  pub h_set_ok :
      (r : R) (key : String) (fields : Values) (k : String)
      → at (api.h_set r key fields).0 k ≡ effect (h_set key fields) k (at r k)
  pub s_members_ok : (r : R) (key : String) → api.s_members r key ≡ members_of (at r key)
  pub exec_ok :
      (r : R) (cs : List Command) (k : String) → at (api.exec r cs).0 k ≡ effects cs k (at r k)
  pub exec_fine :
      (r : R) (cs : List Command) → All (λ c. fits (at r) c ≡ true) cs → (api.exec r cs).1 ≡ none
