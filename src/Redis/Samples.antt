-- ===== src/Redis/Samples.antt =====
-- A Redis server that is a function from keys to items, and a codec that writes one event.
use mathlib.Core.List.{reverse}
use event_watch.Base.{
  ℕ, ◌+◌, ◌≡◌, ◌≢◌, refl, ap, String, Bool, true, false, ◌&&◌, Option, none, some, List, [], ◌∷◌,
  take, ltb, if◌then◌else◌, ◌=ₛ◌, All, arith, pos, negsuc, ◌==◌, eq_iff, subst, Bool-cases, inl,
  inr,
}
use event_watch.Core.{Event, Payload, RawMessage, Time, redis_error, Result, ok, err}
use event_watch.Objtypes.Codec.{Codec}
use event_watch.Redis.Server.{
  Item, integer, text, RedisApi, IsRedis, Command, h_set, effect, effects, fits, stream_of,
  string_of, hash_of, members_of, counter_of, fine,
}

abbrev pub Keys : Type 0
Keys = String → Option Item

abbrev result_of : {A B : Type 0} → (A → B) → Result A → Result B
result_of f (ok x) = ok (f x)
result_of f (err e) = err e

abbrev count_up : Keys → String → Option ℕ → Keys × Result ℕ
count_up r key none = (r, err redis_error)
count_up r key (some n) =
    if ltb (n + 1) 9223372036854775808
    then (λ k. if key =ₛ k then some (integer (n + 1)) else r k, ok (n + 1))
    else (r, err redis_error)

abbrev all_fit : Keys → List Command → Bool
all_fit r [] = true
all_fit r (c ∷ cs) = fits r c && all_fit r cs

abbrev pub server : RedisApi Keys
server = record {
  incr = λ r key. count_up r key (counter_of (r key));
  x_range = λ r key. stream_of (r key);
  x_rev_range_n = λ r key n. result_of (λ es. take n (reverse es)) (stream_of (r key));
  get = λ r key. string_of (r key);
  set = λ r key v. (λ k. if key =ₛ k then some (text v) else r k, none);
  h_get_all = λ r key. hash_of (r key);
  h_set = λ r key fields. (
    λ k. effect (h_set key fields) k (r k),
    if fine (hash_of (r key)) then none else some redis_error,
  );
  s_members = λ r key. members_of (r key);
  exec = λ r cs. (λ k. effects cs k (r k), if all_fit r cs then none else some redis_error);
}

all_fit_lem : (r : Keys) (cs : List Command) → All (λ c. fits r c ≡ true) cs → all_fit r cs ≡ true
all_fit_lem r [] h = refl
all_fit_lem r (c ∷ cs) (p, h) = ground (arith, p, all_fit_lem r cs h)

-- The first event of a log, and a codec that writes only that one.
abbrev first : Event
first = record {
  id = "01";
  topic = "pr/o/r/1";
  type = "pr_closed";
  seq = 1;
  occurred_at = pos 7;
  actor = "";
  payload = [];
  state = none;
}

abbrev is_first : String → String → String → ℕ → Time → String → Payload → RawMessage → Bool
is_first id topic type seq (pos t) actor [] none =
    id =ₛ "01" && topic =ₛ "pr/o/r/1" && type =ₛ "pr_closed" && seq == 1 && t == 7 && actor =ₛ ""
is_first _ _ _ _ _ _ _ _ = false

is_first_lem :
    (id topic type : String) (seq : ℕ) (at : Time) (actor : String) (p : Payload) (raw : RawMessage)
    → is_first id topic type seq at actor p raw ≡ true
    → first ≡ record {
      id = id;
      topic = topic;
      type = type;
      seq = seq;
      occurred_at = at;
      actor = actor;
      payload = p;
      state = raw;
    }
is_first_lem id topic type seq (pos t) actor [] none h =
    let id_lem : id ≡ "01" = ground (arith, eq_iff id "01") in
    let topic_lem : topic ≡ "pr/o/r/1" = ground (arith, eq_iff topic "pr/o/r/1") in
    let type_lem : type ≡ "pr_closed" = ground (arith, eq_iff type "pr_closed") in
    let seq_lem : seq ≡ 1 = ground arith in
    let t_lem : t ≡ 7 = ground arith in
    let actor_lem : actor ≡ "" = ground (arith, eq_iff actor "") in
    rw (id_lem, topic_lem, type_lem, seq_lem, t_lem, actor_lem) refl
is_first_lem id topic type seq (pos t) actor [] (some raw) h = cc
is_first_lem id topic type seq (pos t) actor (f ∷ p) raw h = cc
is_first_lem id topic type seq (negsuc t) actor p raw h = cc

abbrev written : Event → Bool
written e = is_first e.id e.topic e.type e.seq e.occurred_at e.actor e.payload e.state

pub firsts_lem :
    (e : Event) (t : String)
    → (if written e then some "first" else none) ≡ some t
    → (◌≡◌ {A = Event × Bool} (first, true) (e, true)) × (t ≢ "")
firsts_lem e t h =
    let is : written e ≡ true = ground arith in
    let text : Option.some "first" ≡ some t = cc in
    (
      ap (λ x. (x, true))
          (is_first_lem e.id e.topic e.type e.seq e.occurred_at e.actor e.payload e.state is),
      λ empty. cc,
    )

abbrev pub firsts : Codec Event
firsts = record {
  marshal = λ e. if written e then some "first" else none;
  unmarshal = λ t. (first, true);
  round_trip = firsts_lem;
}

count_up_at :
    (r : Keys) (key : String) (n : ℕ)
    → ((count_up r key (some n)).1
        ≡ (if ltb (n + 1) 9223372036854775808 then ok (n + 1) else err redis_error))
      × ((k : String)
          → (count_up r key (some n)).0 k
            ≡ (if key =ₛ k && ltb (n + 1) 9223372036854775808 then some (integer (n + 1)) else r k))
count_up_at r key n = elim (Bool-cases (ltb (n + 1) 9223372036854775808)) [
  | inl below ↦ rw below (
    refl,
    λ k. elim (Bool-cases (key =ₛ k)) [ inl same ↦ rw same refl | inr other ↦ rw other refl ],
  )
  | inr full ↦ rw full (
    refl,
    λ k. elim (Bool-cases (key =ₛ k)) [ inl same ↦ rw same refl | inr other ↦ rw other refl ],
  )
]

count_up_lem :
    (r : Keys) (key : String) (count : Option ℕ) (n : ℕ)
    → count ≡ some n
    → ((count_up r key count).1
        ≡ (if ltb (n + 1) 9223372036854775808 then ok (n + 1) else err redis_error))
      × ((k : String)
          → (count_up r key count).0 k
            ≡ (if key =ₛ k && ltb (n + 1) 9223372036854775808 then some (integer (n + 1)) else r k))
count_up_lem r key none n h = cc
count_up_lem r key (some m) n h =
    let same : m ≡ n = cc in
    subst
      (λ n.
        ((count_up r key (some m)).1
          ≡ (if ltb (n + 1) 9223372036854775808 then ok (n + 1) else err redis_error))
        × ((k : String)
            → (count_up r key (some m)).0 k ≡ (
                if key =ₛ k && ltb (n + 1) 9223372036854775808
                then some (integer (n + 1))
                else r k)))
      same (count_up_at r key m)

abbrev pub content : Keys → String → Option Item
content r k = r k

pub server-IsRedis : IsRedis server content
server-IsRedis = record {
  incr_ok = λ r key n h. count_up_lem r key (counter_of (r key)) n h;
  x_range_ok = λ r key. refl;
  x_rev_range_n_ok = λ r key n es h. ap (result_of (λ fs. take n (reverse fs))) h;
  get_ok = λ r key. refl;
  set_ok = λ r key v k. refl;
  h_get_all_ok = λ r key. refl;
  h_set_ok = λ r key fields k. refl;
  s_members_ok = λ r key. refl;
  exec_ok = λ r cs k. refl;
  exec_fine = λ r cs h. rw (all_fit_lem r cs h) refl;
}
