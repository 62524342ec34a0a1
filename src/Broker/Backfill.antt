-- ===== src/Broker/Backfill.antt =====
-- A subscriber that starts from a seq misses nothing and sees nothing twice.
use event_watch.Base.{
  ℕ, ◌+◌, ◌-◌, ◌≤◌, ◌<◌, ◌≡◌, refl, sym, ap, subst, ◌∙◌, String, false, some, List, [], ◌∷◌, ◌++◌,
  map, length, drop, arith, Bool-cases, inl, inr, ltb, leb, filter, length-drop, length-append,
  drop-length, drop-append, drop-drop, word_mod, add64, get_last?, pos,
}
use event_watch.Core.{Event, Result, ok, from_seq}
use event_watch.Hub.{Hub, Subscription}
use event_watch.Hub
use event_watch.Hub.Invariant as HubInvariant
use event_watch.Store.{Store, events_of}
use event_watch.Store
use event_watch.Store.Search.{Numbered}
use event_watch.Store.Numbered.{filter_from, Numbered-drop, last_seq-get_last?}
use event_watch.Store.Reads.{read_log, events_of-Numbered}
use event_watch.StoreApi.{Env}
use event_watch.StoreApi.Memory.{memory}
use event_watch.Broker.{Broker, publish_all, attach, start_from, fence_of, backfill}
use event_watch.Broker.Run.{IsConsistent, publish_all-IsConsistent'}
use event_watch.Broker.Stream.{plain, Follows, map-append, publish_all-Grows, publish_all-Follows}

-- A new subscription follows its topic from the end of its log.
attach-Follows :
    (b : Broker Store) (t : String)
    → b.hub.next + 1 < word_mod
    → Follows t (attach memory b t).1 (length (events_of b.store t)) (attach memory b t).0
unfolding attach Hub.subscribe
attach-Follows b t room = record {
  sub = record {
    topic = t;
    queue = [];
    id = add64 b.hub.next 1;
    done = false;
    closed = false;
    lag = 0;
  };
  found = ground arith;
  opened = refl;
  named = refl;
  queued = ap (map plain) (sym (drop-length (events_of b.store t)));
  started = omega arith;
}

attach_same :
    (b : Broker Store) (t : String)
    → ((attach memory b t).0.store ≡ b.store) × ((attach memory b t).0.hub.buf ≡ b.hub.buf)
unfolding attach Hub.subscribe
attach_same b t = (refl, refl)

pub attach-IsConsistent :
    (b : Broker Store) (t : String)
    → b.hub.next + 1 < word_mod
    → IsConsistent b
    → IsConsistent (attach memory b t).0
unfolding attach
attach-IsConsistent b t room c = record {
  store_ok = c.store_ok;
  hub_ok = HubInvariant.subscribe-IsWellFormed b.hub t c.hub_ok room;
  folded = record { same = c.folded.same };
}

-- What a subscriber sees: the backfill, then the queued events past the fence.
abbrev pub seen : ℕ → List Event → List Event → List Event
seen fence back queue = back ++ filter (λ e. ltb fence e.seq) queue

filter-map-plain :
    (f : ℕ) (es : List Event)
    → map plain (filter (λ e. ltb f e.seq) es) ≡ filter (λ e. ltb f e.seq) (map plain es)
filter-map-plain f [] = refl
filter-map-plain f (e ∷ es) = ground (arith, filter-map-plain f es)

filter_past :
    (f : ℕ) (es : List Event) → filter (λ e. ltb f e.seq) es ≡ filter (λ e. leb (f + 1) e.seq) es
filter_past f [] = refl
filter_past f (e ∷ es) = ground (arith, filter_past f es)

no_last : (es : List Event) → length es ≡ 0 → fence_of (get_last? es) ≡ 0
no_last [] h = refl
no_last (e ∷ es) h = absurd (omega arith)

-- Where the log had `n` events at the subscription and those of `log` at the read, the fence cuts
-- the queue at the end of the backfill.
fence_meets :
    (v n : ℕ) (log : List Event)
    → Numbered 1 log
    → v ≤ n + 1
    → n ≤ length log
    → n + (fence_of (get_last? (drop (v - 1) log)) - n) ≡ length log
fence_meets v n log h le later =
    let back = drop (v - 1) log in
    let size = length-drop (v - 1) log in
    elim (Bool-cases (ltb 0 (length back))) [
      | inl some_back ↦
          let last : fence_of (get_last? back) + 1 ≡ v - 1 + 1 + length back =
            last_seq-get_last? (v - 1 + 1) back (Numbered-drop (v - 1) 1 log h) (ground arith) in
          omega (arith, last, size, le, later)
      | inr no_back ↦
          let empty : length back ≡ 0 = ground arith in
          omega (arith, no_last back empty, empty, size, le, later)
    ]

fenced :
    (v n : ℕ) (log more : List Event)
    → Numbered 1 (log ++ more)
    → Numbered 1 log
    → v ≤ n + 1
    → n ≤ length log
    → let back = drop (v - 1) log in
      seen (fence_of (get_last? back)) back (drop n (log ++ more)) ≡ drop (v - 1) (log ++ more)
fenced v n log more h h' le later =
    let back = drop (v - 1) log in
    let fence = fence_of (get_last? back) in
    let all = log ++ more in
    let live : filter (λ e. ltb fence e.seq) (drop n all) ≡ more =
      filter_past fence (drop n all)
      ∙ filter_from (n + 1) (fence + 1) (drop n all) (Numbered-drop n 1 all h)
      ∙ drop-drop (fence + 1 - (n + 1)) n all
      ∙ ap (λ k. drop k all) {y = length log} (omega (arith, fence_meets v n log h' le later))
      ∙ drop-append (length log) log more (omega arith)
      ∙ ap (λ l. l ++ more) (drop-length log) in
    ap (λ l. back ++ l) live ∙ sym (drop-append (v - 1) log more (omega arith))

-- The queue of a subscription that follows from `n` on, seen behind the fence.
seen-Follows :
    (t : String) (id n v : ℕ) (log : List Event) (b : Broker Store) (f : Follows t id n b)
    → (more : List Event) → events_of b.store t ≡ log ++ more
    → Numbered 1 log
    → Numbered 1 (events_of b.store t)
    → v ≤ n + 1
    → n ≤ length log
    → let back = drop (v - 1) log in
      map plain (seen (fence_of (get_last? back)) back f.sub.queue)
      ≡ map plain (drop (v - 1) (events_of b.store t))
seen-Follows t id n v log b f more grown h h' le later =
    let back = drop (v - 1) log in
    let fence = fence_of (get_last? back) in
    let p = λ (e : Event). ltb fence e.seq in
    map-append back (filter p f.sub.queue)
    ∙ ap (λ l. map plain back ++ l)
        (filter-map-plain fence f.sub.queue
          ∙ ap (filter p) f.queued
          ∙ sym (filter-map-plain fence (drop n (events_of b.store t))))
    ∙ sym (map-append back (filter p (drop n (events_of b.store t))))
    ∙ ap (λ l. map plain (seen fence back (drop n l))) grown
    ∙ ap (map plain) (fenced v n log more (subst (Numbered 1) grown h') h le later)
    ∙ ap (λ l. map plain (drop (v - 1) l)) (sym grown)

-- The two parts of a `Subscribe` that asks for seq `v`, with the publishes `ps` between them and
-- the publishes `qs` after them.
module _ (b : Broker Store) (t : String) (v : ℕ) (ps qs : List (Env × Event × String)) where
  abbrev pub at_read : Broker Store
  at_read = publish_all memory (attach memory b t).0 ps

  abbrev pub started : Broker Store × Result (ℕ × List Event × ℕ)
  started = start_from memory at_read t (from_seq v) (attach memory b t).1

  abbrev pub at_end : Broker Store
  at_end = publish_all memory started.0 qs

  -- A subscriber of topic `t` asks for the events from seq `v` on, at most one past the end of the
  -- log. Whatever is published between its subscription to the hub and the read of the backfill,
  -- and after the read, as long as the buffer has room for it: the backfill, followed by the queued
  -- events past the fence of its subscription to that topic, is the log from seq `v` on, each event once and in order, but for the
  -- state that the queued copies carry.
  pub subscribe_gapless :
      IsConsistent b
      → b.hub.next + 1 < word_mod
      → v ≤ length (events_of b.store t) + 1
      → length (events_of at_end.store t) ≤ length (events_of b.store t) + b.hub.buf
      → (back : List Event) × (fence : ℕ) × (sub : Subscription) × (started.1
          ≡ ok ((attach memory b t).1, back, fence))
        × (at_end.hub.objects (attach memory b t).1 ≡ some sub)
        × (sub.topic ≡ t)
        × (map plain (seen fence back sub.queue)
            ≡ map plain (filter (λ e. leb v e.seq) (events_of at_end.store t)))
  unfolding start_from backfill
  subscribe_gapless c room le fits =
      let id = (attach memory b t).1 in
      let n = length (events_of b.store t) in
      let b' = (attach memory b t).0 in
      let c' = attach-IsConsistent b t room c in
      let c₁ = publish_all-IsConsistent' b' ps c' in
      let g₁ = publish_all-Grows t id n b' ps c' in
      let c₂ : IsConsistent started.0 = record {
        store_ok = c₁.store_ok;
        hub_ok = c₁.hub_ok;
        folded = record { same = c₁.folded.same };
      } in
      let g₂ = publish_all-Grows t id n started.0 qs c₂ in
      let kept : events_of b'.store t ≡ events_of b.store t =
        ap (λ (s : Store). events_of s t) (attach_same b t).0 in
      let read_length = ap length g₁.log ∙ length-append (events_of b'.store t) g₁.more in
      let end_length = ap length g₂.log ∙ length-append (events_of at_read.store t) g₂.more in
      let same_buf = (attach_same b t).1 in
      let fits₁ : length (events_of at_read.store t) ≤ n + b'.hub.buf =
        omega (arith, end_length, same_buf) in
      let f₁ = publish_all-Follows t id n b' ps c' fits₁ (attach-Follows b t room) in
      let f = publish_all-Follows t id n started.0 qs c₂ (omega (arith, same_buf, g₁.buf)) (record {
        sub = f₁.sub;
        found = f₁.found;
        opened = f₁.opened;
        named = f₁.named;
        queued = f₁.queued;
        started = f₁.started;
      }) in
      let log = events_of at_read.store t in
      let numbered = events_of-Numbered at_read.store t c₁.store_ok in
      let numbered' =
        events_of-Numbered at_end.store t (publish_all-IsConsistent' started.0 qs c₂).store_ok in
      let back = drop (v - 1) log in
      let read : Store.read at_read.store t v (pos 0) ≡ back =
        read_log at_read.store t v (pos 0) c₁.store_ok ∙ filter_from 1 v log numbered in
      (
        back,
        fence_of (get_last? back),
        f.sub,
        ap (λ l. ok (id, l, fence_of (get_last? l))) read,
        f.found,
        f.named,
        seen-Follows t id n v log at_end f g₂.more g₂.log numbered numbered' le
              (omega (arith, read_length, ap length kept))
            ∙ ap (map plain) (sym (filter_from 1 v (events_of at_end.store t) numbered')),
      )
