-- ===== src/Hub/Invariant.antt =====
-- What holds of the hub between two calls.
use event_watch.Base.{
  ℕ, ◌+◌, ◌≡◌, ◌≢◌, refl, String, Bool, false, not, ◌&&◌, ◌||◌, Option, none, some, List, [], ◌∷◌,
  ◌++◌, ◌==◌, length, length-append, add64, word_mod, arith, ap, ◌<◌, ◌≤◌, ==_iff, ◌=ₛ◌, eq_iff,
}
use event_watch.Core.{Event}
use event_watch.Hub.{
  Hub, Subscription, ids_of, or_empty, none_if_empty, delete_id, new, subscribe, close, deliver,
  deliver_all, publish,
}
use event_watch.Hub.Deliver.{has, IsDistinct}

abbrev pub is_open_at : Option Subscription → String → Bool
is_open_at none t = false
is_open_at (some s) t = not s.closed && s.topic =ₛ t

abbrev pub Fits : ℕ → Option Subscription → Type 0
Fits buf none = Unit
Fits buf (some s) = (length s.queue ≤ buf) × (s.done ≡ s.closed)

-- The map of a topic holds exactly the ids of its open subscriptions, each once, and is never
-- kept empty; ids above `next` are unused; no channel holds more than its buffer; `done` is
-- closed exactly when the subscription is.
pub record IsWellFormed (h : Hub) : Type 0 where
  pub listed : (t : String) (id : ℕ) → has id (ids_of h t) ≡ is_open_at (h.objects id) t
  pub distinct : (t : String) → IsDistinct (ids_of h t)
  pub kept : (t : String) → h.topics t ≢ some []
  pub fresh : (id : ℕ) → h.next < id → h.objects id ≡ none
  pub fits : (id : ℕ) → Fits h.buf (h.objects id)

pub new-IsWellFormed : IsWellFormed new
unfolding new
new-IsWellFormed = record {
  listed = λ t id. refl;
  distinct = λ t. tt;
  kept = λ t. cc;
  fresh = λ id l. refl;
  fits = λ id. tt;
}

has-append : (id : ℕ) (xs ys : List ℕ) → has id (xs ++ ys) ≡ (has id xs || has id ys)
has-append id [] ys = refl
has-append id (x ∷ xs) ys = ground (arith, has-append id xs ys)

IsDistinct-snoc :
    (xs : List ℕ) (id : ℕ) → IsDistinct xs → has id xs ≡ false → IsDistinct (xs ++ id ∷ [])
IsDistinct-snoc [] id d n = (refl, tt)
IsDistinct-snoc (x ∷ xs) id (m, d) n =
    ground (arith, IsDistinct-snoc xs id d, has-append x xs (id ∷ []))

has-delete_id : (id j : ℕ) (xs : List ℕ) → has j (delete_id id xs) ≡ (not (id == j) && has j xs)
has-delete_id id j [] = ground arith
has-delete_id id j (x ∷ xs) = ground (arith, has-delete_id id j xs)

IsDistinct-delete_id : (id : ℕ) (xs : List ℕ) → IsDistinct xs → IsDistinct (delete_id id xs)
IsDistinct-delete_id id [] d = tt
IsDistinct-delete_id id (x ∷ xs) (n, d) =
    ground (arith, IsDistinct-delete_id id xs d, has-delete_id id x xs)

or_empty-none_if_empty : (xs : List ℕ) → or_empty (none_if_empty xs) ≡ xs
or_empty-none_if_empty [] = refl
or_empty-none_if_empty (x ∷ xs) = refl

none_if_empty-ne : (xs : List ℕ) → none_if_empty xs ≢ some []
none_if_empty-ne [] = cc
none_if_empty-ne (x ∷ xs) = cc

module _ (h : Hub) (t : String) (w : IsWellFormed h) (room : h.next + 1 < word_mod) where
  subscribe_listed :
      (t' : String) (id : ℕ)
      → has id (ids_of (subscribe h t).0 t') ≡ is_open_at ((subscribe h t).0.objects id) t'
  unfolding subscribe
  subscribe_listed t' id = ground (
    arith,
    w.listed t' id,
    w.fresh (h.next + 1),
    w.listed t (h.next + 1),
    has-append id (ids_of h t) (add64 h.next 1 ∷ []),
    eq_iff t t',
  )

  subscribe-IsDistinct : (t' : String) → IsDistinct (ids_of (subscribe h t).0 t')
  unfolding subscribe
  subscribe-IsDistinct t' = ground (
    arith,
    w.distinct t',
    w.fresh (h.next + 1),
    w.listed t (h.next + 1),
    IsDistinct-snoc (ids_of h t) (add64 h.next 1) (w.distinct t),
  )

  subscribe_kept : (t' : String) → (subscribe h t).0.topics t' ≢ some []
  unfolding subscribe
  subscribe_kept t' e = ground (
    arith,
    w.kept t',
    ap (λ (o : Option (List ℕ)). length (or_empty o)) e,
    length-append (ids_of h t) (add64 h.next 1 ∷ []),
  )

  subscribe_fresh : (id : ℕ) → (subscribe h t).0.next < id → (subscribe h t).0.objects id ≡ none
  unfolding subscribe
  subscribe_fresh id l = ground (arith, w.fresh id)

  subscribe-Fits : (id : ℕ) → Fits (subscribe h t).0.buf ((subscribe h t).0.objects id)
  unfolding subscribe
  subscribe-Fits id = ground (arith, w.fits id)

  -- Subscribing keeps the hub well-formed as long as the id counter has room.
  pub subscribe-IsWellFormed : IsWellFormed (subscribe h t).0
  subscribe-IsWellFormed = record {
    listed = subscribe_listed;
    distinct = subscribe-IsDistinct;
    kept = subscribe_kept;
    fresh = subscribe_fresh;
    fits = subscribe-Fits;
  }

module _ (h : Hub) (id : ℕ) (w : IsWellFormed h) where
  close_listed :
      (o : Option Subscription)
      → h.objects id ≡ o
      → (t' : String) (j : ℕ)
      → has j (ids_of (close h id) t') ≡ is_open_at ((close h id).objects j) t'
  unfolding close
  close_listed none e t' j = ground (arith, w.listed t' j)
  close_listed (some s) e t' j = ground (
    arith,
    w.listed t' j,
    λ (same : id ≡ j). ap h.objects same,
    has-delete_id id j (ids_of h s.topic),
    or_empty-none_if_empty (delete_id id (ids_of h s.topic)),
    eq_iff s.topic t',
    ==_iff id j,
  )

  close-IsDistinct :
      (o : Option Subscription)
      → h.objects id ≡ o
      → (t' : String) → IsDistinct (ids_of (close h id) t')
  unfolding close
  close-IsDistinct none e t' = ground (arith, w.distinct t')
  close-IsDistinct (some s) e t' = ground (
    arith,
    w.distinct t',
    IsDistinct-delete_id id (ids_of h s.topic) (w.distinct s.topic),
    or_empty-none_if_empty (delete_id id (ids_of h s.topic)),
  )

  close_kept :
      (o : Option Subscription)
      → h.objects id ≡ o
      → (t' : String) → (close h id).topics t' ≢ some []
  unfolding close
  close_kept none e t' f = ground (arith, w.kept t')
  close_kept (some s) e t' f =
      ground (arith, w.kept t', none_if_empty-ne (delete_id id (ids_of h s.topic)))

  close_fresh :
      (o : Option Subscription)
      → h.objects id ≡ o
      → (j : ℕ) → (close h id).next < j
      → (close h id).objects j ≡ none
  unfolding close
  close_fresh none e j l = ground (arith, w.fresh j)
  close_fresh (some s) e j l = ground (arith, w.fresh j, λ (same : id ≡ j). ap h.objects same)

  close-Fits :
      (o : Option Subscription)
      → h.objects id ≡ o
      → (j : ℕ) → Fits (close h id).buf ((close h id).objects j)
  unfolding close
  close-Fits none e j = ground (arith, w.fits j)
  close-Fits (some s) e j =
      ground (arith, w.fits j, w.fits id, λ (same : id ≡ j). ap h.objects same)

  -- Closing a subscription, open or already closed, keeps the hub well-formed.
  pub close-IsWellFormed : IsWellFormed (close h id)
  close-IsWellFormed = record {
    listed = close_listed (h.objects id) refl;
    distinct = close-IsDistinct (h.objects id) refl;
    kept = close_kept (h.objects id) refl;
    fresh = close_fresh (h.objects id) refl;
    fits = close-Fits (h.objects id) refl;
  }

module _ (h : Hub) (e : Event) (id : ℕ) (w : IsWellFormed h) where
  deliver_listed :
      (t : String) (j : ℕ)
      → has j (ids_of (deliver h e id) t) ≡ is_open_at ((deliver h e id).objects j) t
  unfolding deliver
  deliver_listed t j = ground (arith, w.listed t j, λ (same : id ≡ j). ap h.objects same)

  deliver-Fits :
      (o : Option Subscription)
      → h.objects id ≡ o
      → (j : ℕ) → Fits (deliver h e id).buf ((deliver h e id).objects j)
  unfolding deliver
  deliver-Fits none eq j = ground (arith, w.fits j)
  deliver-Fits (some s) eq j = ground (
    arith,
    w.fits j,
    w.fits id,
    λ (same : id ≡ j). ap h.objects same,
    length-append s.queue (e ∷ []),
  )

  deliver_rest :
      ((t : String) → IsDistinct (ids_of (deliver h e id) t))
      × ((t : String) → (deliver h e id).topics t ≢ some [])
  unfolding deliver
  deliver_rest = (λ t. ground (arith, w.distinct t), λ t f. ground (arith, w.kept t))

  deliver_fresh : (j : ℕ) → (deliver h e id).next < j → (deliver h e id).objects j ≡ none
  unfolding deliver
  deliver_fresh j l = ground (arith, w.fresh j, λ (same : id ≡ j). ap h.objects same)

  deliver-IsWellFormed : IsWellFormed (deliver h e id)
  deliver-IsWellFormed = record {
    listed = deliver_listed;
    distinct = deliver_rest.0;
    kept = deliver_rest.1;
    fresh = deliver_fresh;
    fits = deliver-Fits (h.objects id) refl;
  }

deliver_all-IsWellFormed :
    (h : Hub) (e : Event) (ids : List ℕ) → IsWellFormed h → IsWellFormed (deliver_all h e ids)
unfolding deliver_all
deliver_all-IsWellFormed h e [] w = w
deliver_all-IsWellFormed h e (id ∷ ids) w =
    deliver_all-IsWellFormed (deliver h e id) e ids (deliver-IsWellFormed h e id w)

-- Publishing keeps the hub well-formed.
pub publish-IsWellFormed : (h : Hub) (e : Event) → IsWellFormed h → IsWellFormed (publish h e)
unfolding publish
publish-IsWellFormed h e w = deliver_all-IsWellFormed h e (ids_of h e.topic) w
