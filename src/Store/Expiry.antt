-- ===== src/Store/Expiry.antt =====
-- Sweeps and the enumeration of topics.
use Prim.Native.String.{[], ◌∷◌, compare}
use Prim.Native.String.compare
use text.Mathlib.Text.{is_le, starts_with}
use event_watch.Base.{
  ℕ, zero, suc, ◌+◌, ◌≡◌, refl, String, Bool, true, false, ◌&&◌, ◌||◌, List, [], ◌∷◌, if◌then◌else◌,
  length, filter, arith, lookup, ℤ, pos, negsuc, ◌=ₛ◌, eq_iff, ap, ◌∙◌, take, HasDistinctKeys,
  is_some,
}
use event_watch.Core.{Time}
use event_watch.Store.{
  Store, TopicData, expire_from, expire, insert_sorted, sort_strings, keys, list_topics, limited,
}
use event_watch.Store.Log.{IsWellFormed, unexpired, lookup-expire}

expire_from_count :
    (cutoff : Time) (m : List (String × TopicData))
    → length (expire_from cutoff m).0 + (expire_from cutoff m).1 ≡ length m
unfolding expire_from
expire_from_count cutoff [] = refl
expire_from_count cutoff ((t, td) ∷ m) = ground (arith, expire_from_count cutoff m)

-- A sweep of a well-formed store removes exactly the topics whose last event is set and strictly
-- before the cutoff, keeps the data of the others as it was, and returns the number removed.
pub expire_exact :
    (s : Store) (cutoff : Time) (t : String)
    → IsWellFormed s
    → (lookup t (expire s cutoff).0.topics ≡ unexpired cutoff (lookup t s.topics))
      × (length (expire s cutoff).0.topics + (expire s cutoff).1 ≡ length s.topics)
unfolding expire
expire_exact s cutoff t w = (lookup-expire s cutoff t w, expire_from_count cutoff s.topics)

abbrev str_leb : String → String → Bool
str_leb s t = is_le (compare s t)

abbrev pub IsSorted : List String → Type 0
IsSorted [] = Unit
IsSorted (t ∷ []) = Unit
IsSorted (t ∷ u ∷ ts) = (is_le (compare t u) ≡ true) × IsSorted (u ∷ ts)

str_leb_total : (s t : String) → is_le (compare s t) ≡ false → is_le (compare t s) ≡ true
str_leb_total [] [] h = ground (arith, compare.nil-nil)
str_leb_total [] (d ∷ t) h = ground (arith, compare.nil-cons d t)
str_leb_total (c ∷ s) [] h = ground (arith, compare.nil-cons c s)
str_leb_total (c ∷ s) (d ∷ t) h =
    ground (arith, compare.cons-cons c d s t, compare.cons-cons d c t s, str_leb_total s t)

insert_sorted-IsSorted :
    (t : String) (us : List String) → IsSorted us → IsSorted (insert_sorted t us)
unfolding insert_sorted
insert_sorted-IsSorted t [] h = tt
insert_sorted-IsSorted t (u ∷ []) h = ground (arith, str_leb_total t u)
insert_sorted-IsSorted t (u ∷ v ∷ us) (p, h) =
    ground (arith, str_leb_total t u, insert_sorted-IsSorted t (v ∷ us) h)

sort_strings-IsSorted : (ts : List String) → IsSorted (sort_strings ts)
unfolding sort_strings
sort_strings-IsSorted [] = tt
sort_strings-IsSorted (t ∷ ts) =
    insert_sorted-IsSorted t (sort_strings ts) (sort_strings-IsSorted ts)

take-IsSorted : (n : ℕ) (ts : List String) → IsSorted ts → IsSorted (take n ts)
take-IsSorted zero ts h = tt
take-IsSorted (suc n) [] h = tt
take-IsSorted (suc zero) (t ∷ []) h = tt
take-IsSorted (suc (suc n)) (t ∷ []) h = tt
take-IsSorted (suc zero) (t ∷ u ∷ ts) (p, h) = tt
take-IsSorted (suc (suc n)) (t ∷ u ∷ ts) (p, h) = (p, take-IsSorted (suc n) (u ∷ ts) h)

limited-IsSorted : (limit : ℤ) (ts : List String) → IsSorted ts → IsSorted (limited limit ts)
limited-IsSorted (pos n) ts h = ground (arith, take-IsSorted n ts h)
limited-IsSorted (negsuc n) ts h = h

-- How often a text stands in a list.
abbrev pub count : String → List String → ℕ
count t [] = 0
count t (u ∷ us) = if u =ₛ t then suc (count t us) else count t us

count-insert_sorted :
    (t u : String) (us : List String) → count t (insert_sorted u us) ≡ count t (u ∷ us)
unfolding insert_sorted
count-insert_sorted t u [] = refl
count-insert_sorted t u (v ∷ us) = ground (arith, count-insert_sorted t u us)

count-sort_strings : (t : String) (us : List String) → count t (sort_strings us) ≡ count t us
unfolding sort_strings
count-sort_strings t [] = refl
count-sort_strings t (u ∷ us) =
    ground (arith, count-sort_strings t us, count-insert_sorted t u (sort_strings us))

matches : String → String → Bool
matches prefix t = prefix =ₛ "" || starts_with t prefix

count-filter-keys :
    (prefix t : String) (m : List (String × TopicData))
    → HasDistinctKeys m
    → count t (filter (matches prefix) (keys m))
      ≡ (if is_some (lookup t m) && matches prefix t then 1 else 0)
unfolding lookup
count-filter-keys prefix t [] d = refl
count-filter-keys prefix t ((u, td) ∷ m) (n, d) = ground (
  arith,
  count-filter-keys prefix t m d,
  eq_iff u t,
  λ (same : u ≡ t). ap (matches prefix) same,
  λ (same : u ≡ t). ap (λ k. lookup k m) same,
)

-- In a well-formed store the listing is in the order of the texts, whatever the limit; and where
-- the limit is not positive it holds each topic of the store that has the prefix once, and
-- nothing else.
pub list_topics_lem :
    (s : Store) (prefix : String) (limit : ℤ) (t : String)
    → IsWellFormed s
    → IsSorted (list_topics s prefix limit)
      × (count t (list_topics s prefix (pos 0)) ≡ (
          if is_some (lookup t s.topics) && (prefix =ₛ "" || starts_with t prefix) then 1 else 0))
unfolding list_topics matches
list_topics_lem s prefix limit t w = (
  let listed = filter (matches prefix) (keys s.topics) in
      limited-IsSorted limit (sort_strings listed) (sort_strings-IsSorted listed),
  count-sort_strings t (filter (matches prefix) (keys s.topics))
      ∙ count-filter-keys prefix t s.topics w.distinct,
)
