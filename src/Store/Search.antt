-- ===== src/Store/Search.antt =====
-- The binary search of `Store.Read`, over events numbered in sequence.
use event_watch.Base.{
  ℕ, zero, suc, ◌+◌, ◌/◌, ◌≤◌, ◌<◌, ◌≡◌, refl, Bool, true, false, List, [], ◌∷◌, leb, ltb,
  if◌then◌else◌, length, drop, filter, arith, Bool-cases, inl, inr, ◌++◌,
}
use event_watch.Core.{Event}
use event_watch.Store.{search_from, search, seq_at_least}

abbrev IsMonotone : (ℕ → Bool) → Type 0
IsMonotone f = (a b : ℕ) → a ≤ b → f a ≡ true → f b ≡ true

abbrev IsBoundary : (ℕ → Bool) → ℕ → Type 0
IsBoundary f r = ((k : ℕ) → k < r → f k ≡ false) × ((k : ℕ) → r ≤ k → f k ≡ true)

-- A false test is false at everything below, by monotonicity.
false_below : (f : ℕ → Bool) (h k : ℕ) → IsMonotone f → f h ≡ false → k ≤ h → f k ≡ false
false_below f h k mono e l = elim (Bool-cases (f k)) [
  | inl t ↦ absurd (ground (arith, mono k h l t))
  | inr t ↦ t
]

search_from-IsBoundary :
    (fuel : ℕ) (f : ℕ → Bool) (i j : ℕ)
    → IsMonotone f
    → i ≤ j
    → j ≤ i + fuel
    → ((k : ℕ) → k < i → f k ≡ false)
    → ((k : ℕ) → j ≤ k → f k ≡ true)
    → IsBoundary f (search_from fuel f i j)
unfolding search_from
search_from-IsBoundary zero f i j mono le room below above = (below, λ k l. above k (omega arith))
search_from-IsBoundary (suc fuel) f i j mono le room below above = elim (Bool-cases (ltb i j)) [
  | inr done ↦ rw done (below, λ k l. above k (ground arith))
  | inl more ↦ rw more (elim (Bool-cases (f ((i + j) / 2))) [
    | inl yes' ↦ rw yes' (
        search_from-IsBoundary fuel f i ((i + j) / 2) mono (ground arith) (ground arith) below
          (λ k l. mono ((i + j) / 2) k l yes'))
    | inr no' ↦ rw no' (
        search_from-IsBoundary fuel f ((i + j) / 2 + 1) j mono (ground arith) (ground arith)
          (λ k l. false_below f ((i + j) / 2) k mono no' (omega arith)) above)
  ])
]

-- Events numbered in sequence from `k`.
abbrev pub Numbered : ℕ → List Event → Type 0
Numbered k [] = Unit
Numbered k (e ∷ es) = (e.seq ≡ k) × Numbered (suc k) es

pub Numbered-snoc :
    (k : ℕ) (es : List Event) (e : Event)
    → Numbered k es
    → e.seq ≡ k + length es
    → Numbered k (es ++ e ∷ [])
Numbered-snoc k [] e h q = omega arith
Numbered-snoc k (x ∷ es) e (p, h) q = (p, Numbered-snoc (suc k) es e h (omega arith))

seq-get_elem? :
    (k : ℕ) (es : List Event) (from i : ℕ)
    → Numbered k es
    → seq_at_least es from i ≡ (if ltb i (length es) then leb from (k + i) else true)
seq-get_elem? k [] from i h = ground arith
seq-get_elem? k (e ∷ es) from zero h = ground arith
seq-get_elem? k (e ∷ es) from (suc i) (p, h) = ground (arith, seq-get_elem? (suc k) es from i h)

seq_at_least-IsMonotone :
    (k : ℕ) (es : List Event) (from : ℕ) → Numbered k es → IsMonotone (seq_at_least es from)
seq_at_least-IsMonotone k es from h a b l t =
    ground (arith, seq-get_elem? k es from a h, seq-get_elem? k es from b h)

seq_at_least-end :
    (k : ℕ) (es : List Event) (from : ℕ)
    → Numbered k es
    → (i : ℕ) → length es ≤ i
    → seq_at_least es from i ≡ true
seq_at_least-end k es from h i l = ground (arith, seq-get_elem? k es from i h)

filter_all :
    (es : List Event) (from : ℕ)
    → ((k : ℕ) → seq_at_least es from k ≡ true)
    → es ≡ filter (λ e. leb from e.seq) es
filter_all [] from h = refl
filter_all (e ∷ es) from h = ground (arith, h 0, filter_all es from (λ k. h (suc k)))

drop_boundary :
    (r : ℕ) (es : List Event) (from : ℕ)
    → IsBoundary (seq_at_least es from) r
    → drop r es ≡ filter (λ e. leb from e.seq) es
drop_boundary zero es from (below, above) = filter_all es from (λ k. above k (omega arith))
drop_boundary (suc r) [] from b = refl
drop_boundary (suc r) (e ∷ es) from (below, above) = ground (
  arith,
  below 0,
  drop_boundary r es from (λ k l. below (suc k) (omega arith), λ k l. above (suc k) (omega arith)),
)

-- The events from the index found are those whose seq is at least `from`.
pub drop-search :
    (k : ℕ) (es : List Event) (from : ℕ)
    → Numbered k es
    → drop (search (length es) (seq_at_least es from)) es ≡ filter (λ e. leb from e.seq) es
unfolding search
drop-search k es from h = drop_boundary _ es from (
    search_from-IsBoundary (length es) (seq_at_least es from) 0 (length es)
      (seq_at_least-IsMonotone k es from h) (omega arith) (omega arith)
      (λ i l. absurd (omega arith)) (seq_at_least-end k es from h))
