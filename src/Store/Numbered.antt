-- ===== src/Store/Numbered.antt =====
-- The events of a log from a seq on, as a suffix of the log.
use event_watch.Base.{
  ℕ, zero, suc, ◌+◌, ◌-◌, ◌≤◌, ◌<◌, ◌≡◌, refl, Option, none, some, List, [], ◌∷◌, drop, filter, leb,
  length, get_last?, arith, ap, ◌∙◌, sym, subst, drop_nil, Bool-cases, inl, inr,
}
use event_watch.Core.{Event}
use event_watch.Store.Search.{Numbered}

filter_from_all :
    (k v : ℕ) (es : List Event) → Numbered k es → v ≤ k → filter (λ e. leb v e.seq) es ≡ es
filter_from_all k v [] h l = refl
filter_from_all k v (e ∷ es) (p, h) l = ground (arith, filter_from_all (suc k) v es h)

pub filter_from :
    (k v : ℕ) (es : List Event) → Numbered k es → filter (λ e. leb v e.seq) es ≡ drop (v - k) es
filter_from k v [] h = sym (drop_nil (v - k))
filter_from k v (e ∷ es) (p, h) = elim (Bool-cases (leb v k)) [
  | inl early ↦
      filter_from_all k v (e ∷ es) (p, h) (ground arith)
      ∙ ap (λ j. drop j (e ∷ es)) {x = 0} {y = v - k} (ground arith)
  | inr late ↦
      let skipped : filter (λ x. leb v x.seq) (e ∷ es) ≡ filter (λ x. leb v x.seq) es =
        ground arith in
      skipped
      ∙ filter_from (suc k) v es h
      ∙ ap (λ j. drop j (e ∷ es)) {x = suc (v - suc k)} {y = v - k} (ground arith)
]

pub Numbered-drop : (n k : ℕ) (es : List Event) → Numbered k es → Numbered (n + k) (drop n es)
Numbered-drop zero k es h = subst (λ j. Numbered j es) (omega arith) h
Numbered-drop (suc n) k [] h = tt
Numbered-drop (suc n) k (e ∷ es) (p, h) =
    subst (λ j. Numbered j (drop n es)) (omega arith) (Numbered-drop n (suc k) es h)

abbrev last_seq : Option Event → ℕ
last_seq none = 0
last_seq (some e) = e.seq

pub last_seq-get_last? :
    (k : ℕ) (es : List Event)
    → Numbered k es
    → 0 < length es
    → last_seq (get_last? es) + 1 ≡ k + length es
last_seq-get_last? k [] h l = absurd (omega arith)
last_seq-get_last? k (e ∷ []) (p, h) l = omega arith
last_seq-get_last? k (e ∷ e' ∷ es) (p, h) l =
    last_seq-get_last? (suc k) (e' ∷ es) h (omega arith) ∙ omega arith
