-- ===== src/Redis/Keys.antt =====
-- The keys of internal/store/redis: four families, one key for each topic, and the set of topics.
use Prim.Native.Char.{code}
use Prim.Native.String.{[], ◌∷◌, ◌++◌}
use text.Mathlib.TextLemmas.{nil-append, cons-append}
use event_watch.Base.{
  ℕ, zero, suc, ◌≡◌, String, some, false, ◌==◌, ◌=ₛ◌, eq_iff, arith, refl, ap, ◌∙◌, cut_prefix,
}
use event_watch.Redis.Store.{stream_key, state_key, meta_key, seq_key, topics_set}

-- A text without its first characters, and the character after them.
abbrev past : ℕ → String → String
past zero s = s
past (suc n) [] = []
past (suc n) (c ∷ s) = past n s

abbrev first : String → ℕ
first [] = 0
first (c ∷ s) = code c

-- The sixth character of a key tells its family.
abbrev pub mark : String → ℕ
mark k = first (past 5 k)

-- A text behind another, character by character.
abbrev after : String → String → String
after [] t = t
after (c ∷ p) t = c ∷ after p t

-- The four functions that give the keys of a topic.
pub data Family : Type 0 where
  streams states metas seqs : Family

abbrev pub key : Family → String → String
key streams = stream_key
key states = state_key
key metas = meta_key
key seqs = seq_key

abbrev pub prefix : Family → String
prefix streams = "ew:stream:"
prefix states = "ew:state:"
prefix metas = "ew:meta:"
prefix seqs = "ew:seq:"

key-prefix : (f : Family) (t : String) → key f t ≡ prefix f ++ t
unfolding stream_key state_key meta_key seq_key
key-prefix streams t = refl
key-prefix states t = refl
key-prefix metas t = refl
key-prefix seqs t = refl

spelled : (p t : String) → p ++ t ≡ after p t
spelled [] t = nil-append t
spelled (c ∷ p) t = cons-append c p t ∙ ap (λ s. c ∷ s) (spelled p t)

cut_prefix-after : (p t : String) → cut_prefix p (after p t) ≡ some t
cut_prefix-after [] t = refl
cut_prefix-after (c ∷ p) t = ground (arith, cut_prefix-after p t)

key-after : (f : Family) (t : String) → key f t ≡ after (prefix f) t
key-after f t = key-prefix f t ∙ spelled (prefix f) t

key-mark : (f : Family) (t : String) → mark (key f t) ≡ mark (prefix f)
key-mark streams t = ap mark (key-after streams t)
key-mark states t = ap mark (key-after states t)
key-mark metas t = ap mark (key-after metas t)
key-mark seqs t = ap mark (key-after seqs t)

apart : (j k : String) → (mark j == mark k) ≡ false → (j =ₛ k) ≡ false
apart j k d = ground (arith, eq_iff j k, λ (e : j ≡ k). ap mark e)

-- Keys of different families differ, also from the set of topics.
pub key-key_apart :
    (f g : Family) (t u : String)
    → (mark (prefix f) == mark (prefix g)) ≡ false
    → (key f t =ₛ key g u) ≡ false
key-key_apart f g t u d = apart (key f t) (key g u) (rw (key-mark f t, key-mark g u) d)

set-mark : (f : Family) → (mark topics_set == mark (prefix f)) ≡ false
set-mark streams = refl
set-mark states = refl
set-mark metas = refl
set-mark seqs = refl

pub set-key_apart : (f : Family) (t : String) → (topics_set =ₛ key f t) ≡ false
set-key_apart f t = apart topics_set (key f t) (rw (key-mark f t) (set-mark f))

pub key-set_apart : (f : Family) (t : String) → (key f t =ₛ topics_set) ≡ false
key-set_apart f t =
    ground (arith, eq_iff (key f t) topics_set, eq_iff topics_set (key f t), set-key_apart f t)

-- A key of a family is another topic's only if the topics are the same.
pub key-inj : (f : Family) (t u : String) → (key f t =ₛ key f u) ≡ (t =ₛ u)
key-inj f t u = ground (
  arith,
  eq_iff (key f t) (key f u),
  eq_iff t u,
  key-after f t,
  key-after f u,
  cut_prefix-after (prefix f) t,
  cut_prefix-after (prefix f) u,
  λ (e : key f t ≡ key f u). ap (cut_prefix (prefix f)) e,
  λ (e : t ≡ u). ap (key f) e,
)
