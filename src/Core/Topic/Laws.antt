-- ===== src/Core/Topic/Laws.antt =====
-- What the checks of internal/core/topic.go establish.
use Prim.Native.Char.{code}
use Prim.Native.String.{[], ◌∷◌, len}
use event_watch.Base.{
  ℕ, ◌≤◌, ◌≡◌, ◌≢◌, ◌↔◌, ◌⊎◌, String, true, some, List, [], ◌∷◌, arith, refl, inl, inr, subst,
  eq_iff, length, All, Option-cases,
}
use event_watch.Core.Topic.{
  cut_slash, split_slash, parse_object_type, is_topic_char, all_topic_chars, all_segments,
  validate_topic,
}
use event_watch.Core.Topic.Split.{split_slash-cut_slash}

-- The characters that a topic may hold, as ranges of code points.
abbrev pub IsTopicChar : ℕ → Type 0
IsTopicChar c =
    (b'a' ≤ c) × (c ≤ b'z')
    ⊎ ((b'A' ≤ c) × (c ≤ b'Z')
        ⊎ ((b'0' ≤ c) × (c ≤ b'9') ⊎ ((c ≡ b'-') ⊎ ((c ≡ b'_') ⊎ (c ≡ b'.')))))

abbrev pub AllTopicChars : String → Type 0
AllTopicChars [] = Unit
AllTopicChars (c ∷ s) = IsTopicChar (code c) × AllTopicChars s

abbrev pub IsSegment : String → Type 0
IsSegment p = (p ≢ "") × AllTopicChars p

is_topic_char_iff : (c : ℕ) → (is_topic_char c ≡ true) ↔ IsTopicChar c
unfolding is_topic_char
is_topic_char_iff c = ground arith

all_topic_chars_iff : (s : String) → (all_topic_chars s ≡ true) ↔ AllTopicChars s
unfolding all_topic_chars
all_topic_chars_iff [] = ground arith
all_topic_chars_iff (c ∷ s) = ground (arith, is_topic_char_iff (code c), all_topic_chars_iff s)

all_segments_iff : (ps : List String) → (all_segments ps ≡ true) ↔ All IsSegment ps
unfolding all_segments
all_segments_iff [] = ground arith
all_segments_iff (p ∷ ps) = ground (arith, eq_iff p "", all_topic_chars_iff p, all_segments_iff ps)

split_slash_nil : (t : String) → t ≡ "" → split_slash t ≡ "" ∷ []
unfolding split_slash
split_slash_nil t e = rw e refl

-- `ValidateTopic` accepts exactly the texts of at most 512 bytes that split at the slashes into
-- two or more segments, each non-empty and made of letters, digits, `-`, `_` and `.`.
pub validate_topic_iff :
    (t : String)
    → (validate_topic t ≡ true)
      ↔ ((len t ≤ 512) × (2 ≤ length (split_slash t)) × All IsSegment (split_slash t))
unfolding validate_topic
validate_topic_iff t =
    ground (arith, eq_iff t "", all_segments_iff (split_slash t), split_slash_nil t)

ne_nil_of_segments : (b : String) → All IsSegment (split_slash b) → b ≢ ""
ne_nil_of_segments b h e = (subst (All IsSegment) (split_slash_nil b e) h).0.0 refl

split_slash_of_cut :
    (t a b : String) → cut_slash t ≡ some (a, b) → split_slash t ≡ a ∷ split_slash b
split_slash_of_cut t a b e = ground (arith, split_slash-cut_slash t)

parse_of_cut :
    (t : String)
    → 2 ≤ length (split_slash t)
    → All IsSegment (split_slash t)
    → (ot : String) × (parse_object_type t ≡ some ot) × IsSegment ot
unfolding parse_object_type
parse_of_cut t two h = elim (Option-cases (cut_slash t)) [
  | inl e ↦ absurd (ground (arith, split_slash-cut_slash t))
  | inr ((a, b), e) ↦
      let parts = subst (All IsSegment) (split_slash_of_cut t a b e) h in
      let rest = ne_nil_of_segments b parts.1 in
      (a, ground (arith, eq_iff a "", eq_iff b "", rest, parts.0.0), parts.0)
]

-- A topic that `ValidateTopic` accepts has an object type, which is its non-empty first segment:
-- the error of the `ParseObjectType` after it cannot occur.
pub validate_topic-parse_object_type :
    (t : String)
    → validate_topic t ≡ true
    → (ot : String) × (parse_object_type t ≡ some ot) × IsSegment ot
validate_topic-parse_object_type t h =
    let (_, two, segments) = (validate_topic_iff t).0 h in parse_of_cut t two segments
