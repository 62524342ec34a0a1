-- ===== src/Webhook/Github/Topics.antt =====
-- The topics of the events that GitHub's plugin makes.
use Prim.Native.Char.{Char, code, width, len_utf8, len_utf8_def}
use Prim.Native.Nat.{compare}
use Prim.Native.String.len as Len
use Prim.Native.String.{[], ◌∷◌, ◌++◌, len}
use text.Mathlib.TextPositions.{len-append}
use text.Mathlib.TextLemmas.{nil-append, cons-append}
use event_watch.Base.{
  ℕ, zero, suc, ◌+◌, ◌-◌, ◌/◌, ◌%◌, ◌≤◌, ◌<◌, ◌≡◌, ◌≢◌, refl, ap, ◌∙◌, String, true, false, [], ◌∷◌,
  ◌==◌, arith, Bool-cases, inl, inr, ltb, ltb→lt, word_mod,
}
use event_watch.Base.Decimal.{
  digit, code-digit, show_from, show_from_all, show_ℕ, show_int64, show-ne-nil, cons-ne-nil,
}
use event_watch.Core.Topic.{split_slash, validate_topic}
use event_watch.Core.Topic.Laws.{IsTopicChar, AllTopicChars, IsSegment, validate_topic_iff}
use event_watch.Webhook.Github.{topic_for}

topic_char_ne_slash : (c : ℕ) → IsTopicChar c → (c == b'/') ≡ false
topic_char_ne_slash c h = ground arith

-- A text without a slash in front of one is the first part.
split_slash-append :
    (s t : String) → AllTopicChars s → split_slash (s ++ ("/" ∷ t)) ≡ s ∷ split_slash t
unfolding split_slash
split_slash-append [] t h = rw (nil-append) refl
split_slash-append (c ∷ s) t (p, h) =
    rw (cons-append) (rw (topic_char_ne_slash (code c) p, split_slash-append s t h) refl)

split_slash-segment : (s : String) → AllTopicChars s → split_slash s ≡ s ∷ []
unfolding split_slash
split_slash-segment [] h = refl
split_slash-segment (c ∷ s) (p, h) =
    rw (topic_char_ne_slash (code c) p, split_slash-segment s h) refl

AllTopicChars-digit : (d : ℕ) (s : String) → d < 10 → AllTopicChars s → AllTopicChars (digit d ∷ s)
AllTopicChars-digit d s small h =
    (rw (code-digit d small) (inr (inr (inl (omega arith, omega arith)))), h)

show_ℕ-AllTopicChars : (n : ℕ) → AllTopicChars (show_ℕ n)
unfolding show_ℕ
show_ℕ-AllTopicChars n = show_from_all AllTopicChars AllTopicChars-digit 20 n "" tt

show_int64-AllTopicChars : (w : ℕ) → AllTopicChars (show_int64 w)
unfolding show_int64
show_int64-AllTopicChars w = elim (Bool-cases (ltb w 9223372036854775808)) [
  | inl below ↦ rw below (show_ℕ-AllTopicChars w)
  | inr above ↦
      rw (above, cons-append, nil-append)
        (inr (inr (inr (inl refl))), show_ℕ-AllTopicChars (word_mod - w))
]

show_int64-ne-nil : (w : ℕ) → show_int64 w ≢ ""
unfolding show_int64
show_int64-ne-nil w = elim (Bool-cases (ltb w 9223372036854775808)) [
  | inl below ↦ rw below (show-ne-nil w)
  | inr above ↦ rw (above, cons-append, nil-append) (cons-ne-nil "-" (show_ℕ (word_mod - w)))
]

pr_chars : AllTopicChars "pr"
pr_chars = omega arith

split_slash-topic_for :
    (owner repo : String) (n : ℕ)
    → AllTopicChars owner
    → AllTopicChars repo
    → split_slash (topic_for owner repo n) ≡ "pr" ∷ owner ∷ repo ∷ show_int64 n ∷ []
unfolding topic_for
split_slash-topic_for owner repo n o r =
    split_slash-append "pr" (owner ++ ("/" ∷ (repo ++ ("/" ∷ show_int64 n)))) pr_chars
    ∙ ap (λ ps. "pr" ∷ ps)
        (split_slash-append owner (repo ++ ("/" ∷ show_int64 n)) o
          ∙ ap (λ ps. owner ∷ ps)
              (split_slash-append repo (show_int64 n) r
                ∙ ap (λ ps. repo ∷ ps)
                    (split_slash-segment (show_int64 n) (show_int64-AllTopicChars n))))

abbrev width_of : Char → ℕ
width_of c = width (compare (code c) 128) (compare (code c) 2048) (compare (code c) 65536)

ascii_width : (c : Char) → code c < 128 → width_of c ≡ 1
ascii_width c h = ground arith

len-cons : (c : Char) (s : String) → code c < 128 → len (c ∷ s) ≡ 1 + len s
len-cons c s h =
    let cons : len (c ∷ s) ≡ len_utf8 c + len s = λ i. Len.cons c s i in
    let width : len_utf8 c ≡ width_of c = λ i. len_utf8_def c i in
    cons ∙ ap (λ n. n + len s) (width ∙ ascii_width c h)

len-digit : (d : ℕ) (s : String) → d < 10 → len (digit d ∷ s) ≡ 1 + len s
len-digit d s h = len-cons (digit d) s (omega (arith, code-digit d h))

len-show_from : (fuel n : ℕ) (out : String) → len (show_from fuel n out) ≤ fuel + len out
unfolding show_from
len-show_from zero n out = omega arith
len-show_from (suc fuel) n out = elim (Bool-cases (ltb n 10)) [
  | inl last ↦ rw last (omega (arith, len-digit n out (ltb→lt n 10 last)))
  | inr more ↦ rw more (
      omega (
        arith,
        len-digit (n % 10) out (omega arith),
        len-show_from fuel (n / 10) (digit (n % 10) ∷ out),
      ))
]

len-show_int64 : (w : ℕ) → len (show_int64 w) ≤ 21
unfolding show_int64 show_ℕ
len-show_int64 w = elim (Bool-cases (ltb w 9223372036854775808)) [
  | inl below ↦ rw below (omega (arith, len-show_from 20 w ""))
  | inr above ↦
      rw (above, cons-append, nil-append)
        (omega (
          arith,
          len-cons "-" (show_ℕ (word_mod - w)) (omega arith),
          len-show_from 20 (word_mod - w) "",
        ))
]

len-topic_for :
    (owner repo : String) (n : ℕ) → len (topic_for owner repo n) ≤ len owner + len repo + 26
unfolding topic_for
len-topic_for owner repo n =
    let num = show_int64 n in
    let after_repo : String = "/" ∷ num in
    let after_owner : String = "/" ∷ (repo ++ after_repo) in
    let after_pr : String = "/" ∷ (owner ++ after_owner) in
    omega (
      arith,
      len-append "pr" after_pr,
      len-cons "/" (owner ++ after_owner) (omega arith),
      len-append owner after_owner,
      len-cons "/" (repo ++ after_repo) (omega arith),
      len-append repo after_repo,
      len-cons "/" num (omega arith),
      len-show_int64 n,
    )

-- The topic of a pull request is valid, if owner and repository are segments that leave room.
pub topic_for_valid :
    (owner repo : String) (n : ℕ)
    → IsSegment owner
    → IsSegment repo
    → len owner + len repo ≤ 486
    → validate_topic (topic_for owner repo n) ≡ true
topic_for_valid owner repo n (owner_ne, o) (repo_ne, r) room =
    (validate_topic_iff (topic_for owner repo n)).1 (
      omega (arith, len-topic_for owner repo n),
      rw (split_slash-topic_for owner repo n o r) (omega arith),
      rw (split_slash-topic_for owner repo n o r) (
        (λ e. cons-ne-nil "p" "r" e, pr_chars),
        ((owner_ne, o), ((repo_ne, r), ((show_int64-ne-nil n, show_int64-AllTopicChars n), tt))),
      ),
    )
