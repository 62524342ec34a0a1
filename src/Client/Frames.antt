-- ===== src/Client/Frames.antt =====
-- How the server reads the `subscribe` frames of the client.
use Prim.Native.String.{◌++◌ as ◌++ₛ◌}
use text.Mathlib.TextLemmas.{nil-append, cons-append}
use event_watch.Base.{
  ℕ, ◌<◌, ◌≡◌, ◌≢◌, refl, ap, String, true, some, ltb, if◌then◌else◌, eq_iff, arith, word_mod,
  Bool-cases, inl, inr, cut_prefix,
}
use event_watch.Base.Decimal.{show_ℕ, show-ne-nil}
use event_watch.Core.{From, latest, last_n, from_seq}
use event_watch.Transport.Ws.Parse.{parse_from, parse_digits}
use event_watch.Transport.Ws.Parse.Decimal.{parse_digits-show}
use event_watch.Client.Wire.{from_text, seq_of, subscribe_frame, received}

abbrev pub IsWord : From → Type 0
IsWord latest = Unit
IsWord (last_n n) = n < word_mod
IsWord (from_seq n) = n < word_mod

-- The start of a subscription that the server makes of the client's.
abbrev pub as_read : From → From
as_read latest = latest
as_read (last_n n) = last_n n
as_read (from_seq n) = if ltb 0 n then from_seq n else latest

cut_last : (t : String) → cut_prefix "last:" ("last:" ++ₛ t) ≡ some t
cut_last t = rw (cons-append, cons-append, cons-append, cons-append, cons-append, nil-append) refl

parse_from-cut :
    (text digits : String) (n : ℕ)
    → cut_prefix "last:" text ≡ some digits
    → parse_digits 0 digits ≡ some n
    → digits ≢ ""
    → parse_from text 0 ≡ last_n n
unfolding parse_from
parse_from-cut text digits n cut read given = ground (
  arith,
  read,
  eq_iff text "",
  eq_iff text "latest",
  eq_iff digits "",
  λ (e : text ≡ ""). ap (cut_prefix "last:") e,
  λ (e : text ≡ "latest"). ap (cut_prefix "last:") e,
)

parse_from-text :
    (from : From) → IsWord from → parse_from (from_text from) (seq_of from) ≡ as_read from
unfolding parse_from from_text
parse_from-text latest w = refl
parse_from-text (last_n n) w =
    parse_from-cut ("last:" ++ₛ show_ℕ n) (show_ℕ n) n (cut_last (show_ℕ n)) (parse_digits-show n w)
      (show-ne-nil n)
parse_from-text (from_seq n) w = ground arith

parse_from_resumed : (n : ℕ) → ltb 0 n ≡ true → parse_from "" n ≡ from_seq n
unfolding parse_from
parse_from_resumed n h = rw h refl

-- The server reads a `subscribe` frame of the client as the client means it: a frame that resumes
-- asks for the events from the given seq on, any other for the start that the subscription was
-- opened with, but that a start at seq 0 is read as the latest.
pub subscribe_frame-parse_from :
    (topic : String) (from : From) (resume : ℕ)
    → IsWord from
    → let m = received (subscribe_frame topic from resume) in
      (m.op ≡ "subscribe")
      × (m.topic ≡ topic)
      × (parse_from m.from m.from_seq ≡ (if ltb 0 resume then from_seq resume else as_read from))
unfolding subscribe_frame
subscribe_frame-parse_from topic from resume w = elim (Bool-cases (ltb 0 resume)) [
  | inl again ↦ rw again (refl, refl, parse_from_resumed resume again)
  | inr first ↦ rw first (refl, refl, parse_from-text from w)
]
