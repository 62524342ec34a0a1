-- ===== src/Transport/Ws/Parse/Laws.antt =====
-- The numbers that `parseFrom` reads.
use Prim.Native.Char.{code}
use Prim.Native.String.{[], ◌∷◌}
use event_watch.Base.{
  cut_prefix, ℕ, ◌+◌, ◌-◌, ◌*◌, ◌%◌, ◌≤◌, ◌≡◌, ◌≢◌, ap, ◌∙◌, String, some, ltb, if◌then◌else◌,
  word_mod, arith, eq_iff,
}
use event_watch.Core.{last_n, from_seq}
use event_watch.Transport.Ws.Parse.{parse_digits, parse_from}

abbrev pub AllDigits : String → Type 0
AllDigits [] = Unit
AllDigits (c ∷ s) = (b'0' ≤ code c) × (code c ≤ b'9') × AllDigits s

-- Ten to the number of digits.
abbrev pub places : String → ℕ
places [] = 1
places (c ∷ s) = 10 * places s

-- The number that a text of digits writes in base ten.
abbrev pub decimal : String → ℕ
decimal [] = 0
decimal (c ∷ s) = (code c - b'0') * places s + decimal s

shift : (n d p : ℕ) → (n * 10 + d) * p ≡ n * (10 * p) + d * p
shift n d p = grind arith

parse_digits-decimal :
    (n : ℕ) (s : String)
    → AllDigits s
    → parse_digits (n % word_mod) s ≡ some ((n * places s + decimal s) % word_mod)
unfolding parse_digits
parse_digits-decimal n [] h = ap some {y = (n * 1 + 0) % word_mod} (omega arith)
parse_digits-decimal n (c ∷ s) (lo, hi, h) =
    let d = code c - b'0' in
    let next : parse_digits (n % word_mod) (c ∷ s) ≡ parse_digits ((n * 10 + d) % word_mod) s =
      ground (
        arith,
        ap (λ k. parse_digits k s) {x = (n % word_mod * 10 + d) % word_mod}
            {y = (n * 10 + d) % word_mod} (omega arith),
      ) in
    next
    ∙ parse_digits-decimal (n * 10 + d) s h
    ∙ ap (λ k. some (k % word_mod)) (omega (arith, shift n d (places s)))

-- A number after `last:` is read in base ten, on 64 bits: with no `from_seq`, the text `last:` followed
-- by one or more digits asks for as many events as the digits say, modulo 2 ^ 64; with a `from_seq`
-- the text is not looked at.
pub parse_from_last :
    (text digits : String) (seq : ℕ)
    → cut_prefix "last:" text ≡ some digits
    → AllDigits digits
    → digits ≢ ""
    → parse_from text seq ≡ (if ltb 0 seq then from_seq seq else last_n (decimal digits % word_mod))
unfolding parse_from
parse_from_last text digits seq cut h given =
    let read : parse_digits 0 digits ≡ some (decimal digits % word_mod) =
      parse_digits-decimal 0 digits h
      ∙ ap (λ k. some (k % word_mod)) {y = decimal digits} (omega arith) in
    ground (
      arith,
      read,
      eq_iff text "",
      eq_iff text "latest",
      eq_iff digits "",
      λ (e : text ≡ ""). ap (cut_prefix "last:") e,
      λ (e : text ≡ "latest"). ap (cut_prefix "last:") e,
    )
