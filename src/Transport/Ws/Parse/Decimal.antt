-- ===== src/Transport/Ws/Parse/Decimal.antt =====
-- The numbers that the Go client prints and `parseFrom` reads.
use Prim.Native.String.{◌∷◌}
use event_watch.Base.{
  ℕ, zero, suc, ◌+◌, ◌-◌, ◌*◌, ◌/◌, ◌%◌, ◌<◌, ◌≡◌, ◌∙◌, ap, String, some, ltb, ltb→lt, lt→ltb,
  arith, refl, word_mod, Bool-cases, inl, inr,
}
use event_watch.Base.Decimal.{digit, code-digit, show_from, show_ℕ, ten_to}
use event_watch.Transport.Ws.Parse.{parse_digits}

parse_digits-digit :
    (d n : ℕ) (s : String)
    → d < 10
    → n * 10 + d < word_mod
    → parse_digits n (digit d ∷ s) ≡ parse_digits (n * 10 + d) s
unfolding parse_digits
parse_digits-digit d n s h fits = rw (code-digit d h) (
    ground (
      arith,
      ap (λ k. parse_digits k s) {x = (n * 10 + (b'0' + d - b'0')) % word_mod} {y = n * 10 + d}
          (omega arith),
    ))

parse_digits-first : (d : ℕ) (s : String) → d < 10 → parse_digits 0 (digit d ∷ s) ≡ parse_digits d s
parse_digits-first d s h =
    parse_digits-digit d 0 s h (omega arith) ∙ ap (λ k. parse_digits k s) {y = d} (omega arith)

parse_digits_nil : (n : ℕ) → parse_digits n "" ≡ some n
unfolding parse_digits
parse_digits_nil n = refl

parse_digits-show_from :
    (fuel n : ℕ) (out : String)
    → n < ten_to (suc fuel)
    → n < word_mod
    → parse_digits 0 (show_from (suc fuel) n out) ≡ parse_digits n out
unfolding show_from
parse_digits-show_from zero n out h fits =
    rw (lt→ltb n 10 (omega arith)) (parse_digits-first n out (omega arith))
parse_digits-show_from (suc fuel) n out h fits = elim (Bool-cases (ltb n 10)) [
  | inl last ↦ rw last (parse_digits-first n out (ltb→lt n 10 last))
  | inr more ↦ rw more (
      parse_digits-show_from fuel (n / 10) (digit (n % 10) ∷ out) (omega arith) (omega arith)
      ∙ parse_digits-digit (n % 10) (n / 10) out (omega arith) (omega arith)
      ∙ ap (λ k. parse_digits k out) (omega arith))
]

pub parse_digits-show : (n : ℕ) → n < word_mod → parse_digits 0 (show_ℕ n) ≡ some n
unfolding show_ℕ
parse_digits-show n fits = parse_digits-show_from 19 n "" (omega arith) fits ∙ parse_digits_nil n
