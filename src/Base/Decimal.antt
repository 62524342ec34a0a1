-- ===== src/Base/Decimal.antt =====
-- What `%d` of package fmt prints, for a `uint64` and for an `int64` as its bit pattern.
use Prim.Native.Nat.{ℕ, zero, suc, ◌+◌, ◌-◌, ◌*◌, ◌/◌, ◌%◌, ◌<◌}
use Prim.Native.Char.{Char, code}
use Prim.Native.String.{String, ◌∷◌, ◌++◌}
use mathlib.Core.Path.{◌≡◌, refl}
use mathlib.Core.Logic.{◌≢◌, inl, inr}
use native.Mathlib.Omega.{arith}
use event_watch.Base.Tests.{ltb, ltb→lt, Bool-cases, ◌==◌, if◌then◌else◌}
use event_watch.Base.Int.{word_mod}

unfoldable pub digit : ℕ → Char
digit d =
    if d == 0
    then "0"
    else if d == 1
    then "1"
    else if d == 2
    then "2"
    else if d == 3
    then "3"
    else if d == 4
    then "4"
    else if d == 5
    then "5"
    else if d == 6
    then "6"
    else if d == 7
    then "7"
    else if d == 8
    then "8"
    else "9"

-- The digits of a number before a text; fuel is the number of digits.
unfoldable pub show_from : ℕ → ℕ → String → String
unfolding digit
show_from zero n out = out
show_from (suc fuel) n out =
    let more = show_from fuel (n / 10) (digit (n % 10) ∷ out) in
    if ltb n 10 then digit n ∷ out else more

-- Twenty digits are enough below 2 ^ 64.
unfoldable pub show_ℕ : ℕ → String
show_ℕ n = show_from 20 n ""

unfoldable pub show_int64 : ℕ → String
unfolding show_ℕ
show_int64 w = if ltb w 9223372036854775808 then show_ℕ w else "-" ++ show_ℕ (word_mod - w)

pub code-digit : (d : ℕ) → d < 10 → code (digit d) ≡ b'0' + d
unfolding digit
code-digit zero h = refl
code-digit (suc zero) h = refl
code-digit (suc (suc zero)) h = refl
code-digit (suc (suc (suc zero))) h = refl
code-digit (suc (suc (suc (suc zero)))) h = refl
code-digit (suc (suc (suc (suc (suc zero))))) h = refl
code-digit (suc (suc (suc (suc (suc (suc zero)))))) h = refl
code-digit (suc (suc (suc (suc (suc (suc (suc zero))))))) h = refl
code-digit (suc (suc (suc (suc (suc (suc (suc (suc zero)))))))) h = refl
code-digit (suc (suc (suc (suc (suc (suc (suc (suc (suc zero))))))))) h = refl
code-digit (suc (suc (suc (suc (suc (suc (suc (suc (suc (suc d)))))))))) h = absurd (omega arith)

-- Ten to the number of digits.
abbrev pub ten_to : ℕ → ℕ
ten_to zero = 1
ten_to (suc k) = 10 * ten_to k

-- What holds of every digit and passes from a text to the text before which a digit stands holds of
-- the whole print.
module _ (P : String → Type 0)
    (before : (d : ℕ) (s : String) → d < 10 → P s → P (digit d ∷ s)) where
  pub show_from_all : (fuel n : ℕ) (out : String) → P out → P (show_from fuel n out)
  unfolding show_from
  show_from_all zero n out h = h
  show_from_all (suc fuel) n out h = elim (Bool-cases (ltb n 10)) [
    | inl last ↦ rw last (before n out (ltb→lt n 10 last) h)
    | inr more ↦
        rw more
          (show_from_all fuel (n / 10) (digit (n % 10) ∷ out) (before (n % 10) out (omega arith) h))
  ]

pub cons-ne-nil : (c : Char) (s : String) → c ∷ s ≢ ""
cons-ne-nil c s e = cc

show_from-ne-nil : (fuel n : ℕ) (out : String) → show_from (suc fuel) n out ≢ ""
unfolding show_from
show_from-ne-nil fuel n out = elim (Bool-cases (ltb n 10)) [
  | inl last ↦ rw last (cons-ne-nil (digit n) out)
  | inr more ↦ rw more (
      show_from_all (λ s. s ≢ "") (λ d s h k. cons-ne-nil (digit d) s) fuel (n / 10)
        (digit (n % 10) ∷ out) (cons-ne-nil (digit (n % 10)) out))
]

pub show-ne-nil : (n : ℕ) → show_ℕ n ≢ ""
unfolding show_ℕ
show-ne-nil n = show_from-ne-nil 19 n ""

show_max : show_ℕ 18446744073709551615 ≡ "18446744073709551615"
unfolding show_ℕ show_from
show_max = refl

show_negative : show_int64 18446744073709551614 ≡ "-2"
unfolding show_int64 show_from
show_negative = refl
