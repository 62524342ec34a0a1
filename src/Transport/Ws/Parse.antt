-- ===== src/Transport/Ws/Parse.antt =====
-- `parseFrom` of internal/transport/ws.go.
pub mod Laws
pub mod Decimal
use Prim.Native.Char.{code}
use Prim.Native.String.{[], ◌∷◌}
use event_watch.Base.{
  cut_prefix, ℕ, ◌+◌, ◌-◌, ◌*◌, ◌%◌, ◌^◌, ◌≡◌, refl, ap, ◌∙◌, String, Bool, true, false, ◌&&◌, ◌||◌,
  Option, none, some, ltb, leb, ◌==◌, ◌=ₛ◌, if◌then◌else◌, word_mod, arith, eq_iff,
}
use event_watch.Core.{From, latest, last_n, from_seq}

-- The loop over the digits, on 64 bits; none where it returns early.
unfoldable pub parse_digits : ℕ → String → Option ℕ
parse_digits n [] = some n
parse_digits n (c ∷ s) =
    if ltb (code c) b'0' || ltb b'9' (code c)
    then none
    else parse_digits ((n * 10 + (code c - b'0')) % word_mod) s

abbrev or_latest : Option ℕ → From
or_latest none = latest
or_latest (some n) = last_n n

unfoldable pub parse_from : String → ℕ → From
unfolding parse_digits
parse_from from seq =
    if ltb 0 seq
    then from_seq seq
    else if from =ₛ "" || from =ₛ "latest"
    then latest
    else elim (cut_prefix "last:" from) [
      | none ↦ latest
      | some digits ↦ if digits =ₛ "" then latest else or_latest (parse_digits 0 digits)
    ]
