-- ===== src/Redis/Numbers.antt =====
-- The numbers and times that internal/store/redis keeps as decimals: package strconv, `UnixNano` and
-- `time.Unix`. An int64 is its bit pattern.
use Prim.Native.Char.{code}
use Prim.Native.String.{[], ◌∷◌}
use event_watch.Base.{
  ℕ, ℤ, pos, negsuc, ◌+◌, ◌-◌, ◌*◌, ◌%◌, ◌+ℤ◌, ◌-ℤ◌, String, Option, none, some, ltb, leb, ◌||◌,
  ◌==◌, if◌then◌else◌, word_mod, signed64,
}
use event_watch.Base.Decimal.{show_int64}
use event_watch.Core.{Time}

-- The number that the digits after some read digits give; none at another character.
unfoldable pub digits_from : ℕ → String → Option ℕ
digits_from n [] = some n
digits_from n (c ∷ s) =
    let rest = digits_from (n * 10 + (code c - b'0')) s in
    if ltb (code c) b'0' || ltb b'9' (code c) then none else rest

-- `strconv.ParseUint(s, 10, 64)`; none is any error.
unfoldable pub parse_uint : String → Option ℕ
unfolding digits_from
parse_uint [] = none
parse_uint (c ∷ s) = elim (digits_from 0 (c ∷ s)) [
  | none ↦ none
  | some n ↦ if ltb n word_mod then some n else none
]

abbrev signed : ℕ → Option ℕ → Option ℕ
signed limit none = none
signed limit (some n) = if ltb n limit then some n else none

abbrev negated : Option ℕ → Option ℕ
negated none = none
negated (some n) = if leb n 9223372036854775808 then some ((word_mod - n) % word_mod) else none

-- `strconv.ParseInt(s, 10, 64)`.
unfoldable pub parse_int : String → Option ℕ
unfolding parse_uint
parse_int [] = none
parse_int (c ∷ s) =
    if code c == b'-'
    then negated (parse_uint s)
    else signed 9223372036854775808 (parse_uint (if code c == b'+' then s else c ∷ s))

-- 1970 in nanoseconds from the zero time.
abbrev unix_epoch : ℤ
unix_epoch = pos 62135596800000000000

-- The bit pattern of an integer at 64 bits.
abbrev word_of : ℤ → ℕ
word_of (pos n) = n % word_mod
word_of (negsuc n) = word_mod - 1 - n % word_mod

unfoldable pub unix_nano : Time → ℕ
unix_nano t = word_of (t -ℤ unix_epoch)

-- `time.Unix(0, v)`.
unfoldable pub unix : ℕ → Time
unix v = unix_epoch +ℤ signed64 v

-- How go-redis writes `t.UnixNano()`.
abbrev pub show_time : Time → String
show_time t = show_int64 (unix_nano t)
