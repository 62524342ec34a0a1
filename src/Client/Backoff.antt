-- ===== src/Client/Backoff.antt =====
-- The waits between dials.
use event_watch.Base.{
  ℕ, zero, suc, ◌*◌, ◌%◌, ◌≤◌, ◌<◌, ◌≡◌, leb, ltb, if◌then◌else◌, arith, word_mod,
}
use event_watch.Client.{Client, next_backoff, backoff_after, min_duration}

-- A number, doubled some times.
abbrev pub doubled : ℕ → ℕ → ℕ
doubled x zero = x
doubled x (suc k) = 2 * doubled x k

min_duration_small :
    (a b : ℕ)
    → a < 9223372036854775808
    → b < 9223372036854775808
    → min_duration a b ≡ (if ltb a b then a else b)
min_duration_small a b k l = ground arith

next_backoff_small :
    (c : Client) (n : ℕ)
    → n ≤ c.backoff_max
    → c.backoff_max < 4611686018427387904
    → next_backoff c n ≡ (if ltb (2 * n) c.backoff_max then 2 * n else c.backoff_max)
unfolding next_backoff
next_backoff_small c n le small =
    let same : (n * 2) % word_mod ≡ 2 * n = omega arith in
    rw same (min_duration_small (2 * n) c.backoff_max (omega arith) (omega arith))

-- With an initial wait of at most the greatest, and a greatest wait below 2 ^ 62 ns, about 146
-- years: after any number of dials that fail in a row the wait before the next is the initial one
-- doubled as often, or the greatest once that is passed. No doubling wraps around.
pub backoff_after_lem :
    (c : Client) (k : ℕ)
    → c.backoff_initial ≤ c.backoff_max
    → c.backoff_max < 4611686018427387904
    → (backoff_after c k ≤ c.backoff_max)
      × (backoff_after c k ≡ (
          if leb (doubled c.backoff_initial k) c.backoff_max
          then doubled c.backoff_initial k
          else c.backoff_max))
unfolding backoff_after
backoff_after_lem c zero le small = ground arith
backoff_after_lem c (suc k) le small =
    let (bound, same) = backoff_after_lem c k le small in
    let next = next_backoff_small c (backoff_after c k) bound small in
    ground (arith, bound, same, next)
