-- ===== src/Proxies/Pace.antt =====
-- RequestRateLimiter and AsyncRequestRateLimiter of app/crawlers/proxy_provider.py, each call under
-- its lock. Instants and the interval are natural numbers of one small unit.
use creator_engagement_proje.Base.{
  ℕ, ◌+◌, ◌-◌, ◌*◌, ◌≡◌, ◌≤◌, refl, Option, none, some, List, [], ◌∷◌, ltb, leb, ◌&&◌,
  if◌then◌else◌, arith,
}

pub record RateLimiter : Type 0 where
  pub interval : ℕ
  pub next_allowed_at : ℕ

-- The constructor; `none` is its ValueError. `interval_of` is 1.0 / max_calls_per_second.
unfoldable pub new_limiter : (ℕ → ℕ) → ℕ → Option RateLimiter
new_limiter interval_of max_calls_per_second =
    if ltb 0 max_calls_per_second
    then some (record { interval = interval_of max_calls_per_second; next_allowed_at = 0 })
    else none

-- A call: `now` is the clock when it gets the lock, `lag` how much longer than asked its sleep
-- takes. It returns the instant at which it lets its caller go on.
unfoldable pub acquire : ℕ → ℕ → RateLimiter → ℕ × RateLimiter
acquire now lag limiter =
    let delay = limiter.next_allowed_at - now in
    let woken = if ltb 0 delay then now + delay + lag else now in
    (woken, record limiter { next_allowed_at = woken + limiter.interval })

-- Calls in turn, each with the time from the end of the one before to its lock, and its lag.
unfoldable pub acquire_all : ℕ → List (ℕ × ℕ) → RateLimiter → List ℕ
acquire_all before [] limiter = []
acquire_all before ((gap, lag) ∷ calls) limiter =
    let first = acquire (before + gap) lag limiter in first.0 ∷ acquire_all first.0 calls first.1

-- The starts are at `earliest` or later, and each the interval or more after the one before.
abbrev pub IsPaced : ℕ → ℕ → List ℕ → Type 0
IsPaced interval earliest [] = Unit
IsPaced interval earliest (start ∷ starts) =
    (earliest ≤ start) × IsPaced interval (start + interval) starts

-- The number of starts at or after one instant and before another.
abbrev pub starts_within : ℕ → ℕ → List ℕ → ℕ
starts_within from until [] = 0
starts_within from until (start ∷ starts) =
    (if leb from start && ltb start until then 1 else 0) + starts_within from until starts

acquire_all-IsPaced :
    (before : ℕ) (calls : List (ℕ × ℕ)) (limiter : RateLimiter)
    → IsPaced limiter.interval limiter.next_allowed_at (acquire_all before calls limiter)
unfolding acquire_all acquire
acquire_all-IsPaced before [] limiter = tt
acquire_all-IsPaced before ((gap, lag) ∷ calls) limiter =
    let first = acquire (before + gap) lag limiter in
    (ground arith, acquire_all-IsPaced first.0 calls first.1)

none_within :
    (interval earliest from until : ℕ) (starts : List ℕ)
    → IsPaced interval earliest starts
    → until ≤ earliest
    → starts_within from until starts ≡ 0
none_within interval earliest from until [] paced late = refl
none_within interval earliest from until (start ∷ starts) paced late =
    ground (arith, none_within interval (start + interval) from until starts)

times_suc : (n k : ℕ) → (1 + n) * k ≡ k + n * k
times_suc n k = omega arith

-- Starts that are all in the window, but for those after it.
starts_within-early :
    (interval earliest from until : ℕ) (starts : List ℕ)
    → IsPaced interval earliest starts
    → from ≤ earliest
    → starts_within from until starts * interval ≤ until - earliest + interval
starts_within-early interval earliest from until [] paced early = omega arith
starts_within-early interval earliest from until (start ∷ starts) paced early = ground (
  arith,
  none_within interval (start + interval) from until starts,
  starts_within-early interval (start + interval) from until starts,
  times_suc (starts_within from until starts) interval,
)

starts_within-bounded :
    (interval earliest from until : ℕ) (starts : List ℕ)
    → IsPaced interval earliest starts
    → starts_within from until starts * interval ≤ until - from + interval
starts_within-bounded interval earliest from until [] paced = omega arith
starts_within-bounded interval earliest from until (start ∷ starts) paced = ground (
  arith,
  starts_within-bounded interval (start + interval) from until starts,
  none_within interval (start + interval) from until starts,
  starts_within-early interval (start + interval) from until starts,
  times_suc (starts_within from until starts) interval,
)

-- Whatever the limiter's state, the gaps between the calls and the lags of their sleeps: of the
-- calls made one after another, the requests let go in a window of time number at most one more
-- than the intervals that fit in it.
pub acquire_all-starts_within :
    (before : ℕ) (calls : List (ℕ × ℕ)) (limiter : RateLimiter) (from until : ℕ)
    → starts_within from until (acquire_all before calls limiter) * limiter.interval
      ≤ until - from + limiter.interval
acquire_all-starts_within before calls limiter from until =
    starts_within-bounded limiter.interval limiter.next_allowed_at from until
      (acquire_all before calls limiter) (acquire_all-IsPaced before calls limiter)
