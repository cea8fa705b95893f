-- ===== src/Client/Paced.antt =====
-- The requests of an account (app/crawlers/http_client.py, `_request`): one at a time, with a
-- least interval from the end of one to the start of the next. Instants are natural numbers.
use creator_engagement_proje.Base.{ℕ, ◌+◌, ◌≤◌, Bool, ◌&&◌, List, [], ◌∷◌, max, ltb, arith}

-- A request in the order of the lock: when it gets it, and how long it then takes.
pub record PacedRequest : Type 0 where
  pub arrival : ℕ
  pub duration : ℕ

-- The requests that wait for the lock: those of `account_direct_scope`, with an interval.
unfoldable pub is_paced : Bool → ℕ → Bool
is_paced account_direct interval = account_direct && ltb 0 interval

unfoldable pub paced_start : ℕ → ℕ → ℕ → ℕ
paced_start interval last_end arrival = max arrival (last_end + interval)

-- The starts and ends, where `_account_direct_last_end` is `last_end`.
unfoldable pub paced_from : ℕ → ℕ → List PacedRequest → List (ℕ × ℕ)
unfolding paced_start
paced_from interval last_end [] = []
paced_from interval last_end (r ∷ requests) =
    let start = paced_start interval last_end r.arrival in
    (start, start + r.duration) ∷ paced_from interval (start + r.duration) requests

-- Each request starts the interval after the end of the one before, or later.
abbrev IsSpaced : ℕ → ℕ → List (ℕ × ℕ) → Type 0
IsSpaced interval last_end [] = Unit
IsSpaced interval last_end (r ∷ requests) =
    (last_end + interval ≤ r.0) × IsSpaced interval r.1 requests

-- The requests of an account start the interval after the end of the one before, or later, whenever
-- they come and however long they take.
pub IsSpaced-paced_from :
    (interval last_end : ℕ) (requests : List PacedRequest)
    → IsSpaced interval last_end (paced_from interval last_end requests)
unfolding paced_from paced_start
IsSpaced-paced_from interval last_end [] = tt
IsSpaced-paced_from interval last_end (r ∷ requests) = (
  omega arith,
  IsSpaced-paced_from interval (paced_start interval last_end r.arrival + r.duration) requests,
)
