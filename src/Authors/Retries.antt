-- ===== src/Authors/Retries.antt =====
-- The retries of AuthorJobManager (`_run` and the start of `_run_attempt` in
-- app/services/author_job_service.py). Instants are seconds.
use Prim.Native.Nat.{◌^◌}
use native.Mathlib.Nat.{one-le-pow}
use creator_engagement_proje.Base.{
  ℕ, zero, suc, ◌+◌, ◌-◌, ◌*◌, ◌<◌, ◌≤◌, min, max, ◌≡◌, refl, Bool, true, false, not, Option, none,
  some, leb, if◌then◌else◌, is_none, arith, Bool-cases, inl, inr, Option-cases,
}

pub record RetryConfig : Type 0 where
  pub timeout_seconds : ℕ
  pub retry_base_seconds : ℕ
  pub retry_max_seconds : ℕ

-- The fields of a job's document that decide when the loop goes on.
pub record RetryState : Type 0 where
  pub retry_count : ℕ
  pub next_retry_at : Option ℕ
  pub deadline_at : Option ℕ

-- How an attempt ends. An identity or session error is a crawler error that is raised again.
pub data AttemptOutcome : Type 0 where
  finished crawler_error timed_out identity_error other_error cancelled : AttemptOutcome

-- How the run of a job ends.
pub data RunEnd : Type 0 where
  done : RunEnd
  over_deadline : RunEnd
  raised : AttemptOutcome → RunEnd

-- An attempt: how long it waits for the gate, how it ends, and when after its start.
pub record Attempt : Type 0 where
  pub wait : ℕ
  pub outcome : AttemptOutcome
  pub duration : ℕ

abbrev pub delay_of : RetryConfig → ℕ → ℕ
delay_of config retry_count =
    min config.retry_max_seconds (config.retry_base_seconds * 2 ^ min (retry_count - 1) 10)

-- The sleep until next_retry_at.
abbrev pub woken : ℕ → Option ℕ → ℕ
woken now none = now
woken now (some retry_at) = max now retry_at

abbrev pub deadline_of : RetryConfig → ℕ → RetryState → ℕ
deadline_of config started job = elim job.deadline_at [
  | none ↦ started + config.timeout_seconds
  | some d ↦ d
]

-- The outcome and the instant of an attempt's end: past the deadline it times out at once.
abbrev pub attempt_end : ℕ → ℕ → Attempt → AttemptOutcome × ℕ
attempt_end started deadline attempt =
    if leb deadline started
    then (timed_out, started)
    else (attempt.outcome, started + attempt.duration)

abbrev pub is_retried : AttemptOutcome → Bool
is_retried outcome = elim outcome [ crawler_error ↦ true | timed_out ↦ true | _ ↦ false ]

abbrev pub end_of : AttemptOutcome → RunEnd
end_of finished = done
end_of other = raised other

-- The document after a failure that is retried.
abbrev pub waiting_retry : RetryConfig → ℕ → ℕ → RetryState → RetryState
waiting_retry config ended deadline job = record {
  retry_count = job.retry_count + 1;
  next_retry_at = some (min deadline (ended + delay_of config (job.retry_count + 1)));
  deadline_at = some deadline;
}

-- The loop of `_run`: `attempts` are the attempts in turn; `none` is an end of the fuel.
unfoldable pub run : RetryConfig → ℕ → (ℕ → Attempt) → ℕ → RetryState → Option (RunEnd × ℕ)
run config zero attempts now job = none
run config (suc fuel) attempts now job =
    let started = woken now job.next_retry_at + (attempts 0).wait in
    let deadline = deadline_of config started job in
    let ended = attempt_end started deadline (attempts 0) in
    let rest =
      run config fuel (λ n. attempts (suc n)) ended.1 (waiting_retry config ended.1 deadline job) in
    if not (is_retried ended.0)
    then some (end_of ended.0, ended.1)
    else if leb deadline ended.1
    then some (over_deadline, ended.1)
    else rest

delay_least :
    (config : RetryConfig) (retry_count : ℕ)
    → min config.retry_max_seconds config.retry_base_seconds ≤ delay_of config retry_count
delay_least config retry_count =
    grow config.retry_base_seconds (2 ^ min (retry_count - 1) 10)
      (one-le-pow (min (retry_count - 1) 10) 2 (omega arith))
  where
    product : (b p : ℕ) → 1 ≤ p → b ≤ b * p
    product b zero l = omega (arith, l)
    product b (suc p) l = omega arith

    grow : (b p : ℕ) → 1 ≤ p → min config.retry_max_seconds b ≤ min config.retry_max_seconds (b * p)
    grow b p l = omega (arith, product b p l)

abbrev pub step_of : RetryConfig → ℕ
step_of config = min config.retry_max_seconds config.retry_base_seconds

-- The three ways on from an attempt.
ends :
    (retried : Bool) (deadline ended : ℕ) (a b : RunEnd × ℕ) (rest : Option (RunEnd × ℕ))
    → (retried ≡ true → ended < deadline → is_none rest ≡ false)
    → is_none (if not retried then some a else if leb deadline ended then some b else rest) ≡ false
ends true deadline ended a b rest h = elim (Bool-cases (leb deadline ended)) [
  | inl e ↦ rw e refl
  | inr e ↦ rw e (h refl (ground (arith, e)))
]
ends false deadline ended a b rest h = refl

attempt_end_late :
    (started deadline : ℕ) (attempt : Attempt) → started ≤ (attempt_end started deadline attempt).1
attempt_end_late started deadline attempt = ground arith

-- With a deadline, each retry comes at least the smaller of the two settings later, or at the
-- deadline.
run_ends :
    (config : RetryConfig) (fuel : ℕ) (attempts : ℕ → Attempt) (now deadline : ℕ) (job : RetryState)
    → job.deadline_at ≡ some deadline
    → deadline ≤ woken now job.next_retry_at + fuel * step_of config
    → is_none (run config (suc fuel) attempts now job) ≡ false
unfolding run
run_ends config zero attempts now deadline job e near = rw e (ground arith)
run_ends config (suc fuel) attempts now deadline job e near =
    let started : ℕ = woken now job.next_retry_at + (attempts 0).wait in
    let limit : ℕ = deadline_of config started job in
    let ended : AttemptOutcome × ℕ = attempt_end started limit (attempts 0) in
    ends (is_retried ended.0) limit ended.1 _ _ _ (λ r l.
      run_ends config fuel (λ n. attempts (suc n)) ended.1 limit
        (waiting_retry config ended.1 limit job) refl
        (later fuel (step_of config) limit ended.1 (delay_of config (job.retry_count + 1))
          (woken now job.next_retry_at) (delay_least config (job.retry_count + 1))
          (omega (arith, attempt_end_late started limit (attempts 0))) (rw e near)))
  where
    later :
        (fuel step limit ended delay begun : ℕ)
        → step ≤ delay
        → begun ≤ ended
        → limit ≤ begun + suc fuel * step
        → limit ≤ max ended (min limit (ended + delay)) + fuel * step
    later fuel step limit ended delay begun grows after near =
        ground (arith, grows, after, near, times fuel step)
      where
        times : (n k : ℕ) → suc n * k ≡ k + n * k
        times n k = omega arith

-- The time that a job has for its attempts.
abbrev pub time_left : RetryConfig → ℕ → RetryState → ℕ
time_left config now job = elim job.deadline_at [ none ↦ config.timeout_seconds | some d ↦ d - now ]

-- The retries of a job come to an end: whatever its attempts do and however long they take, the
-- loop returns after at most two more attempts than steps cover the time that the job has, a step
-- being the smaller of the first delay and the largest one.
pub run-returns :
    (config : RetryConfig) (fuel : ℕ) (attempts : ℕ → Attempt) (now : ℕ) (job : RetryState)
    → time_left config now job ≤ fuel * step_of config
    → is_none (run config (suc (suc fuel)) attempts now job) ≡ false
unfolding run
run-returns config fuel attempts now job enough = elim (Option-cases job.deadline_at) [
  | inr (d, e) ↦ run_ends config (suc fuel) attempts now d job e (due d (rw e at enough))
  | inl e ↦
      let started : ℕ = woken now job.next_retry_at + (attempts 0).wait in
      let limit : ℕ = deadline_of config started job in
      let ended : AttemptOutcome × ℕ = attempt_end started limit (attempts 0) in
      ends (is_retried ended.0) limit ended.1 _ _ _ (λ r l.
        run_ends config fuel (λ n. attempts (suc n)) ended.1 limit
          (waiting_retry config ended.1 limit job) refl
          (first limit ended.1 started (min limit (ended.1 + delay_of config (job.retry_count + 1)))
            (rw e refl) (attempt_end_late started limit (attempts 0)) (rw e at enough)))
]
  where
    waited : now ≤ woken now job.next_retry_at
    waited = ground arith

    due :
        (d : ℕ)
        → d - now ≤ fuel * step_of config
        → d ≤ woken now job.next_retry_at + suc fuel * step_of config
    due d left = more fuel (step_of config) (woken now job.next_retry_at) waited left
      where
        more : (n k w : ℕ) → now ≤ w → d - now ≤ n * k → d ≤ w + suc n * k
        more n k w l left = omega (arith, l, left)

    first :
        (limit ended started retry : ℕ)
        → limit ≡ started + config.timeout_seconds
        → started ≤ ended
        → config.timeout_seconds ≤ fuel * step_of config
        → limit ≤ max ended retry + fuel * step_of config
    first limit ended started retry e late enough = ground (arith, e, late, enough)
