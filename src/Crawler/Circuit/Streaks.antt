-- ===== src/Crawler/Circuit/Streaks.antt =====
-- Failures in a row, and the circuits that they open (app/crawlers/engagement.py).
use native.Mathlib.Nat.{suc-mod, mod-eq_of_lt, mod_self, mod-lt, zero-mod}
use creator_engagement_proje.Base.{
  ℕ, suc, ◌+◌, ◌%◌, ◌<◌, ◌≡◌, refl, sym, ◌∙◌, true, false, String, some, List, [], ◌∷◌, ltb,
  if◌then◌else◌, ◌==◌, string_key, nat_key, arith, Bool-cases, inl, inr,
}
use creator_engagement_proje.Base.Dict.{
  lookup, insert, pop, lookup-insert, lookup-insert_self, lookup-pop, same_refl,
}
use creator_engagement_proje.Crawler.Results.{is_failure}
use creator_engagement_proje.Engagement.Collected.{
  Coverage, complete, partial, blocked, failed, unsupported,
}
use creator_engagement_proje.Crawler.Circuit.{
  failures_of, count_circuit_failure, record_circuit_outcome, end_wait, step, after, streak_after,
  streak, Circuits, CircuitConfig, Event, recorded, waited,
}

mod_suc : (n t : ℕ) → 0 < t → suc n % t ≡ (if ltb (n % t + 1) t then n % t + 1 else 0)
mod_suc n t positive =
    ground
      (arith, suc-mod n t, mod-eq_of_lt {n = suc (n % t)} {m = t}, mod_self t, mod-lt n positive)

same_iff : (p q : String) → (p == q) ≡ true → p ≡ q
same_iff p q = (string_key.same_iff p q).0

count_self :
    (config : CircuitConfig) (now : ℕ) (platform : String) (c : Circuits)
    → failures_of (lookup platform (count_circuit_failure config now platform c).failures) ≡ (
        if ltb (failures_of (lookup platform c.failures) + 1) config.failure_threshold
        then failures_of (lookup platform c.failures) + 1
        else 0)
unfolding count_circuit_failure
count_self config now platform c =
    elim (Bool-cases
      (ltb (failures_of (lookup platform c.failures) + 1) config.failure_threshold)) [
        | inl e ↦
            rw
              (
                e,
                lookup-insert_self platform (failures_of (lookup platform c.failures) + 1)
                    c.failures,
              )
              refl
        | inr e ↦
            rw
              (
                e,
                lookup-insert_self platform 0
                    (insert platform (failures_of (lookup platform c.failures) + 1) c.failures),
              )
              refl
      ]

count_other :
    (config : CircuitConfig) (now : ℕ) (p platform : String) (c : Circuits)
    → (p == platform) ≡ false
    → lookup platform (count_circuit_failure config now p c).failures ≡ lookup platform c.failures
unfolding count_circuit_failure
count_other config now p platform c other =
    elim (Bool-cases (ltb (failures_of (lookup p c.failures) + 1) config.failure_threshold)) [
      | inl e ↦
          rw (e, lookup-insert p platform (failures_of (lookup p c.failures) + 1) c.failures, other)
            refl
      | inr e ↦
          rw
            (
              e,
              lookup-insert p platform 0
                  (insert p (failures_of (lookup p c.failures) + 1) c.failures),
              other,
              lookup-insert p platform (failures_of (lookup p c.failures) + 1) c.failures,
              other,
            )
            refl
    ]

counting :
    (config : CircuitConfig) (now : ℕ) (p platform : String) (c : Circuits)
    → failures_of (lookup platform (count_circuit_failure config now p c).failures) ≡ (
        if p == platform
        then (if ltb (failures_of (lookup platform c.failures) + 1) config.failure_threshold
            then failures_of (lookup platform c.failures) + 1
            else 0)
        else failures_of (lookup platform c.failures))
counting config now p platform c = elim (Bool-cases (p == platform)) [
  | inl same ↦ rw (same_iff p platform same, same_refl platform) (count_self config now platform c)
  | inr other ↦ rw (other, count_other config now p platform c other) refl
]

-- With a threshold above 0, outcomes are counted.
record_on :
    (config : CircuitConfig) (now : ℕ) (p : String) (coverage : Coverage) (c : Circuits)
    → 0 < config.failure_threshold
    → record_circuit_outcome config now p coverage c ≡ (elim coverage [
      | complete ↦ record { failures = pop p c.failures; open_until = pop p c.open_until }
      | partial ↦ record { failures = pop p c.failures; open_until = pop p c.open_until }
      | unsupported ↦ c
      | _ ↦ count_circuit_failure config now p c
    ])
unfolding record_circuit_outcome
record_on config now p coverage c positive = rw (threshold_set positive) refl
  where
    threshold_set : 0 < config.failure_threshold → (config.failure_threshold == 0) ≡ false
    threshold_set set = ground arith

-- The failures counted after one more outcome.
count_after : ℕ → Coverage → ℕ → ℕ
count_after threshold complete n = 0
count_after threshold partial n = 0
count_after threshold unsupported n = n
count_after threshold blocked n = if ltb (n + 1) threshold then n + 1 else 0
count_after threshold failed n = if ltb (n + 1) threshold then n + 1 else 0

count_after-mod :
    (threshold : ℕ) (coverage : Coverage) (n : ℕ)
    → 0 < threshold
    → count_after threshold coverage (n % threshold) ≡ streak_after coverage n % threshold
unfolding count_after streak_after
count_after-mod t complete n positive = sym (zero-mod t)
count_after-mod t partial n positive = sym (zero-mod t)
count_after-mod t unsupported n positive = refl
count_after-mod t blocked n positive = sym (mod_suc n t positive)
count_after-mod t failed n positive = sym (mod_suc n t positive)

-- What one outcome does to the failures counted against a platform.
counted :
    (config : CircuitConfig) (now : ℕ) (p platform : String) (coverage : Coverage) (c : Circuits)
    → 0 < config.failure_threshold
    → failures_of (lookup platform (record_circuit_outcome config now p coverage c).failures) ≡ (
        if p == platform
        then count_after config.failure_threshold coverage
            (failures_of (lookup platform c.failures))
        else failures_of (lookup platform c.failures))
unfolding count_after
counted config now p platform complete c positive =
    rw (record_on config now p complete c positive, lookup-pop p platform c.failures)
      elim (Bool-cases (p == platform)) [ inl e ↦ rw e refl | inr e ↦ rw e refl ]
counted config now p platform partial c positive =
    rw (record_on config now p partial c positive, lookup-pop p platform c.failures)
      elim (Bool-cases (p == platform)) [ inl e ↦ rw e refl | inr e ↦ rw e refl ]
counted config now p platform unsupported c positive =
    rw (record_on config now p unsupported c positive)
      elim (Bool-cases (p == platform)) [ inl e ↦ rw e refl | inr e ↦ rw e refl ]
counted config now p platform blocked c positive =
    rw (record_on config now p blocked c positive) (counting config now p platform c)
counted config now p platform failed c positive =
    rw (record_on config now p failed c positive) (counting config now p platform c)

-- After any outcomes and waits, with a threshold above 0, the failures counted against a platform
-- are those since its last success, modulo the threshold.
pub after-streak :
    (config : CircuitConfig) (events : List Event) (platform : String)
    → 0 < config.failure_threshold
    → failures_of (lookup platform (after config events).failures)
      ≡ streak platform events % config.failure_threshold
unfolding after step end_wait streak lookup
after-streak config [] platform positive = sym (zero-mod config.failure_threshold)
after-streak config (waited p until ∷ events) platform positive =
    ground (arith, after-streak config events platform positive)
after-streak config (recorded now p coverage ∷ events) platform positive =
    counted config now p platform coverage (after config events) positive
    ∙ elim (Bool-cases (p == platform)) [
      | inl e ↦
          rw (e, after-streak config events platform positive)
            (count_after-mod config.failure_threshold coverage (streak platform events) positive)
      | inr e ↦ rw e (after-streak config events platform positive)
    ]

opens :
    (config : CircuitConfig) (events : List Event) (now : ℕ) (platform : String)
    → 0 < config.failure_threshold
    → lookup platform (count_circuit_failure config now platform (after config events)).open_until
      ≡ (if (if platform == platform then suc (streak platform events) else streak platform events)
              % config.failure_threshold
            == 0
          then some (now + config.cooldown)
          else lookup platform (after config events).open_until)
unfolding count_circuit_failure
opens config events now platform positive =
    rw
      (
        same_refl platform,
        after-streak config events platform positive,
        mod_suc (streak platform events) config.failure_threshold positive,
      )
      elim (Bool-cases
        (ltb (streak platform events % config.failure_threshold + 1) config.failure_threshold)) [
          | inl e ↦ rw (e, above_zero) refl
          | inr e ↦
              rw
                (
                  e,
                  lookup-insert_self platform (now + config.cooldown)
                      (after config events).open_until,
                )
                refl
        ]
  where
    above_zero : (streak platform events % config.failure_threshold + 1 == 0) ≡ false
    above_zero = ground arith

-- With a threshold above 0: a blocked or failed outcome opens the platform's circuit for the
-- cooldown exactly if the failures since the last success become a multiple of the threshold, and
-- leaves the circuit as it was otherwise.
pub record_circuit_outcome-opens :
    (config : CircuitConfig) (events : List Event) (now : ℕ) (platform : String)
    (coverage : Coverage)
    → 0 < config.failure_threshold
    → is_failure coverage ≡ true
    → lookup platform (after config (recorded now platform coverage ∷ events)).open_until ≡ (
        if streak platform (recorded now platform coverage ∷ events) % config.failure_threshold == 0
        then some (now + config.cooldown)
        else lookup platform (after config events).open_until)
unfolding after step streak streak_after
record_circuit_outcome-opens config events now platform complete positive fails = ground arith
record_circuit_outcome-opens config events now platform partial positive fails = ground arith
record_circuit_outcome-opens config events now platform unsupported positive fails = ground arith
record_circuit_outcome-opens config events now platform blocked positive fails =
    rw (record_on config now platform blocked (after config events) positive)
      (opens config events now platform positive)
record_circuit_outcome-opens config events now platform failed positive fails =
    rw (record_on config now platform failed (after config events) positive)
      (opens config events now platform positive)
