-- ===== src/Crawler/Circuit.antt =====
-- The circuit breaker of EngagementCrawler: `_record_circuit_outcome` and
-- `_wait_for_circuit_cooldown` (app/crawlers/engagement.py). Instants are natural numbers.
pub mod Streaks
use native.Mathlib.Nat.{suc-mod, mod-eq_of_lt, mod_self, mod-lt, zero-mod}
use creator_engagement_proje.Base.{
  ℕ, suc, ◌+◌, ◌%◌, ◌<◌, ◌≡◌, refl, sym, ◌∙◌, true, false, String, Option, none, some, List, [],
  ◌∷◌, ltb, if◌then◌else◌, ◌==◌, string_key, nat_key, option_beq, arith, max, Bool-cases, inl, inr,
}
use creator_engagement_proje.Base.Dict.{
  Dict, lookup, insert, pop, lookup-insert, lookup-insert_self, lookup-pop, same_refl,
}
use creator_engagement_proje.Crawler.Results.{is_failure}
use creator_engagement_proje.Engagement.Collected.{
  Coverage, complete, partial, blocked, failed, unsupported,
}

-- `_circuit_failures` and `_circuit_open_until`.
pub record Circuits : Type 0 where
  pub failures : Dict String ℕ
  pub open_until : Dict String ℕ

pub record CircuitConfig : Type 0 where
  pub failure_threshold : ℕ
  pub cooldown : ℕ

abbrev pub closed : Circuits
closed = record { failures = []; open_until = [] }

abbrev pub failures_of : Option ℕ → ℕ
failures_of none = 0
failures_of (some n) = n

-- A failure is counted, and the circuit opens at the threshold.
unfoldable pub count_circuit_failure : CircuitConfig → ℕ → String → Circuits → Circuits
count_circuit_failure config now platform c =
    let failures = failures_of (lookup platform c.failures) + 1 in
    if ltb failures config.failure_threshold
    then record c { failures = insert platform failures c.failures }
    else record {
      failures = insert platform 0 (insert platform failures c.failures);
      open_until = insert platform (now + config.cooldown) c.open_until;
    }

unfoldable pub record_circuit_outcome : CircuitConfig → ℕ → String → Coverage → Circuits → Circuits
unfolding count_circuit_failure
record_circuit_outcome config now platform coverage c =
    if config.failure_threshold == 0 then c else elim coverage [
      | complete ↦ record {
        failures = pop platform c.failures;
        open_until = pop platform c.open_until;
      }
      | partial ↦ record {
        failures = pop platform c.failures;
        open_until = pop platform c.open_until;
      }
      | unsupported ↦ c
      | blocked ↦ count_circuit_failure config now platform c
      | failed ↦ count_circuit_failure config now platform c
    ]

-- `_wait_for_circuit_cooldown` up to its sleep: the instant read from the table, and when the
-- caller goes on.
unfoldable pub begin_wait : ℕ → String → Circuits → ℕ × ℕ
begin_wait now platform c =
    let open_until = failures_of (lookup platform c.open_until) in (open_until, max now open_until)

-- After the sleep: a circuit that is still open until that instant is closed for a probe.
unfoldable pub end_wait : String → ℕ → Circuits → Circuits
end_wait platform open_until c =
    if option_beq (lookup platform c.open_until) (some open_until)
    then record c { open_until = pop platform c.open_until }
    else c

-- What happens to the circuits: outcomes are recorded, and waits end.
pub data Event : Type 0 where
  recorded : (now : ℕ) (platform : String) (coverage : Coverage) → Event
  waited : (platform : String) (open_until : ℕ) → Event

unfoldable pub step : CircuitConfig → Event → Circuits → Circuits
unfolding record_circuit_outcome end_wait
step config (recorded now platform coverage) c =
    record_circuit_outcome config now platform coverage c
step config (waited platform open_until) c = end_wait platform open_until c

-- The events, the last one first.
unfoldable pub after : CircuitConfig → List Event → Circuits
unfolding step
after config [] = closed
after config (event ∷ events) = step config event (after config events)

-- The failures in a row after one more outcome.
unfoldable pub streak_after : Coverage → ℕ → ℕ
streak_after complete n = 0
streak_after partial n = 0
streak_after unsupported n = n
streak_after blocked n = suc n
streak_after failed n = suc n

-- The failures of a platform since its last success, whatever circuits there were.
unfoldable pub streak : String → List Event → ℕ
streak platform [] = 0
streak platform (waited p until ∷ events) = streak platform events
streak platform (recorded now p coverage ∷ events) =
    let before = streak platform events in
    if p == platform then streak_after coverage before else before
