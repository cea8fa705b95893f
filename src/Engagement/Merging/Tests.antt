-- ===== src/Engagement/Merging/Tests.antt =====
-- Callers of one key that wait together (`_fetch_cached`).
use creator_engagement_proje.Base.{
  ℕ, String, ◌≡◌, refl, false, not, ◌&&◌, [], ◌∷◌, string_key, pair_key, bool_key, nat_key, ◌==◌,
  All, leb, contains,
}
use creator_engagement_proje.Base.Dict.{lookup, insert, pop}
use creator_engagement_proje.Engagement.Tests.{cached}
use creator_engagement_proje.Engagement.Merging.{
  Fetches, Running, idle, join, leave, cancelled, finish_task,
}
use creator_engagement_proje.Engagement.Merging.Callers.{IsMerged, callers_of}
use creator_engagement_proje.Engagement.Merging.Cancelled.{
  Calls, opened, joined, finished, left, gave_up, Calls-IsMerged, cancelled-exact,
}

-- Two callers of "a" and one of "b".
abbrev three : Running String
three = (join "a" (join "b" (join "a" idle).1).1).1

-- What the tests compute with.
program : Unit {0}
unfolding join leave cancelled lookup insert pop
program = tt

three_callers : Calls (("a", 0) ∷ ("b", 1) ∷ ("a", 0) ∷ []) three
unfolding program
three_callers = joined "a" (joined "b" (joined "a" opened))

-- The second caller of "a" gives up, and the first gets the result.
Calls-IsMerged_example :
    IsMerged (("b", 1) ∷ []) (leave "a" 0 (finish_task 0 (cancelled "a" 0 three).1))
unfolding program
Calls-IsMerged_example = Calls-IsMerged (
    left (("b", 1) ∷ []) [] "a" 0 refl
      (finished 0 (gave_up [] (("b", 1) ∷ ("a", 0) ∷ []) "a" 0 three_callers)))

cancelled-exact_example :
    ((cancelled "b" 1 three).0 ≡ (
      leb (callers_of {K = String} "b" (("a", 0) ∷ ("a", 0) ∷ [])) 0
      && not (contains three.done 1)))
    × All {T = String × ℕ}
        (λ c. ((cancelled "b" 1 three).0 && ◌==◌ {K = ℕ} c.1 1) ≡ false)
        (("a", 0) ∷ ("a", 0) ∷ [])
cancelled-exact_example = cancelled-exact (("a", 0) ∷ []) (("a", 0) ∷ []) "b" 1 three three_callers

abbrev fetches : Fetches String ℕ
fetches = record { cache = cached; running = (join ("c", false) idle).1 }
