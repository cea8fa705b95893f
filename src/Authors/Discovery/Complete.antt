-- ===== src/Authors/Discovery/Complete.antt =====
-- What a completed author job has collected (app/services/author_job_service.py).
use creator_engagement_proje.Base.{
  ◌+◌, ◌≡◌, refl, ap, ◌∙◌, String, Bool, true, false, ◌&&◌, ◌||◌, Option, none, some, List, [], ◌∷◌,
  ◌++◌, contains, ◌==◌, string_key, nat_key, of_if, IsDistinct, length, arith, Bool-cases, inl, inr,
}
use creator_engagement_proje.Authors.Works.{Work, counts, save_page}
use creator_engagement_proje.Authors.Discovery.{
  DiscoveryLibrary, AuthorPage, Discovery, digest_of, is_seen, with_seen, has_digest, PageOutcome,
  page_saved, repeated_cursor, repeated_page, discover_page, next_discovery, fingerprint_of,
  after_page, discover, finish_author_job,
}

abbrev pub all_complete : List AuthorPage → Bool
all_complete [] = true
all_complete (page ∷ pages) = page.is_complete_page && all_complete pages

-- From one state to another through the pages saved in between: cursors stay distinct, each page is
-- counted, and the coverage is complete if it was and that of each page is.
abbrev IsTracked : Discovery → List AuthorPage → Discovery → Type 0
IsTracked before pages after =
    IsDistinct after.seen_cursors
    × (after.pages_completed ≡ before.pages_completed + length pages)
    × (after.coverage_complete ≡ (before.coverage_complete && all_complete pages))

abbrev IsSaved : Discovery → AuthorPage → PageOutcome → Type 0
IsSaved before page repeated_cursor = Unit
IsSaved before page repeated_page = Unit
IsSaved before page (page_saved saved works) = IsTracked before (page ∷ []) saved

contains-append :
    (x y : String) (xs : List String) → contains (xs ++ x ∷ []) y ≡ (contains xs y || x == y)
contains-append x y [] = ground arith
contains-append x y (z ∷ xs) = ground (arith, contains-append x y xs)

append-IsDistinct :
    (x : String) (xs : List String)
    → IsDistinct xs
    → contains xs x ≡ false
    → IsDistinct (xs ++ x ∷ [])
append-IsDistinct x [] distinct new = (refl, tt)
append-IsDistinct x (y ∷ xs) distinct new = (
  ground
      (arith, distinct.0, contains-append x y xs, string_key.same_iff x y, string_key.same_iff y x),
  append-IsDistinct x xs distinct.1 (ground arith),
)

with_seen-IsDistinct :
    (digest : Option String) (seen : List String)
    → IsDistinct seen
    → is_seen digest seen ≡ false
    → IsDistinct (with_seen digest seen)
with_seen-IsDistinct none seen distinct new = distinct
with_seen-IsDistinct (some digest) seen distinct new = append-IsDistinct digest seen distinct new

and_true : (b : Bool) → b ≡ (b && true)
and_true true = refl
and_true false = refl

and_assoc : (a b c : Bool) → ((a && (b && true)) && c) ≡ (a && (b && c))
and_assoc false b c = refl
and_assoc true false c = refl
and_assoc true true c = refl

IsSaved-discover_page :
    (lib : DiscoveryLibrary) (job_id media_name : String) (page : AuthorPage) (works : List Work)
    (d : Discovery)
    → IsDistinct d.seen_cursors
    → IsSaved d page (discover_page lib job_id media_name page works d)
unfolding discover_page next_discovery
IsSaved-discover_page lib job_id media_name page works d distinct =
    of_if (IsSaved d page) (is_seen (digest_of lib page.next_cursor) d.seen_cursors) repeated_cursor
      _ (λ e. tt)
      (λ new.
        of_if (IsSaved d page)
          (has_digest (digest_of lib page.next_cursor)
            && is_seen (fingerprint_of lib media_name d.cursor page.works) d.seen_pages)
          repeated_page
          (page_saved (next_discovery lib job_id media_name page works d)
            (save_page job_id d.pages_completed page.works works).1)
          (λ e. tt)
          (λ e. (
            with_seen-IsDistinct (digest_of lib page.next_cursor) d.seen_cursors distinct new,
            refl,
            ap (λ b. d.coverage_complete && b) (and_true page.is_complete_page),
          )))

IsTracked-after_page :
    (outcome : PageOutcome) (page : AuthorPage) (go_on : Discovery → Discovery × List AuthorPage)
    (d : Discovery)
    → IsDistinct d.seen_cursors
    → IsSaved d page outcome
    → ((saved : Discovery)
        → IsDistinct saved.seen_cursors
        → IsTracked saved (go_on saved).1 (go_on saved).0)
    → IsTracked d (after_page outcome page go_on d).1 (after_page outcome page go_on d).0
IsTracked-after_page repeated_cursor page go_on d distinct tracked rest =
    (distinct, omega arith, and_true d.coverage_complete)
IsTracked-after_page repeated_page page go_on d distinct tracked rest =
    (distinct, omega arith, and_true d.coverage_complete)
IsTracked-after_page (page_saved saved works) page go_on d distinct tracked rest =
    elim (Bool-cases saved.discovery_done) [
      | inl done ↦ rw (done, after_page) tracked
      | inr more ↦ rw (more, after_page) (continued (rest saved tracked.0))
    ]
  where
    continued :
        IsTracked saved (go_on saved).1 (go_on saved).0
        → IsTracked d (page ∷ (go_on saved).1) (go_on saved).0
    continued later = (
      later.0,
      ground (arith, later.1, tracked.1),
      later.2
          ∙ ap (λ b. b && all_complete (go_on saved).1) tracked.2
          ∙ and_assoc d.coverage_complete page.is_complete_page (all_complete (go_on saved).1),
    )

IsTracked-discover :
    (lib : DiscoveryLibrary) (job_id media_name : String) (answers : List (AuthorPage × List Work))
    (d : Discovery)
    → IsDistinct d.seen_cursors
    → IsTracked d
        (discover lib job_id media_name answers d).1
        (discover lib job_id media_name answers d).0
unfolding discover
IsTracked-discover lib job_id media_name [] d distinct =
    (distinct, omega arith, and_true d.coverage_complete)
IsTracked-discover lib job_id media_name ((page, works) ∷ answers) d distinct =
    IsTracked-after_page (discover_page lib job_id media_name page works d) page
      (λ saved. discover lib job_id media_name answers saved) d distinct
      (IsSaved-discover_page lib job_id media_name page works d distinct)
      (λ saved later. IsTracked-discover lib job_id media_name answers saved later)

-- What the discovery of an author's job, from any state of it that saw distinct cursors, and its
-- finish lead to, however the platform answers: the cursors seen are still distinct, each saved
-- page is counted, and the job is complete exactly if its discovery reached the last page, its
-- coverage was complete before and is that of each saved page, and no work is pending, running or
-- failed.
pub discover-finish_author_job :
    (lib : DiscoveryLibrary) (job_id media_name : String) (answers : List (AuthorPage × List Work))
    (d : Discovery) (works : List Work)
    → IsDistinct d.seen_cursors
    → IsDistinct (discover lib job_id media_name answers d).0.seen_cursors
      × ((discover lib job_id media_name answers d).0.pages_completed
          ≡ d.pages_completed + length (discover lib job_id media_name answers d).1)
      × ((finish_author_job job_id
            (discover lib job_id media_name answers d).0
            works).is_complete_job
          ≡ ((discover lib job_id media_name answers d).0.discovery_done
              && (d.coverage_complete && all_complete (discover lib job_id media_name answers d).1)
              && (counts job_id works).detail_failed_count == 0
              && (counts job_id works).detail_pending_count == 0))
unfolding finish_author_job
discover-finish_author_job lib job_id media_name answers d works distinct =
    let tracked = IsTracked-discover lib job_id media_name answers d distinct in
    (tracked.0, tracked.1, rw tracked.2 refl)
