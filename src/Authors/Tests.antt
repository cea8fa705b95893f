-- ===== src/Authors/Tests.antt =====
-- Works of a running author job (app/repositories/author_repository.py).
use creator_engagement_proje.Base.{
  ◌+◌, map, length, tally, IsDistinct, pair_key, if◌then◌else◌, String, ◌≡◌, refl, true, false, not,
  ◌&&◌, ◌||◌, none, some, List, [], ◌∷◌, ◌++◌, string_key, nat_key, ◌==◌, All, contains, select,
  arith, is_none, suc,
}
use creator_engagement_proje.Authors.Batch.{
  Value, valid, invalid, AuthorJob, AuthorBatchSubmission, Launched, submit_batch, save_and_launch,
  has_status, accepted, duplicate,
}
use creator_engagement_proje.Authors.Batch.Answers.{Answers}
use creator_engagement_proje.Authors.Batch.Gathered.{job_key, by_author, submit_batch-exact}
use creator_engagement_proje.Authors.Discovery.{
  DiscoveryLibrary, AuthorPage, Discovery, discover, finish_author_job,
}
use creator_engagement_proje.Authors.Discovery.Complete.{all_complete, discover-finish_author_job}
use creator_engagement_proje.Authors.Retries.{crawler_error, run, run-returns}
use creator_engagement_proje.Authors.Works.{
  DetailStatus, AuthorWork, Work, save_page, claim_detail, save_detail, results_page, last_sequence,
  counts, is_after,
}
use creator_engagement_proje.Authors.Works.Pages.{sequences}
use creator_engagement_proje.Authors.Works.Counting.{save_page-twice}
use creator_engagement_proje.Authors.Works.Following.{is_settled}
use creator_engagement_proje.Authors.Works.Reading.{
  opened, saved, claimed_one, settled, read, Reading-misses_none,
}

-- A work whose details wait.
abbrev work : String → AuthorWork
work id = record {
  work_id = id;
  author_uid = "u";
  resolved_author_uid = none;
  author_name = "";
  media_name = "douyin";
  content_type = "video";
  url = "";
  title = "";
  description = "";
  text = "";
  published_at = none;
  cover_url = none;
  media_urls = [];
  duration_ms = none;
  content_complete = true;
  detail_status = DetailStatus.pending;
  error = none;
  fetched_at = 0;
}

abbrev page : List AuthorWork
page = work "a" ∷ work "b" ∷ []

-- What the tests compute with.
program : Unit {0}
unfolding save_page claim_detail save_detail results_page
program = tt

abbrev after_detail : List Work
after_detail = save_detail "j" (work "a") (claim_detail "j" (save_page "j" 0 page []).1).1

-- "a" is settled, and "b" is not: the first request gets "a" alone.
Reading-misses_none_example :
    All
      (λ w.
        (not (
            w.job_id == "j"
            && not (
                is_after
                  (last_sequence none (results_page "j" true none 5 after_detail).0)
                  w.sequence))
          || contains
              ([] ++ sequences (select is_settled (results_page "j" true none 5 after_detail).0))
              w.sequence)
        ≡ true)
      after_detail
Reading-misses_none_example =
    Reading-misses_none {job_id = "j"}
      (read 5 (settled "j" (work "a") (claimed_one "j" (saved page (omega arith) opened))))

first_page_gets_one : sequences (results_page "j" true none 5 after_detail).0 ≡ 0 ∷ []
unfolding program
first_page_gets_one = refl

save_page-twice_example :
    (save_page "j" 1 page (save_page "j" 0 page []).1 ≡ save_page "j" 0 page [])
    × ((save_page "j" 0 page []).0 ≡ (
      (counts "j" (save_page "j" 0 page []).1).saved_count,
      (counts "j" (save_page "j" 0 page []).1).detail_failed_count,
    ))
save_page-twice_example = save_page-twice "j" 0 1 page []

-- Five seconds between attempts at least, a minute for the job, and attempts that all fail.
run-returns_example :
    is_none (
      run
        (record { timeout_seconds = 60; retry_base_seconds = 5; retry_max_seconds = 20 })
        (suc (suc 12))
        (λ n. record { wait = 0; outcome = crawler_error; duration = 1 })
        100
        (record { retry_count = 0; next_retry_at = none; deadline_at = none }))
    ≡ false
run-returns_example =
    run-returns (record { timeout_seconds = 60; retry_base_seconds = 5; retry_max_seconds = 20 }) 12
      (λ n. record { wait = 0; outcome = crawler_error; duration = 1 }) 100
      (record { retry_count = 0; next_retry_at = none; deadline_at = none }) (omega arith)

-- Two values of one author, and an invalid one.
abbrev values : List Value
values =
    valid (record { uid = "u"; media_name = "douyin" })
    ∷ invalid "missing" none none
    ∷ valid (record { uid = "u"; media_name = "douyin" })
    ∷ []

abbrev submitted : AuthorBatchSubmission × Launched
submitted =
    submit_batch (λ n. 7 + n) (λ n. if n == 0 then "p" else "q") values
      (record { jobs = []; tasks = [] })

submit_batch-exact_example :
    (jobs : List AuthorJob) × (submitted.1
      ≡ save_and_launch jobs (record { jobs = []; tasks = [] }))
    × IsDistinct (map job_key jobs)
    × (length jobs ≡ submitted.0.accepted_count)
    × (submitted.0.accepted_count + submitted.0.duplicate_count + submitted.0.rejected_count ≡ 3)
    × (tally (has_status accepted) submitted.0.items ≡ submitted.0.accepted_count)
    × (tally (has_status duplicate) submitted.0.items ≡ submitted.0.duplicate_count)
    × Answers (by_author jobs) 0 [] values submitted.0.items
submit_batch-exact_example =
    submit_batch-exact (λ n. 7 + n) (λ n. if n == 0 then "p" else "q") values
      (record { jobs = []; tasks = [] })

abbrev discovery_lib : DiscoveryLibrary
discovery_lib = record {
  digest = λ cursor. cursor;
  page_digest = λ source ids. source;
  source_of = λ cursor. "video";
}

abbrev undiscovered : Discovery
undiscovered = record {
  cursor = none;
  pages_completed = 0;
  saved_count = 0;
  detail_failed_count = 0;
  coverage_complete = true;
  seen_cursors = [];
  seen_pages = [];
  coverage_reason = "";
  discovery_done = false;
}

-- Two pages: a first one, and a last one whose coverage is partial.
abbrev answers : List (AuthorPage × List Work)
answers =
    (record { works = page; next_cursor = some "2"; is_complete_page = true; reason = "" }, [])
    ∷ (
      record { works = []; next_cursor = none; is_complete_page = false; reason = "hidden" },
      after_detail,
    )
    ∷ []

discover-finish_author_job_example :
    IsDistinct (discover discovery_lib "j" "douyin" answers undiscovered).0.seen_cursors
    × ((discover discovery_lib "j" "douyin" answers undiscovered).0.pages_completed
        ≡ 0 + length (discover discovery_lib "j" "douyin" answers undiscovered).1)
    × ((finish_author_job "j"
          (discover discovery_lib "j" "douyin" answers undiscovered).0
          after_detail).is_complete_job
        ≡ ((discover discovery_lib "j" "douyin" answers undiscovered).0.discovery_done
            && (true && all_complete (discover discovery_lib "j" "douyin" answers undiscovered).1)
            && (counts "j" after_detail).detail_failed_count == 0
            && (counts "j" after_detail).detail_pending_count == 0))
discover-finish_author_job_example =
    discover-finish_author_job discovery_lib "j" "douyin" answers undiscovered after_detail tt

two_pages_are_saved :
    (discover discovery_lib "j" "douyin" answers undiscovered).0.pages_completed ≡ 2
unfolding discover
two_pages_are_saved = refl

a_repeated_cursor_ends :
    (discover discovery_lib "j" "douyin" answers
      (record undiscovered { seen_cursors = "2" ∷ [] })).1
    ≡ []
unfolding discover
a_repeated_cursor_ends = refl
