-- ===== src/Jobs/Sqlite/Tests.antt =====
-- A small database (SQLiteJobRepository), with values in place of JSON texts.
use creator_engagement_proje.Base.{◌≡◌, refl, string_key, String, ◌==◌, map, tally}
use creator_engagement_proje.Base.Dict.{lookup, insert, values}
use creator_engagement_proje.Models.{CollectStatus, CreateJobRequest, JobItemResponse}
use creator_engagement_proje.Jobs.Memory
use creator_engagement_proje.Jobs.Memory.{Repository, empty}
use creator_engagement_proje.Jobs.Sqlite.{Codec, Database, job_values, row_to_job}
use creator_engagement_proje.Jobs.Sqlite.Statements.{
  create_job, append_result, recover_interrupted, get_job, find_by_idempotency_key, get_request,
  get_interrupted_jobs, get_results, get_completed_items,
}
use creator_engagement_proje.Jobs.Sqlite.Sweep.{stored_in, IsValid}
use creator_engagement_proje.Jobs.Sqlite.Writes.{as_written, create_job-stored_in}
use creator_engagement_proje.Jobs.Sqlite.Reads.{reads-stored_in}
use creator_engagement_proje.Jobs.Sqlite.Pages.{results-stored_in}
use creator_engagement_proje.Jobs.Sqlite.Refinement.{
  no_rows, opened, created, appended, restarted, Together-stored_in,
}
use creator_engagement_proje.Jobs.Tests.{request, result, job}

data Json : Type 0 where
  of_request : CreateJobRequest → Json
  of_result : JobItemResponse → Json

parse_request : Json → CreateJobRequest
parse_request (of_request r) = r
parse_request (of_result r) = request

parse_result : Json → JobItemResponse
parse_result (of_request r) = result "a"
parse_result (of_result r) = r

parse-of_request : (r : CreateJobRequest) → parse_request (of_request r) ≡ r
unfolding parse_request
parse-of_request r = refl

parse-of_result : (r : JobItemResponse) → parse_result (of_result r) ≡ r
unfolding parse_result
parse-of_result r = refl

abbrev codec : Codec Json
codec = record {
  dump_request = of_request;
  parse_request = parse_request;
  dump_result = of_result;
  parse_result = parse_result;
  extract_item_id = λ j. (parse_result j).item_id;
  extract_status = λ j. (parse_result j).status;
  parse-dump_request = parse-of_request;
  parse-dump_result = parse-of_result;
  extracted_item_id = λ j. refl;
  extracted_status = λ j. refl;
}

-- What the tests compute with.
program : Unit {0}
unfolding create_job append_result recover_interrupted job_values row_to_job parse_request
    parse_result Memory.create_job lookup insert
program = tt

abbrev held : Database Json
held = (append_result codec "j" 0 (result "a") (create_job codec 5 job request (no_rows 60)).1).1

held-IsValid : IsValid held
unfolding program
held-IsValid = record { distinct = (refl, tt); owned = (refl, tt); dated = (refl, tt) }

-- A job is created, gets a result, and is found open by a restart.
Together-stored_in_example :
    (stored_in codec (recover_interrupted codec 9 60 held)
      ≡ Memory.cleanup_expired 9 (
          Memory.recover_interrupted 9 60
            (Memory.append_result "j" 0 (result "a") (Memory.create_job 5 job request empty).1)))
    × IsValid (recover_interrupted codec 9 60 held)
unfolding program
Together-stored_in_example = Together-stored_in {codec = codec} (
    restarted 9 60
      (appended "j" 0 (result "a") refl (created 5 job request refl refl (refl, refl) (opened 60))))

create_job-stored_in_example :
    ((create_job codec 7 job request (no_rows 60)).0
      ≡ as_written (Memory.create_job 7 job request (stored_in codec (no_rows 60))).0)
    × (stored_in codec (create_job codec 7 job request (no_rows 60)).1
        ≡ (Memory.create_job 7 job request (stored_in codec (no_rows 60))).1)
    × IsValid (create_job codec 7 job request (no_rows 60)).1
create_job-stored_in_example =
    create_job-stored_in codec 7 job request (no_rows 60)
      (record { distinct = tt; owned = tt; dated = tt }) refl refl (refl, refl)

results-stored_in_example :
    (get_results codec "j" 0 3 held ≡ (Memory.get_results 7 "j" 0 3 (stored_in codec held)).0)
    × (get_completed_items codec "j" held
        ≡ map
            (λ r. (r.item_id, r.status))
            (values (Memory.sorted (Memory.results_of "j" (stored_in codec held)))))
    × (tally (λ (item : String × CollectStatus). item.0 == "a") (get_completed_items codec "j" held)
        ≡ tally
            (λ (item : String × CollectStatus). item.0 == "a")
            (Memory.get_completed_items 7 "j" (stored_in codec held)).0)
unfolding program
results-stored_in_example =
    results-stored_in codec 7 "j" held held-IsValid refl 0 3 (λ item. item.0 == "a")

reads-stored_in_example :
    (((get_job codec 7 "j" held).0 ≡ (Memory.get_job 7 "j" (stored_in codec held)).0)
      × (stored_in codec (get_job codec 7 "j" held).1
          ≡ (Memory.get_job 7 "j" (stored_in codec held)).1))
    × (((find_by_idempotency_key codec 7 "k" held).0
          ≡ (Memory.find_by_idempotency_key 7 "k" (stored_in codec held)).0)
        × (stored_in codec (find_by_idempotency_key codec 7 "k" held).1
            ≡ (Memory.find_by_idempotency_key 7 "k" (stored_in codec held)).1))
    × (((get_request codec 7 "j" held).0 ≡ (Memory.get_request 7 "j" (stored_in codec held)).0)
        × (stored_in codec (get_request codec 7 "j" held).1
            ≡ (Memory.get_request 7 "j" (stored_in codec held)).1))
    × (((get_interrupted_jobs codec 7 held).0
          ≡ (Memory.get_interrupted_jobs 7 (stored_in codec held)).0)
        × (stored_in codec (get_interrupted_jobs codec 7 held).1
            ≡ (Memory.get_interrupted_jobs 7 (stored_in codec held)).1))
reads-stored_in_example = reads-stored_in codec 7 held held-IsValid "j" "k"
