-- ===== src/Authors/Discovery.antt =====
-- The discovery of an author's works: `_discover`, `_save_page` and `_finish` of AuthorJobManager
-- (app/services/author_job_service.py). The pages that the platform answers are parameters, and so
-- are SHA-256, JSON texts, and the source that decode_cursor reads in a cursor of Bilibili.
pub mod Complete
use creator_engagement_proje.Base.{
  ℕ, ◌+◌, String, Bool, true, false, not, ◌&&◌, ◌||◌, Option, none, some, List, [], ◌∷◌, ◌++◌, map,
  contains, if◌then◌else◌, ◌==◌, string_key, nat_key,
}
use creator_engagement_proje.Authors.Batch.{AuthorStatus}
use creator_engagement_proje.Authors.Works.{AuthorWork, Work, Counts, counts, save_page}

-- `digest`: SHA-256 of a cursor; `page_digest`: that of the JSON text of a source and the sorted set
-- of identifiers; `source_of`: the source that a cursor of Bilibili names.
pub record DiscoveryLibrary : Type 0 where
  pub digest : String → String
  pub page_digest : String → List String → String
  pub source_of : Option String → String

pub record AuthorPage : Type 0 where
  pub works : List AuthorWork
  pub next_cursor : Option String
  pub is_complete_page : Bool
  pub reason : String

-- The fields of a job document that discovery reads and writes.
pub record Discovery : Type 0 where
  pub cursor : Option String
  pub pages_completed : ℕ
  pub saved_count : ℕ
  pub detail_failed_count : ℕ
  pub coverage_complete : Bool
  pub seen_cursors : List String
  pub seen_pages : List String
  pub coverage_reason : String
  pub discovery_done : Bool

-- `if page.next_cursor`
abbrev pub digest_of : DiscoveryLibrary → Option String → Option String
digest_of lib none = none
digest_of lib (some cursor) = if cursor == "" then none else some (lib.digest cursor)

abbrev pub fingerprint_of :
    DiscoveryLibrary → String → Option String → List AuthorWork → Option String
fingerprint_of lib media_name cursor [] = none
fingerprint_of lib media_name cursor (work ∷ works) = some (
    lib.page_digest (if media_name == "bilibili" then lib.source_of cursor else "")
      (map (λ w. w.work_id) (work ∷ works)))

abbrev pub is_seen : Option String → List String → Bool
is_seen none seen = false
is_seen (some digest) seen = contains seen digest

abbrev pub with_seen : Option String → List String → List String
with_seen none seen = seen
with_seen (some digest) seen = seen ++ digest ∷ []

abbrev pub has_digest : Option String → Bool
has_digest none = false
has_digest (some digest) = true

abbrev pub has_ended : Option String → Bool
has_ended none = true
has_ended (some cursor) = false

-- A page is saved, or refused: its cursor or its works were seen before.
pub data PageOutcome : Type 0 where
  page_saved : Discovery → List Work → PageOutcome
  repeated_cursor repeated_page : PageOutcome

-- The values that `_save_page` writes to the job.
unfoldable pub next_discovery :
    DiscoveryLibrary → String → String → AuthorPage → List Work → Discovery → Discovery
unfolding save_page
next_discovery lib job_id media_name page works d =
    let numbers = (save_page job_id d.pages_completed page.works works).0 in
    record {
      cursor = page.next_cursor;
      pages_completed = d.pages_completed + 1;
      saved_count = numbers.0;
      detail_failed_count = numbers.1;
      coverage_complete = d.coverage_complete && page.is_complete_page;
      seen_cursors = with_seen (digest_of lib page.next_cursor) d.seen_cursors;
      seen_pages = with_seen (fingerprint_of lib media_name d.cursor page.works) d.seen_pages;
      coverage_reason = page.reason;
      discovery_done = has_ended page.next_cursor;
    }

unfoldable pub discover_page :
    DiscoveryLibrary → String → String → AuthorPage → List Work → Discovery → PageOutcome
unfolding next_discovery save_page
discover_page lib job_id media_name page works d =
    if is_seen (digest_of lib page.next_cursor) d.seen_cursors
    then repeated_cursor
    else if has_digest (digest_of lib page.next_cursor)
        && is_seen (fingerprint_of lib media_name d.cursor page.works) d.seen_pages
    then repeated_page
    else page_saved (next_discovery lib job_id media_name page works d)
        (save_page job_id d.pages_completed page.works works).1

-- What the loop goes on with, and the pages that were saved (`author_page_saved`).
abbrev pub after_page :
    PageOutcome
    → AuthorPage
    → (Discovery → Discovery × List AuthorPage)
    → Discovery
    → Discovery × List AuthorPage
after_page repeated_cursor page go_on d = (d, [])
after_page repeated_page page go_on d = (d, [])
after_page (page_saved saved works) page go_on d = elim saved.discovery_done [
  | true ↦ (saved, page ∷ [])
  | false ↦ let rest = go_on saved in (rest.0, page ∷ rest.1)
]

-- The loop over the pages that the platform answers, each with the works at that time, which the
-- detail workers change. It ends with the last page, at a repeated one, or where the platform
-- raises or the task is cancelled: there the answers end.
unfoldable pub discover :
    DiscoveryLibrary
    → String
    → String
    → List (AuthorPage × List Work)
    → Discovery
    → Discovery × List AuthorPage
unfolding discover_page
discover lib job_id media_name [] d = (d, [])
discover lib job_id media_name ((page, works) ∷ answers) d =
    after_page (discover_page lib job_id media_name page works d) page
      (λ saved. discover lib job_id media_name answers saved) d

-- What `_finish` writes.
pub record FinishedJob : Type 0 where
  pub status : AuthorStatus
  pub numbers : Counts
  pub is_complete_job : Bool
  pub error : Option String

abbrev reason_text : String → String
reason_text reason = if reason == "" then "部分作品详情失败" else reason

unfoldable pub finish_author_job : String → Discovery → List Work → FinishedJob
unfolding counts
finish_author_job job_id d works =
    let numbers = counts job_id works in
    let is_whole =
      d.discovery_done
      && d.coverage_complete
      && numbers.detail_failed_count == 0
      && numbers.detail_pending_count == 0 in
    record {
      status = if is_whole then AuthorStatus.completed else AuthorStatus.partial;
      numbers = numbers;
      is_complete_job = is_whole;
      error = if is_whole then none else some (reason_text d.coverage_reason);
    }
