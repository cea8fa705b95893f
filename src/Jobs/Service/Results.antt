-- ===== src/Jobs/Service/Results.antt =====
-- get_results and the cursors of app/services/job_service.py, and a client that follows them.
use creator_engagement_proje.Base.{
  ℕ, zero, suc, ◌+◌, ◌-◌, ◌<◌, String, ◌≡◌, refl, true, false, ◌||◌, Option, none, some, ap, ◌∙◌,
  sym, List, [], ◌++◌, arith, ltb, if◌then◌else◌, string_key, IsDistinct, length, take, drop,
  drop-drop, drop_all, length-take, length-drop, take-append-drop-length, Bool-cases, inl, inr,
}
use mathlib.Core.List.{append-nil}
use creator_engagement_proje.Base.Dict.{keys, lookup}
use creator_engagement_proje.Models.{StoredJob, JobItemResponse, JobStatus, is_open}
use creator_engagement_proje.Jobs.Memory
use creator_engagement_proje.Jobs.Memory.{
  Repository, get_job, results_of, cleanup_expired, is_expired,
}
use creator_engagement_proje.Jobs.Memory.Expiry.{
  jobs-cleanup_expired, cleanup_expired_idem, results-cleanup_expired, cleanup_expired-IsDistinct,
}
use creator_engagement_proje.Jobs.Memory.Pages.{
  HasResults, get_results-page, get_results-repository,
}
use creator_engagement_proje.Jobs.Service.{
  Library, Manager, value_error, Result, ok, raise, ensure_initialized,
}

pub record JobResultsResponse : Type 0 where
  pub job_id : String
  pub status : JobStatus
  pub page : List JobItemResponse
  pub next_cursor : Option String
  pub available_count : ℕ
  pub total : ℕ
  pub duration_ms : ℕ
  pub cost_yuan : ℕ

unfoldable pub decode_cursor : Library → Option String → Result ℕ
decode_cursor lib none = ok 0
decode_cursor lib (some cursor) = elim (lib.decode_number cursor) [
  | none ↦ raise (value_error "无效的结果分页 cursor")
  | some offset ↦ ok offset
]

abbrev pub next_cursor_of : Library → StoredJob → ℕ → Option String
next_cursor_of lib stored next_offset =
    if ltb next_offset stored.completed || is_open stored.status
    then some (lib.encode_number next_offset)
    else none

abbrev pub results_response :
    Library → String → ℕ → StoredJob → List JobItemResponse → JobResultsResponse
results_response lib job_id offset stored page = record {
  job_id = job_id;
  status = stored.status;
  page = page;
  next_cursor = next_cursor_of lib stored (offset + length page);
  available_count = stored.completed;
  total = stored.total;
  duration_ms = stored.duration_ms;
  cost_yuan = stored.cost_yuan;
}

pub page_at : Library → ℕ → String → ℕ → ℕ → Manager → Result (Option JobResultsResponse) × Manager
page_at lib now job_id offset limit m =
    let (found, r) = get_job now job_id m.repository in
    elim found [
      | none ↦ (ok none, record m { repository = r })
      | some stored ↦
          let (page, r') = Memory.get_results now job_id offset limit r in
          (ok (some (results_response lib job_id offset stored page)), record m { repository = r' })
    ]

unfoldable pub get_results :
    Library
    → ℕ
    → String
    → Option String
    → ℕ
    → Manager
    → Result (Option JobResultsResponse) × Manager
unfolding page_at decode_cursor
get_results lib now job_id cursor limit m =
    let m' = ensure_initialized now m in
    elim (decode_cursor lib cursor) [
      | raise e ↦ (raise e, m')
      | ok offset ↦ page_at lib now job_id offset limit m'
    ]

-- A client that reads a page, and follows `next_cursor` while there is one, for at most `fuel` pages.
abbrev rest_of_pages :
    (Option String → Manager → Option (List JobItemResponse))
    → Result (Option JobResultsResponse) × Manager
    → Option (List JobItemResponse)
rest_of_pages go (raise e, m) = none
rest_of_pages go (ok none, m) = none
rest_of_pages go (ok (some response), m) = elim response.next_cursor [
  | none ↦ some response.page
  | some cursor ↦ elim (go (some cursor) m) [
    | none ↦ none
    | some more ↦ some (response.page ++ more)
  ]
]

pub read_all :
    ℕ → Library → ℕ → String → ℕ → Option String → Manager → Option (List JobItemResponse)
read_all zero lib now job_id limit cursor m = none
read_all (suc fuel) lib now job_id limit cursor m =
    rest_of_pages (read_all fuel lib now job_id limit) (get_results lib now job_id cursor limit m)

module _ (lib : Library) (now : ℕ) (job_id : String) (limit : ℕ) (stored : StoredJob)
    (xs : List JobItemResponse) where
  -- A manager that holds the finished job `stored` with the results `xs`.
  record Holds (m : Manager) : Type 0 where
    initialized : m.initialized ≡ true
    distinct : IsDistinct (keys m.repository.jobs)
    there : lookup job_id m.repository.jobs ≡ some stored
    live : is_expired now stored ≡ false
    results : HasResults job_id xs m.repository

  page_lem :
      (m : Manager) (cursor : Option String) (offset : ℕ)
      → Holds m
      → decode_cursor lib cursor ≡ ok offset
      → get_results lib now job_id cursor limit m ≡ (
        ok (some (results_response lib job_id offset stored (take limit (drop offset xs)))),
        record m { repository = cleanup_expired now m.repository },
      )
  unfolding get_results get_job ensure_initialized
  page_lem m cursor offset h e =
      let dist' = cleanup_expired-IsDistinct now m.repository h.distinct in
      let seen = jobs-cleanup_expired now m.repository h.distinct job_id in
      let page =
        get_results-page now job_id offset limit xs (cleanup_expired now m.repository) dist'
          (ground (arith, seen, h.there, h.live))
          (ground (
            arith,
            h.results,
            h.there,
            h.live,
            results-cleanup_expired now m.repository h.distinct job_id,
          )) in
      ground (
        arith,
        h.initialized,
        e,
        seen,
        h.there,
        h.live,
        page,
        cleanup_expired_idem now m.repository h.distinct,
        get_results-repository now job_id offset limit (cleanup_expired now m.repository),
      )

  swept-Holds :
      (m : Manager) → Holds m → Holds (record m { repository = cleanup_expired now m.repository })
  swept-Holds m h = record {
    initialized = h.initialized;
    distinct = cleanup_expired-IsDistinct now m.repository h.distinct;
    there =
        ground (arith, jobs-cleanup_expired now m.repository h.distinct job_id, h.there, h.live);
    live = h.live;
    results = ground (
      arith,
      h.results,
      h.there,
      h.live,
      results-cleanup_expired now m.repository h.distinct job_id,
    );
  }

  module _ (codec : (n : ℕ) → lib.decode_number (lib.encode_number n) ≡ some n)
      (positive : 0 < limit) (over : is_open stored.status ≡ false)
      (counted : stored.completed ≡ length xs) where
    decode-encode : (n : ℕ) → decode_cursor lib (some (lib.encode_number n)) ≡ ok n
    unfolding decode_cursor
    decode-encode n = ground (arith, codec n)

    read_all_from :
        (fuel : ℕ) (m : Manager) (cursor : Option String) (offset : ℕ)
        → Holds m
        → decode_cursor lib cursor ≡ ok offset
        → length xs - offset < fuel
        → read_all fuel lib now job_id limit cursor m ≡ some (drop offset xs)
    unfolding read_all
    read_all_from zero m cursor offset h e enough = absurd (omega arith)
    read_all_from (suc fuel) m cursor offset h e enough =
        let page = take limit (drop offset xs) in
        let step = page_lem m cursor offset h e in
        let next = offset + length page in
        let whole = take-append-drop-length limit (drop offset xs) in
        elim (Bool-cases (ltb next (length xs))) [
          | inl more ↦
              let ih =
                read_all_from fuel (record m { repository = cleanup_expired now m.repository })
                  (some (lib.encode_number next)) next (swept-Holds m h) (decode-encode next)
                  (ground (arith, length-take limit (drop offset xs), length-drop offset xs)) in
              let joined : page ++ drop next xs ≡ drop offset xs =
                ap (λ l. page ++ l) (sym (drop-drop offset (length page) next xs refl)) ∙ whole in
              ground (arith, step, more, over, counted, ih, joined)
          | inr none_left ↦
              let empty : drop (length page) (drop offset xs) ≡ [] =
                drop-drop offset (length page) next xs refl ∙ drop_all next xs (ground arith) in
              let joined : page ≡ drop offset xs =
                sym (append-nil page) ∙ ap (λ l. page ++ l) (sym empty) ∙ whole in
              ground (arith, step, none_left, over, counted, joined)
        ]

-- For a job that is over, has not expired and has `xs` as stored results, all of them counted, and
-- for cursors that decode to what they encode: a client that starts without a cursor and follows
-- `next_cursor` reads exactly `xs`, in order, whatever positive page size it asks for, and its
-- reading ends.
pub read_all-exact :
    (lib : Library) (now : ℕ) (job_id : String) (limit fuel : ℕ) (stored : StoredJob)
    (xs : List JobItemResponse) (m : Manager)
    → m.initialized ≡ true
    → IsDistinct (keys m.repository.jobs)
    → lookup job_id m.repository.jobs ≡ some stored
    → is_expired now stored ≡ false
    → HasResults job_id xs m.repository
    → ((n : ℕ) → lib.decode_number (lib.encode_number n) ≡ some n)
    → 0 < limit
    → is_open stored.status ≡ false
    → stored.completed ≡ length xs
    → length xs < fuel
    → read_all fuel lib now job_id limit none m ≡ some xs
read_all-exact lib now job_id limit fuel stored xs m ready dist there live results codec positive
      over counted enough =
    read_all_from lib now job_id limit stored xs codec positive over counted fuel m none 0
      (record {
        initialized = ready;
        distinct = dist;
        there = there;
        live = live;
        results = results;
      })
      (unfold decode_cursor in refl) (omega arith)
