-- ===== src/Authors/Batch/Gathered.antt =====
-- What a batch of values makes: one job to an author, and an answer to each value.
use creator_engagement_proje.Base.{
  ℕ, suc, ◌+◌, String, ◌≡◌, refl, ap, sym, ◌∙◌, subst, false, not, none, List, [], ◌∷◌, ◌++◌, map,
  tally, tally-append, length, length-append, if◌then◌else◌, IsDistinct, contains, arith,
  string_key, pair_key, inl, inr, Option-cases, is_none,
}
use creator_engagement_proje.Base.Dict.{Dict, lookup, insert, keys, contains-keys}
use creator_engagement_proje.Base.Select.{insert_new, IsDistinct-append_one, map-append}
use creator_engagement_proje.Authors.Batch.{
  AuthorRequest, Value, valid, invalid, AuthorJob, new_job, BatchStatus, accepted, duplicate,
  rejected, AuthorBatchItem, Batch, no_items, author_key, item_of, gather_one, gather, Launched,
  save_and_launch, submit_batch, has_status,
}
use creator_engagement_proje.Authors.Batch.Answers.{Answers, gather-Answers}
use creator_engagement_proje.Authors.Batch.Chunks.{save_chunks_all}

abbrev pub job_key : AuthorJob → String × String
job_key job = (job.media_name, job.uid)

-- The jobs by their authors.
abbrev pub by_author : List AuthorJob → Dict (String × String) String
by_author jobs = map (λ job. (job_key job, job.job_id)) jobs

record IsGathered (values : ℕ) (b : Batch) : Type 0 where
  indexed : b.seen ≡ by_author b.jobs
  distinct : IsDistinct (map job_key b.jobs)
  total : length b.results ≡ values
  counted : tally (has_status accepted) b.results ≡ length b.jobs
  shared :
      tally (has_status accepted) b.results
        + tally (has_status duplicate) b.results
        + tally (has_status rejected) b.results
      ≡ length b.results

keys-by_author : (jobs : List AuthorJob) → keys (by_author jobs) ≡ map job_key jobs
keys-by_author [] = refl
keys-by_author (job ∷ jobs) = ap (λ ks. job_key job ∷ ks) (keys-by_author jobs)

tally-item :
    (status : BatchStatus) (items : List AuthorBatchItem) (item : AuthorBatchItem)
    → tally (has_status status) (items ++ item ∷ [])
      ≡ tally (has_status status) items + (if has_status status item then 1 else 0)
tally-item status items item = omega (arith, tally-append (has_status status) items (item ∷ []))

-- An item has one status.
abbrev in_all : List AuthorBatchItem → ℕ
in_all items =
    tally (has_status accepted) items
    + tally (has_status duplicate) items
    + tally (has_status rejected) items

in_all-item :
    (items : List AuthorBatchItem) (item : AuthorBatchItem)
    → in_all items ≡ length items
    → in_all (items ++ item ∷ []) ≡ length (items ++ item ∷ [])
in_all-item items item e = ground (
  arith,
  e,
  tally-item accepted items item,
  tally-item duplicate items item,
  tally-item rejected items item,
  length-append items (item ∷ []),
)

module _ (now : ℕ) (job_id : String) (values : ℕ) (b : Batch) (h : IsGathered values b) where
  -- An answer without a new job.
  answered-IsGathered :
      (item : AuthorBatchItem)
      → has_status accepted item ≡ false
      → IsGathered (suc values) (record b { results = b.results ++ item ∷ [] })
  answered-IsGathered item e = record {
    indexed = h.indexed;
    distinct = h.distinct;
    total = omega (arith, h.total, length-append b.results (item ∷ []));
    counted = ground (arith, h.counted, tally-item accepted b.results item, e);
    shared = in_all-item b.results item h.shared;
  }

  module _ (request : AuthorRequest) (new : lookup (author_key request) b.seen ≡ none) where
    unknown : contains (keys b.seen) (author_key request) ≡ false
    unknown = contains-keys (author_key request) b.seen ∙ ap (λ o. not (is_none o)) new

    accepted-IsGathered : IsGathered (suc values) (record {
      jobs = b.jobs ++ new_job now job_id request ∷ [];
      results = b.results ++ item_of values request job_id accepted ∷ [];
      seen = insert (author_key request) job_id b.seen;
    })
    unfolding new_job
    accepted-IsGathered = record {
      indexed =
          insert_new (author_key request) job_id b.seen unknown
          ∙ ap (λ d. d ++ (author_key request, job_id) ∷ []) h.indexed
          ∙ sym (
              map-append (λ job. (job_key job, job.job_id)) b.jobs
                (new_job now job_id request ∷ []));
      distinct = IsDistinct-append_one job_key (new_job now job_id request) b.jobs h.distinct (
          ap (λ ks. contains ks (author_key request))
            (sym (ap keys h.indexed ∙ keys-by_author b.jobs))
          ∙ unknown);
      total =
          omega
            (arith, h.total, length-append b.results (item_of values request job_id accepted ∷ []));
      counted = omega (
        arith,
        h.counted,
        tally-item accepted b.results (item_of values request job_id accepted),
        length-append b.jobs (new_job now job_id request ∷ []),
      );
      shared = in_all-item b.results (item_of values request job_id accepted) h.shared;
    }

  gather_one-IsGathered :
      (value : Value) → IsGathered (suc values) (gather_one now job_id values value b)
  unfolding gather_one
  gather_one-IsGathered (invalid error author_id media_name) = answered-IsGathered _ refl
  gather_one-IsGathered (valid request) = elim (Option-cases (lookup (author_key request) b.seen)) [
    | inr (first, e) ↦
        rw (e, gather_one) (answered-IsGathered (item_of values request first duplicate) refl)
    | inl e ↦ rw (e, gather_one) (accepted-IsGathered request e)
  ]

gather-IsGathered :
    (clock : ℕ → ℕ) (new_id : ℕ → String) (index : ℕ) (values : List Value) (b : Batch)
    → IsGathered index b
    → IsGathered (index + length values) (gather clock new_id index values b)
unfolding gather
gather-IsGathered clock new_id index [] b h = subst (λ n. IsGathered n b) (omega arith) h
gather-IsGathered clock new_id index (value ∷ values) b h =
    subst
      (λ n. IsGathered n (
        gather clock new_id (index + 1) values
          (gather_one (clock index) (new_id index) index value b)))
      (omega arith)
      (gather-IsGathered clock new_id (index + 1) values
        (gather_one (clock index) (new_id index) index value b)
        (subst (λ n. IsGathered n (gather_one (clock index) (new_id index) index value b))
          (omega arith) (gather_one-IsGathered (clock index) (new_id index) index b h value)))

-- A batch starts one job to an author: the jobs that it stores and starts, in chunks, are those of
-- distinct authors, as many as it counts accepted; accepted, duplicate and rejected values add up
-- to all values and each count is that of the answers with its status. Each value has one answer,
-- in the order of the values: a value that is no request is rejected with its error and no job, and
-- a request is answered with the job of its author, accepted where no value before it asks for that
-- author and as a duplicate otherwise.
pub submit_batch-exact :
    (clock : ℕ → ℕ) (new_id : ℕ → String) (values : List Value) (s : Launched)
    → (jobs : List AuthorJob) × ((submit_batch clock new_id values s).1 ≡ save_and_launch jobs s)
      × IsDistinct (map job_key jobs)
      × (length jobs ≡ (submit_batch clock new_id values s).0.accepted_count)
      × ((submit_batch clock new_id values s).0.accepted_count
            + (submit_batch clock new_id values s).0.duplicate_count
            + (submit_batch clock new_id values s).0.rejected_count
          ≡ length values)
      × (tally (has_status accepted) (submit_batch clock new_id values s).0.items
          ≡ (submit_batch clock new_id values s).0.accepted_count)
      × (tally (has_status duplicate) (submit_batch clock new_id values s).0.items
          ≡ (submit_batch clock new_id values s).0.duplicate_count)
      × Answers (by_author jobs) 0 [] values (submit_batch clock new_id values s).0.items
unfolding submit_batch lookup
submit_batch-exact clock new_id values s =
    let b : Batch = gather clock new_id 0 values no_items in
    let h : IsGathered (0 + length values) b =
      gather-IsGathered clock new_id 0 values no_items
        (record { indexed = refl; distinct = tt; total = refl; counted = refl; shared = refl }) in
    let answers = gather-Answers clock new_id 0 values [] no_items (λ author. refl) in
    (
      b.jobs,
      save_chunks_all (length b.jobs) b.jobs s (omega arith),
      h.distinct,
      refl,
      omega (arith, h.total, h.counted, h.shared),
      h.counted,
      omega (arith, h.total, h.counted, h.shared),
      subst (λ d. Answers d 0 [] values b.results) h.indexed
          (subst (Answers b.seen 0 [] values) (sym answers.1) answers.2),
    )
