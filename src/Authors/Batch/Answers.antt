-- ===== src/Authors/Batch/Answers.antt =====
-- The answers of a batch (app/services/author_job_service.py) to its values, one by one.
use creator_engagement_proje.Base.{
  ℕ, ◌+◌, String, ◌≡◌, refl, ap, ◌∙◌, Bool, false, not, Option, none, some, List, [], ◌∷◌, ◌++◌,
  any, if◌then◌else◌, ◌==◌, ◌||◌, arith, pair_key, string_key, inl, inr, Option-cases, is_none, Key,
}
use creator_engagement_proje.Base.Dict.{Dict, lookup, insert, lookup-insert, lookup-insert_self}
use creator_engagement_proje.Authors.Batch.{
  Value, valid, invalid, accepted, duplicate, rejected, AuthorBatchItem, Batch, author_key, item_of,
  gather_one, gather,
}

-- A value that asks for an author.
abbrev pub asks_for : String × String → Value → Bool
asks_for author (valid request) = author_key request == author
asks_for author (invalid error author_id media_name) = false

-- The answer to a value, given the jobs of the authors and the values before it. A value that is no
-- request is rejected with its error; a request has the job of its author, as a duplicate exactly
-- if a value before it asks for the same author.
abbrev pub IsAnswer :
    Dict (String × String) String → ℕ → List Value → Value → AuthorBatchItem → Type 0
IsAnswer jobs index earlier (invalid error author_id media_name) item =
    (item.index ≡ index)
    × (item.status ≡ rejected)
    × (item.error ≡ some error)
    × (item.author_id ≡ author_id)
    × (item.media_name ≡ media_name)
    × (item.job_id ≡ none)
IsAnswer jobs index earlier (valid request) item =
    (item.index ≡ index)
    × (item.status ≡ (if any (asks_for (author_key request)) earlier then duplicate else accepted))
    × (item.error ≡ none)
    × (item.author_id ≡ some request.uid)
    × (item.media_name ≡ some request.media_name)
    × ((id : String) × (item.job_id ≡ some id) × (lookup (author_key request) jobs ≡ some id))

-- As many items as values, each the answer to the value in its place.
unfoldable pub Answers :
    Dict (String × String) String → ℕ → List Value → List Value → List AuthorBatchItem → Type 0
Answers jobs index earlier [] items = items ≡ []
Answers jobs index earlier (value ∷ values) [] = ⊥
Answers jobs index earlier (value ∷ values) (item ∷ items) =
    IsAnswer jobs index earlier value item × Answers jobs (index + 1) (value ∷ earlier) values items

pub lookup-insert_other :
    {K : Type 0} {V : Type 0} ⦃e : Key K⦄ (k j : K) (w v : V) (d : Dict K V)
    → lookup k d ≡ none
    → lookup j d ≡ some v
    → lookup j (insert k w d) ≡ some v
lookup-insert_other ⦃e⦄ k j w v d new found =
    ground (arith, lookup-insert k j w d, e.same_iff k j, new, found)

is_none-insert :
    {K : Type 0} {V : Type 0} ⦃e : Key K⦄ (k j : K) (w : V) (d : Dict K V) (is_named : Bool)
    → is_none (lookup j d) ≡ not is_named
    → is_none (lookup j (insert k w d)) ≡ not (k == j || is_named)
is_none-insert ⦃e⦄ k j w d is_named seen = ground (arith, lookup-insert k j w d, seen)

is_none-again :
    {K : Type 0} {V : Type 0} ⦃e : Key K⦄ (k j : K) (v : V) (d : Dict K V) (is_named : Bool)
    → lookup k d ≡ some v
    → is_none (lookup j d) ≡ not is_named
    → is_none (lookup j d) ≡ not (k == j || is_named)
is_none-again ⦃e⦄ k j v d is_named held seen = ground (arith, e.same_iff k j, held, seen)

-- A job of an author stays.
lookup-gather_one :
    (now : ℕ) (job_id : String) (index : ℕ) (value : Value) (b : Batch) (author : String × String)
    (id : String)
    → lookup author b.seen ≡ some id
    → lookup author (gather_one now job_id index value b).seen ≡ some id
unfolding gather_one
lookup-gather_one now job_id index (invalid error a m) b author id found = found
lookup-gather_one now job_id index (valid request) b author id found =
    elim (Option-cases (lookup (author_key request) b.seen)) [
      | inr (first, e) ↦ rw (e, gather_one) found
      | inl e ↦
          rw (e, gather_one)
            (lookup-insert_other (author_key request) author job_id id b.seen e found)
    ]

lookup-gather :
    (clock : ℕ → ℕ) (new_id : ℕ → String) (index : ℕ) (values : List Value) (b : Batch)
    (author : String × String) (id : String)
    → lookup author b.seen ≡ some id
    → lookup author (gather clock new_id index values b).seen ≡ some id
unfolding gather
lookup-gather clock new_id index [] b author id found = found
lookup-gather clock new_id index (value ∷ values) b author id found =
    lookup-gather clock new_id (index + 1) values
      (gather_one (clock index) (new_id index) index value b) author id
      (lookup-gather_one (clock index) (new_id index) index value b author id found)

-- The authors with a job are those that values before ask for.
abbrev IsSeen : List Value → Batch → Type 0
IsSeen earlier b =
    (author : String × String)
    → is_none (lookup author b.seen) ≡ not (any (asks_for author) earlier)

gather_one-IsSeen :
    (now : ℕ) (job_id : String) (index : ℕ) (value : Value) (earlier : List Value) (b : Batch)
    → IsSeen earlier b
    → IsSeen (value ∷ earlier) (gather_one now job_id index value b)
unfolding gather_one
gather_one-IsSeen now job_id index (invalid error a m) earlier b seen author = seen author
gather_one-IsSeen now job_id index (valid request) earlier b seen author =
    elim (Option-cases (lookup (author_key request) b.seen)) [
      | inr (first, e) ↦
          rw (e, gather_one)
            (is_none-again (author_key request) author first b.seen (any (asks_for author) earlier)
              e (seen author))
      | inl e ↦
          rw (e, gather_one)
            (is_none-insert (author_key request) author job_id b.seen
              (any (asks_for author) earlier) (seen author))
    ]

status_again :
    {V : Type 0} (o : Option V) (v : V) (is_named : Bool)
    → o ≡ some v
    → is_none o ≡ not is_named
    → duplicate ≡ (if is_named then duplicate else accepted)
status_again o v is_named held seen = ground (arith, held, seen)

status_new :
    {V : Type 0} (o : Option V) (is_named : Bool)
    → o ≡ none
    → is_none o ≡ not is_named
    → accepted ≡ (if is_named then duplicate else accepted)
status_new o is_named new seen = ground (arith, new, seen)

-- The item that a value adds.
gather_one-IsAnswer :
    (now : ℕ) (job_id : String) (index : ℕ) (value : Value) (earlier : List Value) (b : Batch)
    (jobs : Dict (String × String) String)
    → IsSeen earlier b
    → ((author : String × String) (id : String)
        → lookup author (gather_one now job_id index value b).seen ≡ some id
        → lookup author jobs ≡ some id)
    → (item : AuthorBatchItem) × ((gather_one now job_id index value b).results
        ≡ b.results ++ item ∷ [])
      × IsAnswer jobs index earlier value item
unfolding gather_one
gather_one-IsAnswer now job_id index (invalid error a m) earlier b jobs seen kept =
    (_, refl, (refl, refl, refl, refl, refl, refl))
gather_one-IsAnswer now job_id index (valid request) earlier b jobs seen kept =
    elim (Option-cases (lookup (author_key request) b.seen)) [
      | inr (first, e) ↦ (
        item_of index request first duplicate,
        rw (e, gather_one) refl,
        (
          refl,
          status_again _ first _ e (seen (author_key request)),
          refl,
          refl,
          refl,
          (first, refl, kept (author_key request) first (rw (e, gather_one) e)),
        ),
      )
      | inl e ↦ (
        item_of index request job_id accepted,
        rw (e, gather_one) refl,
        (
          refl,
          status_new _ _ e (seen (author_key request)),
          refl,
          refl,
          refl,
          (
            job_id,
            refl,
            kept (author_key request) job_id
                (rw (e, gather_one) (lookup-insert_self (author_key request) job_id b.seen)),
          ),
        ),
      )
    ]

append_none : (xs : List AuthorBatchItem) → xs ≡ xs ++ []
append_none [] = refl
append_none (x ∷ xs) = ap (λ ys. x ∷ ys) (append_none xs)

append_item :
    (results items after : List AuthorBatchItem) (item : AuthorBatchItem)
    → after ≡ results ++ item ∷ []
    → after ++ items ≡ results ++ item ∷ items
append_item results items after item e = rw e (append_one results)
  where
    append_one : (xs : List AuthorBatchItem) → (xs ++ item ∷ []) ++ items ≡ xs ++ item ∷ items
    append_one [] = refl
    append_one (x ∷ xs) = ap (λ ys. x ∷ ys) (append_one xs)

-- The items that values add answer them.
pub gather-Answers :
    (clock : ℕ → ℕ) (new_id : ℕ → String) (index : ℕ) (values earlier : List Value) (b : Batch)
    → ((author : String × String)
        → is_none (lookup author b.seen) ≡ not (any (asks_for author) earlier))
    → (items : List AuthorBatchItem) × ((gather clock new_id index values b).results
        ≡ b.results ++ items)
      × Answers (gather clock new_id index values b).seen index earlier values items
unfolding gather Answers
gather-Answers clock new_id index [] earlier b seen = ([], append_none b.results, refl)
gather-Answers clock new_id index (value ∷ values) earlier b seen =
    let b' : Batch = gather_one (clock index) (new_id index) index value b in
    let rest =
      gather-Answers clock new_id (index + 1) values (value ∷ earlier) b'
        (gather_one-IsSeen (clock index) (new_id index) index value earlier b seen) in
    let one =
      gather_one-IsAnswer (clock index) (new_id index) index value earlier b
        (gather clock new_id (index + 1) values b').seen seen
        (lookup-gather clock new_id (index + 1) values b') in
    (one.0 ∷ rest.0, rest.1 ∙ append_item b.results rest.0 b'.results one.0 one.1, (one.2, rest.2))
