-- ===== src/Authors/Batch/Chunks.antt =====
-- Saving in chunks.
use creator_engagement_proje.Base.{
  ℕ, zero, suc, ◌≤◌, ◌≡◌, refl, ap, sym, ◌∙◌, List, [], ◌∷◌, ◌++◌, map, take, drop, length,
  length-drop, arith,
}
use creator_engagement_proje.Base.Select.{map-append}
use creator_engagement_proje.Authors.Batch.{AuthorJob, Launched, save_and_launch, save_chunks}

module _ {ℓ} {A : Type ℓ} where
  append_assoc : (xs ys zs : List A) → (xs ++ ys) ++ zs ≡ xs ++ (ys ++ zs)
  append_assoc [] ys zs = refl
  append_assoc (x ∷ xs) ys zs = ap (λ l. x ∷ l) (append_assoc xs ys zs)

  append_nil : (xs : List A) → xs ++ [] ≡ xs
  append_nil [] = refl
  append_nil (x ∷ xs) = ap (λ l. x ∷ l) (append_nil xs)

  take-append-drop : (n : ℕ) (xs : List A) → take n xs ++ drop n xs ≡ xs
  take-append-drop zero xs = refl
  take-append-drop (suc n) [] = refl
  take-append-drop (suc n) (x ∷ xs) = ap (λ l. x ∷ l) (take-append-drop n xs)

-- Two parts saved in turn are saved at once.
save_and_launch-append :
    (xs ys : List AuthorJob) (s : Launched)
    → save_and_launch ys (save_and_launch xs s) ≡ save_and_launch (xs ++ ys) s
save_and_launch-append xs ys s = λ i. record {
  jobs = append_assoc s.jobs xs ys i;
  tasks =
      (append_assoc s.tasks (map (λ job. job.job_id) xs) (map (λ job. job.job_id) ys)
          ∙ ap (λ l. s.tasks ++ l) (sym (map-append (λ job. job.job_id) xs ys)))
        i;
}

save_and_launch_none : (s : Launched) → save_and_launch [] s ≡ s
save_and_launch_none s = λ i. record { jobs = append_nil s.jobs i; tasks = append_nil s.tasks i }

-- The chunks together are all the jobs.
pub save_chunks_all :
    (fuel : ℕ) (jobs : List AuthorJob) (s : Launched)
    → length jobs ≤ fuel
    → save_chunks fuel jobs s ≡ save_and_launch jobs s
unfolding save_chunks
save_chunks_all zero [] s enough = sym (save_and_launch_none s)
save_chunks_all zero (job ∷ jobs) s enough = ground arith
save_chunks_all (suc fuel) [] s enough = sym (save_and_launch_none s)
save_chunks_all (suc fuel) (job ∷ jobs) s enough =
    save_chunks_all fuel (drop 500 (job ∷ jobs)) (save_and_launch (take 500 (job ∷ jobs)) s)
      (omega (arith, enough, length-drop 500 (job ∷ jobs)))
    ∙ save_and_launch-append (take 500 (job ∷ jobs)) (drop 500 (job ∷ jobs)) s
    ∙ ap (λ l. save_and_launch l s) (take-append-drop 500 (job ∷ jobs))
