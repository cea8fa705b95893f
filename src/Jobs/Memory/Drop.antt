-- ===== src/Jobs/Memory/Drop.antt =====
-- The expiry sweep of MemoryJobRepository (`_cleanup_expired`) as a selection.
use creator_engagement_proje.Base.{
  ℕ, String, ◌≡◌, refl, ◌∙◌, sym, not, List, [], ◌∷◌, arith, string_key, contains, select,
}
use creator_engagement_proje.Base.Dict.{Dict, pop}
use creator_engagement_proje.Jobs.Memory.{Repository, forget, forget_all, cleanup_expired, expired}

-- What is left without some keys.
abbrev pub drop_keys {ℓ} : {V : Type ℓ} → List String → Dict String V → Dict String V
drop_keys ks d = select (λ x. not (contains ks x.0)) d

drop_keys-nil {ℓ} : {V : Type ℓ} (d : Dict String V) → drop_keys [] d ≡ d
drop_keys-nil [] = refl
drop_keys-nil (x ∷ d) = λ i. x ∷ drop_keys-nil d i

drop_keys-pop {ℓ} :
    {V : Type ℓ} (k : String) (ks : List String) (d : Dict String V)
    → drop_keys ks (pop k d) ≡ drop_keys (k ∷ ks) d
unfolding pop
drop_keys-pop k ks [] = refl
drop_keys-pop k ks ((j, v) ∷ d) =
    ground (arith, drop_keys-pop k ks d, string_key.same_iff j k, string_key.same_iff k j)

abbrev pub without : List String → Repository → Repository
without ks r = record {
  jobs = drop_keys ks r.jobs;
  requests = drop_keys ks r.requests;
  results = drop_keys ks r.results;
}

forget_all-without : (ks : List String) (r : Repository) → forget_all ks r ≡ without ks r
unfolding forget_all forget
forget_all-without [] r = λ i. record {
  jobs = sym (drop_keys-nil r.jobs) i;
  requests = sym (drop_keys-nil r.requests) i;
  results = sym (drop_keys-nil r.results) i;
}
forget_all-without (k ∷ ks) r = forget_all-without ks (forget k r) ∙ (λ i. record {
  jobs = drop_keys-pop k ks r.jobs i;
  requests = drop_keys-pop k ks r.requests i;
  results = drop_keys-pop k ks r.results i;
})

pub cleanup_expired-without :
    (now : ℕ) (r : Repository) → cleanup_expired now r ≡ without (expired now r.jobs) r
unfolding cleanup_expired
cleanup_expired-without now r = forget_all-without (expired now r.jobs) r
