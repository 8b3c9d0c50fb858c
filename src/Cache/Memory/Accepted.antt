-- ===== src/Cache/Memory/Accepted.antt =====
-- The constructor of memory_backend.py on the profiles of a document that the loader has accepted.
use hse_graduate_qualificati.Base.{
  String, ◌≡◌, refl, ◌↔◌, true, false, ◌&&◌, Option, none, some, [], ◌∷◌, Bool-cases, Option-cases,
  inl, inr,
}
use hse_graduate_qualificati.Base.Dict.{Dict}
use hse_graduate_qualificati.Base.Exec.{ok, >>=-eq-ok}
use hse_graduate_qualificati.Cache.Backend.{CacheCounters}
use hse_graduate_qualificati.Cache.Memory.{
  MemoryBackend, cache_ttl, new_cache, add_cache, make_caches, init,
}
use hse_graduate_qualificati.Cache.Ttl.{TtlCaches}
use hse_graduate_qualificati.Dsl.Loader.Checks.{
  is_none, check_max_entries, check_profile_max_entries,
}
use hse_graduate_qualificati.Dsl.Schema.{Document, CacheProfile, is_in_memory}

module _ (T : TtlCaches) where
  new_cache_ok :
      (name : String) (prof : CacheProfile)
      → (is_in_memory prof.backend && is_none prof.max_entries) ≡ false
      → (o : Option T.Cache) × (new_cache T name prof ≡ ok o)
  unfolding new_cache cache_ttl
  new_cache_ok name prof h = elim (Bool-cases (is_in_memory prof.backend)) [
    | inr elsewhere ↦ (none, rw elsewhere)
    | inl here ↦ elim (Option-cases prof.max_entries) [
      | inl absent ↦ cc (rw (here, absent) at h)
      | inr (size, given) ↦ (some (T.new size (cache_ttl prof)), rw (here, given))
    ]
  ]

  new_cache_failed :
      (name : String) (prof : CacheProfile) (o : Option T.Cache)
      → (is_in_memory prof.backend && is_none prof.max_entries) ≡ true
      → new_cache T name prof ≡ ok o
      → ⊥
  unfolding new_cache cache_ttl
  new_cache_failed name prof o h made = elim (Bool-cases (is_in_memory prof.backend)) [
    | inr elsewhere ↦ cc (rw elsewhere at h)
    | inl here ↦ elim (Option-cases prof.max_entries) [
      | inl absent ↦ cc (rw (here, absent) at made)
      | inr (size, given) ↦ cc (rw (here, given) at h)
    ]
  ]

  make_caches_lem :
      (profiles : Dict CacheProfile)
      → (check_max_entries profiles ≡ ok tt)
        ↔ ((caches : Dict T.Cache) × (make_caches T profiles ≡ ok caches))
  unfolding check_max_entries make_caches
  make_caches_lem [] = (λ h. ([], refl), λ h. refl)
  make_caches_lem ((name, prof) ∷ profiles) =
      let ih = make_caches_lem profiles in
      elim (Bool-cases (is_in_memory prof.backend && is_none prof.max_entries)) [
        | inl unsized ↦ (
          λ h. cc (rw unsized at h),
          λ (caches, h).
              let (o, made, _) = >>=-eq-ok (new_cache T name prof) _ h in
              absurd (new_cache_failed name prof o unsized made),
        )
        | inr sized ↦
            let (o, made) = new_cache_ok name prof sized in
            (
              λ h.
                  let (caches, rest) = ih.0 (rw sized at h) in
                  (add_cache T name o caches, rw (made, rest)),
              λ (caches, h).
                  let (_, _, h') = >>=-eq-ok (new_cache T name prof) _ h in
                  let (rest, later, _) = >>=-eq-ok (make_caches T profiles) _ h' in
                  rw sized (ih.1 (rest, later)),
            )
      ]

  -- `_check_profile_max_entries` accepts exactly the documents on whose profiles the constructor of
  -- `MemoryBackend` comes back.
  pub check_profile_max_entries-init :
      (document : Document) (counters : CacheCounters)
      → (check_profile_max_entries document ≡ ok tt)
        ↔ ((b : MemoryBackend T) × (init T document.cache_profiles counters ≡ ok b))
  unfolding check_profile_max_entries init
  check_profile_max_entries-init document counters =
      let all = make_caches_lem document.cache_profiles in
      (
        λ h.
            let (caches, made) = all.0 h in
            (
              record {
                caches = caches;
                key_profile = [];
                rule_index = [];
                tag_index = [];
                counters = counters;
              },
              rw made,
            ),
        λ (b, h).
            let (caches, made, _) = >>=-eq-ok (make_caches T document.cache_profiles) _ h in
            all.1 (caches, made),
      )
