-- ===== src/Cache/Memory/Refines.antt =====
-- The constructor of memory_backend.py, and `MemoryBackend` as an implementation of the protocol's
-- contract.
use hse_graduate_qualificati.Base.{
  ℕ, ◌<◌, String, ◌≡◌, false, Option, none, some, [], ◌∷◌, eq_refl, text_cases, Bool-cases,
  Option-cases, inl, inr, sym, ◌∙◌, hit_inv,
}
use hse_graduate_qualificati.Base.Dict.{Dict, lookup, has_key, has_key_of_lookup}
use hse_graduate_qualificati.Base.Exec.{ok, >>=-eq-ok, ok_inj}
use hse_graduate_qualificati.Cache.Backend.{CacheCounters}
use hse_graduate_qualificati.Cache.Backend.Ideal.{empty}
use hse_graduate_qualificati.Cache.Backend.Contract.{Contract}
use hse_graduate_qualificati.Cache.Ttl.{TtlCaches, TtlLaws}
use hse_graduate_qualificati.Cache.Memory.{
  MemoryBackend, backend, make_caches, new_cache, add_cache, init, cache_ttl,
}
use hse_graduate_qualificati.Cache.Memory.Models.{Models, profile_lifetime}
use hse_graduate_qualificati.Cache.Memory.Deletes.{
  del_by_rule-Models, del_by_tag-Models, flush-Models,
}
use hse_graduate_qualificati.Cache.Memory.Reads.{get-Serves, get-Models}
use hse_graduate_qualificati.Cache.Memory.Writes.{set_with_indexes-Models}
use hse_graduate_qualificati.Dsl.Schema.{CacheProfile, is_in_memory}

-- A dict has each key once.
abbrev pub IsDict {ℓ} : {V : Type ℓ} → Dict V → Type 0
IsDict [] = Unit
IsDict ((k, v) ∷ d) = (has_key k d ≡ false) × IsDict d

-- `max_entries` is positive where it is given (pydantic's `gt=0`).
abbrev pub HasRoom : Dict CacheProfile → Type 0
HasRoom profiles =
    (p : String) (prof : CacheProfile) (size : ℕ)
    → lookup p profiles ≡ some prof
    → prof.max_entries ≡ some size
    → 0 < size

lookup_later :
    {V : Type 0} (name p : String) (v w : V) (d : Dict V)
    → has_key name d ≡ false
    → lookup p d ≡ some w
    → lookup p ((name, v) ∷ d) ≡ some w
unfolding lookup
lookup_later name p v w d new found = elim (text_cases name p) [
  | inl same ↦ cc (new, has_key_of_lookup name w d (rw same found))
  | inr differs ↦ rw differs found
]

module _ (T : TtlCaches) where
  -- Every cache is the empty one of its profile.
  abbrev Made : Dict CacheProfile → String → T.Cache → Type 0
  Made profiles p c =
      (prof : CacheProfile) × (size : ℕ) × (lookup p profiles ≡ some prof)
      × (prof.max_entries ≡ some size)
      × (c ≡ T.new size (cache_ttl prof))

  new_cache-Made :
      (name : String) (prof : CacheProfile) (c : T.Cache)
      → new_cache T name prof ≡ ok (some c)
      → (size : ℕ) × (prof.max_entries ≡ some size) × (c ≡ T.new size (cache_ttl prof))
  unfolding new_cache
  new_cache-Made name prof c h = elim (Bool-cases (is_in_memory prof.backend)) [
    | inl here ↦ elim (Option-cases prof.max_entries) [
      | inl absent ↦ cc (rw (here, absent, new_cache) at h)
      | inr (size, given) ↦
          let e : ok (some (T.new size (cache_ttl prof))) ≡ ok (some c) =
            rw (here, given, new_cache) at h in
          (size, given, cc e)
    ]
    | inr elsewhere ↦ cc (rw (elsewhere, new_cache) at h)
  ]

  Made-later :
      (name p : String) (prof : CacheProfile) (profiles : Dict CacheProfile) (c : T.Cache)
      → has_key name profiles ≡ false
      → Made profiles p c
      → Made ((name, prof) ∷ profiles) p c
  Made-later name p prof profiles c new (found, size, at, given, e) =
      (found, size, lookup_later name p prof found profiles new at, given, e)

  add_cache-Made :
      (name p : String) (prof : CacheProfile) (profiles : Dict CacheProfile) (o : Option T.Cache)
      → (rest : Dict T.Cache) (c : T.Cache) → has_key name profiles ≡ false
      → new_cache T name prof ≡ ok o
      → (lookup p rest ≡ some c → Made profiles p c)
      → lookup p (add_cache T name o rest) ≡ some c
      → Made ((name, prof) ∷ profiles) p c
  unfolding add_cache lookup
  add_cache-Made name p prof profiles none rest c new made ih found =
      Made-later name p prof profiles c new (ih found)
  add_cache-Made name p prof profiles (some x) rest c new made ih found = elim (text_cases name p) [
    | inl same ↦
        let (size, given, e) = new_cache-Made name prof x made in
        let is_c : x ≡ c = hit_inv name p x c (lookup p rest) same found in
        (prof, size, rw (same, eq_refl p), given, sym is_c ∙ e)
    | inr differs ↦ Made-later name p prof profiles c new (ih (rw differs at found))
  ]

  make_caches-Made :
      (profiles : Dict CacheProfile) (caches : Dict T.Cache) (p : String) (c : T.Cache)
      → IsDict profiles
      → make_caches T profiles ≡ ok caches
      → lookup p caches ≡ some c
      → Made profiles p c
  unfolding make_caches lookup add_cache
  make_caches-Made [] caches p c d h found =
      let e : [] ≡ caches = ok_inj [] caches h in cc (rw (← e) at found)
  make_caches-Made ((name, prof) ∷ profiles) caches p c d h found =
      let (o, made, h') = >>=-eq-ok (new_cache T name prof) _ h in
      let (rest, later, e) = >>=-eq-ok (make_caches T profiles) _ h' in
      let is_caches : add_cache T name o rest ≡ caches = ok_inj _ _ e in
      add_cache-Made name p prof profiles o rest c d.0 made
        (make_caches-Made profiles rest p c d.1 later) (rw is_caches found)

module _ (T : TtlCaches) (L : TtlLaws T) (profiles : Dict CacheProfile) where
  profile_lifetime_lem :
      (p : String) (prof : CacheProfile)
      → lookup p profiles ≡ some prof
      → profile_lifetime profiles p ≡ cache_ttl prof
  profile_lifetime_lem p prof h = rw (h, profile_lifetime)

  Made-configured :
      (p : String) (c : T.Cache)
      → HasRoom profiles
      → Made T profiles p c
      → (T.ttl c ≡ profile_lifetime profiles p) × (0 < T.maxsize c)
  Made-configured p c room (prof, size, at, given, new) =
      let (ttl, maxsize) = L.config-new size (cache_ttl prof) in
      rw (new, maxsize) (ttl ∙ sym (profile_lifetime_lem p prof at), room p prof size at given)

  -- When the constructor comes back on profiles with distinct names and room for an entry each,
  -- the new backend stands for the empty ideal cache.
  pub init-Models :
      (counters : CacheCounters) (b : MemoryBackend T)
      → IsDict profiles
      → HasRoom profiles
      → init T profiles counters ≡ ok b
      → Models T profiles b empty
  unfolding init lookup
  init-Models counters b d room h =
      let (caches, made, e) = >>=-eq-ok (make_caches T profiles) _ h in
      let is_b = ok_inj _ _ e in
      rw (← is_b) (record {
        placed = λ k p at. cc at;
        configured = λ p c found.
            Made-configured p c room (make_caches-Made T profiles caches p c d made found);
        served = λ now k p c v at found shown. cc at;
        ruled = λ k p r x at found has. cc at;
        tagged = λ k p t x at found has. cc at;
      })

  -- `MemoryBackend` keeps the contract.
  abbrev pub memory_contract : Contract (backend T)
  memory_contract = record {
    Models = Models T profiles;
    IsKey = λ k. Unit;
    lifetime = λ profile ttl. profile_lifetime profiles profile;
    get-Serves = λ b m now k v _ h hit. get-Serves T L profiles b m now k v h hit;
    get-Models = get-Models T L profiles;
    set_with_indexes-Models = λ b m now w _ h. set_with_indexes-Models T L profiles b m now w h;
    del_by_rule-Models = λ b m now rule h.
        let (fine, after) = del_by_rule-Models T L profiles b m now rule h in rw fine after;
    del_by_tag-Models = λ b m now tag h.
        let (fine, after) = del_by_tag-Models T L profiles b m now tag h in rw fine after;
    flush-Models = λ b m h. let (fine, after) = flush-Models T L profiles b m h in rw fine after;
  }
