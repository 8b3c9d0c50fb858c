-- ===== src/Cli/Backends.antt =====
-- framework/cli.py: each profile gets the backend of its kind.
use mathlib.Core.Path.{subst}
use hse_graduate_qualificati.Base.{
  String, ◌≡◌, refl, ◌∙◌, Bool, true, false, ◌&&◌, ◌||◌, ◌==◌, none, some, [], ◌∷◌, if◌then◌else◌,
  Bool-cases, inl, inr, eq_iff, arith,
}
use hse_graduate_qualificati.Base.Dict.{Dict, lookup, insert, has_key, lookup-insert}
use hse_graduate_qualificati.Cli.{
  redis_profiles_present, in_memory_profiles, set_redis, set_memory, make_backends,
}
use hse_graduate_qualificati.Dsl.Schema.{
  CacheProfile, BackendKind, redis, in_memory, is_redis, is_in_memory,
}

-- No key is twice in the dict's items.
abbrev pub HasDistinctKeys {ℓ} : {V : Type ℓ} → Dict V → Type 0
HasDistinctKeys [] = Unit
HasDistinctKeys ((k, v) ∷ d) = (has_key k d ≡ false) × HasDistinctKeys d

-- What a profile should be served by.
abbrev pub backend_for {ℓ} : {B : Type ℓ} → B → B → BackendKind → B
backend_for redis_backend memory redis = redis_backend
backend_for redis_backend memory in_memory = memory

module _ {B : Type 0} where
  set_memory-lookup :
      (b : B) (profiles : Dict CacheProfile) (start : Dict B) (k : String)
      → lookup k (set_memory b profiles start)
        ≡ (if has_key k profiles then some b else lookup k start)
  unfolding set_memory has_key
  set_memory-lookup b [] start k = refl
  set_memory-lookup b ((name, prof) ∷ profiles) start k =
      ground
        (arith, set_memory-lookup b profiles (insert name b start) k, lookup-insert name k b start)

-- A profile of this name passes the test.
abbrev has_kind : (BackendKind → Bool) → String → Dict CacheProfile → Bool
has_kind test k [] = false
has_kind test k ((name, prof) ∷ profiles) =
    name == k && test prof.backend || has_kind test k profiles

has_kind-absent :
    (test : BackendKind → Bool) (k : String) (profiles : Dict CacheProfile)
    → has_key k profiles ≡ false
    → has_kind test k profiles ≡ false
unfolding has_key
has_kind-absent test k [] h = refl
has_kind-absent test k ((name, prof) ∷ profiles) h = ground (arith, has_kind-absent test k profiles)

or_false : (b : Bool) → (b || false) ≡ b
or_false true = refl
or_false false = refl

has_kind-lookup :
    (test : BackendKind → Bool) (k : String) (profiles : Dict CacheProfile) (prof : CacheProfile)
    → HasDistinctKeys profiles
    → lookup k profiles ≡ some prof
    → has_kind test k profiles ≡ test prof.backend
unfolding lookup
has_kind-lookup test k [] prof d h = cc h
has_kind-lookup test k ((name, p) ∷ profiles) prof (fresh, d) h = elim (Bool-cases (name == k)) [
  | inr differs ↦ rw differs (has_kind-lookup test k profiles prof d (rw differs at h))
  | inl same ↦
      let here : some p ≡ some prof = rw same at h in
      let e : p ≡ prof = cc here in
      let name_is : name ≡ k = (eq_iff name k).0 same in
      let gone =
        has_kind-absent test k profiles (subst (λ n. has_key n profiles ≡ false) name_is fresh) in
      rw (same, gone, ← e) (or_false (test p.backend))
]

has_key-in_memory :
    (k : String) (profiles : Dict CacheProfile)
    → has_key k (in_memory_profiles profiles) ≡ has_kind is_in_memory k profiles
unfolding has_key in_memory_profiles
has_key-in_memory k [] = refl
has_key-in_memory k ((name, prof) ∷ profiles) = elim (Bool-cases (is_in_memory prof.backend)) [
  | inl memory ↦ ground (arith, has_key-in_memory k profiles)
  | inr other ↦ ground (arith, has_key-in_memory k profiles)
]

no_redis :
    (k : String) (profiles : Dict CacheProfile)
    → redis_profiles_present profiles ≡ false
    → has_kind is_redis k profiles ≡ false
unfolding redis_profiles_present
no_redis k [] h = refl
no_redis k ((name, prof) ∷ profiles) h = ground (arith, no_redis k profiles)

module _ {B : Type 0} where
  set_redis-lookup :
      (b : B) (profiles : Dict CacheProfile) (start : Dict B) (k : String)
      → lookup k (set_redis b profiles start)
        ≡ (if has_kind is_redis k profiles then some b else lookup k start)
  unfolding set_redis
  set_redis-lookup b [] start k = refl
  set_redis-lookup b ((name, prof) ∷ profiles) start k = elim (Bool-cases (is_redis prof.backend)) [
    | inr other ↦ rw other (ground (arith, set_redis-lookup b profiles start k))
    | inl redis_prof ↦ rw redis_prof (
        ground (
          arith,
          set_redis-lookup b profiles (insert name b start) k,
          lookup-insert name k b start,
        ))
  ]

  with_redis_lem :
      (b : B) (profiles : Dict CacheProfile) (k : String)
      → lookup k (if redis_profiles_present profiles then set_redis b profiles [] else [])
        ≡ (if has_kind is_redis k profiles then some b else none)
  unfolding lookup
  with_redis_lem b profiles k = elim (Bool-cases (redis_profiles_present profiles)) [
    | inl present ↦ rw present (set_redis-lookup b profiles [] k)
    | inr absent ↦ rw (absent, no_redis k profiles absent)
  ]

  kind_backend :
      (r m : B) (kind : BackendKind)
      → (if is_in_memory kind then some m else if is_redis kind then some r else none)
        ≡ some (backend_for r m kind)
  kind_backend r m redis = refl
  kind_backend r m in_memory = refl

  -- When there are profiles, each has the backend of its kind: the Redis profiles the Redis backend,
  -- the others the memory backend, made with the in-memory profiles, whatever order they stand in.
  pub make_backends-lookup :
      (redis_backend : B) (memory_backend : Dict CacheProfile → B) (profiles : Dict CacheProfile)
      → (k : String) (prof : CacheProfile) → HasDistinctKeys profiles
      → lookup k profiles ≡ some prof
      → (backends : Dict B) × (make_backends redis_backend memory_backend profiles ≡ some backends)
        × (lookup k backends
            ≡ some (
                backend_for redis_backend
                  (memory_backend (in_memory_profiles profiles))
                  prof.backend))
  unfolding make_backends lookup
  make_backends-lookup r m [] k prof d h = cc h
  make_backends-lookup r m (p ∷ ps) k prof d h =
      let all = p ∷ ps in
      (
        _,
        refl,
        set_memory-lookup (m (in_memory_profiles all)) (in_memory_profiles all) _ k
            ∙ rw
                (
                  has_key-in_memory k all,
                  with_redis_lem r all k,
                  has_kind-lookup is_in_memory k all prof d h,
                  has_kind-lookup is_redis k all prof d h,
                )
                (kind_backend r (m (in_memory_profiles all)) prof.backend),
      )
