-- ===== src/Dsl/Loader/Accepted.antt =====
-- What the checks of framework/dsl/loader.py accept.
use hse_graduate_qualificati.Base.{
  ℕ, suc, String, ◌≡◌, refl, ◌↔◌, Bool, true, false, not, Option, none, some, List, [], ◌∷◌, All,
  Bool-cases, inl, inr,
}
use hse_graduate_qualificati.Base.Dict.{Dict, has_key}
use hse_graduate_qualificati.Base.Exec.{Result, ok, raise, ◌>>◌}
use hse_graduate_qualificati.Dsl.Loader.Checks.{
  is_none, is_falsy, forbid, check_rule_names, check_strategy, check_invalidates, check_mutations,
  check_invalidate_strategy,
}
use hse_graduate_qualificati.Dsl.Schema.{
  Document, MutationSpec, InvalidatesSpec, CacheRule, Strategy, ttl, operation, tag, or_empty,
}

-- The rules, if any, are the document's, and the spec has what its strategy reads and nothing else.
abbrev pub IsConsistent : Dict CacheRule → InvalidatesSpec → Strategy → Type 0
IsConsistent rules spec tag = (is_falsy spec.tags ≡ false) × (spec.rules ≡ none)
IsConsistent rules spec operation =
    (is_falsy spec.rules ≡ false)
    × (spec.tags ≡ none)
    × All (λ name. has_key name rules ≡ true) (or_empty spec.rules)
IsConsistent rules spec ttl = (spec.rules ≡ none) × (spec.tags ≡ none)

abbrev pub SpecIsConsistent : Dict CacheRule → Option InvalidatesSpec → Type 0
SpecIsConsistent rules none = Unit
SpecIsConsistent rules (some spec) = IsConsistent rules spec spec.strategy

check_rule_names_lem :
    (rules : Dict CacheRule) (op_name : String) (idx : ℕ) (names : List String)
    → (check_rule_names rules op_name idx names ≡ ok tt)
      ↔ All (λ name. has_key name rules ≡ true) names
unfolding check_rule_names
check_rule_names_lem rules op_name idx [] = (λ h. tt, λ h. refl)
check_rule_names_lem rules op_name idx (name ∷ names) =
    let ih = check_rule_names_lem rules op_name (suc idx) names in
    elim (Bool-cases (has_key name rules)) [
      | inl known ↦ (λ h. (known, ih.0 (rw known at h)), λ h. rw known (ih.1 h.1))
      | inr unknown ↦ (λ h. cc (rw unknown at h), λ h. cc (unknown, h.0))
    ]

forbid-then :
    (test : Bool) (path message : String) (rest : Result (Unit {0}))
    → (forbid test path message >> rest ≡ ok tt) ↔ ((test ≡ false) × (rest ≡ ok tt))
forbid-then true path message rest = (λ h. cc, λ h. cc h.0)
forbid-then false path message rest = (λ h. (refl, h), λ h. h.1)

not-none : {A : Type 0} (o : Option A) → (not (is_none o) ≡ false) ↔ (o ≡ none)
not-none none = (λ h. refl, λ h. refl)
not-none (some a) = (λ h. cc, λ h. cc)

forbid-ok :
    (test : Bool) (path message : String) → (forbid test path message ≡ ok tt) ↔ (test ≡ false)
forbid-ok true path message = (λ h. cc, λ h. cc)
forbid-ok false path message = (λ h. refl, λ h. refl)

check_strategy_lem :
    (rules : Dict CacheRule) (op_name : String) (spec : InvalidatesSpec) (s : Strategy)
    → (check_strategy rules op_name spec s ≡ ok tt) ↔ IsConsistent rules spec s
unfolding check_strategy
check_strategy_lem rules op_name spec tag =
    let first = forbid-then (is_falsy spec.tags) _ _ _ in
    let second = forbid-ok (not (is_none spec.rules)) _ _ in
    let absent = not-none spec.rules in
    (
      λ h. ((first.0 h).0, absent.0 (second.0 (first.0 h).1)),
      λ h. first.1 (h.0, second.1 (absent.1 h.1)),
    )
check_strategy_lem rules op_name spec operation =
    let first = forbid-then (is_falsy spec.rules) _ _ _ in
    let second = forbid-then (not (is_none spec.tags)) _ _ _ in
    let absent = not-none spec.tags in
    let names = check_rule_names_lem rules op_name 0 (or_empty spec.rules) in
    (
      λ h.
          let (some_rules, h') = first.0 h in
          let (no_tags, h'') = second.0 h' in (some_rules, absent.0 no_tags, names.0 h''),
      λ h. first.1 (h.0, second.1 (absent.1 h.1, names.1 h.2)),
    )
check_strategy_lem rules op_name spec ttl =
    let first = forbid-then (not (is_none spec.rules)) _ _ _ in
    let second = forbid-ok (not (is_none spec.tags)) _ _ in
    (
      λ h. ((not-none spec.rules).0 (first.0 h).0, (not-none spec.tags).0 (second.0 (first.0 h).1)),
      λ h. first.1 ((not-none spec.rules).1 h.0, second.1 ((not-none spec.tags).1 h.1)),
    )

>>_lem : (m k : Result (Unit {0})) → (m >> k ≡ ok tt) ↔ ((m ≡ ok tt) × (k ≡ ok tt))
>>_lem (ok u) k = (λ h. (refl, h), λ h. h.1)
>>_lem (raise e) k = (λ h. cc, λ h. cc h.0)

check_invalidates_lem :
    (rules : Dict CacheRule) (op_name : String) (o : Option InvalidatesSpec)
    → (check_invalidates rules op_name o ≡ ok tt) ↔ SpecIsConsistent rules o
unfolding check_invalidates
check_invalidates_lem rules op_name none = (λ h. tt, λ h. refl)
check_invalidates_lem rules op_name (some spec) =
    check_strategy_lem rules op_name spec spec.strategy

check_mutations_lem :
    (rules : Dict CacheRule) (mutations : Dict MutationSpec)
    → (check_mutations rules mutations ≡ ok tt)
      ↔ All (λ (m : String × MutationSpec). SpecIsConsistent rules m.1.invalidates) mutations
unfolding check_mutations
check_mutations_lem rules [] = (λ h. tt, λ h. refl)
check_mutations_lem rules ((op_name, mutation) ∷ mutations) =
    let both =
      >>_lem (check_invalidates rules op_name mutation.invalidates)
        (check_mutations rules mutations) in
    let ih = check_mutations_lem rules mutations in
    let one = check_invalidates_lem rules op_name mutation.invalidates in
    (λ h. (one.0 (both.0 h).0, ih.0 (both.0 h).1), λ h. both.1 (one.1 h.0, ih.1 h.1))

-- `_check_invalidate_strategy` comes back exactly for the documents in which each mutation's
-- `invalidates` has a non-empty `tags` and no `rules` (tag), or a non-empty `rules`, all of them
-- rules of the document, and no `tags` (operation), or neither (ttl).
pub check_invalidate_strategy_lem :
    (document : Document)
    → (check_invalidate_strategy document ≡ ok tt)
      ↔ All
          (λ (m : String × MutationSpec). SpecIsConsistent document.cache_rules m.1.invalidates)
          document.mutations
unfolding check_invalidate_strategy
check_invalidate_strategy_lem document = check_mutations_lem document.cache_rules document.mutations
