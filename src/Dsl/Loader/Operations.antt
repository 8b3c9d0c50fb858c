-- ===== src/Dsl/Loader/Operations.antt =====
-- `_check_operation_refs` of framework/dsl/loader.py: which documents it accepts.
use hse_graduate_qualificati.Base.{
  ℕ, suc, String, ◌≡◌, refl, sym, ◌∙◌, ◌↔◌, Bool, true, false, ◌||◌, none, List, [], ◌∷◌, ◌++◌,
  ◌==◌, All, contains, arith, Bool-cases, Option-cases, inl, inr, eq_iff,
}
use mathlib.Core.Path.{subst}
use hse_graduate_qualificati.Base.Dict.{
  Dict, lookup, insert, has_key, has_key-insert, lookup_of_has_key, has_key_of_lookup,
}
use hse_graduate_qualificati.Base.Exec.{ok, >>=-eq-ok, ok_inj}
use hse_graduate_qualificati.Dsl.Loader.Checks.{
  check_operations, check_rule_operations, check_operation_refs,
}
use hse_graduate_qualificati.Dsl.Schema.{Document, QuerySpec, CacheRule}

-- No text is twice in the list.
abbrev pub IsDistinct : List String → Type 0
IsDistinct [] = Unit
IsDistinct (x ∷ xs) = (contains x xs ≡ false) × IsDistinct xs

-- The operations of all rules, in the document's order.
abbrev pub all_operations : Dict CacheRule → List String
all_operations [] = []
all_operations ((name, rule) ∷ rules) = rule.operations ++ all_operations rules

abbrev Known : Dict QuerySpec → List String → Type 0
Known queries ops = All (λ op. has_key op queries ≡ true) ops

abbrev New : Dict String → List String → Type 0
New seen ops = All (λ op. has_key op seen ≡ false) ops

neither : (a b : Bool) → (a || b) ≡ false → (a ≡ false) × (b ≡ false)
neither true b h = cc
neither false b h = (refl, h)

eq_swap : (s t : String) → (s == t) ≡ (t == s)
eq_swap s t = ground (arith, eq_iff s t, eq_iff t s)

not-has_key : (k : String) (d : Dict String) → lookup k d ≡ none → has_key k d ≡ false
not-has_key k d absent = elim (Bool-cases (has_key k d)) [
  | inr h ↦ h
  | inl there ↦ let (v, found) = lookup_of_has_key k d there in cc (absent, found)
]

New-insert :
    (op rule_name : String) (seen : Dict String) (ops : List String)
    → New (insert op rule_name seen) ops ↔ ((contains op ops ≡ false) × New seen ops)
unfolding contains
New-insert op rule_name seen [] = (λ h. (refl, tt), λ h. tt)
New-insert op rule_name seen (o ∷ ops) =
    let ih = New-insert op rule_name seen ops in
    let inserted = has_key-insert op o rule_name seen in
    (
      λ h.
          let (differs, other) = neither (op == o) (has_key o seen) (sym inserted ∙ h.0) in
          let (fresh, news) = ih.0 h.1 in (rw (eq_swap o op, differs) fresh, (other, news)),
      λ (fresh, (new, news)).
          let (differs, others) = neither (o == op) (contains op ops) fresh in
          (inserted ∙ rw (eq_swap op o, differs) new, ih.1 (others, news)),
    )

check_operations_lem :
    (queries : Dict QuerySpec) (rule_name : String) (idx : ℕ) (ops rest : List String)
    → (seen : Dict String)
    → ((seen' : Dict String) × (check_operations queries rule_name idx ops seen ≡ ok seen')
        × Known queries rest
        × New seen' rest
        × IsDistinct rest)
      ↔ (Known queries (ops ++ rest) × New seen (ops ++ rest) × IsDistinct (ops ++ rest))
unfolding check_operations
check_operations_lem queries rule_name idx [] rest seen = (
  λ (after, e, known, new, distinct).
      let same : seen ≡ after = ok_inj seen after e in
      (known, subst (λ d. New d rest) (sym same) new, distinct),
  λ (known, new, distinct). (seen, refl, known, new, distinct),
)
check_operations_lem queries rule_name idx (op ∷ ops) rest seen =
    let ih = check_operations_lem queries rule_name (suc idx) ops rest (insert op rule_name seen) in
    let step = New-insert op rule_name seen (ops ++ rest) in
    elim (Bool-cases (has_key op queries)) [
      | inr unknown ↦ (
        λ (after, e, _, _, _). cc (rw unknown at e),
        λ (known, new, distinct). cc (unknown, known.0),
      )
      | inl known ↦ elim (Option-cases (lookup op seen)) [
        | inr (other, there) ↦ (
          λ (after, e, _, _, _). cc (rw (known, there) at e),
          λ (_, new, distinct). cc (has_key_of_lookup op other seen there, new.0),
        )
        | inl absent ↦ (
          λ (after, e, k, n, d).
              let (knowns, news, distinct) = ih.0 (after, rw (known, absent) at e, k, n, d) in
              let (fresh, new) = step.0 news in
              ((known, knowns), (not-has_key op seen absent, new), (fresh, distinct)),
          λ (knowns, new, distinct).
              let (after, e, k, n, d) = ih.1 (knowns.1, step.1 (distinct.0, new.1), distinct.1) in
              (after, rw (known, absent) e, k, n, d),
        )
      ]
    ]

check_rule_operations_lem :
    (queries : Dict QuerySpec) (rules : Dict CacheRule) (seen : Dict String)
    → (check_rule_operations queries rules seen ≡ ok tt) ↔ (
        Known queries (all_operations rules)
        × New seen (all_operations rules)
        × IsDistinct (all_operations rules))
unfolding check_rule_operations
check_rule_operations_lem queries [] seen = (λ h. (tt, tt, tt), λ h. refl)
check_rule_operations_lem queries ((name, rule) ∷ rules) seen =
    let here = check_operations_lem queries name 0 rule.operations (all_operations rules) seen in
    (
      λ h.
          let (after, e, later) =
            >>=-eq-ok (check_operations queries name 0 rule.operations seen) _ h in
          let (k, n, d) = (check_rule_operations_lem queries rules after).0 later in
          here.0 (after, e, k, n, d),
      λ h.
          let (after, e, k, n, d) = here.1 h in
          rw e ((check_rule_operations_lem queries rules after).1 (k, n, d)),
    )

New-empty : (ops : List String) → New [] ops
unfolding has_key
New-empty [] = tt
New-empty (op ∷ ops) = (refl, New-empty ops)

-- `_check_operation_refs` comes back exactly for the documents whose rules name queries of the
-- document only, and no query twice, in one rule or in two.
pub check_operation_refs_lem :
    (document : Document)
    → (check_operation_refs document ≡ ok tt) ↔ (
        All (λ op. has_key op document.queries ≡ true) (all_operations document.cache_rules)
        × IsDistinct (all_operations document.cache_rules))
unfolding check_operation_refs
check_operation_refs_lem document =
    let all = check_rule_operations_lem document.queries document.cache_rules [] in
    (
      λ h. let (known, new, distinct) = all.0 h in (known, distinct),
      λ (known, distinct). all.1 (known, New-empty (all_operations document.cache_rules), distinct),
    )
