-- ===== src/Graphql/Server/Contexts.antt =====
-- `op_to_cache_ctx` of framework/graphql/server.py, for a document that the loader has accepted.
use mathlib.Core.Path.{subst}
use hse_graduate_qualificati.Base.{
  String, ◌≡◌, refl, sym, ◌∙◌, true, false, some, List, [], ◌∷◌, ◌++◌, ◌==◌, if◌then◌else◌,
  contains, arith, Bool-cases, text_cases, inl, inr, hit_inv,
}
use hse_graduate_qualificati.Base.Dict.{Dict, lookup, insert, has_key, lookup-insert}
use hse_graduate_qualificati.Base.Exec.{ok}
use hse_graduate_qualificati.Dsl.Loader.Checks.{check_rule_profiles, check_profile_refs}
use hse_graduate_qualificati.Dsl.Loader.Operations.{IsDistinct, all_operations}
use hse_graduate_qualificati.Dsl.Schema.{Document, CacheProfile, CacheRule, or_empty}
use hse_graduate_qualificati.Base.Items.{get_item, get_item-ok}
use hse_graduate_qualificati.Graphql.Server.{CacheContext, add_operations, cache_contexts}

lookup-add_operations {ℓ} :
    {V : Type ℓ} (ops : List String) (ctx : V) (d : Dict V) (j : String)
    → lookup j (add_operations ops ctx d) ≡ (if contains j ops then some ctx else lookup j d)
unfolding add_operations contains
lookup-add_operations [] ctx d j = refl
lookup-add_operations (op ∷ ops) ctx d j =
    let ih = lookup-add_operations ops ctx (insert op ctx d) j in
    let inserted = lookup-insert op j ctx d in ground arith

contains-neither :
    (xs ys : List String) (op : String)
    → contains op (xs ++ ys) ≡ false
    → (contains op xs ≡ false) × (contains op ys ≡ false)
unfolding contains
contains-neither [] ys op h = (refl, h)
contains-neither (x ∷ xs) ys op h = elim (Bool-cases (x == op)) [
  | inl same ↦ cc (rw same at h)
  | inr differs ↦
      let (left, right) = contains-neither xs ys op (rw differs at h) in (rw differs left, right)
]

contains-right :
    (xs ys : List String) (op : String) → contains op (xs ++ ys) ≡ false → contains op ys ≡ false
unfolding contains
contains-right [] ys op h = h
contains-right (x ∷ xs) ys op h =
    let ih = contains-right xs ys op in
    elim (Bool-cases (x == op)) [
      | inl same ↦ cc (rw same at h)
      | inr differs ↦ ih (rw differs at h)
    ]

distinct-apart :
    (xs ys : List String) (op : String)
    → IsDistinct (xs ++ ys)
    → contains op xs ≡ true
    → contains op ys ≡ false
unfolding contains
distinct-apart [] ys op h inside = cc inside
distinct-apart (x ∷ xs) ys op h inside = elim (text_cases x op) [
  | inl same ↦ contains-right xs ys op (subst (λ y. contains y (xs ++ ys) ≡ false) same h.0)
  | inr differs ↦ distinct-apart xs ys op h.1 (rw differs at inside)
]

-- The context of an operation is the one of this rule.
pub record IsContextOf {B : Type 0} (profiles : Dict CacheProfile) (backends : Dict B)
    (name : String) (rule : CacheRule) (ctx : CacheContext B) : Type 0 where
  pub rule_name : ctx.rule_name ≡ name
  pub profile_name : ctx.profile_name ≡ rule.profile
  pub profile : lookup rule.profile profiles ≡ some ctx.profile
  pub backend : lookup rule.profile backends ≡ some ctx.backend
  pub tag_templates : ctx.tag_templates ≡ or_empty rule.tags

module _ {B : Type 0} (profiles : Dict CacheProfile) (backends : Dict B)
    (served : (p : String) → has_key p profiles ≡ true → has_key p backends ≡ true) where
  abbrev Contexts : Type 0
  Contexts = Dict (CacheContext B)

  -- The context that a rule is given.
  abbrev made : String → CacheRule → CacheProfile → B → CacheContext B
  made name rule profile backend = record {
    backend = backend;
    profile_name = rule.profile;
    profile = profile;
    rule_name = name;
    tag_templates = or_empty rule.tags;
  }

  IsDistinct-later : (xs ys : List String) → IsDistinct (xs ++ ys) → IsDistinct ys
  IsDistinct-later [] ys h = h
  IsDistinct-later (x ∷ xs) ys h = IsDistinct-later xs ys h.1

  -- What the loop makes of the table, from the table it starts with.
  abbrev Filled : Dict CacheRule → Contexts → Contexts → Type 0
  Filled rules before after =
      ((op : String)
        → contains op (all_operations rules) ≡ false
        → lookup op after ≡ lookup op before)
      × ((name : String) (rule : CacheRule) (op : String)
          → lookup name rules ≡ some rule
          → contains op rule.operations ≡ true
          → (ctx : CacheContext B) × (lookup op after ≡ some ctx)
            × IsContextOf profiles backends name rule ctx)

  cache_contexts_step :
      (name : String) (rule : CacheRule) (rules : Dict CacheRule) (before : Contexts)
      → (profile : CacheProfile) (backend : B) → get_item rule.profile profiles ≡ ok profile
      → get_item rule.profile backends ≡ ok backend
      → cache_contexts profiles backends ((name, rule) ∷ rules) before
        ≡ cache_contexts profiles backends rules
            (add_operations rule.operations (made name rule profile backend) before)
  unfolding cache_contexts
  cache_contexts_step name rule rules before profile backend p b = rw (p, b, cache_contexts)

  Filled-cons :
      (n : String) (r : CacheRule) (rules : Dict CacheRule) (before after : Contexts)
      → (profile : CacheProfile) (backend : B) → lookup r.profile profiles ≡ some profile
      → lookup r.profile backends ≡ some backend
      → IsDistinct (r.operations ++ all_operations rules)
      → Filled rules (add_operations r.operations (made n r profile backend) before) after
      → Filled ((n, r) ∷ rules) before after
  unfolding lookup
  Filled-cons n r rules before after profile backend at serving d (others, own) =
      let ctx = made n r profile backend in
      (
        λ op out.
            let (here, there) = contains-neither r.operations (all_operations rules) op out in
            others op there ∙ lookup-add_operations r.operations ctx before op ∙ rw here,
        λ name rule op found inside. elim (text_cases n name) [
          | inr differs ↦ own name rule op (rw differs at found) inside
          | inl same ↦
              let is_rule : r ≡ rule = hit_inv n name r rule (lookup name rules) same found in
              let in_r : contains op r.operations ≡ true =
                subst (λ (q : CacheRule). contains op q.operations ≡ true) (sym is_rule) inside in
              let apart = distinct-apart r.operations (all_operations rules) op d in_r in
              let found_ctx : lookup op after ≡ some ctx =
                others op apart ∙ lookup-add_operations r.operations ctx before op ∙ rw in_r in
              (
                ctx,
                found_ctx,
                subst (λ (q : CacheRule). IsContextOf profiles backends name q ctx) is_rule
                    (record {
                      rule_name = same;
                      profile_name = refl;
                      profile = at;
                      backend = serving;
                      tag_templates = refl;
                    }),
              )
        ],
      )

  pub cache_contexts_lem :
      (rules : Dict CacheRule) (before : Contexts)
      → check_rule_profiles profiles rules ≡ ok tt
      → IsDistinct (all_operations rules)
      → (after : Contexts) × (cache_contexts profiles backends rules before ≡ ok after)
        × Filled rules before after
  unfolding cache_contexts check_rule_profiles lookup
  cache_contexts_lem [] before h d =
      (before, refl, (λ op out. refl, λ name rule op found. cc found))
  cache_contexts_lem ((n, r) ∷ rules) before h d = elim (Bool-cases (has_key r.profile profiles)) [
    | inr unknown ↦ cc (rw unknown at h)
    | inl known ↦
        let (profile, p, at) = get_item-ok r.profile profiles known in
        let (backend, b, serving) = get_item-ok r.profile backends (served r.profile known) in
        let ctx = made n r profile backend in
        let (after, done, filled) =
          cache_contexts_lem rules (add_operations r.operations ctx before) (rw known at h)
            (IsDistinct-later r.operations (all_operations rules) d) in
        (
          after,
          cache_contexts_step n r rules before profile backend p b ∙ done,
          Filled-cons n r rules before after profile backend at serving d filled,
        )
  ]

-- For a document whose rules name its profiles, and no operation twice, and with a backend for every
-- profile: the table is built without a KeyError, and an operation of a rule has that rule's context
-- in it, with the rule's name, its profile, that profile's backend and the rule's tags.
pub cache_contexts-IsContextOf :
    {B : Type 0} (document : Document) (backends : Dict B) (name : String) (rule : CacheRule)
    (op : String)
    → ((p : String) → has_key p document.cache_profiles ≡ true → has_key p backends ≡ true)
    → check_profile_refs document ≡ ok tt
    → IsDistinct (all_operations document.cache_rules)
    → lookup name document.cache_rules ≡ some rule
    → contains op rule.operations ≡ true
    → (ctxs : Dict (CacheContext B)) × (ctx : CacheContext B) × (cache_contexts
          document.cache_profiles backends document.cache_rules []
        ≡ ok ctxs)
      × (lookup op ctxs ≡ some ctx)
      × IsContextOf document.cache_profiles backends name rule ctx
unfolding check_profile_refs
cache_contexts-IsContextOf document backends name rule op served checked distinct found inside =
    let (ctxs, done, filled) =
      cache_contexts_lem document.cache_profiles backends served document.cache_rules [] checked
        distinct in
    let (ctx, at, context) = filled.1 name rule op found inside in (ctxs, ctx, done, at, context)
