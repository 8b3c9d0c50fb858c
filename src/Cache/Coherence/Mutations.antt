-- ===== src/Cache/Coherence/Mutations.antt =====
-- The mutation resolver that framework/graphql/server.py wraps with `after_mutation`, over any backend
-- that keeps its contract: what it leaves in the cache is the database's after the mutation.
use hse_graduate_qualificati.Base.{
  ℕ, String, ◌≡◌, refl, sym, ap, ◌∙◌, ◌⊎◌, true, Option, none, some, List, contains, eq_refl, inl,
  inr,
}
use mathlib.Core.Path.{subst}
use hse_graduate_qualificati.Base.Exec.{Error, Result, ok, raise, Exec, traverse, Result-cases}
use hse_graduate_qualificati.Cache.Backend.{CacheBackend}
use hse_graduate_qualificati.Cache.Backend.Contract.{Contract}
use hse_graduate_qualificati.Cache.Backend.Ideal.{Ideal, Entry, has_rule}
use hse_graduate_qualificati.Cache.Coherence.{Queries, Answers, Coherent}
use hse_graduate_qualificati.Cache.Interceptor.{Codec, Wrap, render_tags}
use hse_graduate_qualificati.Cache.Invalidator.{invalidate, after_mutation}
use hse_graduate_qualificati.Cache.Invalidator.Effects.{
  drop_rules, drop_tags, drop_rules-some, drop_tags-some, del_rules-Models, del_tags-Models,
}
use hse_graduate_qualificati.Cache.Tag.{render_template}
use hse_graduate_qualificati.Dsl.Registry.{ResolvedMutation}
use hse_graduate_qualificati.Dsl.Schema.{InvalidatesSpec, Strategy, ttl, operation, tag, or_empty}
use hse_graduate_qualificati.Dsl.Value.{Args}
use hse_graduate_qualificati.Graphql.Server.{wrap_mutation_with_invalidator}

-- What the spec invalidates of a query's answers: those under a rule that it names, or those that
-- share a rendered tag with it.
abbrev pub Names : Strategy → InvalidatesSpec → Args → Wrap → Args → Type 0
Names ttl spec args w args' = ⊥
Names operation spec args w args' = contains w.rule_name (or_empty spec.rules) ≡ true
Names tag spec args w args' =
    (t : String) × (rendered : List String) × (tags : List String) × (traverse
        (λ tpl. render_template tpl args) (or_empty spec.tags)
      ≡ ok rendered)
    × (contains t rendered ≡ true)
    × (render_tags w args' ≡ ok tags)
    × (contains t tags ≡ true)

abbrev pub Invalidates : Option InvalidatesSpec → Args → Wrap → Args → Type 0
Invalidates none args w args' = ⊥
Invalidates (some spec) args w args' = Names spec.strategy spec args w args'

module _ {S D A : Type 0} (B : CacheBackend S) (C : Contract B) (codec : Codec A)
    (hexdigest : String → String) (Q : Queries D A) where
  -- The document is right about the mutation: from `d` to `d'` it changes the answers of registered
  -- queries only where its spec invalidates them.
  abbrev pub Covers : Option InvalidatesSpec → Args → D → D → Type 0
  Covers spec args d d' =
      (w : Wrap) (args' : Args)
      → Q.Registered w
      → (Q.read w args' d ≡ Q.read w args' d') ⊎ Invalidates spec args w args'

  -- There is a coherent ideal cache for the state.
  pub record IsCoherent (s : S) (d : D) : Type 0 where
    pub ideal : Ideal
    pub models : C.Models s ideal
    pub coherent : Coherent codec hexdigest Q ideal d

  still-Answers :
      (k : String) (e : Entry) (d d' : D) (a : Answers codec hexdigest Q k e d)
      → Q.read a.wrap a.args d ≡ Q.read a.wrap a.args d'
      → Answers codec hexdigest Q k e d'
  still-Answers k e d d' a same = record {
    wrap = a.wrap;
    args = a.args;
    registered = a.registered;
    key = a.key;
    rule = a.rule;
    tags = a.tags;
    answer = sym same ∙ a.answer;
  }

  own_rule : (e : Entry) (r : String) → e.rule ≡ some r → has_rule r e ≡ true
  own_rule e r h = rw h (eq_refl r)

  invalidate-IsCoherent :
      (now : ℕ) (st : Strategy) (spec : InvalidatesSpec) (args : Args) (s : S) (m : Ideal)
      (d d' : D)
      → C.Models s m
      → Coherent codec hexdigest Q m d
      → ((w : Wrap) (args' : Args)
          → Q.Registered w
          → (Q.read w args' d ≡ Q.read w args' d') ⊎ Names st spec args w args')
      → (invalidate B now st spec args s).0 ≡ ok tt
      → IsCoherent (invalidate B now st spec args s).1 d'
  unfolding invalidate
  invalidate-IsCoherent now ttl spec args s m d d' models coherent covers fine = record {
    ideal = m;
    models = models;
    coherent = λ k e at.
        let a = coherent k e at in
        elim (covers a.wrap a.args a.registered) [
          | inl same ↦ still-Answers k e d d' a same
          | inr impossible ↦ absurd impossible
        ];
  }
  invalidate-IsCoherent now operation spec args s m d d' models coherent covers fine = record {
    ideal = drop_rules (or_empty spec.rules) m;
    models = del_rules-Models B C now (or_empty spec.rules) s m models fine;
    coherent = λ k e at.
        let (was, out) = drop_rules-some (or_empty spec.rules) m k e at in
        let a = coherent k e was in
        elim (covers a.wrap a.args a.registered) [
          | inl same ↦ still-Answers k e d d' a same
          | inr named ↦ cc (out a.wrap.rule_name named, own_rule e a.wrap.rule_name a.rule)
        ];
  }
  invalidate-IsCoherent now tag spec args s m d d' models coherent covers fine =
      let (gone, all, after) = del_tags-Models B C now (or_empty spec.tags) args s m models fine in
      record {
        ideal = drop_tags gone m;
        models = after;
        coherent = λ k e at.
            let (was, out) = drop_tags-some gone m k e at in
            let a = coherent k e was in
            elim (covers a.wrap a.args a.registered) [
              | inl same ↦ still-Answers k e d d' a same
              | inr (t, rendered, tags, r, in_rendered, own, in_tags) ↦
                  let is_gone : rendered ≡ gone = cc (r, all) in
                  let is_own : tags ≡ e.tags = cc (own, a.tags) in
                  cc (out t (rw (← is_gone) in_rendered), rw is_own at in_tags)
            ];
      }

  spec-IsCoherent :
      (now : ℕ) (m : ResolvedMutation) (o : Option InvalidatesSpec) (args : Args) (s : S) (d d' : D)
      → m.invalidates ≡ o
      → IsCoherent s d
      → Covers o args d d'
      → (after_mutation B now m args s).0 ≡ ok tt
      → IsCoherent (after_mutation B now m args s).1 d'
  unfolding after_mutation
  spec-IsCoherent now m none args s d d' is_none before covers fine =
      rw (is_none, after_mutation)
        (record {
          ideal = before.ideal;
          models = before.models;
          coherent = λ k e at.
              let a = before.coherent k e at in
              elim (covers a.wrap a.args a.registered) [
                | inl same ↦ still-Answers k e d d' a same
                | inr impossible ↦ absurd impossible
              ];
        })
  spec-IsCoherent now m (some spec) args s d d' is_some before covers fine =
      rw (is_some, after_mutation)
        (invalidate-IsCoherent now spec.strategy spec args s before.ideal d d' before.models
          before.coherent covers (rw (is_some, after_mutation) at fine))

  after_mutation-IsCoherent :
      (now : ℕ) (m : ResolvedMutation) (args : Args) (s : S) (d d' : D)
      → IsCoherent s d
      → Covers m.invalidates args d d'
      → (after_mutation B now m args s).0 ≡ ok tt
      → IsCoherent (after_mutation B now m args s).1 d'
  after_mutation-IsCoherent now m args s d d' before covers fine =
      spec-IsCoherent now m m.invalidates args s d d' refl before covers fine

  wrap_comes_back :
      (now : ℕ) (m : ResolvedMutation) (resolver : Args → Exec D A) (args : Args) (s : S) (d : D)
      (b : A)
      → (resolver args d).0 ≡ ok b
      → (after_mutation B now m args s).0 ≡ ok tt
      → wrap_mutation_with_invalidator B now m resolver args (s, d)
        ≡ (ok b, ((after_mutation B now m args s).1, (resolver args d).1))
  unfolding wrap_mutation_with_invalidator
  wrap_comes_back now m resolver args s d b answer done =
      rw (answer, done, wrap_mutation_with_invalidator)

  wrap_failed :
      (now : ℕ) (m : ResolvedMutation) (resolver : Args → Exec D A) (args : Args) (s : S) (d : D)
      → (e : Error) → (resolver args d).0 ≡ raise e
      → (wrap_mutation_with_invalidator B now m resolver args (s, d)).0 ≡ raise e
  unfolding wrap_mutation_with_invalidator
  wrap_failed now m resolver args s d e failed = rw (failed, wrap_mutation_with_invalidator)

  invalidator_failed :
      (now : ℕ) (m : ResolvedMutation) (resolver : Args → Exec D A) (args : Args) (s : S) (d : D)
      → (b : A) (e : Error) → (resolver args d).0 ≡ ok b
      → (after_mutation B now m args s).0 ≡ raise e
      → (wrap_mutation_with_invalidator B now m resolver args (s, d)).0 ≡ raise e
  unfolding wrap_mutation_with_invalidator
  invalidator_failed now m resolver args s d b e answer failed =
      rw (answer, failed, wrap_mutation_with_invalidator)

  -- For a mutation whose document is right about it, over a backend that keeps its contract: when the
  -- wrapped resolver comes back, the resolver has come back with that result, and the cache, which
  -- was coherent with the database before, is coherent with the database after it.
  pub wrap_mutation-IsCoherent :
      (now : ℕ) (m : ResolvedMutation) (resolver : Args → Exec D A) (args : Args) (s : S) (d : D)
      → (a : A) → IsCoherent s d
      → Covers m.invalidates args d (resolver args d).1
      → (wrap_mutation_with_invalidator B now m resolver args (s, d)).0 ≡ ok a
      → ((resolver args d).0 ≡ ok a)
        × ((wrap_mutation_with_invalidator B now m resolver args (s, d)).1.1 ≡ (resolver args d).1)
        × IsCoherent
            (wrap_mutation_with_invalidator B now m resolver args (s, d)).1.0
            (resolver args d).1
  wrap_mutation-IsCoherent now m resolver args s d a before covers fine =
      elim (Result-cases (resolver args d).0) [
        | inr (e, failed) ↦ cc (wrap_failed now m resolver args s d e failed, fine)
        | inl (b, answer) ↦ elim (Result-cases (after_mutation B now m args s).0) [
          | inr (e, failed) ↦
              cc (invalidator_failed now m resolver args s d b e answer failed, fine)
          | inl (u, done) ↦
              let whole = wrap_comes_back now m resolver args s d b answer done in
              let same : ok b ≡ ok a = sym (ap (λ (r : Result A × (S × D)). r.0) whole) ∙ fine in
              (
                answer ∙ same,
                ap (λ (r : Result A × (S × D)). r.1.1) whole,
                subst (λ (r : Result A × (S × D)). IsCoherent r.1.0 (resolver args d).1) (sym whole)
                    (after_mutation-IsCoherent now m args s d (resolver args d).1 before covers
                      done),
              )
        ]
      ]
