-- ===== src/Cache/Invalidator.antt =====
-- framework/cache/invalidator.py: `after_mutation`, over any backend. The last branch of the source
-- (an unknown strategy) is unreachable by the type of `strategy`.
pub mod Effects
use hse_graduate_qualificati.Base.{ℕ, String, Option, none, some, List, [], ◌∷◌}
use hse_graduate_qualificati.Base.Exec.{Result, ok, raise, Exec, after}
use hse_graduate_qualificati.Cache.Backend.{CacheBackend}
use hse_graduate_qualificati.Cache.Tag.{render_template}
use hse_graduate_qualificati.Dsl.Registry.{ResolvedMutation}
use hse_graduate_qualificati.Dsl.Schema.{InvalidatesSpec, Strategy, ttl, operation, tag, or_empty}
use hse_graduate_qualificati.Dsl.Value.{Args}

module _ {S : Type 0} (B : CacheBackend S) where
  -- `for rule in rules`
  unfoldable pub del_rules : ℕ → List String → Exec S (Unit {0})
  del_rules now [] s = (ok tt, s)
  del_rules now (rule ∷ rules) s = after (B.del_by_rule now rule s) (λ _. del_rules now rules)

  -- `for tpl in templates`: each is rendered when its turn comes
  unfoldable pub del_tags : ℕ → List String → Args → Exec S (Unit {0})
  del_tags now [] args s = (ok tt, s)
  del_tags now (tpl ∷ templates) args s = elim (render_template tpl args) [
    | raise e ↦ (raise e, s)
    | ok rendered ↦ after (B.del_by_tag now rendered s) (λ _. del_tags now templates args)
  ]

  unfoldable pub invalidate : ℕ → Strategy → InvalidatesSpec → Args → Exec S (Unit {0})
  unfolding del_rules del_tags
  invalidate now ttl spec args s = (ok tt, s)
  invalidate now operation spec args s = del_rules now (or_empty spec.rules) s
  invalidate now tag spec args s = del_tags now (or_empty spec.tags) args s

  unfoldable pub after_mutation : ℕ → ResolvedMutation → Args → Exec S (Unit {0})
  unfolding invalidate
  after_mutation now mut args s = elim mut.invalidates [
    | none ↦ (ok tt, s)
    | some spec ↦ invalidate now spec.strategy spec args s
  ]
