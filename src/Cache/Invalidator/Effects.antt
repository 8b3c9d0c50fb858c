-- ===== src/Cache/Invalidator/Effects.antt =====
-- What `after_mutation` of invalidator.py takes out of the cache, over any backend with the contract.
use hse_graduate_qualificati.Base.{
  ℕ, String, ◌≡◌, refl, true, false, some, List, [], ◌∷◌, contains, inl, inr, text_cases, ◌∙◌,
}
use mathlib.Core.Path.{subst, sym, ap}
use hse_graduate_qualificati.Base.Exec.{Error, Result, ok, raise, after, traverse, Result-cases}
use hse_graduate_qualificati.Cache.Backend.{CacheBackend}
use hse_graduate_qualificati.Cache.Backend.Contract.{Contract, unless_raised}
use hse_graduate_qualificati.Cache.Backend.Ideal.{
  Ideal, Entry, has_rule, has_tag, drop_rule, drop_tag, unless-some,
}
use hse_graduate_qualificati.Cache.Invalidator.{del_rules, del_tags}
use hse_graduate_qualificati.Cache.Tag.{render_template}
use hse_graduate_qualificati.Dsl.Value.{Args}

abbrev pub drop_rules : List String → Ideal → Ideal
drop_rules [] m = m
drop_rules (rule ∷ rules) m = drop_rules rules (drop_rule rule m)

abbrev pub drop_tags : List String → Ideal → Ideal
drop_tags [] m = m
drop_tags (t ∷ tags) m = drop_tags tags (drop_tag t m)

-- What is left after the rules' deletions was there, under none of the rules.
pub drop_rules-some :
    (rules : List String) (m : Ideal) (k : String) (e : Entry)
    → drop_rules rules m k ≡ some e
    → (m k ≡ some e) × ((r : String) → contains r rules ≡ true → has_rule r e ≡ false)
unfolding contains
drop_rules-some [] m k e h = (h, λ r inside. cc inside)
drop_rules-some (rule ∷ rules) m k e h =
    let (before, rest) = drop_rules-some rules (drop_rule rule m) k e h in
    let (was, other) = unless-some (has_rule rule) (m k) e before in
    (
      was,
      λ r inside. elim (text_cases rule r) [
        | inl same ↦ subst (λ q. has_rule q e ≡ false) same other
        | inr differs ↦ rest r (rw differs at inside)
      ],
    )

pub drop_tags-some :
    (tags : List String) (m : Ideal) (k : String) (e : Entry)
    → drop_tags tags m k ≡ some e
    → (m k ≡ some e) × ((t : String) → contains t tags ≡ true → has_tag t e ≡ false)
unfolding contains
drop_tags-some [] m k e h = (h, λ t inside. cc inside)
drop_tags-some (q ∷ tags) m k e h =
    let (before, rest) = drop_tags-some tags (drop_tag q m) k e h in
    let (was, other) = unless-some (has_tag q) (m k) e before in
    (
      was,
      λ t inside. elim (text_cases q t) [
        | inl same ↦ subst (λ x. has_tag x e ≡ false) same other
        | inr differs ↦ rest t (rw differs at inside)
      ],
    )

after-ok_inv {ℓ} :
    {S A C : Type ℓ} (r : Result A × S) (f : A → S → Result C × S) (c : C)
    → (after r f).0 ≡ ok c
    → (a : A) × (r.0 ≡ ok a) × (after r f ≡ f a r.1)
after-ok_inv (ok a, s) f c h = (a, refl, refl)
after-ok_inv (raise e, s) f c h = cc

module _ {S : Type 0} (B : CacheBackend S) (C : Contract B) where
  pub del_rules-Models :
      (now : ℕ) (rules : List String) (s : S) (m : Ideal)
      → C.Models s m
      → (del_rules B now rules s).0 ≡ ok tt
      → C.Models (del_rules B now rules s).1 (drop_rules rules m)
  unfolding del_rules
  del_rules-Models now [] s m h fine = h
  del_rules-Models now (rule ∷ rules) s m h fine =
      let (u, first, e) =
        after-ok_inv (B.del_by_rule now rule s) (λ _. del_rules B now rules) tt fine in
      let s' = (B.del_by_rule now rule s).1 in
      let h' : C.Models s' (drop_rule rule m) =
        subst (λ r. C.Models s' (unless_raised r (drop_rule rule m) m)) first
          (C.del_by_rule-Models s m now rule h) in
      rw e (
        del_rules-Models now rules s' (drop_rule rule m) h'
          (subst (λ (r : Result (Unit {0}) × S). r.0 ≡ ok tt) e fine))

  del_tags-cons :
      (now : ℕ) (tpl : String) (templates : List String) (args : Args) (s : S) (t : String)
      → render_template tpl args ≡ ok t
      → del_tags B now (tpl ∷ templates) args s
        ≡ after (B.del_by_tag now t s) (λ _. del_tags B now templates args)
  unfolding del_tags
  del_tags-cons now tpl templates args s t rendered = rw (rendered, del_tags)

  del_tags_failed :
      (now : ℕ) (tpl : String) (templates : List String) (args : Args) (s : S) (e : Error)
      → render_template tpl args ≡ raise e
      → del_tags B now (tpl ∷ templates) args s ≡ (raise e, s)
  unfolding del_tags
  del_tags_failed now tpl templates args s e failed = rw (failed, del_tags)

  -- The tags that were deleted are the rendered templates.
  pub del_tags-Models :
      (now : ℕ) (templates : List String) (args : Args) (s : S) (m : Ideal)
      → C.Models s m
      → (del_tags B now templates args s).0 ≡ ok tt
      → (tags : List String) × (traverse (λ tpl. render_template tpl args) templates ≡ ok tags)
        × C.Models (del_tags B now templates args s).1 (drop_tags tags m)
  unfolding del_tags traverse
  del_tags-Models now [] args s m h fine = ([], refl, h)
  del_tags-Models now (tpl ∷ templates) args s m h fine =
      elim (Result-cases (render_template tpl args)) [
        | inr (e, failed) ↦ cc (
          fine,
          ap (λ (r : Result (Unit {0}) × S). r.0)
              (del_tags_failed now tpl templates args s e failed),
        )
        | inl (t, rendered) ↦
            let step = del_tags-cons now tpl templates args s t rendered in
            let fine' = subst (λ (r : Result (Unit {0}) × S). r.0 ≡ ok tt) step fine in
            let (u, first, e) =
              after-ok_inv (B.del_by_tag now t s) (λ _. del_tags B now templates args) tt fine' in
            let s' = (B.del_by_tag now t s).1 in
            let h' : C.Models s' (drop_tag t m) =
              subst (λ r. C.Models s' (unless_raised r (drop_tag t m) m)) first
                (C.del_by_tag-Models s m now t h) in
            let (tags, all, models) =
              del_tags-Models now templates args s' (drop_tag t m) h'
                (subst (λ (r : Result (Unit {0}) × S). r.0 ≡ ok tt) e fine') in
            (
              t ∷ tags,
              rw (rendered, all),
              subst (λ (r : Result (Unit {0}) × S). C.Models r.1 (drop_tags tags (drop_tag t m)))
                  (sym (step ∙ e)) models,
            )
      ]
