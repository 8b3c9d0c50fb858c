-- ===== src/Sql/Builder/Sets.antt =====
-- The SET and VALUES parts of framework/sql/builder.py.

use Prim.Native.String.{◌++◌, count}
use text.Mathlib.TextLemmas.{length-cons}
use mathlib.Core.Path.{subst}
use hse_graduate_qualificati.Base
use hse_graduate_qualificati.Base.{
  ℕ, zero, suc, ◌+◌, ◌-◌, String, ◌≡◌, refl, sym, ap, ◌∙◌, Bool, true, false, Option, none, some,
  List, [], ◌∷◌, nat_eq, length, if◌then◌else◌, arith, Bool-cases, Option-cases, inl, inr,
}
use hse_graduate_qualificati.Base.Dict.{Dict}
use hse_graduate_qualificati.Base.Exec.{ok, ok_inj, >>=-eq-ok}
use hse_graduate_qualificati.Base.Items.{get_item, get_items, get_items-nil, get_items-cons}
use hse_graduate_qualificati.Dsl.Placeholder.{match_arg}
use hse_graduate_qualificati.Dsl.Placeholder.Split.{placeholder, split, placeholders}
use hse_graduate_qualificati.Dsl.Placeholder.Split.Steps.{split-match, pieces_all}
use hse_graduate_qualificati.Dsl.Value.{Args}
use hse_graduate_qualificati.Sql.Builder.{SetItem, extract_arg_name, set_items}

-- A template that is accepted is one placeholder and nothing else.
pub extract_arg_name_lem :
    (template context name : String)
    → extract_arg_name template context ≡ ok name
    → split template ≡ placeholder name ∷ []
unfolding extract_arg_name match_arg
extract_arg_name_lem String.[] context name h = cc h
extract_arg_name_lem (String.◌∷◌ c s) context name h =
    let t = String.◌∷◌ c s in
    elim (Option-cases (match_arg t)) [
      | inl other ↦ cc (rw (other, extract_arg_name) at h)
      | inr ((found, n), matched) ↦ elim (Bool-cases (nat_eq n (count t))) [
        | inr part ↦ cc (rw (matched, part, extract_arg_name) at h)
        | inl whole ↦
            let same : found ≡ name =
              ok_inj found name (rw (matched, whole, extract_arg_name) at h) in
            let size : n - 1 ≡ count s = ground (arith, length-cons c s) in
            rw (split-match c s found n matched, size, pieces_all s, same)
      ]
    ]

-- The argument names of the templates, in the order of the columns.
unfoldable pub template_names : Dict String → List String
template_names [] = []
template_names ((pg_col, template) ∷ columns) =
    Base.◌++◌ (placeholders (split template)) (template_names columns)

-- Each column with its index, from `i`.
unfoldable pub indexed : ℕ → Dict String → List (String × ℕ)
indexed i [] = []
indexed i ((pg_col, template) ∷ columns) = (pg_col, i) ∷ indexed (suc i) columns

abbrev pub place : SetItem → String × ℕ
place item = (item.pg_col, item.index)

-- The items are the columns in order, numbered from `i`, with the values of the arguments that the
-- templates name.
pub set_items_lem :
    (name : String) (args : Args) (i : ℕ) (columns : Dict String) (items : List SetItem)
    → set_items name args i columns ≡ ok items
    → (Base.map place items ≡ indexed i columns)
      × (get_items (template_names columns) args ≡ ok (Base.map (λ (t : SetItem). t.value) items))
unfolding set_items indexed template_names placeholders
set_items_lem name args i [] items h =
    let e : [] ≡ items = ok_inj [] items h in rw (← e) (refl, get_items-nil args)
set_items_lem name args i ((pg_col, template) ∷ columns) items h =
    let context = "mutations." ++ (name ++ (".set." ++ pg_col)) in
    let (arg, named, h') = >>=-eq-ok (extract_arg_name template context) _ h in
    let (v, found, h'') = >>=-eq-ok (get_item arg args) _ h' in
    let (rest, later, e) = >>=-eq-ok (set_items name args (suc i) columns) _ h'' in
    let first : SetItem = record { pg_col = pg_col; index = i; value = v } in
    let all : first ∷ rest ≡ items = ok_inj (first ∷ rest) items e in
    let (places, values) = set_items_lem name args (suc i) columns rest later in
    let one = extract_arg_name_lem template context arg named in
    subst
      (λ (l : List SetItem).
        (Base.map place l ≡ indexed i ((pg_col, template) ∷ columns))
        × (get_items (template_names ((pg_col, template) ∷ columns)) args
            ≡ ok (Base.map (λ (t : SetItem). t.value) l)))
      all
      (
        rw places,
        rw (one, placeholders)
            (get_items-cons arg (template_names columns) args ∙ rw (found, values)),
      )
