-- ===== src/Sql/Builder/Total.antt =====
-- framework/sql/builder.py returns on the arguments that an operation names.

use Prim.Native.String.{◌++◌, count}
use hse_graduate_qualificati.Base.{
  ℕ, suc, ◌+◌, String, ◌≡◌, refl, ap, ◌∙◌, true, Option, none, some, List, [], ◌∷◌, All, nat_eq,
  length, Bool-cases, Option-cases, inl, inr,
}
use hse_graduate_qualificati.Base.Dict.{Dict, has_key}
use hse_graduate_qualificati.Base.Exec.{ok, >>=-total}
use hse_graduate_qualificati.Base.Items.{
  get_item, get_item-ok, get_items, get_items-nil, get_items-cons,
}
use hse_graduate_qualificati.Dsl.Loader.Where.{arg_name}
use hse_graduate_qualificati.Dsl.Placeholder.{match_arg}
use hse_graduate_qualificati.Dsl.Placeholder.Split.{split, placeholders}
use hse_graduate_qualificati.Dsl.Registry.{ResolvedQuery, ResolvedMutation}
use hse_graduate_qualificati.Dsl.Schema.{MutationKind, update, delete}
use hse_graduate_qualificati.Dsl.Value.{Args, Value}
use hse_graduate_qualificati.Sql.Builder.{
  Statement, SetItem, MutationSql, set_items, extract_arg_name, renumber_where, with_where,
  build_select, build_insert, insert_statement, update_where, update_statement, build_update,
  build_delete, build_post_update_select, build_by_kind, build_mutation,
}
use hse_graduate_qualificati.Sql.Builder.Texts.{renumber_where_ok}

-- The arguments have values for all these names.
abbrev pub AreGiven : Args → List String → Type 0
AreGiven args names = All (λ name. has_key name args ≡ true) names

get_items-ok :
    (names : List String) (args : Args)
    → AreGiven args names
    → (vs : List Value) × (get_items names args ≡ ok vs)
get_items-ok [] args given = ([], get_items-nil args)
get_items-ok (name ∷ names) args (here, given) =
    let (v, first, _) = get_item-ok name args here in
    let (vs, rest) = get_items-ok names args given in
    (v ∷ vs, get_items-cons name names args ∙ rw (first, rest))

-- The placeholders of a where text, if there is one, are the names that stand beside it.
pub data Agree : Option String → List String → Type 0 where
  without : Agree none []
  within :
      {sql : String} {names : List String}
      → placeholders (split sql) ≡ names
      → Agree (some sql) names

renumber_where-total :
    (sql : String) (names : List String) (args : Args) (i : ℕ)
    → placeholders (split sql) ≡ names
    → AreGiven args names
    → (s : Statement) × (renumber_where sql names args i ≡ ok s)
renumber_where-total sql names args i same given =
    let (vs, found) = get_items-ok names args given in
    (_, renumber_where_ok sql names args i vs (rw same found) (ap length same))

with_where-total :
    (text : String) (o : Option String) (names : List String) (args : Args)
    → Agree o names
    → AreGiven args names
    → (s : Statement) × (with_where text o names args ≡ ok s)
unfolding with_where
with_where-total text none names args agree given = (_, refl)
with_where-total text (some sql) names args (within same) given =
    let (s, made) = renumber_where-total sql names args 1 same given in
    >>=-total (renumber_where sql names args 1) _ s made (_, refl)

pub build_select-total :
    (q : ResolvedQuery) (args : Args)
    → Agree q.where_sql q.where_args
    → AreGiven args q.where_args
    → (s : Statement) × (build_select q args ≡ ok s)
unfolding build_select
build_select-total q args agree given = with_where-total _ q.where_sql q.where_args args agree given

-- The template is one placeholder, of an argument that has a value.
pub record IsGiven (args : Args) (template : String) : Type 0 where
  pub name : String
  pub whole : arg_name template ≡ some name
  pub given : has_key name args ≡ true

abbrev pub AllGiven : Args → Dict String → Type 0
AllGiven args columns = All (λ (item : String × String). IsGiven args item.1) columns

extract_arg_name-given :
    (template context name : String)
    → arg_name template ≡ some name
    → extract_arg_name template context ≡ ok name
unfolding arg_name extract_arg_name
extract_arg_name-given template context name h = elim (Option-cases (match_arg template)) [
  | inl other ↦ cc (rw (other, arg_name) at h)
  | inr ((found, n), matched) ↦ elim (Bool-cases (nat_eq n (count template))) [
    | inr shorter ↦ cc (rw (matched, shorter, arg_name) at h)
    | inl whole ↦
        let same : some found ≡ some name = rw (matched, whole, arg_name) at h in
        rw (matched, whole, extract_arg_name) (ap ok (cc same))
  ]
]

set_items-total :
    (name : String) (args : Args) (i : ℕ) (columns : Dict String)
    → AllGiven args columns
    → (items : List SetItem) × (set_items name args i columns ≡ ok items)
unfolding set_items
set_items-total name args i [] all = ([], refl)
set_items-total name args i ((column, template) ∷ columns) (here, all) =
    let (v, found, _) = get_item-ok here.name args here.given in
    let (items, rest) = set_items-total name args (suc i) columns all in
    let context = "mutations." ++ (name ++ (".set." ++ column)) in
    let named = extract_arg_name-given template context here.name here.whole in
    >>=-total (extract_arg_name template context) _ here.name named (
      >>=-total (get_item here.name args) _ v found
        (>>=-total (set_items name args (suc i) columns) _ items rest (_, refl)))

update_where-total :
    (o : Option String) (names : List String) (args : Args) (s : Statement)
    → Agree o names
    → AreGiven args names
    → (t : Statement) × (update_where o names args s ≡ ok t)
unfolding update_where
update_where-total none names args s agree given = (s, refl)
update_where-total (some sql) names args s (within same) given =
    let (clause, made) = renumber_where-total sql names args (length s.params + 1) same given in
    >>=-total (renumber_where sql names args (length s.params + 1)) _ clause made (_, refl)

-- A mutation that sets columns has them, each set to an argument that is given; a delete needs none.
abbrev pub HasColumns : MutationKind → Args → Option (Dict String) → Type 0
HasColumns delete args o = Unit
HasColumns update args o = (columns : Dict String) × (o ≡ some columns) × AllGiven args columns
HasColumns MutationKind.insert args o =
    (columns : Dict String) × (o ≡ some columns) × AllGiven args columns

build_update-total :
    (mut : ResolvedMutation) (args : Args)
    → Agree mut.where_sql mut.where_args
    → AreGiven args mut.where_args
    → (columns : Dict String) → mut.set_columns ≡ some columns
    → AllGiven args columns
    → (s : Statement) × (build_update mut args ≡ ok s)
unfolding build_update
build_update-total mut args agree given columns there all =
    let (items, made) = set_items-total mut.name args 1 columns all in
    let (s, done) =
      update_where-total mut.where_sql mut.where_args args (update_statement mut.table items) agree
        given in
    (s, rw (there, build_update) (rw made done))

build_post_update_select-total :
    (mut : ResolvedMutation) (args : Args)
    → Agree mut.where_sql mut.where_args
    → AreGiven args mut.where_args
    → (s : Statement) × (build_post_update_select mut args ≡ ok s)
unfolding build_post_update_select
build_post_update_select-total mut args agree given =
    with_where-total _ mut.where_sql mut.where_args args agree given

build_insert-total :
    (mut : ResolvedMutation) (args : Args) (columns : Dict String)
    → mut.set_columns ≡ some columns
    → AllGiven args columns
    → (s : Statement) × (build_insert mut args ≡ ok s)
unfolding build_insert
build_insert-total mut args columns there all =
    let (items, made) = set_items-total mut.name args 1 columns all in
    let (s, done) =
      >>=-total (set_items mut.name args 1 columns) (λ items. ok (insert_statement mut.table items))
        items made (_, refl) in
    (s, rw (there, build_insert) done)

build_by_kind-total :
    (k : MutationKind) (mut : ResolvedMutation) (args : Args)
    → Agree mut.where_sql mut.where_args
    → AreGiven args mut.where_args
    → HasColumns k args mut.set_columns
    → (r : MutationSql) × (build_by_kind k mut args ≡ ok r)
unfolding build_by_kind build_delete build_insert build_post_update_select
build_by_kind-total MutationKind.insert mut args agree given (columns, there, all) =
    let (s, made) = build_insert-total mut args columns there all in
    >>=-total (build_insert mut args) _ s made (_, refl)
build_by_kind-total delete mut args agree given has =
    let (s, made) =
      with_where-total ("DELETE FROM " ++ mut.table) mut.where_sql mut.where_args args agree
        given in
    >>=-total (build_delete mut args) _ s made (_, refl)
build_by_kind-total update mut args agree given (columns, there, all) =
    let (write, written) = build_update-total mut args agree given columns there all in
    let (read, made) = build_post_update_select-total mut args agree given in
    >>=-total (build_update mut args) _ write written
      (>>=-total (build_post_update_select mut args) _ read made (_, refl))

pub build_mutation-total :
    (mut : ResolvedMutation) (args : Args)
    → Agree mut.where_sql mut.where_args
    → AreGiven args mut.where_args
    → HasColumns mut.kind args mut.set_columns
    → (r : MutationSql) × (build_mutation mut args ≡ ok r)
unfolding build_mutation
build_mutation-total mut args agree given has =
    build_by_kind-total mut.kind mut args agree given has
