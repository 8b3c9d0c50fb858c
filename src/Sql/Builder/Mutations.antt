-- ===== src/Sql/Builder/Mutations.antt =====
-- `build_mutation` and `build_select` of framework/sql/builder.py, whole.
use Prim.Native.String.{◌++◌}
use hse_graduate_qualificati.Base
use hse_graduate_qualificati.Base.{
  ℕ, String, ◌≡◌, refl, sym, ap, ◌∙◌, Option, none, some, List, inl, inr,
}
use hse_graduate_qualificati.Base.Dict.{Dict, mapped}
use hse_graduate_qualificati.Base.Exec.{ok, ok_inj, >>=-eq-ok}
use hse_graduate_qualificati.Dsl.Registry.{ResolvedQuery, ResolvedMutation}
use hse_graduate_qualificati.Dsl.Schema.{MutationKind, update, delete}
use hse_graduate_qualificati.Dsl.Value.{Args}
use hse_graduate_qualificati.Sql.Builder.{
  Statement, MutationSql, build_select, build_insert, build_update, build_delete,
  build_post_update_select, build_by_kind, build_mutation,
}
use hse_graduate_qualificati.Sql.Builder.Sets.{template_names}
use hse_graduate_qualificati.Sql.Builder.Statements.{
  Says, where_text, where_names, select_text, insert_text, update_text, with_where-Says,
  build_select-Says, build_insert-Says, build_update-Says,
}

-- What the statements of a mutation say and bind, kind by kind.
abbrev pub MutationSays : MutationKind → ResolvedMutation → Args → MutationSql → Type 0
MutationSays MutationKind.insert mut args r =
    (columns : Dict String) × (mut.set_columns ≡ some columns)
    × Says (insert_text mut.table columns) (template_names columns) args r.write
    × (r.read ≡ none)
MutationSays delete mut args r =
    Says (("DELETE FROM " ++ mut.table) ++ where_text 1 mut.where_sql) (where_names mut.where_sql)
      args r.write
    × (r.read ≡ none)
MutationSays update mut args r =
    (columns : Dict String) × (read : Statement) × (mut.set_columns ≡ some columns)
    × Says (update_text mut.table columns mut.where_sql)
        (Base.◌++◌ (template_names columns) (where_names mut.where_sql)) args r.write
    × (r.read ≡ some read)
    × Says (select_text mut.columns mut.table mut.where_sql) (where_names mut.where_sql) args read

build_by_kind-Says :
    (k : MutationKind) (mut : ResolvedMutation) (args : Args) (r : MutationSql)
    → build_by_kind k mut args ≡ ok r
    → MutationSays k mut args r
unfolding build_by_kind build_delete build_post_update_select select_text
build_by_kind-Says MutationKind.insert mut args r h =
    let (write, made, done) = >>=-eq-ok (build_insert mut args) _ h in
    let e = ok_inj _ r done in
    let (columns, given, says) = build_insert-Says mut args write made in
    rw (← e) (columns, given, says, refl)
build_by_kind-Says delete mut args r h =
    let (write, made, done) = >>=-eq-ok (build_delete mut args) _ h in
    let e = ok_inj _ r done in
    rw (← e) (
      with_where-Says ("DELETE FROM " ++ mut.table) mut.where_sql mut.where_args args write made,
      refl,
    )
build_by_kind-Says update mut args r h =
    let (write, made, h') = >>=-eq-ok (build_update mut args) _ h in
    let (read, made', done) = >>=-eq-ok (build_post_update_select mut args) _ h' in
    let e = ok_inj _ r done in
    let (columns, given, says) = build_update-Says mut args write made in
    let reads = with_where-Says _ mut.where_sql mut.where_args args read made' in
    rw (← e) (columns, read, given, says, refl, reads)

-- When `build_mutation` returns: an insert sets the columns to `$1`, `$2`, … and binds the arguments
-- that the templates name, in that order; a delete has the where text numbered from 1 and binds the
-- arguments that it names; an update does the first with `SET` and goes on with the where text behind
-- its numbers, and alone has a second statement, the select with the where text numbered from 1.
pub build_mutation-Says :
    (mut : ResolvedMutation) (args : Args) (r : MutationSql)
    → build_mutation mut args ≡ ok r
    → MutationSays mut.kind mut args r
unfolding build_mutation
build_mutation-Says mut args r h = build_by_kind-Says mut.kind mut args r h

some_same {ℓ} : {A : Type ℓ} (o : Option A) (a b : A) → o ≡ some a → o ≡ some b → a ≡ b
some_same o a b h h' = let e : some a ≡ some b = sym h ∙ h' in cc e

same_texts :
    (k : MutationKind) (mut : ResolvedMutation) (args args' : Args) (r r' : MutationSql)
    → MutationSays k mut args r
    → MutationSays k mut args' r'
    → (r.write.sql ≡ r'.write.sql) × (mapped Statement.sql r.read ≡ mapped Statement.sql r'.read)
same_texts MutationKind.insert mut args args' r r' (columns, given, says, none_read)
      (columns', given', says', none_read') =
    let same = some_same mut.set_columns columns columns' given given' in
    (
      says.text ∙ ap (insert_text mut.table) same ∙ sym says'.text,
      ap (mapped Statement.sql) (none_read ∙ sym none_read'),
    )
same_texts delete mut args args' r r' (says, none_read) (says', none_read') =
    (says.text ∙ sym says'.text, ap (mapped Statement.sql) (none_read ∙ sym none_read'))
same_texts update mut args args' r r' (columns, read, given, says, is_read, reads)
      (columns', read', given', says', is_read', reads') =
    let same = some_same mut.set_columns columns columns' given given' in
    (
      says.text
          ∙ ap (λ (c : Dict String). update_text mut.table c mut.where_sql) same
          ∙ sym says'.text,
      ap (mapped Statement.sql) is_read
          ∙ ap some (reads.text ∙ sym reads'.text)
          ∙ sym (ap (mapped Statement.sql) is_read'),
    )

-- The values of the arguments never enter a text: two calls of `build_mutation` that return, with
-- any arguments, return the same texts.
pub build_mutation-sql :
    (mut : ResolvedMutation) (args args' : Args) (r r' : MutationSql)
    → build_mutation mut args ≡ ok r
    → build_mutation mut args' ≡ ok r'
    → (r.write.sql ≡ r'.write.sql) × (mapped Statement.sql r.read ≡ mapped Statement.sql r'.read)
build_mutation-sql mut args args' r r' h h' =
    same_texts mut.kind mut args args' r r' (build_mutation-Says mut args r h)
      (build_mutation-Says mut args' r' h')

-- So it is with `build_select`.
pub build_select-sql :
    (q : ResolvedQuery) (args args' : Args) (s s' : Statement)
    → build_select q args ≡ ok s
    → build_select q args' ≡ ok s'
    → s.sql ≡ s'.sql
build_select-sql q args args' s s' h h' =
    (build_select-Says q args s h).text ∙ sym (build_select-Says q args' s' h').text
