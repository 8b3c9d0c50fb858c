-- ===== src/Sql/Builder/Statements.antt =====
-- The statements of framework/sql/builder.py: each text is a function of the resolved operation, and
-- each list of parameters of the arguments that the operation names.
use Prim.Native.String.{◌++◌}
use text.Mathlib.TextLemmas.{append_assoc, append-nil}
use mathlib.Core.Path.{subst}
use hse_graduate_qualificati.Base
use hse_graduate_qualificati.Base.{
  ℕ, suc, ◌+◌, String, ◌≡◌, refl, sym, ap, ◌∙◌, Option, none, some, List, [], ◌∷◌, length, arith,
  Option-cases, inl, inr,
}
use hse_graduate_qualificati.Base.Dict.{Dict}
use hse_graduate_qualificati.Base.Exec.{ok, ok_inj, >>=-eq-ok}
use hse_graduate_qualificati.Base.Texts.{join}
use hse_graduate_qualificati.Base.Items.{
  get_items, get_items-nil, get_items-append, get_items-length,
}
use hse_graduate_qualificati.Dsl.Placeholder.Split.{split, placeholders}
use hse_graduate_qualificati.Dsl.Registry.{ResolvedQuery, ResolvedMutation}
use hse_graduate_qualificati.Dsl.Value.{Args}
use hse_graduate_qualificati.Sql.Builder.{
  Statement, SetItem, dollar, projection, set_items, renumber_where, with_where, build_select,
  insert_statement, build_insert, update_statement, update_where, build_update,
}
use hse_graduate_qualificati.Sql.Builder.Sets.{template_names, indexed, place, set_items_lem}
use hse_graduate_qualificati.Sql.Builder.Texts.{number, renumber_where_inv}

-- A WHERE clause whose parameters are numbered from `i`, and the arguments that it names.
unfoldable pub where_text : ℕ → Option String → String
where_text i none = ""
where_text i (some where_sql) = " WHERE " ++ number i (split where_sql)

unfoldable pub where_names : Option String → List String
where_names none = []
where_names (some where_sql) = placeholders (split where_sql)

-- A statement with this text, and with the values of these arguments as parameters.
pub record Says (sql : String) (names : List String) (args : Args) (s : Statement) : Type 0 where
  pub text : s.sql ≡ sql
  pub bound : get_items names args ≡ ok s.params

pub with_where-Says :
    (sql : String) (o : Option String) (where_args : List String) (args : Args) (s : Statement)
    → with_where sql o where_args args ≡ ok s
    → Says (sql ++ where_text 1 o) (where_names o) args s
unfolding with_where where_text where_names
with_where-Says sql none where_args args s h =
    let e = ok_inj _ s h in
    rw (← e) (record { text = sym (append-nil sql); bound = get_items-nil args })
with_where-Says sql (some where_sql) where_args args s h =
    let (clause, made, done) = >>=-eq-ok (renumber_where where_sql where_args args 1) _ h in
    let (text, bound, size) = renumber_where_inv where_sql where_args args 1 clause made in
    let e = ok_inj _ s done in
    record {
      text =
          sym (ap Statement.sql e)
          ∙ rw text (append_assoc sql " WHERE " (number 1 (split where_sql)));
      bound = bound ∙ ap (λ (x : Statement). ok x.params) e;
    }

unfoldable pub select_text : Dict String → String → Option String → String
unfolding where_text projection
select_text columns table where_sql =
    ("SELECT " ++ (projection columns ++ (" FROM " ++ table))) ++ where_text 1 where_sql

unfoldable pub insert_text : String → Dict String → String
unfolding join dollar indexed
insert_text table columns =
    "INSERT INTO "
    ++ (table
        ++ (" ("
            ++ (join ", " (Base.map (λ (p : String × ℕ). p.0) (indexed 1 columns))
                ++ (") VALUES ("
                    ++ (join ", " (Base.map (λ (p : String × ℕ). dollar p.1) (indexed 1 columns))
                        ++ ")")))))

-- The SET items are numbered from 1, and the where text goes on behind them.
unfoldable pub set_text : String → Dict String → String
unfolding join dollar indexed
set_text table columns =
    "UPDATE "
    ++ (table
        ++ (" SET "
            ++ join ", "
                (Base.map (λ (p : String × ℕ). p.0 ++ (" = " ++ dollar p.1)) (indexed 1 columns))))

unfoldable pub update_text : String → Dict String → Option String → String
unfolding set_text where_text template_names
update_text table columns where_sql =
    set_text table columns ++ where_text (length (template_names columns) + 1) where_sql

-- What `build_select` returns reads the projected columns, alphabetical by field, with the where text
-- numbered from 1, and binds the arguments that the where text names, in its order.
pub build_select-Says :
    (q : ResolvedQuery) (args : Args) (s : Statement)
    → build_select q args ≡ ok s
    → Says (select_text q.columns q.table q.where_sql) (where_names q.where_sql) args s
unfolding build_select select_text
build_select-Says q args s h = with_where-Says _ q.where_sql q.where_args args s h

map-map {ℓ} :
    {A B C : Type ℓ} (f : B → C) (g : A → B) (l : List A)
    → Base.map f (Base.map g l) ≡ Base.map (λ x. f (g x)) l
map-map f g [] = refl
map-map f g (x ∷ l) = rw (map-map f g l)

insert_statement-Says :
    (name table : String) (args : Args) (columns : Dict String) (items : List SetItem)
    → set_items name args 1 columns ≡ ok items
    → Says (insert_text table columns) (template_names columns) args (insert_statement table items)
unfolding insert_statement insert_text
insert_statement-Says name table args columns items h =
    let (places, values) = set_items_lem name args 1 columns items h in
    record {
      text = rw (
        ← places,
        map-map (λ (p : String × ℕ). p.0) place items,
        map-map (λ (p : String × ℕ). dollar p.1) place items,
      );
      bound = values;
    }

update_statement-Says :
    (name table : String) (args : Args) (columns : Dict String) (items : List SetItem)
    → set_items name args 1 columns ≡ ok items
    → Says (set_text table columns) (template_names columns) args (update_statement table items)
unfolding update_statement set_text
update_statement-Says name table args columns items h =
    let (places, values) = set_items_lem name args 1 columns items h in
    record {
      text = rw (← places, map-map (λ (p : String × ℕ). p.0 ++ (" = " ++ dollar p.1)) place items);
      bound = values;
    }

update_where-Says :
    (sql : String) (names : List String) (o : Option String) (where_args : List String)
    (args : Args)
    → (s t : Statement) → Says sql names args s
    → update_where o where_args args s ≡ ok t
    → Says (sql ++ where_text (length names + 1) o) (Base.◌++◌ names (where_names o)) args t
unfolding update_where where_text where_names
update_where-Says sql names none where_args args s t h done =
    let e : s ≡ t = ok_inj s t done in rw (← e, append-nil sql, Base.append-nil names) h
update_where-Says sql names (some where_sql) where_args args s t h done =
    let (clause, made, done') =
      >>=-eq-ok (renumber_where where_sql where_args args (length s.params + 1)) _ done in
    let (text, bound, size) =
      renumber_where_inv where_sql where_args args (length s.params + 1) clause made in
    let e = ok_inj _ t done' in
    let same : length s.params ≡ length names = get_items-length names args s.params h.bound in
    record {
      text = sym (ap Statement.sql e) ∙ rw (text, h.text, same);
      bound =
          get_items-append names (placeholders (split where_sql)) args s.params clause.params
            h.bound bound
          ∙ ap (λ (x : Statement). ok x.params) e;
    }

pub build_insert-Says :
    (mut : ResolvedMutation) (args : Args) (s : Statement)
    → build_insert mut args ≡ ok s
    → (columns : Dict String) × (mut.set_columns ≡ some columns)
      × Says (insert_text mut.table columns) (template_names columns) args s
unfolding build_insert
build_insert-Says mut args s h = elim (Option-cases mut.set_columns) [
  | inl absent ↦ cc (rw (absent, build_insert) at h)
  | inr (columns, given) ↦
      let (items, made, done) =
        >>=-eq-ok (set_items mut.name args 1 columns)
          (λ items. ok (insert_statement mut.table items)) (rw (given, build_insert) at h) in
      let e : insert_statement mut.table items ≡ s =
        ok_inj (insert_statement mut.table items) s done in
      (
        columns,
        given,
        subst (Says (insert_text mut.table columns) (template_names columns) args) e
            (insert_statement-Says mut.name mut.table args columns items made),
      )
]

pub build_update-Says :
    (mut : ResolvedMutation) (args : Args) (s : Statement)
    → build_update mut args ≡ ok s
    → (columns : Dict String) × (mut.set_columns ≡ some columns)
      × Says
          (update_text mut.table columns mut.where_sql)
          (Base.◌++◌ (template_names columns) (where_names mut.where_sql))
          args
          s
unfolding build_update update_text
build_update-Says mut args s h = elim (Option-cases mut.set_columns) [
  | inl absent ↦ cc (rw (absent, build_update) at h)
  | inr (columns, given) ↦
      let (items, made, done) =
        >>=-eq-ok (set_items mut.name args 1 columns)
          (λ items.
            update_where mut.where_sql mut.where_args args (update_statement mut.table items))
          (rw (given, build_update) at h) in
      (
        columns,
        given,
        update_where-Says (set_text mut.table columns) (template_names columns) mut.where_sql
            mut.where_args args (update_statement mut.table items) s
            (update_statement-Says mut.name mut.table args columns items made) done,
      )
]
