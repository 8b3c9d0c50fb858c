-- ===== src/Graphql/Server/Resolvers/Answers.antt =====
-- framework/graphql/server.py: what the query resolver answers with.
use hse_graduate_qualificati.Base.{
  String, ◌≡◌, refl, sym, ◌∙◌, ap, Option-cases, some, List, [], ◌∷◌, inl, inr,
}
use hse_graduate_qualificati.Base.Dict.{Dict, lookup}
use hse_graduate_qualificati.Base.Exec.{
  Result, ok, raise, Exec, after, ◌>>=◌, ok_inj, >>=-eq-ok, traverse, Result-cases,
}
use hse_graduate_qualificati.Base.Items.{get_item}
use hse_graduate_qualificati.Base.Unicode.{Unicode}
use hse_graduate_qualificati.Dsl.Registry.{ResolvedQuery}
use hse_graduate_qualificati.Dsl.Schema.{Multiplicity, one, many}
use hse_graduate_qualificati.Dsl.Value.{Args}
use hse_graduate_qualificati.Graphql.Server.{
  Row, Answer, null_row, one_row, row_list, row_to_dict, answer_rows,
}
use hse_graduate_qualificati.Graphql.Server.Resolvers.{
  Database, coerce_args, with_connection, query_resolver,
}
use hse_graduate_qualificati.Sql.Builder.{Statement, build_select}

-- The fields are those of the columns, in order, each with the row's value of its column.
abbrev pub Reads : Row → Dict String → Row → Type 0
Reads row [] [] = Unit
Reads row ((gql_field, pg_col) ∷ columns) ((k, v) ∷ fields) =
    (k ≡ gql_field) × (lookup pg_col row ≡ some v) × Reads row columns fields
Reads row [] (field ∷ fields) = ⊥
Reads row (column ∷ columns) [] = ⊥

abbrev pub ReadsAll : Dict String → List Row → List Row → Type 0
ReadsAll columns [] [] = Unit
ReadsAll columns (row ∷ rows) (fields ∷ dicts) =
    Reads row columns fields × ReadsAll columns rows dicts
ReadsAll columns [] (fields ∷ dicts) = ⊥
ReadsAll columns (row ∷ rows) [] = ⊥

-- The answer to a query of that multiplicity: of one, null for no row and the object of the only row;
-- of many, the list of the objects of all rows.
abbrev pub AnswersWith : Multiplicity → Dict String → List Row → Answer → Type 0
AnswersWith one columns [] answer = answer ≡ null_row
AnswersWith one columns (row ∷ []) answer =
    (fields : Row) × (answer ≡ one_row fields) × Reads row columns fields
AnswersWith one columns (row ∷ next ∷ rows) answer = ⊥
AnswersWith many columns rows answer =
    (dicts : List Row) × (answer ≡ row_list dicts) × ReadsAll columns rows dicts

get_item_lem :
    {V : Type 0} (k : String) (d : Dict V) (v : V) → get_item k d ≡ ok v → lookup k d ≡ some v
unfolding get_item
get_item_lem k d v h = elim (Option-cases (lookup k d)) [
  | inl absent ↦ cc (rw (absent, get_item) at h)
  | inr (w, found) ↦ let e : w ≡ v = ok_inj w v (rw (found, get_item) at h) in rw (found, e) refl
]

row_to_dict-Reads :
    (row : Row) (columns : Dict String) (fields : Row)
    → row_to_dict row columns ≡ ok fields
    → Reads row columns fields
unfolding row_to_dict
row_to_dict-Reads row [] fields h = let e = ok_inj [] fields h in rw (← e) tt
row_to_dict-Reads row ((gql_field, pg_col) ∷ columns) fields h =
    let (v, found, h1) = >>=-eq-ok (get_item pg_col row) _ h in
    let (rest, others, end) = >>=-eq-ok (row_to_dict row columns) _ h1 in
    let e = ok_inj _ fields end in
    rw (← e) (refl, get_item_lem pg_col row v found, row_to_dict-Reads row columns rest others)

traverse-ReadsAll :
    (columns : Dict String) (rows dicts : List Row)
    → traverse (λ row. row_to_dict row columns) rows ≡ ok dicts
    → ReadsAll columns rows dicts
unfolding traverse
traverse-ReadsAll columns [] dicts h = let e = ok_inj [] dicts h in rw (← e) tt
traverse-ReadsAll columns (row ∷ rows) dicts h =
    let (fields, first, h1) = >>=-eq-ok (row_to_dict row columns) _ h in
    let (rest, others, end) = >>=-eq-ok (traverse (λ r. row_to_dict r columns) rows) _ h1 in
    let e = ok_inj _ dicts end in
    rw (← e)
      (row_to_dict-Reads row columns fields first, traverse-ReadsAll columns rows rest others)

answer_rows-AnswersWith :
    (name : String) (multiplicity : Multiplicity) (columns : Dict String) (rows : List Row)
    (answer : Answer)
    → answer_rows name multiplicity columns rows ≡ ok answer
    → AnswersWith multiplicity columns rows answer
unfolding answer_rows
answer_rows-AnswersWith name one columns [] answer h =
    let e : null_row ≡ answer = ok_inj null_row answer h in rw (← e) refl
answer_rows-AnswersWith name one columns (row ∷ []) answer h =
    let (fields, made, end) = >>=-eq-ok (row_to_dict row columns) _ h in
    let e : one_row fields ≡ answer = ok_inj _ answer end in
    (fields, rw (← e) refl, row_to_dict-Reads row columns fields made)
answer_rows-AnswersWith name one columns (row ∷ next ∷ rows) answer h = cc h
answer_rows-AnswersWith name many columns rows answer h =
    let (dicts, made, end) = >>=-eq-ok (traverse (λ row. row_to_dict row columns) rows) _ h in
    let e : row_list dicts ≡ answer = ok_inj _ answer end in
    (dicts, rw (← e) refl, traverse-ReadsAll columns rows dicts made)

after-eq-ok :
    {S A B : Type 0} (x : Result A × S) (f : A → Exec S B) (b : B) (s : S)
    → after x f ≡ (ok b, s)
    → (a : A) × (x ≡ (ok a, x.1)) × (f a x.1 ≡ (ok b, s))
after-eq-ok (ok a, s') f b s h = (a, refl, h)
after-eq-ok (raise e, s') f b s h = cc (ap (λ (p : _ × _). p.0) h)

module _ {D : Type 0} (db : Database D) where
  with_connection_ok :
      {A : Type 0} (body : Exec D A) (d : D) (a : A) (d' : D)
      → with_connection db body d ≡ (ok a, d')
      → (body (db.acquire d).1 ≡ (ok a, (body (db.acquire d).1).1))
        × (d' ≡ (db.release (body (db.acquire d).1).1).1)
  unfolding with_connection
  with_connection_ok {A} body d a d' h =
      let d1 = (db.acquire d).1 in
      let (_, _, h1) = after-eq-ok (db.acquire d) _ a d' h in
      let (_, _, h2) = after-eq-ok (db.release (body d1).1) _ a d' h1 in
      (ap (λ (p : Result A × D). (p.0, (body d1).1)) h2, sym (ap (λ (p : Result A × D). p.1) h2))

  -- When a query's resolver returns, one connection was acquired, the statement that `build_select`
  -- built of the coerced arguments was fetched on it once, and it was released; and the answer is that
  -- of the fetched rows: for the multiplicity one, null if there was none, and the object of the only
  -- row, never of several; for many, the list of the objects of all rows, in order. An object has the
  -- query's fields, each with the row's value of the field's column.
  pub query_resolver-AnswersWith :
      (u : Unicode) (q : ResolvedQuery) (args : Args) (d d' : D) (answer : Answer)
      → query_resolver db u q args d ≡ (ok answer, d')
      → (s : Statement) × (rows : List Row) × ((coerce_args u args >>= build_select q) ≡ ok s)
        × (db.fetch s (db.acquire d).1 ≡ (ok rows, (db.fetch s (db.acquire d).1).1))
        × (d' ≡ (db.release (db.fetch s (db.acquire d).1).1).1)
        × AnswersWith q.multiplicity q.columns rows answer
  unfolding query_resolver with_connection
  query_resolver-AnswersWith u q args d d' answer h =
      elim (Result-cases (coerce_args u args >>= build_select q)) [
        | inr (e, bad) ↦ cc (ap (λ (p : Result Answer × D). p.0) (rw bad at h))
        | inl (s, made) ↦
            let (rows, came, h1) =
              after-eq-ok (with_connection db (db.fetch s) d) _ answer d' (rw made at h) in
            let (fetched, released) =
              with_connection_ok (db.fetch s) d rows (with_connection db (db.fetch s) d).1 came in
            (
              s,
              rows,
              made,
              fetched,
              sym (ap (λ (p : Result Answer × D). p.1) h1) ∙ released,
              answer_rows-AnswersWith q.name q.multiplicity q.columns rows answer
                  (ap (λ (p : Result Answer × D). p.0) h1),
            )
      ]
