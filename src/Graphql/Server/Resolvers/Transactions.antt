-- ===== src/Graphql/Server/Resolvers/Transactions.antt =====
-- framework/graphql/server.py: what the mutation resolver leaves in the database.
use hse_graduate_qualificati.Base.{
  Bool, true, false, none, some, ◌≡◌, refl, ap, ◌∙◌, List, Option-cases, inl, inr, ◌⊎◌,
}
use hse_graduate_qualificati.Base.Exec.{Error, Result, ok, raise, Exec, after, ◌>>=◌, Result-cases}
use hse_graduate_qualificati.Base.Unicode.{Unicode}
use hse_graduate_qualificati.Dsl.Registry.{ResolvedMutation}
use hse_graduate_qualificati.Dsl.Value.{Args}
use hse_graduate_qualificati.Graphql.Server.{Row}
use hse_graduate_qualificati.Graphql.Server.Resolvers.{
  coerce_args, Database, with_connection, transaction, first_row, run_statements, mutation_resolver,
}
use hse_graduate_qualificati.Sql.Builder.{Statement, MutationSql, build_mutation}

-- What is relied on of the database: `committed` is what other connections see, `is_open` whether the
-- connection is in a transaction, and `pending` what that has made of the committed. Inside a
-- transaction nothing is committed before its `commit`; outside, where a statement commits itself,
-- nothing is said of `execute` and `fetch`. Whether a commit that raises has taken effect is open.
pub record DatabaseLaws {D V : Type 0} (db : Database D) (committed pending : D → V)
    (is_open : D → Bool) (run : Statement → V → V) : Type 0 where
  pub acquire : (d : D) → committed (db.acquire d).1 ≡ committed d
  pub acquired : (d d' : D) → db.acquire d ≡ (ok tt, d') → is_open d' ≡ false
  pub release : (d : D) → committed (db.release d).1 ≡ committed d
  pub begin : (d : D) → committed (db.begin d).1 ≡ committed d
  pub begun :
      (d d' : D)
      → is_open d ≡ false
      → db.begin d ≡ (ok tt, d')
      → (is_open d' ≡ true) × (pending d' ≡ committed d)
  pub execute :
      (s : Statement) (d : D) → is_open d ≡ true → committed (db.execute s d).1 ≡ committed d
  pub executed :
      (s : Statement) (d d' : D)
      → is_open d ≡ true
      → db.execute s d ≡ (ok tt, d')
      → (is_open d' ≡ true) × (pending d' ≡ run s (pending d))
  pub fetch : (s : Statement) (d : D) → is_open d ≡ true → committed (db.fetch s d).1 ≡ committed d
  pub fetched :
      (s : Statement) (d d' : D) (rows : List Row)
      → is_open d ≡ true
      → db.fetch s d ≡ (ok rows, d')
      → (is_open d' ≡ true) × (pending d' ≡ run s (pending d))
  pub rollback : (d : D) → committed (db.rollback d).1 ≡ committed d
  pub committed_all :
      (d d' : D) → is_open d ≡ true → db.commit d ≡ (ok tt, d') → committed d' ≡ pending d
  pub commit_failed :
      (d d' : D) (e : Error)
      → is_open d ≡ true
      → db.commit d ≡ (raise e, d')
      → (committed d' ≡ committed d) ⊎ (committed d' ≡ pending d)

after-elim :
    {S A B : Type 0} (Q : Result B × S → Type 0) (x : Result A × S) (f : A → Exec S B)
    → ((e : Error) → x ≡ (raise e, x.1) → Q (raise e, x.1))
    → ((a : A) → x ≡ (ok a, x.1) → Q (f a x.1))
    → Q (after x f)
after-elim Q (ok a, s) f bad good = good a refl
after-elim Q (raise e, s) f bad good = bad e refl

-- What the statements of a mutation make of the database: the write, and the read behind it.
abbrev pub run_all : {V : Type 0} → (Statement → V → V) → MutationSql → V → V
run_all run sql v = elim sql.read [
  | none ↦ run sql.write v
  | some read ↦ run read (run sql.write v)
]

module _ {D V : Type 0} (db : Database D) (committed pending : D → V) (is_open : D → Bool)
    (run : Statement → V → V) (L : DatabaseLaws db committed pending is_open run) where
  -- The error is one of a commit or of a release.
  abbrev pub IsLate : Error → Type 0
  IsLate e =
      (d1 : D) × (d2 : D) × ((db.commit d1 ≡ (raise e, d2)) ⊎ (db.release d1 ≡ (raise e, d2)))

  -- What is committed after a result is `next`; after an error it is `before`, or `next` if the error
  -- is one of a commit or of a release.
  abbrev pub Leaves : {A : Type 0} → V → V → Result A × D → Type 0
  Leaves before next (raise e, d) = (committed d ≡ before) ⊎ ((committed d ≡ next) × IsLate e)
  Leaves before next (ok a, d) = committed d ≡ next

  -- Inside a transaction: nothing is committed, and what a commit would commit is `next`.
  abbrev Prepares : {A : Type 0} → V → V → Result A × D → Type 0
  Prepares before next (raise e, d) = committed d ≡ before
  Prepares before next (ok a, d) = (committed d ≡ before) × (pending d ≡ next) × (is_open d ≡ true)

  Prepares-result :
      {A : Type 0} (r : Result A) (d : D) (before next : V)
      → committed d ≡ before
      → pending d ≡ next
      → is_open d ≡ true
      → Prepares before next (r, d)
  Prepares-result (ok a) d before next h h' open_still = (h, h', open_still)
  Prepares-result (raise e) d before next h h' open_still = h

  run_statements-Prepares :
      (m : ResolvedMutation) (sql : MutationSql) (d : D)
      → is_open d ≡ true
      → Prepares (committed d) (run_all run sql (pending d)) (run_statements db m sql d)
  unfolding run_statements
  run_statements-Prepares m sql d inside =
      after-elim (Prepares (committed d) (run_all run sql (pending d))) (db.execute sql.write d) _
        (λ e _. L.execute sql.write d inside)
        (λ u done.
          let d1 = (db.execute sql.write d).1 in
          let (inside', written) = L.executed sql.write d d1 inside done in
          let kept = L.execute sql.write d inside in
          elim (Option-cases sql.read) [
            | inl absent ↦ rw absent (kept, written, inside')
            | inr (read, there) ↦ rw there (
                after-elim (Prepares (committed d) (run read (run sql.write (pending d))))
                  (db.fetch read d1) _ (λ e _. L.fetch read d1 inside' ∙ kept)
                  (λ rows came.
                    let (inside'', is) = L.fetched read d1 (db.fetch read d1).1 rows inside' came in
                    Prepares-result (first_row db m.columns rows) (db.fetch read d1).1 _ _
                      (L.fetch read d1 inside' ∙ kept) (is ∙ ap (run read) written) inside''))
          ])

  finish_Leaves :
      {A : Type 0} (before next : V) (x : Result A × D)
      → Prepares before next x
      → Leaves {A = A} before next (elim x.0 [
        | raise e ↦ after (db.rollback x.1) (λ _ d3. (raise e, d3))
        | ok a ↦ after (db.commit x.1) (λ _ d3. (ok a, d3))
      ])
  finish_Leaves {A} before next (raise e, d) h =
      after-elim (Leaves {A = A} before next) (db.rollback d) _ (λ e' _. inl (L.rollback d ∙ h))
        (λ u _. inl (L.rollback d ∙ h))
  finish_Leaves before next (ok a, d) (same, prepared, inside) =
      after-elim (Leaves before next) (db.commit d) _
        (λ e failed. elim (L.commit_failed d (db.commit d).1 e inside failed) [
          | inl undone ↦ inl (undone ∙ same)
          | inr done ↦ inr (done ∙ prepared, (d, (db.commit d).1, inl failed))
        ])
        (λ u done. L.committed_all d (db.commit d).1 inside done ∙ prepared)

  transaction-Leaves :
      {A : Type 0} (body : Exec D A) (d : D) (change : V → V)
      → is_open d ≡ false
      → ((d1 : D) → is_open d1 ≡ true → Prepares (committed d1) (change (pending d1)) (body d1))
      → Leaves (committed d) (change (committed d)) (transaction db body d)
  unfolding transaction
  transaction-Leaves body d change idle prepares =
      after-elim (Leaves (committed d) (change (committed d))) (db.begin d) _
        (λ e _. inl (L.begin d))
        (λ u done.
          let d1 = (db.begin d).1 in
          let (inside, from) = L.begun d d1 idle done in
          let same : change (pending d1) ≡ change (committed d) = ap change from in
          let ready : Prepares (committed d) (change (committed d)) (body d1) =
            rw (L.begin d, same) at (prepares d1 inside) in
          finish_Leaves (committed d) (change (committed d)) (body d1) ready)

  release-Leaves :
      {A : Type 0} (before next : V) (x : Result A × D)
      → Leaves before next x
      → Leaves {A = A} before next (after (db.release x.1) (λ _ d3. (x.0, d3)))
  release-Leaves {A} before next (raise e, d) h =
      after-elim (Leaves {A = A} before next) (db.release d) _
        (λ e' failed. elim h [
          | inl undone ↦ inl (L.release d ∙ undone)
          | inr (done, late) ↦ inr (L.release d ∙ done, (d, (db.release d).1, inr failed))
        ])
        (λ u _. elim h [
          | inl undone ↦ inl (L.release d ∙ undone)
          | inr (done, late) ↦ inr (L.release d ∙ done, late)
        ])
  release-Leaves before next (ok a, d) h =
      after-elim (Leaves before next) (db.release d) _
        (λ e failed. inr (L.release d ∙ h, (d, (db.release d).1, inr failed)))
        (λ u _. L.release d ∙ h)

  with_connection-Leaves :
      {A : Type 0} (body : Exec D A) (d : D) (change : V → V)
      → ((d1 : D) → is_open d1 ≡ false → Leaves (committed d1) (change (committed d1)) (body d1))
      → Leaves (committed d) (change (committed d)) (with_connection db body d)
  unfolding with_connection
  with_connection-Leaves body d change leaves =
      after-elim (Leaves (committed d) (change (committed d))) (db.acquire d) _
        (λ e _. inl (L.acquire d))
        (λ u got.
          let d1 = (db.acquire d).1 in
          release-Leaves (committed d) (change (committed d)) (body d1)
            (rw (L.acquire d) at (leaves d1 (L.acquired d d1 got))))

  -- A mutation is all or nothing. When its resolver returns, the statements that `build_mutation` built
  -- of the coerced arguments have been run on what other connections see, once each, and committed.
  -- When it raises, what they see is as before, unless a commit or a release raised that error: then
  -- it is as before, or the statements have been run on it as above.
  pub mutation_resolver-Leaves :
      (u : Unicode) (m : ResolvedMutation) (args : Args) (d : D)
      → ((e : Error) × ((coerce_args u args >>= build_mutation m) ≡ raise e)
          × (mutation_resolver db u m args d ≡ (raise e, d)))
        ⊎ ((sql : MutationSql) × ((coerce_args u args >>= build_mutation m) ≡ ok sql)
            × Leaves
                (committed d)
                (run_all run sql (committed d))
                (mutation_resolver db u m args d))
  unfolding mutation_resolver
  mutation_resolver-Leaves u m args d =
      elim (Result-cases (coerce_args u args >>= build_mutation m)) [
        | inr (e, bad) ↦ inl (e, bad, rw bad)
        | inl (sql, made) ↦ inr (
          sql,
          made,
          rw made (
              with_connection-Leaves (transaction db (run_statements db m sql)) d (run_all run sql)
                (λ d1 idle.
                  transaction-Leaves (run_statements db m sql) d1 (run_all run sql) idle
                    (run_statements-Prepares m sql))),
        )
      ]
