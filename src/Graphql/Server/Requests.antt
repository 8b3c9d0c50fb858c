-- ===== src/Graphql/Server/Requests.antt =====
-- The request counters of framework/graphql/server.py against the requests that were served.
use mathlib.Core.Path.{subst}
use hse_graduate_qualificati.Base.{
  eq_iff, ℕ, ◌+◌, String, ◌≡◌, Bool, true, false, none, some, List, [], ◌∷◌, ◌==◌, if◌then◌else◌,
  arith, Bool-cases, Option-cases, inl, inr, text_cases, ◌∙◌,
}
use hse_graduate_qualificati.Base.Dict.{Dict, lookup, insert, lookup-insert}
use hse_graduate_qualificati.Base.Exec.{
  Result, ok, raise, Exec, Result-cases, value_error, key_error, runtime_error, assertion_error,
  library_error, multiplicity_violation, dsl_error,
}
use hse_graduate_qualificati.Dsl.Value.{Args}
use hse_graduate_qualificati.Graphql.Server.{bump, error_code, wrap_with_counters}
use hse_graduate_qualificati.Stats.{RequestCounters}

-- `counts.get(key, 0)`
unfoldable pub count_of : String → Dict ℕ → ℕ
count_of key counts = elim (lookup key counts) [ none ↦ 0 | some n ↦ n ]

abbrev one_if : Bool → ℕ
one_if true = 1
one_if false = 0

count_of-insert :
    (k j : String) (n : ℕ) (d : Dict ℕ)
    → count_of j (insert k n d) ≡ (if k == j then n else count_of j d)
unfolding count_of
count_of-insert k j n d = elim (Bool-cases (k == j)) [
  | inl same ↦ rw (lookup-insert k j n d, same, count_of)
  | inr differs ↦ rw (lookup-insert k j n d, differs, count_of)
]

count_of-insert_next :
    (k j : String) (n : ℕ) (d : Dict ℕ)
    → count_of k d ≡ n
    → count_of j (insert k (n + 1) d) ≡ one_if (k == j) + count_of j d
count_of-insert_next k j n d now = elim (text_cases k j) [
  | inl same ↦
      let here : count_of j d ≡ n = subst (λ i. count_of i d ≡ n) same now in
      let test : (k == j) ≡ true = (eq_iff k j).1 same in
      count_of-insert k j (n + 1) d ∙ rw (test, here) (omega arith)
  | inr differs ↦ count_of-insert k j (n + 1) d ∙ rw differs (omega arith)
]

count_of-bump : (k j : String) (d : Dict ℕ) → count_of j (bump k d) ≡ one_if (k == j) + count_of j d
unfolding bump count_of
count_of-bump k j d = elim (Option-cases (lookup k d)) [
  | inl absent ↦ rw (absent, bump) (count_of-insert_next k j 0 d (rw (absent, count_of)))
  | inr (n, there) ↦ rw (there, bump) (count_of-insert_next k j n d (rw (there, count_of)))
]

abbrev raised_with {ℓ} : {A : Type ℓ} → String → Result A → Bool
raised_with code (ok a) = false
raised_with code (raise e) = error_code e == code

-- How many of the requests were for the operation, and how many raised under the code.
unfoldable pub requests_of {ℓ} : {A : Type ℓ} → String → List (String × Result A) → ℕ
requests_of op [] = 0
requests_of op ((name, result) ∷ results) = one_if (name == op) + requests_of op results

unfoldable pub errors_of {ℓ} : {A : Type ℓ} → String → List (String × Result A) → ℕ
errors_of code [] = 0
errors_of code ((name, result) ∷ results) =
    one_if (raised_with code result) + errors_of code results

-- The result is a violation of a query's multiplicity.
abbrev pub is_violation {ℓ} : {A : Type ℓ} → Result A → Bool
is_violation (ok a) = false
is_violation (raise (multiplicity_violation name count)) = true
is_violation (raise e) = false

-- The result is any other exception.
abbrev pub is_other_error {ℓ} : {A : Type ℓ} → Result A → Bool
is_other_error (ok a) = false
is_other_error (raise (multiplicity_violation name count)) = false
is_other_error (raise e) = true

-- How many of the results pass the test.
unfoldable pub how_many {ℓ} : {A : Type ℓ} → (Result A → Bool) → List (String × Result A) → ℕ
how_many test [] = 0
how_many test ((name, result) ∷ results) = one_if (test result) + how_many test results

module _ {ℓ} {A : Type ℓ} where
  one_if-raised_with :
      (code : String) (result : Result A)
      → one_if (raised_with code result)
        ≡ (if "multiplicity.violation" == code then one_if (is_violation result) else 0)
          + (if "framework.internal_error" == code then one_if (is_other_error result) else 0)
  one_if-raised_with code (ok a) = ground arith
  one_if-raised_with code (raise (multiplicity_violation name count)) = ground arith
  one_if-raised_with code (raise (value_error text)) = ground arith
  one_if-raised_with code (raise (key_error text)) = ground arith
  one_if-raised_with code (raise (runtime_error text)) = ground arith
  one_if-raised_with code (raise (assertion_error text)) = ground arith
  one_if-raised_with code (raise (library_error text)) = ground arith
  one_if-raised_with code (raise (dsl_error kind text place)) = ground arith

  errors_of_lem :
      (code : String) (results : List (String × Result A))
      → errors_of code results
        ≡ (if "multiplicity.violation" == code then how_many is_violation results else 0)
          + (if "framework.internal_error" == code then how_many is_other_error results else 0)
  unfolding errors_of how_many
  errors_of_lem code [] = ground arith
  errors_of_lem code ((name, result) ∷ results) =
      let here = one_if-raised_with code result in
      let rest = errors_of_lem code results in ground arith

pub record Request (S A : Type 0) : Type 0 where
  pub op_name : String
  pub resolver : Args → Exec S A
  pub args : Args

module _ {S A : Type 0} where
  -- The requests, one after another: their results, and the state after them.
  unfoldable pub serve :
      List (Request S A) → RequestCounters × S → List (String × Result A) × (RequestCounters × S)
  serve [] at = ([], at)
  serve (q ∷ requests) at =
      let (result, at') = wrap_with_counters q.op_name q.resolver q.args at in
      let (results, end) = serve requests at' in ((q.op_name, result) ∷ results, end)

  -- One request.
  wrap_with_counters-count_of :
      (op_name : String) (resolver : Args → Exec S A) (args : Args) (c : RequestCounters) (s : S)
      → let r = wrap_with_counters op_name resolver args (c, s) in
        ((op : String)
          → count_of op r.1.0.request_count_by_op
            ≡ one_if (op_name == op) + count_of op c.request_count_by_op)
        × ((code : String)
            → count_of code r.1.0.errors ≡ one_if (raised_with code r.0) + count_of code c.errors)
  unfolding wrap_with_counters
  wrap_with_counters-count_of op_name resolver args c s = elim (Result-cases (resolver args s).0) [
    | inl (a, fine) ↦
        rw (fine, wrap_with_counters)
          (λ op. count_of-bump op_name op c.request_count_by_op, λ code. omega arith)
    | inr (e, failed) ↦
        rw (failed, wrap_with_counters)
          (
            λ op. count_of-bump op_name op c.request_count_by_op,
            λ code. count_of-bump (error_code e) code c.errors,
          )
  ]

  -- The same, with the errors as `error_code` reads them.
  serve-errors_of :
      (requests : List (Request S A)) (c : RequestCounters) (s : S) (op code : String)
      → (count_of op (serve requests (c, s)).1.0.request_count_by_op
          ≡ requests_of op (serve requests (c, s)).0 + count_of op c.request_count_by_op)
        × (count_of code (serve requests (c, s)).1.0.errors
            ≡ errors_of code (serve requests (c, s)).0 + count_of code c.errors)
  unfolding serve requests_of errors_of
  serve-errors_of [] c s op code = (omega arith, omega arith)
  serve-errors_of (q ∷ requests) c s op code =
      let first = wrap_with_counters-count_of q.op_name q.resolver q.args c s in
      let (result, (c', s')) = wrap_with_counters q.op_name q.resolver q.args (c, s) in
      let rest = serve-errors_of requests c' s' op code in
      let by_op = first.0 op in let by_code = first.1 code in (omega arith, omega arith)

  -- After any requests the counter of an operation has grown by the number of its requests, whatever
  -- came of them; the counter under "multiplicity.violation" by the number of requests that raised a
  -- violation of a multiplicity, that under "framework.internal_error" by the number that raised
  -- anything else; and the counters under other codes are as they were.
  pub serve-count_of :
      (requests : List (Request S A)) (c : RequestCounters) (s : S) (op code : String)
      → (count_of op (serve requests (c, s)).1.0.request_count_by_op
          ≡ requests_of op (serve requests (c, s)).0 + count_of op c.request_count_by_op)
        × (count_of code (serve requests (c, s)).1.0.errors
            ≡ (if "multiplicity.violation" == code
                then how_many is_violation (serve requests (c, s)).0
                else 0)
              + (if "framework.internal_error" == code
                  then how_many is_other_error (serve requests (c, s)).0
                  else 0)
              + count_of code c.errors)
  serve-count_of requests c s op code =
      let (by_op, by_code) = serve-errors_of requests c s op code in
      let split = errors_of_lem code (serve requests (c, s)).0 in (by_op, omega arith)
