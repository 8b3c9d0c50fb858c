-- ===== src/Sql/Builder/Texts.antt =====
-- What the statements of framework/sql/builder.py say, and what they bind: texts that no argument's
-- value enters.

use Prim.Native.String.{◌++◌}
use hse_graduate_qualificati.Base.{
  ℕ, suc, String, ◌≡◌, sym, ap, ◌∙◌, true, List, [], ◌∷◌, nat_eq, length, arith, Bool-cases, inl,
  inr,
}
use hse_graduate_qualificati.Base.Exec.{ok, ◌>>=◌, ok_inj, >>=-eq-ok, Result-cases}
use hse_graduate_qualificati.Base.Items.{
  get_item, get_items, get_items-nil, get_items-cons, get_items-length,
}
use hse_graduate_qualificati.Dsl.Placeholder.Split.{
  Piece, literal, placeholder, split, placeholders,
}
use hse_graduate_qualificati.Dsl.Value.{Args, Value}
use hse_graduate_qualificati.Sql.Builder.{Statement, dollar, substitute_params, renumber_where}

-- The pieces with the placeholders numbered from `i`.
unfoldable pub number : ℕ → List Piece → String
number i [] = ""
number i (literal c ∷ rest) = String.◌∷◌ c String.[] ++ number i rest
number i (placeholder name ∷ rest) = dollar i ++ number (suc i) rest

abbrev numbered : ℕ → List Piece → List Value → Statement
numbered i ps vs = record { sql = number i ps; params = vs }

-- The loop of `re.sub` as one lookup of all names and one numbering.
pub substitute_params_lem :
    (i : ℕ) (args : Args) (ps : List Piece)
    → substitute_params i args ps
      ≡ (get_items (placeholders ps) args >>= λ vs. ok (record { sql = number i ps; params = vs }))
unfolding substitute_params number placeholders
substitute_params_lem i args [] = rw (get_items-nil args)
substitute_params_lem i args (literal c ∷ rest) =
    let ih = substitute_params_lem i args rest in
    elim (Result-cases (get_items (placeholders rest) args)) [
      | inl (vs, fine) ↦ rw (ih, fine)
      | inr (e, failed) ↦ rw (ih, failed)
    ]
substitute_params_lem i args (placeholder name ∷ rest) =
    let ih = substitute_params_lem (suc i) args rest in
    elim (Result-cases (get_item name args)) [
      | inr (e, failed) ↦ rw (get_items-cons name (placeholders rest) args, failed)
      | inl (v, found) ↦ elim (Result-cases (get_items (placeholders rest) args)) [
        | inl (vs, fine) ↦ rw (get_items-cons name (placeholders rest) args, found, ih, fine)
        | inr (e, failed) ↦ rw (get_items-cons name (placeholders rest) args, found, ih, failed)
      ]
    ]

pub renumber_where_inv :
    (where_sql : String) (where_args : List String) (args : Args) (i : ℕ) (s : Statement)
    → renumber_where where_sql where_args args i ≡ ok s
    → (s.sql ≡ number i (split where_sql))
      × (get_items (placeholders (split where_sql)) args ≡ ok s.params)
      × (length (placeholders (split where_sql)) ≡ length where_args)
unfolding renumber_where
renumber_where_inv where_sql where_args args i s h =
    let ps = split where_sql in
    let (t, made, checked) = >>=-eq-ok (substitute_params i args ps) _ h in
    let (vs, found, e) =
      >>=-eq-ok (get_items (placeholders ps) args) _
        (sym (substitute_params_lem i args ps) ∙ made) in
    let is_t : numbered i ps vs ≡ t = ok_inj (numbered i ps vs) t e in
    elim (Bool-cases (nat_eq (length t.params) (length where_args))) [
      | inr other ↦ cc (rw other at checked)
      | inl counted ↦
          let is_s : t ≡ s = ok_inj t s (rw counted at checked) in
          let whole : numbered i ps vs ≡ s = is_t ∙ is_s in
          let size : length t.params ≡ length where_args = ground arith in
          (
            sym (ap Statement.sql whole),
            found ∙ ap (λ (x : Statement). ok x.params) whole,
            sym (get_items-length (placeholders ps) args vs found)
                ∙ ap (λ (x : Statement). length x.params) is_t
                ∙ size,
          )
    ]

pub renumber_where_ok :
    (where_sql : String) (where_args : List String) (args : Args) (i : ℕ) (vs : List Value)
    → get_items (placeholders (split where_sql)) args ≡ ok vs
    → length (placeholders (split where_sql)) ≡ length where_args
    → renumber_where where_sql where_args args i
      ≡ ok (record { sql = number i (split where_sql); params = vs })
unfolding renumber_where
renumber_where_ok where_sql where_args args i vs found size =
    let same : length vs ≡ length where_args =
      get_items-length (placeholders (split where_sql)) args vs found ∙ size in
    let test : nat_eq (length vs) (length where_args) ≡ true = ground arith in
    rw (substitute_params_lem i args (split where_sql), found) (rw test)
