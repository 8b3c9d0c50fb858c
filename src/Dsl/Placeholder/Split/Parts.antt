-- ===== src/Dsl/Placeholder/Split/Parts.antt =====
-- The scan for placeholders of a text that begins with a part of its own: with no `$`, or with one
-- whole placeholder.
use Prim.Native.Char.{Char, code}
use Prim.Native.String.{◌++◌, count}
use text.Mathlib.TextLemmas.{cons-append, nil-append, length-cons}
use hse_graduate_qualificati.Base.{
  ℕ, ◌+◌, ◌-◌, String, ◌≡◌, sym, ap, ◌∙◌, Bool, true, false, not, ◌&&◌, none, some, ◌∷◌, nat_eq,
  arith, Bool-cases, Option-cases, inl, inr,
}
use hse_graduate_qualificati.Dsl.Placeholder.{
  match_arg, strip_prefix, name_from, name_start, is_ident_char, is_ident_start,
}
use hse_graduate_qualificati.Dsl.Placeholder.Split.{split, pieces, placeholders}
use hse_graduate_qualificati.Dsl.Placeholder.Split.Steps.{split-match, split-no_match}

-- No character is a `$`.
unfoldable pub has_no_dollar : String → Bool
has_no_dollar String.[] = true
has_no_dollar (String.◌∷◌ c s) = not (nat_eq (code c) 36) && has_no_dollar s

no_dollar-cons :
    (c : Char) (s : String)
    → has_no_dollar (String.◌∷◌ c s) ≡ true
    → (nat_eq (code c) 36 ≡ false) × (has_no_dollar s ≡ true)
unfolding has_no_dollar
no_dollar-cons c s h = ground arith

match_arg-none :
    (c : Char) (s : String) → nat_eq (code c) 36 ≡ false → match_arg (String.◌∷◌ c s) ≡ none
unfolding match_arg strip_prefix
match_arg-none c s h =
    let other : nat_eq 36 (code c) ≡ false = ground arith in rw (other, match_arg)

-- A part without `$` holds no placeholder, and none begins in it.
pub placeholders-no_dollar :
    (t s : String) → has_no_dollar t ≡ true → placeholders (split (t ++ s)) ≡ placeholders (split s)
unfolding placeholders
placeholders-no_dollar String.[] s h = ap (λ x. placeholders (split x)) (nil-append s)
placeholders-no_dollar (String.◌∷◌ c t) s h =
    let (differs, rest) = no_dollar-cons c t h in
    ap (λ x. placeholders (split x)) (cons-append c t s)
    ∙ ap placeholders (split-no_match c (t ++ s) (match_arg-none c (t ++ s) differs))
    ∙ placeholders-no_dollar t s rest

strip_prefix-append :
    (p t r s : String) → strip_prefix p t ≡ some r → strip_prefix p (t ++ s) ≡ some (r ++ s)
unfolding strip_prefix
strip_prefix-append String.[] t r s h = let e : t ≡ r = cc h in rw e
strip_prefix-append (String.◌∷◌ p ps) String.[] r s h = cc h
strip_prefix-append (String.◌∷◌ p ps) (String.◌∷◌ c t) r s h =
    elim (Bool-cases (nat_eq (code p) (code c))) [
      | inr differs ↦ cc (rw differs at h)
      | inl same ↦ rw (cons-append c t s) (rw same (strip_prefix-append ps t r s (rw same at h)))
    ]

name_from-append :
    (name : String) (n : ℕ) (t s : String) (r : String × ℕ)
    → name_from name n t ≡ some r
    → name_from name n (t ++ s) ≡ some r
unfolding name_from
name_from-append name n String.[] s r h = cc h
name_from-append name n (String.◌∷◌ c t) s r h = elim (Bool-cases (is_ident_char c)) [
  | inl more ↦
      rw (cons-append c t s)
        (rw more (name_from-append (name ++ String.◌∷◌ c String.[]) (n + 1) t s r (rw more at h)))
  | inr over ↦ rw (cons-append c t s) (rw over (rw over at h))
]

name_start-append :
    (t s : String) (r : String × ℕ) → name_start t ≡ some r → name_start (t ++ s) ≡ some r
unfolding name_start
name_start-append String.[] s r h = cc h
name_start-append (String.◌∷◌ c t) s r h = elim (Bool-cases (is_ident_start c)) [
  | inr other ↦ cc (rw other at h)
  | inl start ↦
      rw (cons-append c t s)
        (rw start (name_from-append (String.◌∷◌ c String.[]) 1 t s r (rw start at h)))
]

-- A match stays when more text follows.
match_arg-append :
    (t s name : String) (n : ℕ) → match_arg t ≡ some (name, n) → match_arg (t ++ s) ≡ some (name, n)
unfolding match_arg
match_arg-append t s name n h = elim (Option-cases (strip_prefix "${args." t)) [
  | inl other ↦ cc (rw (other, match_arg) at h)
  | inr (rest, stripped) ↦ elim (Option-cases (name_start rest)) [
    | inl other ↦ cc (rw (stripped, other, match_arg) at h)
    | inr (found, named) ↦
        rw
          (
            strip_prefix-append "${args." t rest s stripped,
            name_start-append rest s found named,
            match_arg,
          )
          (rw (stripped, named, match_arg) at h)
  ]
]

pieces-append : (t s : String) → pieces (count t) (t ++ s) ≡ split s
unfolding pieces split
pieces-append String.[] s = ap (pieces 0) (nil-append s)
pieces-append (String.◌∷◌ c t) s = rw (length-cons c t, cons-append c t s) (pieces-append t s)

-- A part that is one whole placeholder counts as that, whatever follows.
pub placeholders-whole :
    (t s name : String)
    → match_arg t ≡ some (name, count t)
    → placeholders (split (t ++ s)) ≡ name ∷ placeholders (split s)
unfolding placeholders match_arg
placeholders-whole String.[] s name h = cc h
placeholders-whole (String.◌∷◌ c t) s name h =
    let matched : match_arg (String.◌∷◌ c (t ++ s)) ≡ some (name, count (String.◌∷◌ c t)) =
      ap match_arg (sym (cons-append c t s))
      ∙ match_arg-append (String.◌∷◌ c t) s name (count (String.◌∷◌ c t)) h in
    let size : count (String.◌∷◌ c t) - 1 ≡ count t = ground (arith, length-cons c t) in
    ap (λ x. placeholders (split x)) (cons-append c t s)
    ∙ ap placeholders (split-match c (t ++ s) name (count (String.◌∷◌ c t)) matched)
    ∙ ap (λ k. name ∷ placeholders (pieces k (t ++ s))) size
    ∙ ap (λ ps. name ∷ placeholders ps) (pieces-append t s)
