-- ===== src/Cache/Redis/Names.antt =====
-- The names of redis_backend.py's index sets: no two sets, and no set and key, collide.
use Prim.Native.String.{◌++◌, ◌∷◌}
use Prim.Native.Char.{Char, code}
use text.Mathlib.TextLemmas.{append_cancel_left, cons-append, head-eq_of_cons-eq}
use hse_graduate_qualificati.Base.{String, ◌≡◌, ◌≢◌, sym, ap, ◌∙◌, arith}
use hse_graduate_qualificati.Cache.Redis.{rule_index_key, tag_index_key}

-- A key that is no index set's name.
pub record IsPayloadKey (k : String) : Type 0 where
  pub not_rule : (rule : String) → rule_index_key rule ≢ k
  pub not_tag : (tag : String) → tag_index_key tag ≢ k

pub rule_index_key_inj : (r q : String) → rule_index_key r ≡ rule_index_key q → r ≡ q
unfolding rule_index_key
rule_index_key_inj r q h = append_cancel_left "rule_index:" r q h

pub tag_index_key_inj : (t q : String) → tag_index_key t ≡ tag_index_key q → t ≡ q
unfolding tag_index_key
tag_index_key_inj t q h = append_cancel_left "tag_index:" t q h

pub rule_index_key-ne-tag_index_key : (r t : String) → rule_index_key r ≢ tag_index_key t
unfolding rule_index_key tag_index_key
rule_index_key-ne-tag_index_key r t h =
    let first : "r" ∷ ("ule_index:" ++ r) ≡ "t" ∷ ("ag_index:" ++ t) =
      sym (cons-append "r" "ule_index:" r) ∙ h ∙ cons-append "t" "ag_index:" t in
    let same : code "r" ≡ code "t" = ap code (head-eq_of_cons-eq first) in absurd (omega arith)

-- A key that starts with neither "r" nor "t" is no index set's name.
pub IsPayloadKey-first :
    (c : Char) (rest : String) → code "r" ≢ code c → code "t" ≢ code c → IsPayloadKey (c ∷ rest)
unfolding rule_index_key tag_index_key
IsPayloadKey-first c rest not_r not_t = record {
  not_rule =
      λ rule h. not_r (ap code (head-eq_of_cons-eq (sym (cons-append "r" "ule_index:" rule) ∙ h)));
  not_tag =
      λ tag h. not_t (ap code (head-eq_of_cons-eq (sym (cons-append "t" "ag_index:" tag) ∙ h)));
}
