-- ===== src/Cache/Tag.antt =====
-- framework/cache/tag.py: `render_template`.

use Prim.Native.String.{◌++◌}
use hse_graduate_qualificati.Base.{String, ◌≡◌, true, none, some, List, [], ◌∷◌}
use hse_graduate_qualificati.Base.Dict.{lookup, has_key}
use hse_graduate_qualificati.Base.Exec.{Result, ok, raise, value_error, ◌>>=◌}
use hse_graduate_qualificati.Dsl.Placeholder.Split.{Piece, literal, placeholder, split}
use hse_graduate_qualificati.Dsl.Value.{Args, str}

-- `_sub`, and the characters between the matches
unfoldable pub substitute : Args → Piece → Result String
substitute args (literal c) = ok (String.◌∷◌ c String.[])
substitute args (placeholder name) = elim (lookup name args) [
  | none ↦ raise (value_error ("tag template references unresolved arg '" ++ name ++ "'"))
  | some value ↦ ok (str value)
]

unfoldable pub substitute_all : Args → List Piece → Result String
unfolding substitute
substitute_all args [] = ok ""
substitute_all args (piece ∷ rest) = do
  text ← substitute args piece
  texts ← substitute_all args rest
  ok (text ++ texts)

unfoldable pub render_template : String → Args → Result String
unfolding substitute_all
render_template tpl args = substitute_all args (split tpl)

abbrev pub IsBound : Args → List String → Type 0
IsBound args [] = Unit
IsBound args (name ∷ names) = (has_key name args ≡ true) × IsBound args names
