-- ===== src/Dsl/Placeholder/Split.antt =====
-- A text cut at the matches of the placeholder pattern, as `re.sub` walks it.
pub mod Steps
pub mod Parts
use Prim.Native.Char.{Char}
use Prim.Native.String.{[], ◌∷◌}
use hse_graduate_qualificati.Base
use hse_graduate_qualificati.Base.{ℕ, zero, suc, ◌-◌, String, Option, none, some, List}
use hse_graduate_qualificati.Dsl.Placeholder.{match_arg}

pub data Piece : Type 0 where
  literal : Char → Piece
  placeholder : String → Piece

unfoldable pub piece_at : Char → Option (String × ℕ) → Piece
piece_at c none = literal c
piece_at c (some (name, n)) = placeholder name

-- How many characters behind the first one the match covers.
unfoldable pub covered : Option (String × ℕ) → ℕ
covered none = 0
covered (some (name, n)) = n - 1

-- The pieces of the text behind its first `skip` characters, which an earlier match has taken.
unfoldable pub pieces : ℕ → String → List Piece
unfolding piece_at covered
pieces skip [] = Base.[]
pieces (suc skip) (c ∷ s) = pieces skip s
pieces zero (c ∷ s) =
    Base.◌∷◌ (piece_at c (match_arg (c ∷ s))) (pieces (covered (match_arg (c ∷ s))) s)

unfoldable pub split : String → List Piece
split = pieces 0

-- The argument names of the placeholders, in order.
unfoldable pub placeholders : List Piece → List String
placeholders Base.[] = Base.[]
placeholders (Base.◌∷◌ (literal c) rest) = placeholders rest
placeholders (Base.◌∷◌ (placeholder name) rest) = Base.◌∷◌ name (placeholders rest)
