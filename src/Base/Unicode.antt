-- ===== src/Base/Unicode.antt =====
-- Python's Unicode database, a parameter of the code that classifies characters.
use Prim.Native.Char.{Char}
use Prim.Native.String.{String}
use Prim.Native.Nat.{ℕ}
use mathlib.Core.Bool.{Bool}
use mathlib.Core.Option.{Option}

pub record Unicode : Type 0 where
  -- `str.isspace`, `str.isalpha` and `str.isdigit` of one character
  pub is_space : Char → Bool
  pub is_alpha : Char → Bool
  pub is_digit : Char → Bool
  -- what a character that `\d` matches counts for
  pub decimal : Char → Option ℕ
  pub upper : String → String
