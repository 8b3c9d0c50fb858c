-- ===== src/Examples/Ascii.antt =====
-- The characters of ASCII, as Python's Unicode database has them.
use Prim.Native.Char.{Char, code}
use hse_graduate_qualificati.Base.{
  ℕ, ◌-◌, String, refl, Bool, ◌&&◌, ◌||◌, none, some, leb, ◌==◌, if◌then◌else◌,
}
use hse_graduate_qualificati.Base.Unicode.{Unicode}
use hse_graduate_qualificati.Dsl.Loader.Where.Agreement.{DollarLaws}

between : ℕ → ℕ → Char → Bool
between low high c = leb low (code c) && leb (code c) high

-- The keywords of a where text in upper case; other texts are left alone.
upper_keyword : String → String
upper_keyword s =
    if s == "and" then "AND" else if s == "or" then "OR" else if s == "not" then "NOT" else s

unfoldable pub ascii : Unicode
unfolding between upper_keyword
ascii = record {
  is_space = λ c. between 9 13 c || between 28 32 c;
  is_alpha = λ c. between 65 90 c || between 97 122 c;
  is_digit = between 48 57;
  decimal = λ c. if between 48 57 c then some (code c - 48) else none;
  upper = upper_keyword;
}

pub ascii_laws : DollarLaws ascii
unfolding ascii
ascii_laws = record { space = refl; alpha = refl; decimal = refl }
