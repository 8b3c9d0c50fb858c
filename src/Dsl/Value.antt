-- ===== src/Dsl/Value.antt =====
-- GraphQL argument values as the resolvers get them, and Python's `str` of each. Lists, input objects
-- and floats are not modelled.
use Prim.Native.String.{◌++◌}
use hse_graduate_qualificati.Base.{
  ℕ, zero, suc, ◌+◌, ◌/◌, ◌%◌, String, Bool, true, false, nat_eq, if◌then◌else◌,
}
use hse_graduate_qualificati.Base.Dict.{Dict}
use hse_graduate_qualificati.Base.Int.{ℤ, pos, negsuc}

pub data Value : Type 0 where
  text : String → Value
  int : ℤ → Value
  boolean : Bool → Value
  null : Value

-- The arguments of one call.
abbrev pub Args : Type 0
Args = Dict Value

digit : ℕ → String
digit d =
    if nat_eq d 0
    then "0"
    else if nat_eq d 1
    then "1"
    else if nat_eq d 2
    then "2"
    else if nat_eq d 3
    then "3"
    else if nat_eq d 4
    then "4"
    else if nat_eq d 5
    then "5"
    else if nat_eq d 6
    then "6"
    else if nat_eq d 7
    then "7"
    else if nat_eq d 8
    then "8"
    else "9"

-- The decimal digits, with fuel; a number has no more digits than itself plus one.
show_digits : ℕ → ℕ → String
unfolding digit
show_digits zero n = ""
show_digits (suc f) n =
    let rest = show_digits f (n / 10) in
    if nat_eq (n / 10) 0 then digit (n % 10) else rest ++ digit (n % 10)

unfoldable pub show_nat : ℕ → String
unfolding show_digits
show_nat n = show_digits (n + 1) n

-- `str(v)`
unfoldable pub str : Value → String
unfolding show_nat
str (text s) = s
str (int (pos n)) = show_nat n
str (int (negsuc n)) = "-" ++ show_nat (n + 1)
str (boolean true) = "True"
str (boolean false) = "False"
str null = "None"
