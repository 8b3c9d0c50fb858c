-- ===== src/Cache/Key.antt =====
-- framework/cache/key.py: `make_key`. `json.dumps` is written out for the modelled argument values;
-- `hashlib.sha256(…).hexdigest()` is a parameter, from the payload's text to the digest's.
use Prim.Native.Char.{Char, code}
use Prim.Native.String.{◌++◌}
use hse_graduate_qualificati.Base.{
  ℕ, ◌+◌, ◌-◌, ◌/◌, ◌%◌, String, true, false, [], ◌∷◌, ltb, leb, nat_eq, ◌&&◌, if◌then◌else◌,
}
use hse_graduate_qualificati.Base.Sorted.{sort_items}
use hse_graduate_qualificati.Base.Int.{pos}
use hse_graduate_qualificati.Dsl.Value.{Args, Value, text, int, boolean, null, str}

hex_digit : ℕ → String
hex_digit d =
    if ltb d 10
    then str (int (pos d))
    else if nat_eq d 10
    then "a"
    else if nat_eq d 11
    then "b"
    else if nat_eq d 12
    then "c"
    else if nat_eq d 13
    then "d"
    else if nat_eq d 14
    then "e"
    else "f"

-- `\uXXXX`
escape_unit : ℕ → String
escape_unit n =
    "\\u"
    ++ hex_digit (n / 4096 % 16)
    ++ hex_digit (n / 256 % 16)
    ++ hex_digit (n / 16 % 16)
    ++ hex_digit (n % 16)

-- The encoder's `ensure_ascii`: what is no printable ASCII is escaped, as UTF-16 units.
escape_char : Char → String
unfolding hex_digit escape_unit
escape_char c =
    let n = code c in
    if nat_eq n 34
    then "\\\""
    else if nat_eq n 92
    then "\\\\"
    else if nat_eq n 10
    then "\\n"
    else if nat_eq n 13
    then "\\r"
    else if nat_eq n 9
    then "\\t"
    else if nat_eq n 12
    then "\\f"
    else if nat_eq n 8
    then "\\b"
    else if leb 32 n && leb n 126
    then String.◌∷◌ c String.[]
    else if ltb n 65536
    then escape_unit n
    else escape_unit (55296 + (n - 65536) / 1024) ++ escape_unit (56320 + (n - 65536) % 1024)

escape : String → String
unfolding escape_char
escape String.[] = ""
escape (String.◌∷◌ c s) = escape_char c ++ escape s

unfoldable pub dump_text : String → String
unfolding escape
dump_text s = "\"" ++ escape s ++ "\""

unfoldable pub dump_value : Value → String
unfolding dump_text
dump_value (text s) = dump_text s
dump_value (int n) = str (int n)
dump_value (boolean true) = "true"
dump_value (boolean false) = "false"
dump_value null = "null"

unfoldable pub dump_items : Args → String
unfolding dump_value
dump_items [] = ""
dump_items ((k, v) ∷ []) = dump_text k ++ ":" ++ dump_value v
dump_items ((k, v) ∷ (j, w) ∷ d) =
    dump_text k ++ ":" ++ dump_value v ++ "," ++ dump_items ((j, w) ∷ d)

-- `json.dumps({"op": …, "args": …}, sort_keys=True, default=str, separators=(",", ":"))`
unfoldable pub key_payload : String → Args → String
unfolding dump_items
key_payload operation_name args =
    "{\"args\":{" ++ dump_items (sort_items args) ++ "},\"op\":" ++ dump_text operation_name ++ "}"

unfoldable pub make_key : (String → String) → String → Args → String
make_key hexdigest operation_name args = hexdigest (key_payload operation_name args)
